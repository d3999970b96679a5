-- ===== src/Log/Handles.antt =====
-- The streams that src/common/log.c opens and closes.
use wind_cloud_v.Base.{
  ℕ, ◌+◌, ◌<◌, ◌≡◌, refl, ap, inl, inr, Bool, true, false, Bool-cases, Option, none, some, List, [],
  ◌∷◌, ◌++◌, Bytes, arith, equal, equal_iff, ltb, if◌then◌else◌,
}
use wind_cloud_v.Log.{
  Target, unset, console, file, Log, start, fclose, close_file, init_log, close_log, log_write,
}

-- The stream that the log goes to, where it is one of `fopen`.
abbrev pub streams : Target → List Bytes
streams (file path) = path ∷ []
streams _ = []

-- The logs that calls of the module lead to, with the streams that were given up: by `init_log`
-- without a file while the log went to one. A call that locks the mutex finds it usable; a message
-- below the level of the log returns before.
pub data Reachable : Log → List Bytes → Type 0 where
  begin : Reachable start []
  to_file :
      {s : Log} {lost : List Bytes} (opens : Bytes → Bool) (level_str : Option Bytes) (path : Bytes)
      → s.mutex ≡ true
      → Reachable s lost
      → Reachable (init_log opens level_str (some path) s).1 lost
  to_console :
      {s : Log} {lost : List Bytes} (opens : Bytes → Bool) (level_str : Option Bytes)
      → s.mutex ≡ true
      → Reachable s lost
      → Reachable (init_log opens level_str none s).1 (streams s.target ++ lost)
  shut :
      {s : Log} {lost : List Bytes}
      → s.mutex ≡ true
      → Reachable s lost
      → Reachable (close_log s) lost
  wrote :
      {s : Log} {lost : List Bytes} (level : ℕ) (source_file : Bytes) (line : ℕ) (func body : Bytes)
      → (ltb level s.level ≡ false → s.mutex ≡ true)
      → Reachable s lost
      → Reachable (log_write level source_file line func body s) lost

unfoldable pub one : Bytes → Bytes → ℕ
one q p = if equal q p then 1 else 0

-- How many streams of a path are in a list.
unfoldable pub count : Bytes → List Bytes → ℕ
unfolding one
count q [] = 0
count q (p ∷ ps) = one q p + count q ps

-- The same streams, in any order.
abbrev pub Same : List Bytes → List Bytes → Type 0
Same ps qs = (path : Bytes) → count path ps ≡ count path qs

-- The streams that are open are the one that the log goes to and those it gave up.
abbrev pub Owned : Log → List Bytes → Type 0
Owned s lost = Same (s.handles) (streams s.target ++ lost)

one_self : (p : Bytes) → one p p ≡ 1
unfolding one
one_self p = rw ((equal_iff p p).1 refl) refl

one_other : (q p : Bytes) → equal q p ≡ false → one q p ≡ 0
unfolding one
one_other q p e = rw e refl

count-fclose : (p : Bytes) (hs : List Bytes) → 0 < count p hs → Same (p ∷ fclose p hs) hs
unfolding count fclose
count-fclose p [] h q = absurd (omega arith)
count-fclose p (g ∷ hs) h q = elim (Bool-cases (equal p g)) [
  | inl same ↦ rw (same, fclose) (ap (λ x. one q x + count q hs) ((equal_iff p g).0 same))
  | inr other ↦
      let ih = count-fclose p hs (omega (arith, h, one_other p g other)) q in
      rw (other, fclose) (omega (arith, ih))
]

Same-close_file :
    (t : Target) (hs lost : List Bytes) → Same hs (streams t ++ lost) → Same (close_file t hs) lost
unfolding close_file count
Same-close_file unset hs lost own = own
Same-close_file console hs lost own = own
Same-close_file (file path) hs lost own = λ q.
    let held : 0 < count path hs = omega (arith, own path, one_self path) in
    omega (arith, count-fclose path hs held q, own q)

init_log-Owned :
    (opens : Bytes → Bool) (level_str : Option Bytes) (path : Bytes) (s : Log) (lost : List Bytes)
    → Owned s lost
    → Owned (init_log opens level_str (some path) s).1 lost
unfolding init_log count
init_log-Owned opens level_str path s lost own =
    let left = Same-close_file s.target s.handles lost own in
    elim (Bool-cases (opens path)) [
      | inl e ↦ rw (e, init_log) (λ q. ap (◌+◌ (one q path)) (left q))
      | inr e ↦ rw (e, init_log) left
    ]

log_write-Owned :
    (level : ℕ) (source_file : Bytes) (line : ℕ) (func body : Bytes) (s : Log) (lost : List Bytes)
    → Owned s lost
    → Owned (log_write level source_file line func body s) lost
unfolding log_write
log_write-Owned level source_file line func body s lost own =
    elim (Bool-cases (ltb level s.level)) [
      | inl e ↦ rw (e, log_write) own
      | inr e ↦ rw (e, log_write) own
    ]

-- After any calls of `init_log`, `close_log` and `log_write`, with `fopen` failing or not, none of which
-- locks the mutex after `close_log` has destroyed it: the streams that are open are, path by path and
-- counted as often as they were opened, the one that the log goes to, if it goes to a file, and those
-- that it went to when `init_log` was called without a file.
pub Reachable-Owned : (s : Log) (lost : List Bytes) → Reachable s lost → Owned s lost
unfolding init_log close_log
Reachable-Owned _ _ begin = λ q. refl
Reachable-Owned _ _ (to_file {s = s} {lost = lost} opens level_str path m r) =
    init_log-Owned opens level_str path s lost (Reachable-Owned s lost r)
Reachable-Owned _ _ (to_console {s = s} {lost = lost} opens level_str m r) =
    Reachable-Owned s lost r
Reachable-Owned _ _ (shut {s = s} {lost = lost} m r) =
    Same-close_file s.target s.handles lost (Reachable-Owned s lost r)
Reachable-Owned _ _ (wrote {s = s} {lost = lost} level source_file line func body m r) =
    log_write-Owned level source_file line func body s lost (Reachable-Owned s lost r)
