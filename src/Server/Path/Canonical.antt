-- ===== src/Server/Path/Canonical.antt =====
-- The paths that the server means: stacks of names, the deepest first.
use wind_cloud_v.Base.{
  suc, ◌+◌, ◌<◌, ◌≡◌, ◌≢◌, refl, ap, false, none, some, Bool-cases, inl, inr, List, [], ◌∷◌, ◌++◌,
  Bytes, length, length-append, take-append_length, ◌==◌, codes, equal, equal_iff, arith,
}
use wind_cloud_v.Server.Path.{last_index, pop_one_level, extend}

-- No slash in it.
abbrev pub NoSlash : Bytes → Type 0
NoSlash [] = Unit
NoSlash (c ∷ s) = (c ≢ b'/') × NoSlash s

-- A name that stays where it is put: a single step down.
pub record IsName (t : Bytes) : Type 0 where
  pub some_byte : t ≢ []
  pub flat : NoSlash t
  pub not_dot : t ≢ codes "."
  pub not_dots : t ≢ codes ".."

abbrev pub AllNames : List Bytes → Type 0
AllNames [] = Unit
AllNames (t ∷ ts) = IsName t × AllNames ts

-- "/a/b" for the stack b, a; the empty stack leaves nothing.
unfoldable pub below_root : List Bytes → Bytes
below_root [] = []
below_root (t ∷ ts) = below_root ts ++ b'/' ∷ t

abbrev pub path_of : List Bytes → Bytes
path_of [] = codes "/"
path_of (t ∷ ts) = below_root (t ∷ ts)

last_index-NoSlash : (s : Bytes) → NoSlash s → last_index b'/' s ≡ none
unfolding last_index
last_index-NoSlash [] h = refl
last_index-NoSlash (c ∷ s) h = rw (last_index-NoSlash s h.1) (ground arith)

last_index-append : (s t : Bytes) → NoSlash t → last_index b'/' (s ++ b'/' ∷ t) ≡ some (length s)
unfolding last_index
last_index-append [] t h = rw (last_index-NoSlash t h)
last_index-append (c ∷ s) t h = rw (last_index-append s t h)

pub length-below_root :
    (t : Bytes) (ts : List Bytes)
    → length (below_root (t ∷ ts)) ≡ length (below_root ts) + suc (length t)
unfolding below_root
length-below_root t ts = length-append (below_root ts) (b'/' ∷ t)

length_pos : (t : Bytes) → t ≢ [] → 0 < length t
length_pos [] h = absurd (h refl)
length_pos (c ∷ t) h = omega arith

-- Only the empty stack is the root.
pub path_of_ne_root :
    (t : Bytes) (ts : List Bytes) → t ≢ [] → equal (below_root (t ∷ ts)) (codes "/") ≡ false
path_of_ne_root t ts n = elim (Bool-cases (equal (below_root (t ∷ ts)) (codes "/"))) [
  | inl root ↦ absurd (
      omega (
        arith,
        ap length ((equal_iff (below_root (t ∷ ts)) (codes "/")).0 root),
        length-below_root t ts,
        length_pos t n,
      ))
  | inr other ↦ other
]

-- `pop_one_level` takes the deepest name off.
pub pop_one_level_lem :
    (t : Bytes) (ts : List Bytes)
    → AllNames (t ∷ ts)
    → pop_one_level (path_of (t ∷ ts)) ≡ some (path_of ts)
unfolding pop_one_level
pop_one_level_lem t [] n =
    rw (path_of_ne_root t [] n.0.some_byte)
      (unfold below_root in rw (last_index-append [] t n.0.flat))
pop_one_level_lem t (u ∷ us) n =
    let len : (length (below_root (u ∷ us)) == 0) ≡ false =
      ground (arith, length-below_root u us) in
    let at : last_index b'/' (below_root (t ∷ u ∷ us)) ≡ some (length (below_root (u ∷ us))) =
      unfold below_root in last_index-append (below_root (u ∷ us)) t n.0.flat in
    rw (path_of_ne_root t (u ∷ us) n.0.some_byte, at, len)
      (unfold below_root in ap some (take-append_length _ (below_root (u ∷ us)) (b'/' ∷ t) refl))

-- At the root there is nowhere to go up to.
pub pop_one_level-root : pop_one_level (path_of []) ≡ some (path_of [])
unfolding pop_one_level equal
pop_one_level-root = refl

-- A further name goes on the stack.
pub extend_lem :
    (t : Bytes) (ts : List Bytes) → AllNames ts → extend (path_of ts) t ≡ below_root (t ∷ ts)
unfolding extend
extend_lem t [] n = unfold below_root equal in refl
extend_lem t (u ∷ us) n = rw (path_of_ne_root u us n.0.some_byte) (unfold below_root in refl)
