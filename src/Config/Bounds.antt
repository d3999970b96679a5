-- ===== src/Config/Bounds.antt =====
-- What `get_target` of src/common/config.c may copy into the caller's buffer, whatever the file holds.
use wind_cloud_v.Base.{
  ℕ, zero, suc, ◌+◌, ◌≤◌, ◌<◌, ◌≡◌, refl, ap, subst, inl, inr, Bool, Bool-cases, Option,
  Option-cases, none, some, [], ◌∷◌, Bytes, length, ◌==◌, ◌||◌, equal, arith,
}
use wind_cloud_v.Libc.{span, fgets, chop, skip, behind, token, strtok}
use wind_cloud_v.Libc.Laws.{fgets-less, fgets-le}
use wind_cloud_v.Server.World.{Run, returns, overread, out_of_fuel}
use wind_cloud_v.Config.{is_line_end, line_value, target_loop, get_target}

-- The search ends, and what it finds leaves room for the NUL in a buffer of 100 bytes.
abbrev pub Fits : Run (Option Bytes) → Type 0
Fits (returns none) = Unit
Fits (returns (some v)) = length v < 100
Fits overread = ⊥
Fits out_of_fuel = ⊥

length-span :
    (stop : ℕ → Bool) (s : Bytes) → length (span stop s).0 + length (span stop s).1 ≡ length s
unfolding span
length-span stop [] = refl
length-span stop (c ∷ s) = elim (Bool-cases (stop c)) [
  | inl e ↦ rw (e, span) (omega arith)
  | inr e ↦ rw (e, span) (omega (arith, length-span stop s))
]

skip-le : (d : ℕ) (s : Bytes) → length (skip d s) ≤ length s
unfolding skip
skip-le d [] = omega arith
skip-le d (c ∷ s) = elim (Bool-cases (c == d)) [
  | inl e ↦ rw (e, skip) (omega (arith, skip-le d s))
  | inr e ↦ rw (e, skip) (omega arith)
]

behind-le : (s : Bytes) → length (behind s) ≤ length s
behind-le [] = omega arith
behind-le (c ∷ s) = omega arith

token-le :
    (d : ℕ) (s w rest : Bytes) → token d s ≡ some (w, rest) → length w + length rest ≤ length s
token-le d [] w rest e = cc
token-le d (c ∷ s) w rest e =
    let f : ◌≡◌ {A = Bytes × Bytes}
        ((span (λ x. x == d) (c ∷ s)).0, behind (span (λ x. x == d) (c ∷ s)).1) (w, rest) =
      cc in
    omega (
      arith,
      length-span (λ x. x == d) (c ∷ s),
      behind-le (span (λ x. x == d) (c ∷ s)).1,
      ap (λ r. length r.0) f,
      ap (λ r. length r.1) f,
    )

strtok-le :
    (d : ℕ) (s w rest : Bytes) → strtok d s ≡ some (w, rest) → length w + length rest ≤ length s
unfolding strtok
strtok-le d s w rest e = omega (arith, token-le d (skip d s) w rest e, skip-le d s)

-- No value, or one of at most so many bytes.
abbrev Within : ℕ → Option Bytes → Type 0
Within n none = Unit
Within n (some v) = length v ≤ n

line_value-Within : (key line : Bytes) → Within (length line) (line_value key line)
unfolding line_value
line_value-Within key [] = tt
line_value-Within key (c ∷ line) = elim (Bool-cases (c == b'#' || c == b';')) [
  | inl remark ↦ rw (remark, line_value) tt
  | inr other ↦ elim (Option-cases (strtok b'=' (c ∷ line))) [
    | inl bad ↦ rw (other, bad, line_value) tt
    | inr ((k, rest), got) ↦ elim (Bool-cases (equal key k)) [
      | inr differs ↦ rw (other, got, differs, line_value) tt
      | inl same ↦ elim (Option-cases (strtok b'=' rest)) [
        | inl bad ↦ rw (other, got, same, bad, line_value) tt
        | inr ((v, left), got') ↦
            rw (other, got, same, got', line_value)
              (omega (arith, strtok-le b'=' (c ∷ line) k rest got, strtok-le b'=' rest v left got'))
      ]
    ]
  ]
]

chop-le : (stop : ℕ → Bool) (s : Bytes) → length (chop stop s) ≤ length s
unfolding chop
chop-le stop s = omega (arith, length-span stop s)

target_loop-Fits :
    (fuel : ℕ) (key file : Bytes) → length file < fuel → Fits (target_loop fuel key file)
unfolding target_loop
target_loop-Fits zero key file f = absurd (omega arith)
target_loop-Fits (suc fuel) key file f = elim (Option-cases (fgets 100 file)) [
  | inl end ↦ rw (end, target_loop) tt
  | inr ((raw, rest), got) ↦
      let line = chop is_line_end raw in
      elim (Option-cases (line_value key line)) [
        | inl other ↦
            rw (got, target_loop, other)
              (target_loop-Fits fuel key rest
                (omega (arith, f, fgets-less 100 file raw rest (omega arith) got)))
        | inr (v, found) ↦
            let within : length v ≤ length line =
              subst (Within (length line)) found (line_value-Within key line) in
            rw (got, target_loop, found)
              (omega (arith, within, chop-le is_line_end raw, fgets-le 100 file raw rest got))
      ]
]

-- On any file, also one with lines that do not fit the line buffer, or that is not there, the search
-- of `get_target` ends, and a value that it finds has less than 100 bytes, so that it fits the
-- callers' buffers of 256 bytes.
pub get_target-Fits : (key : Bytes) (file : Option Bytes) → Fits (get_target key file)
unfolding get_target
get_target-Fits key none = tt
get_target-Fits key (some file) = target_loop-Fits (suc (length file)) key file (omega arith)
