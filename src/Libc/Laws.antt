-- ===== src/Libc/Laws.antt =====
-- `fgets` of the C library on a stream.
use wind_cloud_v.Base.{
  ℕ, zero, suc, ◌-◌, ◌≤◌, ◌<◌, ◌≡◌, ap, inl, inr, Bool-cases, ◌==◌, some, [], ◌∷◌, Bytes, length,
  arith,
}
use wind_cloud_v.Libc.{read_line, fgets}

read_line-le : (n : ℕ) (s : Bytes) → length (read_line n s).1 ≤ length s
unfolding read_line
read_line-le zero s = omega arith
read_line-le (suc n) [] = omega arith
read_line-le (suc n) (c ∷ s) = elim (Bool-cases (c == b'\n')) [
  | inl e ↦ rw (e, read_line) (omega arith)
  | inr e ↦ rw (e, read_line) (omega (arith, read_line-le n s))
]

read_line-less : (n c : ℕ) (s : Bytes) → 0 < n → length (read_line n (c ∷ s)).1 ≤ length s
unfolding read_line
read_line-less zero c s h = absurd (omega arith)
read_line-less (suc n) c s h = elim (Bool-cases (c == b'\n')) [
  | inl e ↦ rw (e, read_line) (omega arith)
  | inr e ↦ rw (e, read_line) (read_line-le n s)
]

-- What is left of a stream behind a line is shorter.
pub fgets-less :
    (size : ℕ) (s line rest : Bytes)
    → 1 < size
    → fgets size s ≡ some (line, rest)
    → length rest < length s
unfolding fgets
fgets-less size [] line rest h e = cc
fgets-less size (c ∷ s) line rest h e =
    let f : read_line (size - 1) (c ∷ s) ≡ (line, rest) = cc in
    omega (arith, read_line-less (size - 1) c s (omega arith), ap (λ r. length r.1) f)

read_line-bound : (n : ℕ) (s : Bytes) → length (read_line n s).0 ≤ n
unfolding read_line
read_line-bound zero s = omega arith
read_line-bound (suc n) [] = omega arith
read_line-bound (suc n) (c ∷ s) = elim (Bool-cases (c == b'\n')) [
  | inl e ↦ rw (e, read_line) (omega arith)
  | inr e ↦ rw (e, read_line) (omega (arith, read_line-bound n s))
]

-- A line leaves room for the NUL.
pub fgets-le :
    (size : ℕ) (s line rest : Bytes) → fgets size s ≡ some (line, rest) → length line ≤ size - 1
unfolding fgets
fgets-le size [] line rest e = cc
fgets-le size (c ∷ s) line rest e =
    let f : read_line (size - 1) (c ∷ s) ≡ (line, rest) = cc in
    omega (arith, read_line-bound (size - 1) (c ∷ s), ap (λ r. length r.0) f)
