-- ===== src/Server/Pool/Counts.antt =====
-- How often a descriptor stands in the slots, the queue and the workers of the thread pool.
use wind_cloud_v.Base.{
  ℕ, suc, ◌+◌, ◌≤◌, ◌<◌, ◌≡◌, refl, ap, inl, inr, Bool, true, false, Bool-cases, Option, none, some,
  List, [], ◌∷◌, ◌++◌, ◌==◌, if◌then◌else◌, length, arith,
}
use wind_cloud_v.Server.Pool.{
  Worker, waiting, handling, leaving, exited, Main, serving, accepted, register,
  unregister_active_fd, set, drain_pending_fds,
}

-- 1 where the two are the same.
abbrev pub one : ℕ → ℕ → ℕ
one x y = if x == y then 1 else 0

abbrev pub sum {ℓ} : {A : Type ℓ} → (A → ℕ) → List A → ℕ
sum f [] = 0
sum f (a ∷ xs) = f a + sum f xs

pub sum-append {ℓ} :
    {A : Type ℓ} (f : A → ℕ) (xs ys : List A) → sum f (xs ++ ys) ≡ sum f xs + sum f ys
sum-append f [] ys = omega arith
sum-append f (a ∷ xs) ys = omega (arith, sum-append f xs ys)

-- How often a worker, `main`, and a slot hold a descriptor.
abbrev pub held : ℕ → Worker → ℕ
held x waiting = 0
held x (handling fd) = one x fd
held x (leaving fd) = one x fd
held x exited = 0

abbrev pub served : ℕ → Worker → ℕ
served x (handling fd) = one x fd
served x _ = 0

abbrev pub busy : Worker → ℕ
busy (handling fd) = 1
busy _ = 0

abbrev pub held_main : ℕ → Main → ℕ
held_main x (accepted fd) = one x fd
held_main x _ = 0

abbrev pub slot : ℕ → Option ℕ → ℕ
slot x none = 0
slot x (some fd) = one x fd

abbrev pub full : Option ℕ → ℕ
full none = 0
full (some fd) = 1

abbrev pub unit : Bool → ℕ
unit true = 1
unit false = 0

-- The exit flag goes with where `main` is.
abbrev pub leaving_main : Main → Bool
leaving_main serving = false
leaving_main (accepted fd) = false
leaving_main _ = true

pub register-slot :
    (x fd : ℕ) (slots : List (Option ℕ))
    → sum full slots < length slots
    → sum (slot x) (register fd slots) ≡ sum (slot x) slots + one x fd
unfolding register
register-slot x fd [] h = absurd (omega arith)
register-slot x fd (none ∷ slots) h = omega arith
register-slot x fd (some g ∷ slots) h = omega (arith, register-slot x fd slots (omega arith))

pub register-full :
    (fd : ℕ) (slots : List (Option ℕ))
    → sum full slots < length slots
    → sum full (register fd slots) ≡ suc (sum full slots)
unfolding register
register-full fd [] h = absurd (omega arith)
register-full fd (none ∷ slots) h = omega arith
register-full fd (some g ∷ slots) h = omega (arith, register-full fd slots (omega arith))

pub length-register : (fd : ℕ) (slots : List (Option ℕ)) → length (register fd slots) ≡ length slots
unfolding register
length-register fd [] = refl
length-register fd (none ∷ slots) = refl
length-register fd (some g ∷ slots) = ap suc (length-register fd slots)

pub unregister-slot :
    (x fd : ℕ) (slots : List (Option ℕ))
    → 0 < sum (slot fd) slots
    → sum (slot x) slots ≡ sum (slot x) (unregister_active_fd fd slots) + one x fd
unfolding unregister_active_fd
unregister-slot x fd [] h = absurd (omega arith)
unregister-slot x fd (none ∷ slots) h = omega (arith, unregister-slot x fd slots (omega arith))
unregister-slot x fd (some g ∷ slots) h = elim (Bool-cases (g == fd)) [
  | inl same ↦ rw same (ground arith)
  | inr other ↦
      let rest = unregister-slot x fd slots (ground arith) in rw other (omega (arith, rest))
]

pub unregister-full :
    (fd : ℕ) (slots : List (Option ℕ))
    → 0 < sum (slot fd) slots
    → sum full slots ≡ suc (sum full (unregister_active_fd fd slots))
unfolding unregister_active_fd
unregister-full fd [] h = absurd (omega arith)
unregister-full fd (none ∷ slots) h = omega (arith, unregister-full fd slots (omega arith))
unregister-full fd (some g ∷ slots) h = elim (Bool-cases (g == fd)) [
  | inl same ↦ rw same (omega arith)
  | inr other ↦ let rest = unregister-full fd slots (ground arith) in rw other (omega (arith, rest))
]

pub length-unregister :
    (fd : ℕ) (slots : List (Option ℕ)) → length (unregister_active_fd fd slots) ≡ length slots
unfolding unregister_active_fd
length-unregister fd [] = refl
length-unregister fd (none ∷ slots) = ap suc (length-unregister fd slots)
length-unregister fd (some g ∷ slots) = elim (Bool-cases (g == fd)) [
  | inl same ↦ rw same
  | inr other ↦ rw other (ap suc (length-unregister fd slots))
]

pub unit_le : (b : Bool) → unit b ≤ 1
unit_le true = omega arith
unit_le false = omega arith

-- Closing a queue of which each descriptor occurs once.
pub drain-open :
    (x : ℕ) (queue : List ℕ) (alive : ℕ → Bool)
    → sum (one x) queue ≤ unit (alive x)
    → unit (alive x) ≡ unit (drain_pending_fds queue alive x) + sum (one x) queue
unfolding drain_pending_fds
drain-open x [] alive h = omega arith
drain-open x (fd ∷ queue) alive h = elim (Bool-cases (x == fd)) [
  | inl same ↦
      let mine : one x fd ≡ 1 = rw same in
      let closed : unit (set fd false alive x) ≡ 0 = rw same in
      let rest =
        drain-open x queue (set fd false alive) (omega (arith, h, mine, unit_le (alive x))) in
      omega (arith, rest, closed, mine, h, unit_le (alive x))
  | inr other ↦
      let mine : one x fd ≡ 0 = rw other in
      let kept : unit (set fd false alive x) ≡ unit (alive x) = rw other in
      let rest = drain-open x queue (set fd false alive) (omega (arith, h, mine, kept)) in
      omega (arith, rest, kept, mine)
]
