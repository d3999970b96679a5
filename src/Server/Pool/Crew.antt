-- ===== src/Server/Pool/Crew.antt =====
-- How sums over the workers of the pool change when one of them moves on.
use wind_cloud_v.Base.{
  length-append, ℕ, zero, suc, ◌+◌, ◌≤◌, ◌<◌, ◌≡◌, refl, ap, Bool, true, false, List, [], ◌∷◌, ◌++◌,
  length, replicate, arith,
}
use wind_cloud_v.Server.Pool.{
  Worker, waiting, handling, leaving, exited, Main, serving, accepted, flagged, shut_down, drained,
  joined,
}
use wind_cloud_v.Server.Pool.Counts.{one, sum, sum-append, busy, leaving_main}

abbrev pub running : Worker → ℕ
running exited = 0
running _ = 1

abbrev pub is_joined : Main → Bool
is_joined joined = true
is_joined _ = false

abbrev pub is_drained : Main → Bool
is_drained drained = true
is_drained joined = true
is_drained _ = false

-- One worker moves on.
pub moved :
    (f : Worker → ℕ) (ws us vs : List Worker) (w w' : Worker)
    → ws ≡ us ++ w ∷ vs
    → sum f ws + f w' ≡ sum f (us ++ w' ∷ vs) + f w
moved f ws us vs w w' e =
    omega (arith, ap (sum f) e, sum-append f us (w ∷ vs), sum-append f us (w' ∷ vs))

pub there_is :
    (f : Worker → ℕ) (ws us vs : List Worker) (w : Worker) → ws ≡ us ++ w ∷ vs → f w ≤ sum f ws
there_is f ws us vs w e = omega (arith, ap (sum f) e, sum-append f us (w ∷ vs))

pub length-moved :
    (ws us vs : List Worker) (w w' : Worker)
    → ws ≡ us ++ w ∷ vs
    → length ws ≡ length (us ++ w' ∷ vs)
length-moved ws us vs w w' e =
    omega (arith, ap length e, length-append us (w ∷ vs), length-append us (w' ∷ vs))

pub busy_le : (ws : List Worker) → sum busy ws ≤ length ws
busy_le [] = omega arith
busy_le (waiting ∷ ws) = omega (arith, busy_le ws)
busy_le (handling fd ∷ ws) = omega (arith, busy_le ws)
busy_le (leaving fd ∷ ws) = omega (arith, busy_le ws)
busy_le (exited ∷ ws) = omega (arith, busy_le ws)

-- While a worker waits, a slot is free.
pub free_slot : (ws us vs : List Worker) → ws ≡ us ++ waiting ∷ vs → sum busy ws < length ws
free_slot ws us vs e = omega (
  arith,
  ap (sum busy) e,
  ap length e,
  sum-append busy us (waiting ∷ vs),
  length-append us (waiting ∷ vs),
  busy_le us,
  busy_le vs,
)

pub drained_leaves : (m : Main) → is_drained m ≡ true → leaving_main m ≡ true
drained_leaves serving e = e
drained_leaves (accepted fd) e = e
drained_leaves flagged e = refl
drained_leaves shut_down e = refl
drained_leaves drained e = refl
drained_leaves joined e = refl

pub joined_leaves : (m : Main) → is_joined m ≡ true → leaving_main m ≡ true
joined_leaves joined e = refl
joined_leaves serving e = e
joined_leaves (accepted fd) e = e
joined_leaves flagged e = refl
joined_leaves shut_down e = refl
joined_leaves drained e = refl

pub sum-replicate {ℓ} :
    {A : Type ℓ} (f : A → ℕ) (n : ℕ) (a : A) → f a ≡ 0 → sum f (replicate n a) ≡ 0
unfolding replicate
sum-replicate f zero a e = refl
sum-replicate f (suc n) a e = omega (arith, e, sum-replicate f n a e)

pub held_one : (fd : ℕ) → one fd fd ≡ 1
held_one fd = ground arith
