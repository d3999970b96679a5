-- ===== src/Server/Pool/Exit.antt =====
-- The exit of the server: the branch of `main` behind the exit notice in src/server/server.c.
use wind_cloud_v.Base.{
  ℕ, suc, ◌+◌, ◌≤◌, ◌<◌, ◌≡◌, refl, sym, ap, ◌∙◌, inl, inr, Bool, true, false, Bool-cases, Option,
  none, some, List, [], ◌∷◌, ◌==◌, arith,
}
use wind_cloud_v.Server.Pool.{
  Worker, waiting, handling, leaving, exited, Main, serving, accepted, flagged, shut_down, drained,
  joined, State, set, shutdown_active_fds, init_thread_pool, Step, accept, hand_over, take,
  unregister, close, exit, flag, shutdown, drain, join, Reachable, start, next,
}
use wind_cloud_v.Server.Pool.Counts.{one, sum, held, served, held_main, slot, unit, leaving_main}
use wind_cloud_v.Server.Pool.Owners.{Reachable-IsOwned}
use wind_cloud_v.Server.Pool.Moves.{IsOwned}
use wind_cloud_v.Server.Pool.Crew.{running, is_joined, is_drained, moved}

held_le : (x : ℕ) (ws : List Worker) → sum running ws ≡ 0 → sum (held x) ws ≡ 0
held_le x [] e = refl
held_le x (exited ∷ ws) e = omega (arith, held_le x ws (omega arith))
held_le x (waiting ∷ ws) e = absurd (omega arith)
held_le x (handling fd ∷ ws) e = absurd (omega arith)
held_le x (leaving fd ∷ ws) e = absurd (omega arith)

-- When `main` has joined its threads, every client socket that was ever accepted is closed.
pub joined-closed :
    (num : ℕ) (s : State) → Reachable num s → s.main ≡ joined → (fd : ℕ) → s.is_open fd ≡ false
joined-closed num s r at fd =
    let i = Reachable-IsOwned num s r in
    let none_held = held_le fd s.workers (i.gone (ap is_joined at)) in
    let none_queued = ap (sum (one fd)) (i.ended (ap is_drained at)) in
    elim (Bool-cases (s.is_open fd)) [
      | inl live ↦
          absurd
            (omega (arith, i.owned fd, ap unit live, none_held, none_queued, ap (held_main fd) at))
      | inr closed ↦ closed
    ]

-- `main` is behind `shutdown_active_fds`.
abbrev is_past : Main → Bool
is_past shut_down = true
is_past drained = true
is_past joined = true
is_past _ = false

past_leaves : (m : Main) → is_past m ≡ true → leaving_main m ≡ true
past_leaves serving e = e
past_leaves (accepted fd) e = e
past_leaves flagged e = refl
past_leaves shut_down e = refl
past_leaves drained e = refl
past_leaves joined e = refl

shutdown_active_fds-set :
    (x : ℕ) (slots : List (Option ℕ)) (shut : ℕ → Bool)
    → shut x ≡ true
    → shutdown_active_fds slots shut x ≡ true
unfolding shutdown_active_fds
shutdown_active_fds-set x [] shut h = h
shutdown_active_fds-set x (none ∷ slots) shut h = shutdown_active_fds-set x slots shut h
shutdown_active_fds-set x (some fd ∷ slots) shut h =
    shutdown_active_fds-set x slots (set fd true shut) (ground arith)

-- Every descriptor in a slot is shut down.
shutdown_active_fds-slot :
    (x : ℕ) (slots : List (Option ℕ)) (shut : ℕ → Bool)
    → 0 < sum (slot x) slots
    → shutdown_active_fds slots shut x ≡ true
unfolding shutdown_active_fds
shutdown_active_fds-slot x [] shut h = absurd (omega arith)
shutdown_active_fds-slot x (none ∷ slots) shut h =
    shutdown_active_fds-slot x slots shut (omega arith)
shutdown_active_fds-slot x (some fd ∷ slots) shut h = elim (Bool-cases (x == fd)) [
  | inl same ↦ shutdown_active_fds-set x slots (set fd true shut) (rw same)
  | inr other ↦ shutdown_active_fds-slot x slots (set fd true shut) (ground arith)
]

-- Every client that a worker is still serving has been shut down.
abbrev pub IsCut : State → Type 0
IsCut s = is_past s.main ≡ true → (x : ℕ) → 0 < sum (served x) s.workers → s.is_shut x ≡ true

Step-IsCut : {s t : State} → IsOwned s → IsCut s → Step s t → IsCut t
Step-IsCut i c (accept fd at fresh) = λ e. cc
Step-IsCut i c (hand_over fd at) = λ e. cc
Step-IsCut {s} i c (take us vs fd q at off e) =
    λ p. let f = past_leaves s.main p in let g = i.flag in cc
Step-IsCut {s} i c (unregister us vs fd at) = λ p x h.
    c p x (omega (arith, h, moved (served x) s.workers us vs (handling fd) (leaving fd) at))
Step-IsCut {s} i c (close us vs fd at) =
    λ p x h. c p x (omega (arith, h, moved (served x) s.workers us vs (leaving fd) waiting at))
Step-IsCut {s} i c (exit us vs at on) =
    λ p x h. c p x (omega (arith, h, moved (served x) s.workers us vs waiting exited at))
Step-IsCut i c (flag at) = λ e. cc
Step-IsCut {s} i c (shutdown at) =
    λ p x h. shutdown_active_fds-slot x s.active_fds s.is_shut (omega (arith, h, i.slots x))
Step-IsCut i c (drain at) = λ p x h. c (ap is_past at) x h
Step-IsCut i c (join num at all) = λ p x h. c (ap is_past at) x h

-- Behind `shutdown_active_fds`, the socket of every client that is still being served is shut down,
-- in every order of the threads' steps: none that a worker took at the last moment is missed.
pub Reachable-IsCut : (num : ℕ) (s : State) → Reachable num s → IsCut s
unfolding init_thread_pool
Reachable-IsCut num s start = λ e. cc
Reachable-IsCut num s (next r step) =
    Step-IsCut (Reachable-IsOwned num _ r) (Reachable-IsCut num _ r) step

-- How many steps the threads have left once the exit flag is set.
abbrev left_worker : Worker → ℕ
left_worker waiting = 1
left_worker (handling fd) = 3
left_worker (leaving fd) = 2
left_worker exited = 0

abbrev left_main : Main → ℕ
left_main flagged = 3
left_main shut_down = 2
left_main drained = 1
left_main _ = 0

abbrev pub left : State → ℕ
left s = left_main s.main + sum left_worker s.workers

no_exit_yet :
    (s : State) (m : Main) → IsOwned s → s.exit_flag ≡ true → s.main ≡ m → leaving_main m ≡ true
no_exit_yet s m i on at = sym (ap leaving_main at) ∙ sym i.flag ∙ on

IsOwned-left :
    {s t : State}
    → IsOwned s
    → s.exit_flag ≡ true
    → Step s t
    → (t.exit_flag ≡ true) × (suc (left t) ≤ left s)
IsOwned-left {s} i on (accept fd at fresh) = let e = no_exit_yet s serving i on at in cc
IsOwned-left {s} i on (hand_over fd at) = let e = no_exit_yet s (accepted fd) i on at in cc
IsOwned-left i on (take us vs fd q at off e) = cc
IsOwned-left {s} i on (unregister us vs fd at) =
    (on, omega (arith, moved left_worker s.workers us vs (handling fd) (leaving fd) at))
IsOwned-left {s} i on (close us vs fd at) =
    (on, omega (arith, moved left_worker s.workers us vs (leaving fd) waiting at))
IsOwned-left {s} i on (exit us vs at e) =
    (on, omega (arith, moved left_worker s.workers us vs waiting exited at))
IsOwned-left {s} i on (flag at) = let e = no_exit_yet s serving i on at in cc
IsOwned-left i on (shutdown at) = (on, omega (arith, ap left_main at))
IsOwned-left i on (drain at) = (on, omega (arith, ap left_main at))
IsOwned-left i on (join num at all) = (on, omega (arith, ap left_main at))

-- Once the exit flag is set it stays set, and every step of any thread brings the exit nearer: there
-- are at most `left` steps, whatever their order.
pub Step-left :
    (num : ℕ) (s t : State)
    → Reachable num s
    → s.exit_flag ≡ true
    → Step s t
    → (t.exit_flag ≡ true) × (suc (left t) ≤ left s)
Step-left num s t r on step = IsOwned-left (Reachable-IsOwned num s r) on step
