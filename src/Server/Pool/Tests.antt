-- ===== src/Server/Pool/Tests.antt =====
-- A server with two workers that gets a client and is then told to leave.
use wind_cloud_v.Base.{arith, suc, ◌≤◌, ◌≡◌, refl, true, false, [], ◌∷◌, replicate}
use wind_cloud_v.Server.Pool.{
  waiting, exited, joined, State, init_thread_pool, Step, accept, hand_over, take, unregister,
  close, exit, flag, shutdown, drain, join, Reachable, start, next,
}
use wind_cloud_v.Server.Pool.Wakeup.{sleepers, Woken, begin, move, doze}
use wind_cloud_v.Server.Pool.Wakeup.Progress.{IsLively, Woken-IsLively}
use wind_cloud_v.Server.Pool.Owners.{Reachable-IsOwned}
use wind_cloud_v.Server.Pool.Moves.{IsOwned}
use wind_cloud_v.Server.Pool.Exit.{IsCut, Reachable-IsCut, joined-closed, left, Step-left}

-- The second worker serves client 7 when `main` shuts it down.
unfoldable cut_short : (s : State) × Reachable 2 s × (s.exit_flag ≡ true)
unfolding init_thread_pool replicate
cut_short =
    let client = next (next start (accept 7 refl refl)) (hand_over 7 refl) in
    let served = next client (take (waiting ∷ []) [] 7 [] refl refl refl) in
    (_, next (next served (flag refl)) (shutdown refl), refl)

-- Both workers have left.
unfoldable over : (s : State) × Reachable 2 s × (s.main ≡ joined)
unfolding init_thread_pool replicate
over =
    let client = next (next start (accept 7 refl refl)) (hand_over 7 refl) in
    let served = next client (take (waiting ∷ []) [] 7 [] refl refl refl) in
    let told = next (next served (flag refl)) (shutdown refl) in
    let closed =
      next (next told (unregister (waiting ∷ []) [] 7 refl)) (close (waiting ∷ []) [] 7 refl) in
    let gone =
      next (next closed (exit [] (waiting ∷ []) refl refl)) (exit (exited ∷ []) [] refl refl) in
    (_, next (next gone (drain refl)) (join 2 refl refl), refl)

Reachable-IsOwned_example : IsOwned (cut_short.0)
Reachable-IsOwned_example = Reachable-IsOwned 2 (cut_short.0) (cut_short.1)

Reachable-IsCut_example : IsCut (cut_short.0)
Reachable-IsCut_example = Reachable-IsCut 2 (cut_short.0) (cut_short.1)

joined-closed_example : over.0.is_open 7 ≡ false
joined-closed_example = joined-closed 2 (over.0) (over.1) (over.2) 7

-- The step that drains the queue.
drains : (t : State) × Step (cut_short.0) t
unfolding cut_short
drains = (_, drain refl)

Step-left_example : (drains.0.exit_flag ≡ true) × (suc (left (drains.0)) ≤ left (cut_short.0))
Step-left_example = Step-left 2 (cut_short.0) (drains.0) (cut_short.1) (cut_short.2) (drains.1)

-- Both workers sleep when client 7 comes, the signal wakes one of them, which takes it, and then `main` is
-- told to leave: the broadcast wakes the other, and client 7 is shut down.
unfoldable roused : (s : State) × Woken 2 s 0 × (s.exit_flag ≡ true)
unfolding init_thread_pool replicate sleepers
roused =
    let one_asleep = doze begin (omega arith) refl refl in
    let both_asleep = doze one_asleep (omega arith) refl refl in
    let client = move (move both_asleep (accept 7 refl refl) tt) (hand_over 7 refl) tt in
    let served = move client (take (waiting ∷ []) [] 7 [] refl refl refl) (omega arith) in
    (_, move (move served (flag refl) tt) (shutdown refl) tt, refl)

Woken-IsLively_example : IsLively (roused.0) 0
Woken-IsLively_example = Woken-IsLively 2 (roused.0) 0 (roused.1)
