-- ===== src/Server/Pool/Owners.antt =====
-- Who owns the client sockets of src/server/thread_pool.c and src/server/worker.c.
use wind_cloud_v.Base.{length-replicate, ℕ, refl, sym, ◌∙◌, none, arith}
use wind_cloud_v.Server.Pool.{
  waiting, State, init_thread_pool, Step, accept, hand_over, take, unregister, close, exit, flag,
  shutdown, drain, join, Reachable, start, next,
}
use wind_cloud_v.Server.Pool.Counts.{held, served, busy, slot, full}
use wind_cloud_v.Server.Pool.Crew.{sum-replicate}
use wind_cloud_v.Server.Pool.Moves.{
  IsOwned, accept-IsOwned, hand_over-IsOwned, take-IsOwned, unregister-IsOwned, close-IsOwned,
  exit-IsOwned, flag-IsOwned, shutdown-IsOwned, drain-IsOwned, join-IsOwned,
}

Step-IsOwned : {s t : State} → IsOwned s → Step s t → IsOwned t
Step-IsOwned i (accept fd at fresh) = accept-IsOwned _ i fd at fresh
Step-IsOwned i (hand_over fd at) = hand_over-IsOwned _ i fd at
Step-IsOwned i (take us vs fd q at off e) = take-IsOwned _ i us vs fd q at off e
Step-IsOwned i (unregister us vs fd at) = unregister-IsOwned _ i us vs fd at
Step-IsOwned i (close us vs fd at) = close-IsOwned _ i us vs fd at
Step-IsOwned i (exit us vs at on) = exit-IsOwned _ i us vs at
Step-IsOwned i (flag at) = flag-IsOwned _ i at
Step-IsOwned i (shutdown at) = shutdown-IsOwned _ i at
Step-IsOwned i (drain at) = drain-IsOwned _ i at
Step-IsOwned i (join num at all) = join-IsOwned _ i num at all

init_thread_pool-IsOwned : (num : ℕ) → IsOwned (init_thread_pool num)
unfolding init_thread_pool
init_thread_pool-IsOwned num = record {
  owned = λ x. omega (arith, sum-replicate (held x) num waiting refl);
  slots =
      λ x. sum-replicate (slot x) num none refl ∙ sym (sum-replicate (served x) num waiting refl);
  used = sum-replicate full num none refl ∙ sym (sum-replicate busy num waiting refl);
  size = length-replicate num none ∙ sym (length-replicate num waiting);
  flag = refl;
  ended = λ e. cc;
  gone = λ e. cc;
}

-- In every order of the threads' steps, each open client socket is held exactly once, by `main`
-- between `accept` and `enQueue`, by the queue, or by one worker, so none is closed twice or served
-- by two; and the slots `active_fds` hold exactly the descriptors in `handle_request`.
pub Reachable-IsOwned : (num : ℕ) (s : State) → Reachable num s → IsOwned s
Reachable-IsOwned num s start = init_thread_pool-IsOwned num
Reachable-IsOwned num s (next r step) = Step-IsOwned (Reachable-IsOwned num _ r) step
