-- ===== src/Server/Pool/Wakeup.antt =====
-- The condition variable of the pool: `pthread_cond_wait` in src/server/worker.c, and the calls of
-- `pthread_cond_signal` and `pthread_cond_broadcast` in src/server/server.c. To a state of the pool comes
-- how many of its waiting workers sleep on the variable; the others are in front of the test of the
-- queue and of the exit flag.
pub mod Progress
use wind_cloud_v.Base.{ℕ, suc, ◌-◌, ◌<◌, ◌≡◌, true, false, List, []}
use wind_cloud_v.Server.Pool.{
  Worker, waiting, State, init_thread_pool, Step, accept, hand_over, take, unregister, close, exit,
  flag, shutdown, drain, join,
}
use wind_cloud_v.Server.Pool.Counts.{sum}

abbrev pub free : Worker → ℕ
free waiting = 1
free _ = 0

-- How many workers wait, asleep or not.
abbrev pub idle : State → ℕ
idle s = sum free (s.workers)

-- How many sleep behind a step: `pthread_cond_signal` behind `enQueue` wakes one of them, and
-- `pthread_cond_broadcast` behind the exit flag wakes all.
unfoldable pub sleepers : {s t : State} → Step s t → ℕ → ℕ
sleepers (hand_over fd at) asleep = asleep - 1
sleepers (flag at) asleep = 0
sleepers _ asleep = asleep

-- A worker that takes a client or leaves its loop is one that does not sleep.
abbrev pub IsAwake : {s t : State} → Step s t → ℕ → Type 0
IsAwake {s} (take us vs fd queue at on some_queued) asleep = asleep < idle s
IsAwake {s} (exit us vs at on) asleep = asleep < idle s
IsAwake _ asleep = Unit

-- A step that waits for no client: none comes, and `handle_request` returns only because its socket
-- is shut down.
abbrev pub IsAlone : {s t : State} → Step s t → Type 0
IsAlone (accept fd at fresh) = ⊥
IsAlone {s} (unregister us vs fd at) = s.is_shut fd ≡ true
IsAlone _ = Unit

-- The states that the server comes to, with how many workers sleep.
pub data Woken (num : ℕ) : State → ℕ → Type 0 where
  begin : Woken num (init_thread_pool num) 0
  move :
      {s t : State} {asleep : ℕ}
      → Woken num s asleep
      → (step : Step s t) → IsAwake step asleep
      → Woken num t (sleepers step asleep)
  -- The test finds no client and no exit flag, and the worker falls asleep.
  doze :
      {s : State} {asleep : ℕ}
      → Woken num s asleep
      → asleep < idle s
      → s.queue ≡ []
      → s.exit_flag ≡ false
      → Woken num s (suc asleep)
  -- A worker wakes up with no reason.
  stir : {s : State} {asleep : ℕ} → Woken num s (suc asleep) → Woken num s asleep
