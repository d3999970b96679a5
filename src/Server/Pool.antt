-- ===== src/Server/Pool.antt =====
-- The threads of the server: src/server/thread_pool.c, src/server/worker.c and the loop of `main` in
-- src/server/server.c. Each step of `Step` is one critical section or one system call, and the
-- threads take their steps in any order. The wait for a client is the guard of `Step.take`, with the
-- condition variable in Wakeup, and `handle_request` may return at any time.
pub mod Counts
pub mod Crew
pub mod Moves
pub mod Owners
pub mod Exit
pub mod Wakeup
pub mod Tests
use wind_cloud_v.Base.{
  ℕ, Bool, true, false, ◌||◌, ◌≡◌, Option, none, some, List, [], ◌∷◌, ◌++◌, ◌==◌, if◌then◌else◌,
  length, replicate,
}

-- Where a worker of `thread_func` is: before or in the wait for a client, in `handle_request`,
-- between `unregister_active_fd` and `close`, and behind its loop.
pub data Worker : Type 0 where
  waiting : Worker
  handling : ℕ → Worker
  leaving : ℕ → Worker
  exited : Worker

-- Where `main` is: in its loop, between `accept` and `enQueue`, and in the branch of the exit
-- notice, behind each of its calls.
pub data Main : Type 0 where
  serving : Main
  accepted : ℕ → Main
  flagged : Main
  shut_down : Main
  drained : Main
  joined : Main

-- `thread_pool_t`, its threads, and the client sockets: which are open, and which are shut down.
-- The queue is its list of descriptors.
pub record State : Type 0 where
  pub active_fds : List (Option ℕ)
  pub queue : List ℕ
  pub exit_flag : Bool
  pub workers : List Worker
  pub main : Main
  pub is_open : ℕ → Bool
  pub is_shut : ℕ → Bool

-- The loop of `thread_func` that takes the first free slot.
unfoldable pub register : ℕ → List (Option ℕ) → List (Option ℕ)
register fd [] = []
register fd (none ∷ slots) = some fd ∷ slots
register fd (some g ∷ slots) = some g ∷ register fd slots

unfoldable pub unregister_active_fd : ℕ → List (Option ℕ) → List (Option ℕ)
unregister_active_fd fd [] = []
unregister_active_fd fd (none ∷ slots) = none ∷ unregister_active_fd fd slots
unregister_active_fd fd (some g ∷ slots) =
    let rest = unregister_active_fd fd slots in if g == fd then none ∷ slots else some g ∷ rest

-- A map from descriptors, changed at one of them.
abbrev pub set : ℕ → Bool → (ℕ → Bool) → ℕ → Bool
set fd b f x = if x == fd then b else f x

-- `shutdown` on the descriptor of every slot that is taken.
unfoldable pub shutdown_active_fds : List (Option ℕ) → (ℕ → Bool) → ℕ → Bool
shutdown_active_fds [] shut = shut
shutdown_active_fds (none ∷ slots) shut = shutdown_active_fds slots shut
shutdown_active_fds (some fd ∷ slots) shut = shutdown_active_fds slots (set fd true shut)

-- `close` on every descriptor of the queue.
unfoldable pub drain_pending_fds : List ℕ → (ℕ → Bool) → ℕ → Bool
drain_pending_fds [] alive = alive
drain_pending_fds (fd ∷ queue) alive = drain_pending_fds queue (set fd false alive)

-- `init_thread_pool` with `num` workers.
unfoldable pub init_thread_pool : ℕ → State
init_thread_pool num = record {
  active_fds = replicate num none;
  queue = [];
  exit_flag = false;
  workers = replicate num waiting;
  main = serving;
  is_open = λ fd. false;
  is_shut = λ fd. false;
}

pub data Step : State → State → Type 0 where
  -- `accept` gives a descriptor that is not in use, with a new socket behind it.
  accept :
      {s : State} (fd : ℕ)
      → s.main ≡ serving
      → s.is_open fd ≡ false
      → Step s (record s {
        main = accepted fd;
        is_open = set fd true (s.is_open);
        is_shut = set fd false (s.is_shut);
      })
  hand_over :
      {s : State} (fd : ℕ)
      → s.main ≡ accepted fd
      → Step s (record s { main = serving; queue = s.queue ++ fd ∷ [] })
  take :
      {s : State} (us vs : List Worker) (fd : ℕ) (queue : List ℕ)
      → s.workers ≡ us ++ waiting ∷ vs
      → s.exit_flag ≡ false
      → s.queue ≡ fd ∷ queue
      → Step s (record s {
        workers = us ++ handling fd ∷ vs;
        queue = queue;
        active_fds = register fd (s.active_fds);
      })
  -- `handle_request` returns, and its slot is given back.
  unregister :
      {s : State} (us vs : List Worker) (fd : ℕ)
      → s.workers ≡ us ++ handling fd ∷ vs
      → Step s (record s {
        workers = us ++ leaving fd ∷ vs;
        active_fds = unregister_active_fd fd (s.active_fds);
      })
  close :
      {s : State} (us vs : List Worker) (fd : ℕ)
      → s.workers ≡ us ++ leaving fd ∷ vs
      → Step s (record s { workers = us ++ waiting ∷ vs; is_open = set fd false (s.is_open) })
  exit :
      {s : State} (us vs : List Worker)
      → s.workers ≡ us ++ waiting ∷ vs
      → s.exit_flag ≡ true
      → Step s (record s { workers = us ++ exited ∷ vs })
  flag : {s : State} → s.main ≡ serving → Step s (record s { main = flagged; exit_flag = true })
  shutdown :
      {s : State}
      → s.main ≡ flagged
      → Step s
          (record s { main = shut_down; is_shut = shutdown_active_fds (s.active_fds) (s.is_shut) })
  drain :
      {s : State}
      → s.main ≡ shut_down
      → Step s (record s {
        main = drained;
        queue = [];
        is_open = drain_pending_fds (s.queue) (s.is_open);
      })
  -- The last `pthread_join` returns when every worker has left its loop.
  join :
      {s : State} (num : ℕ)
      → s.main ≡ drained
      → s.workers ≡ replicate num exited
      → Step s (record s { main = joined })

-- The states that the server comes to.
pub data Reachable (num : ℕ) : State → Type 0 where
  start : Reachable num (init_thread_pool num)
  next : {s t : State} → Reachable num s → Step s t → Reachable num t
