-- ===== src/Server/Main.antt =====
-- The loop of `main` in src/server/server.c over what `epoll_wait` answers. The worker threads run
-- between its calls: what they do then, and what `accept` answers, comes from outside.
pub mod Runs
pub mod Whole
pub mod Tests
use wind_cloud_v.Base.{
  ℕ, Bool, true, false, Option, none, some, List, [], ◌∷◌, ◌++◌, ◌==◌, if◌then◌else◌,
}
use wind_cloud_v.Server.Pool.{
  Worker, waiting, handling, leaving, exited, State, serving, accepted, flagged, shut_down, drained,
  joined, set, shutdown_active_fds, drain_pending_fds,
}

-- What `epoll_wait` answers: it is interrupted, it fails, or it gives the descriptors that are ready.
pub data Wait : Type 0 where
  interrupted : Wait
  failed : Wait
  ready : List ℕ → Wait

-- The rest of the process and the kernel, with a state of their own.
pub record Outside : Type 1 where
  pub Rest : Type 0
  pub accept : Rest → State → Option ℕ
  pub between : Rest → State → Rest × State

-- How far `main` comes: it waits for more, it waits in `pthread_join`, it returns 0, or it leaves
-- with status 1.
pub data Course : Type 0 where
  running : State → Course
  joining : State → Course
  returned : State → Course
  exits : State → Course

unfoldable pub all_exited : List Worker → Bool
all_exited [] = true
all_exited (exited ∷ ws) = all_exited ws
all_exited (_ ∷ ws) = false

-- The loop over `pthread_join` returns when every worker has left its loop.
unfoldable pub join_all : State → Course
join_all s = if all_exited s.workers then returned (record s { main = joined }) else joining s

-- The critical sections of the branch of the exit notice, in their order.
abbrev pub set_flag : State → State
set_flag s = record s { main = flagged; exit_flag = true }

abbrev pub cut_clients : State → State
cut_clients s = record s {
  main = shut_down;
  is_shut = shutdown_active_fds (s.active_fds) (s.is_shut);
}

abbrev pub close_queued : State → State
close_queued s = record s {
  main = drained;
  queue = [];
  is_open = drain_pending_fds (s.queue) (s.is_open);
}

module _ (out : Outside) where
  -- A client: `accept`, and `enQueue` under the lock.
  unfoldable pub serve_client : out.Rest → State → out.Rest × State
  serve_client r s = elim (out.accept r s) [
    | none ↦ (r, s)
    | some conn_fd ↦
        let (r', t) = out.between r (record s {
          main = accepted conn_fd;
          is_open = set conn_fd true (s.is_open);
          is_shut = set conn_fd false (s.is_shut);
        }) in
        (r', record t { main = serving; queue = t.queue ++ conn_fd ∷ [] })
  ]

  -- The branch of the exit notice.
  unfoldable pub leave : out.Rest → State → Course
  leave r s =
      let (r1, s1) = out.between r (set_flag s) in
      let (r2, s2) = out.between r1 (cut_clients s1) in
      let (r3, s3) = out.between r2 (close_queued s2) in join_all s3

  -- One descriptor that is not the pipe's.
  abbrev pub serve_fd : ℕ → ℕ → out.Rest → State → out.Rest × State
  serve_fd listen_fd fd r s = if fd == listen_fd then serve_client r s else (r, s)

  -- The loop over the descriptors of one answer, with what comes behind it.
  unfoldable pub each_event :
      ℕ → ℕ → List ℕ → out.Rest → State → (out.Rest → State → Course) → Course
  each_event listen_fd pipe_fd [] r s next = next r s
  each_event listen_fd pipe_fd (fd ∷ fds) r s next =
      let (r1, s1) = serve_fd listen_fd fd r s in
      let (r2, s2) = out.between r1 s1 in
      let more = each_event listen_fd pipe_fd fds r2 s2 next in
      if fd == pipe_fd then leave r s else more

  -- The loop, on the answers so far.
  unfoldable pub epoll_loop : ℕ → ℕ → List Wait → out.Rest → State → Course
  epoll_loop listen_fd pipe_fd [] r s = running s
  epoll_loop listen_fd pipe_fd (interrupted ∷ waits) r s =
      let (r1, s1) = out.between r s in epoll_loop listen_fd pipe_fd waits r1 s1
  epoll_loop listen_fd pipe_fd (failed ∷ waits) r s = exits s
  epoll_loop listen_fd pipe_fd (ready fds ∷ waits) r s =
      let (r1, s1) = out.between r s in
      each_event listen_fd pipe_fd fds r1 s1 (epoll_loop listen_fd pipe_fd waits)
