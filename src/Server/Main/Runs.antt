-- ===== src/Server/Main/Runs.antt =====
-- The loop of `main` in src/server/server.c runs as the steps of the thread pool say.
use wind_cloud_v.Base.{
  ℕ, ◌≡◌, refl, ap, ◌∙◌, inl, inr, true, false, Bool-cases, some, Option-cases, List, [], ◌∷◌, ◌==◌,
  length, replicate,
}
use wind_cloud_v.Server.Pool.{
  Worker, waiting, handling, leaving, exited, State, serving, drained, joined, Step, Reachable,
}
use wind_cloud_v.Server.Pool.Exit.{joined-closed}
use wind_cloud_v.Server.Main.{
  Wait, interrupted, failed, ready, Outside, Course, running, joining, returned, exits, set_flag,
  cut_clients, close_queued, all_exited, join_all, serve_client, leave, serve_fd, each_event,
  epoll_loop,
}

-- Steps of the workers: those that leave `main` where it is.
pub data Works (s : State) : State → Type 0 where
  stay : Works s s
  work : {t u : State} → Works s t → Step t u → u.main ≡ t.main → Works s u

-- What comes from outside: `accept` gives descriptors that are not in use, and in between only
-- the workers make steps.
pub record Lawful (out : Outside) : Type 0 where
  pub fresh : (r : out.Rest) (s : State) (fd : ℕ) → out.accept r s ≡ some fd → s.is_open fd ≡ false
  pub works : (r : out.Rest) (s : State) → Works s (out.between r s).1

Works-Reachable : {num : ℕ} {s t : State} → Reachable num s → Works s t → Reachable num t
Works-Reachable h Works.stay = h
Works-Reachable h (Works.work w step e) = Reachable.next (Works-Reachable h w) step

Works-main : {s t : State} → Works s t → t.main ≡ s.main
Works-main Works.stay = refl
Works-main (Works.work w step e) = e ∙ Works-main w

-- No answer is a failure or names the pipe.
abbrev pub IsQuiet : ℕ → List ℕ → Type 0
IsQuiet pipe_fd [] = Unit
IsQuiet pipe_fd (fd ∷ fds) = ((fd == pipe_fd) ≡ false) × IsQuiet pipe_fd fds

abbrev pub AllQuiet : ℕ → List Wait → Type 0
AllQuiet pipe_fd [] = Unit
AllQuiet pipe_fd (interrupted ∷ waits) = AllQuiet pipe_fd waits
AllQuiet pipe_fd (failed ∷ waits) = ⊥
AllQuiet pipe_fd (ready fds ∷ waits) = IsQuiet pipe_fd fds × AllQuiet pipe_fd waits

-- An answer is a failure.
abbrev pub HasFailed : List Wait → Type 0
HasFailed [] = ⊥
HasFailed (interrupted ∷ waits) = HasFailed waits
HasFailed (failed ∷ waits) = Unit
HasFailed (ready fds ∷ waits) = HasFailed waits

-- Where `main` is in each case, in a state that the pool comes to.
abbrev pub Runs : ℕ → Type 0 → Type 0 → Course → Type 0
Runs num quiet fails (running s) = Reachable num s × (s.main ≡ serving) × quiet
Runs num quiet fails (joining s) = Reachable num s × (s.main ≡ drained)
Runs num quiet fails (returned s) =
    Reachable num s
    × (s.main ≡ joined)
    × (s.workers ≡ replicate (length s.workers) exited)
    × ((fd : ℕ) → s.is_open fd ≡ false)
Runs num quiet fails (exits s) = Reachable num s × fails

all_exited_lem : (ws : List Worker) → all_exited ws ≡ true → ws ≡ replicate (length ws) exited
unfolding all_exited replicate
all_exited_lem [] h = refl
all_exited_lem (waiting ∷ ws) h = cc
all_exited_lem (handling fd ∷ ws) h = cc
all_exited_lem (leaving fd ∷ ws) h = cc
all_exited_lem (exited ∷ ws) h = ap (◌∷◌ exited) (all_exited_lem ws h)

Runs-map :
    (num : ℕ) {quiet quiet' fails fails' : Type 0} (c : Course)
    → (quiet → quiet')
    → (fails → fails')
    → Runs num quiet fails c
    → Runs num quiet' fails' c
Runs-map num (running s) f g (h, at, q) = (h, at, f q)
Runs-map num (joining s) f g h = h
Runs-map num (returned s) f g h = h
Runs-map num (exits s) f g (h, e) = (h, g e)

module _ (out : Outside) (law : Lawful out) (num listen_fd pipe_fd : ℕ) where
  -- In between, `main` stays where it is.
  between-Reachable :
      (r : out.Rest) (s : State)
      → Reachable num s
      → Reachable num (out.between r s).1 × ((out.between r s).1.main ≡ s.main)
  between-Reachable r s h = (Works-Reachable h (law.works r s), Works-main (law.works r s))

  serve_client-Reachable :
      (r : out.Rest) (s : State)
      → Reachable num s
      → s.main ≡ serving
      → Reachable num (serve_client out r s).1 × ((serve_client out r s).1.main ≡ serving)
  unfolding serve_client
  serve_client-Reachable r s h at = elim (Option-cases (out.accept r s)) [
    | inl none_came ↦ rw (none_came, serve_client) (h, at)
    | inr (fd, came) ↦
        let (h', at') =
          between-Reachable r _ (Reachable.next h (Step.accept fd at (law.fresh r s fd came))) in
        rw (came, serve_client) (Reachable.next h' (Step.hand_over fd at'), refl)
  ]

  serve_fd-Reachable :
      (fd : ℕ) (r : out.Rest) (s : State)
      → Reachable num s
      → s.main ≡ serving
      → Reachable num (serve_fd out listen_fd fd r s).1
        × ((serve_fd out listen_fd fd r s).1.main ≡ serving)
  serve_fd-Reachable fd r s h at = elim (Bool-cases (fd == listen_fd)) [
    | inl client ↦ rw client (serve_client-Reachable r s h at)
    | inr other ↦ rw other (h, at)
  ]

  join_all-Runs :
      (quiet fails : Type 0) (s : State)
      → Reachable num s
      → s.main ≡ drained
      → Runs num quiet fails (join_all s)
  unfolding join_all
  join_all-Runs quiet fails s h at = elim (Bool-cases (all_exited s.workers)) [
    | inl over ↦
        let gone = all_exited_lem s.workers over in
        let end = Reachable.next h (Step.join (length s.workers) at gone) in
        rw (over, join_all) (end, refl, gone, λ fd. joined-closed num _ end refl fd)
    | inr busy ↦ rw (busy, join_all) (h, at)
  ]

  leave-Runs :
      (quiet fails : Type 0) (r : out.Rest) (s : State)
      → Reachable num s
      → s.main ≡ serving
      → Runs num quiet fails (leave out r s)
  unfolding leave
  leave-Runs quiet fails r s h at =
      let v1 = out.between r (set_flag s) in
      let v2 = out.between v1.0 (cut_clients v1.1) in
      let (h1, at1) = between-Reachable r (set_flag s) (Reachable.next h (Step.flag at)) in
      let (h2, at2) =
        between-Reachable v1.0 (cut_clients v1.1) (Reachable.next h1 (Step.shutdown at1)) in
      let (h3, at3) =
        between-Reachable v2.0 (close_queued v2.1) (Reachable.next h2 (Step.drain at2)) in
      join_all-Runs quiet fails _ h3 at3

  each_event-Runs :
      (quiet fails : Type 0) (fds : List ℕ) (r : out.Rest) (s : State)
      (next : out.Rest → State → Course)
      → Reachable num s
      → s.main ≡ serving
      → ((r' : out.Rest) (t : State)
          → Reachable num t
          → t.main ≡ serving
          → Runs num quiet fails (next r' t))
      → Runs num (IsQuiet pipe_fd fds × quiet) fails (each_event out listen_fd pipe_fd fds r s next)
  unfolding each_event
  each_event-Runs quiet fails [] r s next h at on =
      Runs-map num (next r s) (λ q. (tt, q)) (λ e. e) (on r s h at)
  each_event-Runs quiet fails (fd ∷ fds) r s next h at on = elim (Bool-cases (fd == pipe_fd)) [
    | inl notice ↦ rw (notice, each_event) (leave-Runs _ fails r s h at)
    | inr other ↦
        let v = serve_fd out listen_fd fd r s in
        let (h1, at1) = serve_fd-Reachable fd r s h at in
        let (h2, at2) = between-Reachable v.0 v.1 h1 in
        let w = out.between v.0 v.1 in
        rw (other, each_event)
          (Runs-map num (each_event out listen_fd pipe_fd fds w.0 w.1 next)
            (λ q. ((refl, q.0), q.1)) (λ e. e)
            (each_event-Runs quiet fails fds w.0 w.1 next h2 (at2 ∙ at1) on))
  ]

  -- The loop of the server, from a state that the pool comes to with `main` in its loop, on any
  -- answers of `epoll_wait`, where `accept` gives descriptors that are not in use and only the
  -- workers make steps in between. Wherever it comes, the pool is in a state that its steps lead
  -- to. It is still in its loop only where no answer so far was a failure or named the reading end
  -- of the pipe; it leaves with status 1 only where an answer was a failure. Otherwise it has
  -- set the flag, shut down the clients and emptied the queue, and waits in `pthread_join`, or it
  -- returns; and it returns only when every worker has left its loop and every client socket
  -- is closed.
  pub epoll_loop-Runs :
      (waits : List Wait) (r : out.Rest) (s : State)
      → Reachable num s
      → s.main ≡ serving
      → Runs num
          (AllQuiet pipe_fd waits)
          (HasFailed waits)
          (epoll_loop out listen_fd pipe_fd waits r s)
  unfolding epoll_loop
  epoll_loop-Runs [] r s h at = (h, at, tt)
  epoll_loop-Runs (interrupted ∷ waits) r s h at =
      let (h', at') = between-Reachable r s h in
      epoll_loop-Runs waits (out.between r s).0 (out.between r s).1 h' (at' ∙ at)
  epoll_loop-Runs (failed ∷ waits) r s h at = (h, tt)
  epoll_loop-Runs (ready fds ∷ waits) r s h at =
      let (h', at') = between-Reachable r s h in
      each_event-Runs (AllQuiet pipe_fd waits) (HasFailed waits) fds (out.between r s).0
        (out.between r s).1 (epoll_loop out listen_fd pipe_fd waits) h' (at' ∙ at)
        (λ r' t. epoll_loop-Runs waits r' t)
