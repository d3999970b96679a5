-- ===== src/Server/Main/Whole.antt =====
-- `main` of src/server/server.c behind the settings: the log, the start, the loop, and what is released at
-- its end.
use wind_cloud_v.Base.{
  ℕ, ◌≡◌, refl, ap, ◌∙◌, ◌⊎◌, inl, inr, Bool, true, false, Bool-cases, Option, none, some, List, [],
  ◌∷◌, Bytes, ◌==◌, replicate, length, equal_iff, arith, codes,
}
use wind_cloud_v.Libc.{atoi}
use wind_cloud_v.Wire.Endian.{Endian}
use wind_cloud_v.Config.{Settings}
use wind_cloud_v.Log
use wind_cloud_v.Log.{Log, init_log, close_log, close_file, fclose}
use wind_cloud_v.Net.{Outcome, went, exits, undefined, ◌>>=◌, Kernel}
use wind_cloud_v.Net.Calls.{Seen, Manual, Failed, After, without}
use wind_cloud_v.Net.Start.{Server, start_server}
use wind_cloud_v.Net.Start.Up.{start_server-Up}
use wind_cloud_v.Server.Pool.{State, exited, init_thread_pool, Reachable}
use wind_cloud_v.Server.Main.{Wait, Outside, Course, epoll_loop}
use wind_cloud_v.Server.Main.Runs.{Lawful, AllQuiet, HasFailed, Runs, epoll_loop-Runs}

-- What a process leaves that ended with status 0.
pub record Left (k : Kernel) : Type 0 where
  pub kernel : k.State
  pub log : Log
  pub pool : State

-- The descriptors that `main` closes, in its order: the listening one before the pool is told, the
-- others at the end. What the loop makes of the kernel's state is in the model of the pool.
unfoldable pub release : (k : Kernel) → Server k → k.State
release k u =
    k.close (k.close (k.close (k.close u.kernel u.listen_fd) u.pipe_read) u.pipe_write) u.epfd

-- Behind the loop; `none` is a process that still runs.
unfoldable pub finish : (k : Kernel) → Server k → Log → Course → Outcome (Option (Left k))
finish k u log (Course.running s) = went none
finish k u log (Course.joining s) = went none
finish k u log (Course.exits s) = exits (codes "epoll_wait")
finish k u log (Course.returned s) =
    went (some (record { kernel = release k u; log = close_log log; pool = s }))

-- `opens` is whether `fopen` gives a stream.
unfoldable pub server_main :
    Endian
    → (Bytes → Bytes)
    → (k : Kernel) (out : Outside) → (Bytes → Bool)
    → List Wait
    → out.Rest
    → k.State
    → Settings
    → Outcome (Option (Left k))
server_main e inet_addr k out opens waits r s settings =
    let log = (init_log opens (some settings.log_level) (some settings.log_file) Log.start).1 in
    start_server e inet_addr k s settings
    >>= (λ u. finish k u log (epoll_loop out u.listen_fd u.pipe_read waits r (init_thread_pool 5)))

pub without_first : (x : ℕ) (l : List ℕ) → without x (x ∷ l) ≡ l
unfolding without
without_first x l = let own : (x == x) ≡ true = ground arith in rw (own, without) refl

without_second : (x y : ℕ) (l : List ℕ) → without y (x ∷ y ∷ l) ≡ x ∷ l
unfolding without
without_second x y l = elim (Bool-cases (x == y)) [
  | inl same ↦ let e : y ≡ x = ground arith in rw (same, without) (ap (λ z. z ∷ l) e)
  | inr other ↦ let own : (y == y) ≡ true = ground arith in rw (other, own, without) refl
]

-- The log closes what it opened.
pub log_closed :
    (opens : Bytes → Bool) (level path : Bytes)
    → (close_log (init_log opens (some level) (some path) Log.start).1).handles ≡ []
unfolding init_log close_log close_file fclose
log_closed opens level path = elim (Bool-cases (opens path)) [
  | inl gives ↦ rw (gives, (equal_iff path path).1 refl, close_log, init_log, fclose) refl
  | inr lacks ↦ rw (lacks, close_log, init_log) refl
]

module _ (k : Kernel) (man : Manual k) where
  close-fds :
      (s : k.State) (fd : ℕ) (l m : List ℕ)
      → (man.see s).fds ≡ l
      → without fd l ≡ m
      → (man.see (k.close s fd)).fds ≡ m
  close-fds s fd l m now e = ap (λ (x : Seen). x.fds) (man.close-see s fd) ∙ ap (without fd) now ∙ e

  release-fds :
      (u : Server k) (before : List ℕ)
      → (man.see u.kernel).fds ≡ u.epfd ∷ u.listen_fd ∷ u.pipe_read ∷ u.pipe_write ∷ before
      → (man.see (release k u)).fds ≡ before
  unfolding release
  release-fds u before h =
      close-fds _ u.epfd (u.epfd ∷ before) before
        (close-fds _ u.pipe_write (u.epfd ∷ u.pipe_write ∷ before) (u.epfd ∷ before)
          (close-fds _ u.pipe_read (u.epfd ∷ u.pipe_read ∷ u.pipe_write ∷ before)
            (u.epfd ∷ u.pipe_write ∷ before)
            (close-fds u.kernel u.listen_fd _ (u.epfd ∷ u.pipe_read ∷ u.pipe_write ∷ before) h
              (without_second u.epfd u.listen_fd _))
            (without_second u.epfd u.pipe_read _))
          (without_second u.epfd u.pipe_write _))
        (without_first u.epfd before)

  -- How the process ends, if it does.
  abbrev pub Leaves : k.State → List Wait → Outcome (Option (Left k)) → Type 0
  Leaves s waits (went none) = Unit
  Leaves s waits (went (some l)) =
      ((man.see l.kernel).fds ≡ (man.see s).fds)
      × (l.log.handles ≡ [])
      × ((fd : ℕ) → l.pool.is_open fd ≡ false)
      × (l.pool.workers ≡ replicate (length l.pool.workers) exited)
  Leaves s waits (exits msg) = Failed k msg ⊎ ((msg ≡ codes "epoll_wait") × HasFailed waits)
  Leaves s waits undefined = ⊥

  finish-Leaves :
      (u : Server k) (log : Log) (s : k.State) (waits : List Wait) (quiet : Type 0) (c : Course)
      → (man.see u.kernel).fds ≡ u.epfd ∷ u.listen_fd ∷ u.pipe_read ∷ u.pipe_write ∷ (man.see s).fds
      → (close_log log).handles ≡ []
      → Runs 5 quiet (HasFailed waits) c
      → Leaves s waits (finish k u log c)
  unfolding finish
  finish-Leaves u log s waits quiet (Course.running t) fds shut h = tt
  finish-Leaves u log s waits quiet (Course.joining t) fds shut h = tt
  finish-Leaves u log s waits quiet (Course.exits t) fds shut (h, failing) = inr (refl, failing)
  finish-Leaves u log s waits quiet (Course.returned t) fds shut (h, at, gone, dead) =
      (release-fds u (man.see s).fds fds, shut, dead, gone)

  then_Leaves :
      (P : Server k → Type 0) (m : Outcome (Server k)) (s : k.State) (waits : List Wait)
      (f : Server k → Outcome (Option (Left k)))
      → After k P m
      → ((u : Server k) → P u → Leaves s waits (f u))
      → Leaves s waits (m >>= f)
  then_Leaves P (went u) s waits f h next = next u h
  then_Leaves P (exits msg) s waits f h next = inl h
  then_Leaves P undefined s waits f h next = h

  -- The whole of the server's `main` behind its settings, where `atoi` reads a number from the port,
  -- the calls that succeed do what their manual says, `accept` gives descriptors that are not in
  -- use, and only the workers run between the calls of `main`; whatever the calls and `epoll_wait`
  -- answer, and whether the log's file opens or not. Where the process ends with status 0, the
  -- descriptors open are those from before its start, no stream of the log is open, every client
  -- socket is closed, and every worker has left its loop. Where it ends with status 1, it names a call that
  -- has failed.
  pub server_main-Leaves :
      (e : Endian) (inet_addr : Bytes → Bytes) (out : Outside) (law : Lawful out)
      (opens : Bytes → Bool) (waits : List Wait) (r : out.Rest) (s : k.State) (settings : Settings)
      (n : ℕ)
      → atoi settings.port ≡ some n
      → Leaves s waits (server_main e inet_addr k out opens waits r s settings)
  unfolding server_main init_thread_pool
  server_main-Leaves e inet_addr out law opens waits r s settings n read =
      then_Leaves _ (start_server e inet_addr k s settings) s waits _
        (start_server-Up e inet_addr k man s settings n read)
        (λ u seen.
          finish-Leaves u _ s waits (AllQuiet u.pipe_read waits) _ (ap (λ (x : Seen). x.fds) seen)
            (log_closed opens settings.log_level settings.log_file)
            (epoll_loop-Runs out law 5 u.listen_fd u.pipe_read waits r (init_thread_pool 5)
              Reachable.start refl))
