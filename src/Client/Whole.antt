-- ===== src/Client/Whole.antt =====
-- `main` of src/client/client.c behind the settings: the log, the connection, the loop over the standard
-- input, and what is closed at its end.
use wind_cloud_v.Base.{ℕ, ◌≡◌, ap, ◌∙◌, Bool, some, [], ◌∷◌, Bytes}
use wind_cloud_v.Libc.{atoi}
use wind_cloud_v.Wire.Types.{Host}
use wind_cloud_v.Config.{Settings}
use wind_cloud_v.Log
use wind_cloud_v.Log.{Log, init_log, close_log}
use wind_cloud_v.Net.{Outcome, went, exits, undefined, ◌>>=◌, Kernel}
use wind_cloud_v.Net.Calls.{Seen, Manual, Failed, After, without}
use wind_cloud_v.Net.Start.{start_client}
use wind_cloud_v.Net.Start.Up.{start_client-Up}
use wind_cloud_v.Server.World.{Posix, Local, Run, returns, overread, out_of_fuel}
use wind_cloud_v.Server.Main.Whole.{without_first, log_closed}
use wind_cloud_v.Client.World.{Calls, Written, Mine}
use wind_cloud_v.Client.Process.{main_loop}
use wind_cloud_v.Client.Loop.{Finishes, main_loop-Finishes}

-- What the process leaves.
pub record Left (k : Kernel) (os : Posix) : Type 0 where
  pub kernel : k.State
  pub log : Log
  pub client : Mine os

module _ (host : Host) (os : Posix) (calls : Calls os) (inet_addr : Bytes → Bytes)
    (k : Kernel) where
  -- Behind the loop.
  unfoldable pub leave : ℕ × k.State → Log → Run (Mine os) → Run (Left k os)
  leave (sock_fd, s) log (returns c) =
      returns (record { kernel = k.close s sock_fd; log = close_log log; client = c })
  leave (sock_fd, s) log overread = overread
  leave (sock_fd, s) log out_of_fuel = out_of_fuel

  -- `opens` is whether `fopen` gives a stream; the connection is the one in the client's state.
  unfoldable pub client_main :
      (Bytes → Bool) → Bytes → Mine os → k.State → Settings → Outcome (Run (Left k os))
  client_main opens stdin c s settings =
      let log = (init_log opens (some settings.log_level) (some settings.log_file) Log.start).1 in
      start_client host.endian inet_addr k s settings
      >>= (λ r. went (leave r log (main_loop host os calls stdin c)))

-- How the process ends.
abbrev pub Leaves :
    (k : Kernel) (os : Posix) → Manual k → k.State → Outcome (Run (Left k os)) → Type 0
Leaves k os man s (went (returns l)) =
    ((man.see l.kernel).fds ≡ (man.see s).fds) × (l.log.handles ≡ [])
Leaves k os man s (went overread) = Unit
Leaves k os man s (went out_of_fuel) = ⊥
Leaves k os man s (exits msg) = Failed k msg
Leaves k os man s undefined = ⊥

module _ (host : Host) (os : Posix) (calls : Calls os) (loc : Local os) (written : Written os calls)
    (inet_addr : Bytes → Bytes) (k : Kernel) (man : Manual k) where
  leave-Leaves :
      (r : ℕ × k.State) (log : Log) (s : k.State) (run : Run (Mine os))
      → (man.see r.1).fds ≡ r.0 ∷ (man.see s).fds
      → (close_log log).handles ≡ []
      → Finishes run
      → Leaves k os man s (went (leave host os calls inet_addr k r log run))
  unfolding leave
  leave-Leaves r log s (returns c) fds shut h = (
    ap (λ (x : Seen). x.fds) (man.close-see r.1 r.0)
        ∙ ap (without r.0) fds
        ∙ without_first r.0 (man.see s).fds,
    shut,
  )
  leave-Leaves r log s overread fds shut h = tt
  leave-Leaves r log s out_of_fuel fds shut h = h

  then_Leaves :
      (P : ℕ × k.State → Type 0) (m : Outcome (ℕ × k.State)) (s : k.State)
      (f : ℕ × k.State → Outcome (Run (Left k os)))
      → After k P m
      → ((r : ℕ × k.State) → P r → Leaves k os man s (f r))
      → Leaves k os man s (m >>= f)
  then_Leaves P (went r) s f h next = next r h
  then_Leaves P (exits msg) s f h next = h
  then_Leaves P undefined s f h next = h

  -- The whole of the client's `main` behind its settings, where `atoi` reads a number from the port
  -- and the calls that succeed do what their manual says, those on files for just the path they
  -- are given; whatever is typed, whatever the server sends, and whether the log's file opens or
  -- not. The process ends: with status 0, with just those descriptors open that were before its
  -- start and no stream of the log; with status 1, and it names a call that has failed; or at a
  -- read behind a buffer.
  pub client_main-Leaves :
      (opens : Bytes → Bool) (stdin : Bytes) (c : Mine os) (s : k.State) (settings : Settings)
      (n : ℕ)
      → atoi settings.port ≡ some n
      → Leaves k os man s (client_main host os calls inet_addr k opens stdin c s settings)
  unfolding client_main
  client_main-Leaves opens stdin c s settings n read =
      then_Leaves _ (start_client host.endian inet_addr k s settings) s _
        (start_client-Up host.endian inet_addr k man s settings n read)
        (λ r seen.
          leave-Leaves r _ s (main_loop host os calls stdin c) (ap (λ (x : Seen). x.fds) seen)
            (log_closed opens settings.log_level settings.log_file)
            (main_loop-Finishes host os calls loc written stdin c))
