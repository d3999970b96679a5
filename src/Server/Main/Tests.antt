-- ===== src/Server/Main/Tests.antt =====
-- The loop of the server on a few answers: a client comes, and then the exit notice.
use wind_cloud_v.Base.{
  equal, replicate, ℕ, suc, ◌≡◌, refl, sym, ◌∙◌, subst, ◌++◌, append_assoc, Bool, true, false, none,
  some, List, [], ◌∷◌, if◌then◌else◌, codes,
}
use wind_cloud_v.Net.Start.{start_server}
use wind_cloud_v.Libc.{read_digits, atoi}
use wind_cloud_v.Net.Calls.{without}
use wind_cloud_v.Wire.Endian.{store16, htons, little}
use wind_cloud_v.Net.Tests.{kernel, kernel_manual, nothing, defaults, port_9090}
use wind_cloud_v.Log.{lowered, level_to_int, init_log, fclose, close_log, close_file, console, info}
use wind_cloud_v.Net.Port.{address}
use wind_cloud_v.Net.{
  add_epoll_fd, thread_error_check, create_threads, start_threads, sockaddr, init_socket,
  error_check, went,
}
use wind_cloud_v.Server.Main.Whole.{release, finish, Left, server_main, Leaves, server_main-Leaves}
use wind_cloud_v.Server.Pool.{
  shutdown_active_fds, drain_pending_fds, Worker, waiting, handling, leaving, exited, joined, set,
  State, Step, init_thread_pool, Reachable,
}
use wind_cloud_v.Server.Main.{
  serve_client, all_exited, join_all, leave, each_event, Wait, interrupted, ready, Outside,
  epoll_loop,
}
use wind_cloud_v.Server.Main.Runs.{Works, Lawful, AllQuiet, HasFailed, Runs, epoll_loop-Runs}

-- The workers rest, and `accept` gives descriptor 7 where it is free.
abbrev outside : Outside
outside = record {
  Rest = ℕ;
  accept = λ r s. if s.is_open 7 then none else some 7;
  between = λ r s. (suc r, s);
}

chosen : (b : Bool) (fd : ℕ) → (if b then none else some 7) ≡ some fd → (b ≡ false) × (7 ≡ fd)
chosen true fd e = cc
chosen false fd e = (refl, cc)

seven :
    (alive : ℕ → Bool) (fd : ℕ) → (if alive 7 then none else some 7) ≡ some fd → alive fd ≡ false
seven alive fd e =
    let (free, same) = chosen (alive 7) fd e in subst (λ n. alive n ≡ false) same free

outside_lawful : Lawful outside
outside_lawful = record { fresh = λ r s fd e. seven (s.is_open) fd e; works = λ r s. Works.stay }

abbrev answers : List Wait
answers = interrupted ∷ ready (4 ∷ 9 ∷ []) ∷ ready (4 ∷ 5 ∷ []) ∷ []

epoll_loop-Runs_example :
    Runs 5
      (AllQuiet 5 answers)
      (HasFailed answers)
      (epoll_loop outside 4 5 answers 0 (init_thread_pool 5))
unfolding init_thread_pool
epoll_loop-Runs_example =
    epoll_loop-Runs outside outside_lawful 5 4 5 answers 0 (init_thread_pool 5) Reachable.start refl

-- Every worker that waits leaves its loop.
abbrev leave_all : List Worker → List Worker
leave_all [] = []
leave_all (waiting ∷ ws) = exited ∷ leave_all ws
leave_all (w ∷ ws) = w ∷ leave_all ws

leave_all-Works :
    (s t : State) (us ws : List Worker)
    → Works s t
    → t.exit_flag ≡ true
    → t.workers ≡ us ++ ws
    → Works s (record t { workers = us ++ leave_all ws })
leave_all-Works s t us [] h flag e = subst (λ x. Works s (record t { workers = x })) e h
leave_all-Works s t us (waiting ∷ ws) h flag e =
    subst (λ x. Works s (record t { workers = x })) (append_assoc us (exited ∷ []) (leave_all ws))
      (leave_all-Works s (record t { workers = us ++ exited ∷ ws }) (us ++ exited ∷ []) ws
        (Works.work h (Step.exit us ws e flag) refl) flag (sym (append_assoc us (exited ∷ []) ws)))
leave_all-Works s t us (handling fd ∷ ws) h flag e =
    subst (λ x. Works s (record t { workers = x }))
      (append_assoc us (handling fd ∷ []) (leave_all ws))
      (leave_all-Works s t (us ++ handling fd ∷ []) ws h flag
        (e ∙ sym (append_assoc us (handling fd ∷ []) ws)))
leave_all-Works s t us (leaving fd ∷ ws) h flag e =
    subst (λ x. Works s (record t { workers = x }))
      (append_assoc us (leaving fd ∷ []) (leave_all ws))
      (leave_all-Works s t (us ++ leaving fd ∷ []) ws h flag
        (e ∙ sym (append_assoc us (leaving fd ∷ []) ws)))
leave_all-Works s t us (exited ∷ ws) h flag e =
    subst (λ x. Works s (record t { workers = x })) (append_assoc us (exited ∷ []) (leave_all ws))
      (leave_all-Works s t (us ++ exited ∷ []) ws h flag
        (e ∙ sym (append_assoc us (exited ∷ []) ws)))

-- The workers rest until the flag is set, and then leave.
abbrev obeyed : Bool → State → State
obeyed true s = record s { workers = leave_all (s.workers) }
obeyed false s = s

obeyed-Works : (b : Bool) (s : State) → s.exit_flag ≡ b → Works s (obeyed b s)
obeyed-Works true s e = leave_all-Works s s [] (s.workers) Works.stay e refl
obeyed-Works false s e = Works.stay

abbrev obedient : Outside
obedient = record {
  Rest = ℕ;
  accept = λ r s. if s.is_open 7 then none else some 7;
  between = λ r s. (suc r, obeyed (s.exit_flag) s);
}

obedient_lawful : Lawful obedient
obedient_lawful = record {
  fresh = λ r s fd e. seven (s.is_open) fd e;
  works = λ r s. obeyed-Works (s.exit_flag) s refl;
}

-- The descriptors are those that the kernel gives: 3 and 4 for the pipe, and 5 for the socket. A
-- client comes, and then the exit notice.
abbrev whole_run : List Wait
whole_run = interrupted ∷ ready (5 ∷ 9 ∷ []) ∷ ready (5 ∷ 3 ∷ []) ∷ []

-- What the process leaves: its threads have ended, and descriptor 7 is closed.
abbrev whole_end : Left kernel
whole_end = record {
  kernel = (
    record {
      bound = (5, address (λ ip. ip) (codes "127.0.0.1") 9090) ∷ [];
      connected = [];
      listening = 5 ∷ [];
      watched = (6, 3) ∷ (6, 5) ∷ [];
      threads = 6;
      fds = [];
    },
    7,
  );
  log = record { level = info; target = console; mutex = false; handles = []; entries = [] };
  pool = record {
    active_fds = none ∷ none ∷ none ∷ none ∷ none ∷ [];
    queue = [];
    exit_flag = true;
    workers = exited ∷ exited ∷ exited ∷ exited ∷ exited ∷ [];
    main = joined;
    is_open = set 7 false (set 7 true (λ fd. false));
    is_shut = set 7 false (λ fd. false);
  };
}

-- The run comes to status 0.
whole_run_ends :
    server_main little
      (λ ip. ip)
      kernel
      obedient
      (λ path. true)
      whole_run
      0
      nothing
      (defaults (codes "server.log"))
    ≡ went (some whole_end)
unfolding server_main epoll_loop init_thread_pool start_server error_check init_socket sockaddr atoi
    read_digits start_threads create_threads thread_error_check add_epoll_fd finish each_event leave
    join_all all_exited serve_client replicate equal close_file close_log fclose init_log
    level_to_int lowered release drain_pending_fds shutdown_active_fds htons store16 without
whole_run_ends = refl

server_main-Leaves_example : Leaves kernel kernel_manual nothing whole_run (went (some whole_end))
unfolding server_main epoll_loop init_thread_pool start_server error_check init_socket sockaddr atoi
    read_digits start_threads create_threads thread_error_check add_epoll_fd finish each_event leave
    join_all all_exited serve_client replicate equal close_file close_log fclose init_log
    level_to_int lowered release drain_pending_fds shutdown_active_fds htons store16 without
server_main-Leaves_example =
    server_main-Leaves kernel kernel_manual little (λ ip. ip) obedient obedient_lawful
      (λ path. true) whole_run 0 nothing (defaults (codes "server.log")) 9090 port_9090
