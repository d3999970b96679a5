-- ===== src/Net.antt =====
-- The sockets of both programs and what they start with: src/server/server_socket.c,
-- src/client/client_socket.c, src/server/epoll.c, the macros of include/error_check.h, and
-- `init_thread_pool` of src/server/thread_pool.c where it makes its threads.
pub mod Port
pub mod Calls
pub mod Start
pub mod Tests
use wind_cloud_v.Base.{
  ℕ, zero, suc, ◌+◌, ◌*◌, ◌/◌, ◌%◌, ◌^◌, Bool, not, Option, none, some, [], ◌∷◌, Bytes, ◌==◌,
  if◌then◌else◌, codes,
}
use wind_cloud_v.Libc.{atoi}
use wind_cloud_v.Wire.Endian.{Endian, htons, store16}
use wind_cloud_v.Wire.Types.{Host}

-- How a stretch of code ends: it goes on with a value; the process leaves with status 1, and the
-- message of the check that failed; or the behaviour is undefined.
pub data Outcome {ℓ} (A : Type ℓ) : Type ℓ where
  went : A → Outcome A
  exits : Bytes → Outcome A
  undefined : Outcome A

infixl 5 ◌>>=◌
abbrev pub ◌>>=◌ {ℓ κ} : {A : Type ℓ} {B : Type κ} → Outcome A → (A → Outcome B) → Outcome B
went a >>= f = f a
exits msg >>= f = exits msg
undefined >>= f = undefined

-- `ERROR_CHECK(ret, -1, msg)`, where `none` is the return value -1.
unfoldable pub error_check {ℓ} : {A : Type ℓ} → Bytes → Option A → Outcome A
error_check msg none = exits msg
error_check msg (some a) = went a

-- `THREAD_ERROR_CHECK(ret, msg)`.
unfoldable pub thread_error_check {ℓ} : {A : Type ℓ} → Bytes → ℕ → A → Outcome A
thread_error_check msg zero a = went a
thread_error_check msg (suc ret) a = exits msg

-- `ARGS_CHECK(argc, expected)`.
unfoldable pub args_check {ℓ} : {A : Type ℓ} → ℕ → ℕ → A → Outcome A
args_check argc expected a = if argc == expected then went a else exits (codes "Args number error!")

-- `struct sockaddr_in` in memory: the port and the address are in network byte order.
pub record Sockaddr : Type 0 where
  pub sin_family : ℕ
  pub sin_port : Bytes
  pub sin_addr : Bytes

-- `AF_INET`.
abbrev pub af_inet : ℕ
af_inet = 2

-- The calls of the system, on a state of the kernel's own. `none` is a call that fails;
-- `pthread_create` gives an error code, 0 where it succeeds.
pub record Kernel : Type 1 where
  pub State : Type 0
  pub socket : State → Option (ℕ × State)
  pub setsockopt : State → ℕ → State
  pub bind : State → ℕ → Sockaddr → Option State
  pub listen : State → ℕ → ℕ → Option State
  pub connect : State → ℕ → Sockaddr → Option State
  pub pipe : State → Option (ℕ × ℕ × State)
  pub signal : State → State
  pub sigaction : State → Option State
  pub epoll_create1 : State → Option (ℕ × State)
  pub epoll_ctl_add : State → ℕ → ℕ → Option State
  pub epoll_ctl_del : State → ℕ → ℕ → Option State
  pub pthread_create : State → ℕ × State
  pub calloc : State → ℕ → Bool
  pub close : State → ℕ → State

-- `addr` of both `init_socket`s. `inet_addr` is that of the C library.
unfoldable pub sockaddr : Endian → (Bytes → Bytes) → Bytes → Bytes → Outcome Sockaddr
sockaddr e inet_addr ip port = elim (atoi port) [
  | none ↦ undefined
  | some n ↦
      went
        (record { sin_family = af_inet; sin_port = store16 e (htons e n); sin_addr = inet_addr ip })
]

module _ (e : Endian) (inet_addr : Bytes → Bytes) (k : Kernel) where
  -- `init_socket` of src/server/server_socket.c: the listening socket.
  unfoldable pub init_socket : k.State → Bytes → Bytes → Outcome (ℕ × k.State)
  init_socket s ip port = do
    (fd, s1) ← error_check (codes "socket") (k.socket s)
    addr ← sockaddr e inet_addr ip port
    s2 ← error_check (codes "bind") (k.bind (k.setsockopt s1 fd) fd addr)
    s3 ← error_check (codes "listen") (k.listen s2 fd 10)
    went (fd, s3)

  -- `init_socket` of src/client/client_socket.c: the connected socket.
  unfoldable pub connect_socket : k.State → Bytes → Bytes → Outcome (ℕ × k.State)
  connect_socket s ip port = do
    (fd, s1) ← error_check (codes "socket") (k.socket s)
    addr ← sockaddr e inet_addr ip port
    s2 ← error_check (codes "connect") (k.connect s1 fd addr)
    went (fd, s2)

unfoldable pub add_epoll_fd : (k : Kernel) → k.State → ℕ → ℕ → Outcome k.State
add_epoll_fd k s epfd fd = error_check (codes "epoll_ctl add") (k.epoll_ctl_add s epfd fd)

unfoldable pub del_epoll_fd : (k : Kernel) → k.State → ℕ → ℕ → Outcome k.State
del_epoll_fd k s epfd fd = error_check (codes "epoll_ctl del") (k.epoll_ctl_del s epfd fd)

-- The loop of `init_thread_pool` that makes the threads.
unfoldable pub create_threads : (k : Kernel) → ℕ → k.State → Outcome k.State
create_threads k zero s = went s
create_threads k (suc num) s =
    let (ret, s1) = k.pthread_create s in
    thread_error_check (codes "pthread_create") ret s1 >>= create_threads k num

-- `init_thread_pool`: its memory, and its threads.
unfoldable pub start_threads : (k : Kernel) → ℕ → k.State → Outcome k.State
start_threads k num s =
    if not (k.calloc s (num * 8))
    then exits (codes "calloc thread_id_arr failed")
    else if not (k.calloc s (num * 4))
    then exits (codes "malloc active_fds failed")
    else create_threads k num s
