-- ===== src/Net/Tests.antt =====
-- A kernel in memory, on which both programs start.
use wind_cloud_v.Base.{
  ℕ, suc, ◌%◌, ◌^◌, ◌≡◌, refl, sym, ap, ◌∙◌, true, Option, none, some, [], ◌∷◌, Bytes, arith, codes,
}
use wind_cloud_v.Libc.{read_digits, atoi}
use wind_cloud_v.Wire.Endian.{little, big}
use wind_cloud_v.Server.World.{returns}
use wind_cloud_v.Config.{
  Settings, get_target, load_value_or_default, server_settings, client_settings,
}
use wind_cloud_v.Net.{af_inet, went, Kernel, sockaddr}
use wind_cloud_v.Net.Port.{be16, address, decimal, sockaddr-decimal}
use wind_cloud_v.Net.Calls.{Seen, with_fd, without, Manual, Failed, After}
use wind_cloud_v.Net.Start.{Server, start_server}
use wind_cloud_v.Net.Start.Up.{up, start_server-Up}
use wind_cloud_v.Net.Start.Meet.{Meets, start_server-start_client}

-- What was seen, and the next descriptor.
abbrev Machine : Type 0
Machine = Seen × ℕ

-- No call fails.
abbrev pub kernel : Kernel
kernel = record {
  State = Machine;
  socket = λ s. some (s.1, (with_fd s.1 (s.0), suc s.1));
  setsockopt = λ s fd. s;
  bind = λ s fd addr. some (record (s.0) { bound = (fd, addr) ∷ s.0.bound }, s.1);
  listen = λ s fd n. some (record (s.0) { listening = fd ∷ s.0.listening }, s.1);
  connect = λ s fd addr. some (record (s.0) { connected = (fd, addr) ∷ s.0.connected }, s.1);
  pipe = λ s. some (s.1, suc s.1, (with_fd s.1 (with_fd (suc s.1) (s.0)), suc (suc s.1)));
  signal = λ s. s;
  sigaction = λ s. some s;
  epoll_create1 = λ s. some (s.1, (with_fd s.1 (s.0), suc s.1));
  epoll_ctl_add = λ s epfd fd. some (record (s.0) { watched = (epfd, fd) ∷ s.0.watched }, s.1);
  epoll_ctl_del = λ s epfd fd. some s;
  pthread_create = λ s. (0, (record (s.0) { threads = suc s.0.threads }, s.1));
  calloc = λ s n. true;
  close = λ s fd. (record (s.0) { fds = without fd s.0.fds }, s.1);
}

seen_of : {s t : Machine} → some s ≡ some t → t.0 ≡ s.0
seen_of {s} {t} e = let f : s ≡ t = cc in ap (λ (x : Machine). x.0) (sym f)

new_fd :
    {x : Seen} {m n fd : ℕ} {t : Machine}
    → ◌≡◌ {A = Option (ℕ × Machine)} (some (m, (with_fd m x, n))) (some (fd, t))
    → t.0 ≡ with_fd fd x
new_fd {x} {m} {n} {fd} {t} e =
    let f : ◌≡◌ {A = ℕ × Machine} (m, (with_fd m x, n)) (fd, t) = cc in
    ap (λ (y : ℕ × Machine). y.1.0) (sym f)
    ∙ ap (λ (y : ℕ). with_fd y x) (ap (λ (y : ℕ × Machine). y.0) f)

new_pipe :
    {x : Seen} {m k n rd wr : ℕ} {t : Machine}
    → ◌≡◌ {A = Option (ℕ × ℕ × Machine)}
        (some (m, k, (with_fd m (with_fd k x), n)))
        (some (rd, wr, t))
    → t.0 ≡ with_fd rd (with_fd wr x)
new_pipe {x} {m} {k} {n} {rd} {wr} {t} e =
    let f : ◌≡◌ {A = ℕ × ℕ × Machine} (m, k, (with_fd m (with_fd k x), n)) (rd, wr, t) = cc in
    ap (λ (y : ℕ × ℕ × Machine). y.2.0) (sym f)
    ∙ ap (λ (y : ℕ × ℕ × Machine). with_fd y.0 (with_fd y.1 x)) f

pub kernel_manual : Manual kernel
kernel_manual = record {
  see = λ s. s.0;
  socket-see = λ s s' fd e. new_fd e;
  setsockopt-see = λ s fd. refl;
  bind-see = λ s s' fd addr e. seen_of e;
  listen-see = λ s s' fd n e. seen_of e;
  connect-see = λ s s' fd addr e. seen_of e;
  pipe-see = λ s s' rd wr e. new_pipe e;
  signal-see = λ s. refl;
  sigaction-see = λ s s' e. seen_of e;
  epoll_create1-see = λ s s' fd e. new_fd e;
  epoll_ctl_add-see = λ s s' epfd fd e. seen_of e;
  pthread_create-see = λ s e. refl;
  close-see = λ s fd. refl;
}

kernel_works : (msg : Bytes) → ¬ Failed kernel msg
kernel_works msg (Failed.socket s e) = cc
kernel_works msg (Failed.bind s fd addr e) = cc
kernel_works msg (Failed.listen s fd n e) = cc
kernel_works msg (Failed.connect s fd addr e) = cc
kernel_works msg (Failed.pipe s e) = cc
kernel_works msg (Failed.sigaction s e) = cc
kernel_works msg (Failed.epoll_create1 s e) = cc
kernel_works msg (Failed.epoll_ctl_add s epfd fd e) = cc
kernel_works msg (Failed.pthread_create s n) = absurd (n refl)
kernel_works msg (Failed.thread_ids s n e) = cc
kernel_works msg (Failed.active_fds s n e) = cc

abbrev pub nothing : Machine
nothing =
    (record { bound = []; connected = []; listening = []; watched = []; threads = 1; fds = [] }, 3)

-- The address and the port where there is no configuration file.
abbrev pub defaults : Bytes → Settings
defaults path = record {
  ip = codes "127.0.0.1";
  port = codes "9090";
  log_level = codes "INFO";
  log_file = path;
}

server_defaults : server_settings none ≡ returns (defaults (codes "../log/server.log"))
unfolding server_settings load_value_or_default get_target
server_defaults = refl

client_defaults : client_settings none ≡ returns (defaults (codes "../log/client.log"))
unfolding client_settings load_value_or_default get_target
client_defaults = refl

pub port_9090 : atoi (codes "9090") ≡ some 9090
unfolding atoi read_digits
port_9090 = refl

sockaddr-decimal_example :
    sockaddr little (λ ip. ip) (codes "127.0.0.1") (decimal 70000)
    ≡ went (record {
      sin_family = af_inet;
      sin_port = be16 (70000 % 2 ^ 16);
      sin_addr = codes "127.0.0.1";
    })
sockaddr-decimal_example =
    sockaddr-decimal little (λ ip. ip) (codes "127.0.0.1") 70000 (omega arith)

start_server-Up_example :
    After kernel
      (λ (r : Server kernel).
        r.kernel.0
        ≡ up r.listen_fd
            (address (λ ip. ip) (codes "127.0.0.1") 9090)
            r.epfd
            r.pipe_read
            r.pipe_write
            nothing.0)
      (start_server little (λ ip. ip) kernel nothing (defaults (codes "server.log")))
unfolding kernel_manual
start_server-Up_example =
    start_server-Up little (λ ip. ip) kernel kernel_manual nothing (defaults (codes "server.log"))
      9090 port_9090

start_server-start_client_example :
    Meets little big
      (λ ip. ip)
      kernel
      kernel
      kernel_manual
      kernel_manual
      nothing
      nothing
      (defaults (codes "../log/server.log"))
      (defaults (codes "../log/client.log"))
      9090
start_server-start_client_example =
    start_server-start_client little big (λ ip. ip) kernel kernel kernel_manual kernel_manual none
      (defaults (codes "../log/server.log")) (defaults (codes "../log/client.log")) 9090 nothing
      nothing server_defaults client_defaults port_9090 kernel_works kernel_works
