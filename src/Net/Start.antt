-- ===== src/Net/Start.antt =====
-- The start of `main` in src/server/server.c and src/client/client.c, up to their loops.
pub mod Up
pub mod Meet
use wind_cloud_v.Base.{ℕ, Bytes, codes}
use wind_cloud_v.Wire.Endian.{Endian}
use wind_cloud_v.Config.{Settings}
use wind_cloud_v.Server.Pool.{State, init_thread_pool}
use wind_cloud_v.Net.{
  Outcome, went, exits, undefined, ◌>>=◌, error_check, Kernel, init_socket, connect_socket,
  add_epoll_fd, start_threads,
}

-- What the loop of the server's `main` has at its start.
pub record Server (k : Kernel) : Type 0 where
  pub listen_fd : ℕ
  pub pipe_read : ℕ
  pub pipe_write : ℕ
  pub epfd : ℕ
  pub kernel : k.State

module _ (e : Endian) (inet_addr : Bytes → Bytes) (k : Kernel) where
  unfoldable pub start_server : k.State → Settings → Outcome (Server k)
  start_server s settings = do
    (pipe_read, pipe_write, s1) ← error_check (codes "pipe") (k.pipe (k.signal s))
    s2 ← error_check (codes "sigaction") (k.sigaction s1)
    (listen_fd, s3) ← init_socket e inet_addr k s2 settings.ip settings.port
    s4 ← start_threads k 5 s3
    (epfd, s5) ← error_check (codes "epoll_create1") (k.epoll_create1 s4)
    s6 ← add_epoll_fd k s5 epfd listen_fd
    s7 ← add_epoll_fd k s6 epfd pipe_read
    went (record {
      listen_fd = listen_fd;
      pipe_read = pipe_read;
      pipe_write = pipe_write;
      epfd = epfd;
      kernel = s7;
    })

  unfoldable pub start_client : k.State → Settings → Outcome (ℕ × k.State)
  start_client s settings = connect_socket e inet_addr k (k.signal s) settings.ip settings.port
