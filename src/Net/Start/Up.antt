-- ===== src/Net/Start/Up.antt =====
-- The start of both programs, against what the calls of the system do.
use wind_cloud_v.Base.{
  ℕ, zero, suc, ◌+◌, ◌*◌, ◌≡◌, refl, sym, ap, subst, ◌∙◌, inl, inr, Bool-cases, some, ◌∷◌, Bytes,
  arith,
}
use wind_cloud_v.Libc.{atoi}
use wind_cloud_v.Wire.Endian.{Endian}
use wind_cloud_v.Config.{Settings}
use wind_cloud_v.Net.{
  Sockaddr, Kernel, sockaddr, init_socket, connect_socket, add_epoll_fd, create_threads,
  start_threads,
}
use wind_cloud_v.Net.Port.{address, sockaddr-address}
use wind_cloud_v.Net.Calls.{
  Seen, with_fd, Manual, Failed, After, >>=-After, error_check-After, thread_error_check-After,
}
use wind_cloud_v.Net.Start.{Server, start_server, start_client}

sum : (a b : ℕ) → a + suc b ≡ suc a + b
sum a b = omega arith

-- A socket bound to an address, and listening.
abbrev opened : ℕ → Sockaddr → Seen → Seen
opened fd addr seen = record seen {
  bound = (fd, addr) ∷ seen.bound;
  listening = fd ∷ seen.listening;
  fds = fd ∷ seen.fds;
}

abbrev with_threads : Seen → Seen
with_threads seen = record seen { threads = 5 + seen.threads }

abbrev watching : ℕ → ℕ → Seen → Seen
watching epfd fd seen = record seen { watched = (epfd, fd) ∷ seen.watched }

-- What the server has made at the start of its loop.
abbrev pub up : ℕ → Sockaddr → ℕ → ℕ → ℕ → Seen → Seen
up listen_fd addr epfd pipe_read pipe_write seen = record seen {
  bound = (listen_fd, addr) ∷ seen.bound;
  listening = listen_fd ∷ seen.listening;
  watched = (epfd, pipe_read) ∷ (epfd, listen_fd) ∷ seen.watched;
  threads = 5 + seen.threads;
  fds = epfd ∷ listen_fd ∷ pipe_read ∷ pipe_write ∷ seen.fds;
}

-- A socket connected to an address.
abbrev pub linked : ℕ → Sockaddr → Seen → Seen
linked fd addr seen = record seen { connected = (fd, addr) ∷ seen.connected; fds = fd ∷ seen.fds }

module _ (e : Endian) (inet_addr : Bytes → Bytes) (k : Kernel) (man : Manual k) where
  sockaddr-After :
      (ip port : Bytes) (n : ℕ)
      → atoi port ≡ some n
      → After k (λ addr. addr ≡ address inet_addr ip n) (sockaddr e inet_addr ip port)
  sockaddr-After ip port n read =
      subst (After k (λ addr. addr ≡ address inet_addr ip n))
        (sym (sockaddr-address e inet_addr ip port n read)) refl

  init_socket-After :
      (s : k.State) (ip port : Bytes) (n : ℕ)
      → atoi port ≡ some n
      → After k
          (λ (r : ℕ × k.State). man.see r.1 ≡ opened r.0 (address inet_addr ip n) (man.see s))
          (init_socket e inet_addr k s ip port)
  unfolding init_socket
  init_socket-After s ip port n read =
      let addr = address inet_addr ip n in
      >>=-After k (λ (r : ℕ × k.State). man.see r.1 ≡ with_fd r.0 (man.see s)) _ _ _
        (error_check-After k _ _ _ (Failed.socket s) (λ r e. man.socket-see s r.1 r.0 e))
        (λ r at.
          >>=-After k (λ a. a ≡ addr) _ _ _ (sockaddr-After ip port n read)
            (λ a same.
              >>=-After k
                (λ s2.
                  man.see s2
                  ≡ record (with_fd r.0 (man.see s)) { bound = (r.0, addr) ∷ (man.see s).bound })
                _ _ _
                (error_check-After k _ _ _ (Failed.bind (k.setsockopt r.1 r.0) r.0 a) (λ s2 e.
                  man.bind-see (k.setsockopt r.1 r.0) s2 r.0 a e
                  ∙ ap (λ (x : Seen). record x { bound = (r.0, a) ∷ x.bound })
                      (man.setsockopt-see r.1 r.0 ∙ at)
                  ∙ ap
                      (λ (x : Sockaddr). record (with_fd r.0 (man.see s)) {
                        bound = (r.0, x) ∷ (man.see s).bound;
                      })
                      same))
                (λ s2 bound.
                  >>=-After k (λ s3. man.see s3 ≡ opened r.0 addr (man.see s)) _ _ _
                    (error_check-After k _ _ _ (Failed.listen s2 r.0 10) (λ s3 e.
                      man.listen-see s2 s3 r.0 10 e
                      ∙ ap (λ (x : Seen). record x { listening = r.0 ∷ x.listening }) bound))
                    (λ s3 h. h))))

  connect_socket-After :
      (s : k.State) (ip port : Bytes) (n : ℕ)
      → atoi port ≡ some n
      → After k
          (λ (r : ℕ × k.State). man.see r.1 ≡ record (man.see s) {
            connected = (r.0, address inet_addr ip n) ∷ (man.see s).connected;
            fds = r.0 ∷ (man.see s).fds;
          })
          (connect_socket e inet_addr k s ip port)
  unfolding connect_socket
  connect_socket-After s ip port n read =
      let addr = address inet_addr ip n in
      >>=-After k (λ (r : ℕ × k.State). man.see r.1 ≡ with_fd r.0 (man.see s)) _ _ _
        (error_check-After k _ _ _ (Failed.socket s) (λ r e. man.socket-see s r.1 r.0 e))
        (λ r at.
          >>=-After k (λ a. a ≡ addr) _ _ _ (sockaddr-After ip port n read)
            (λ a same.
              >>=-After k
                (λ s2. man.see s2 ≡ record (with_fd r.0 (man.see s)) {
                  connected = (r.0, addr) ∷ (man.see s).connected;
                })
                _ _ _
                (error_check-After k _ _ _ (Failed.connect r.1 r.0 a) (λ s2 e.
                  man.connect-see r.1 s2 r.0 a e
                  ∙ ap (λ (x : Seen). record x { connected = (r.0, a) ∷ x.connected }) at
                  ∙ ap
                      (λ (x : Sockaddr). record (with_fd r.0 (man.see s)) {
                        connected = (r.0, x) ∷ (man.see s).connected;
                      })
                      same))
                (λ s2 h. h)))

  add_epoll_fd-After :
      (s : k.State) (epfd fd : ℕ) (seen : Seen)
      → man.see s ≡ seen
      → After k
          (λ s'. man.see s' ≡ record seen { watched = (epfd, fd) ∷ seen.watched })
          (add_epoll_fd k s epfd fd)
  unfolding add_epoll_fd
  add_epoll_fd-After s epfd fd seen now =
      error_check-After k _ _ _ (Failed.epoll_ctl_add s epfd fd) (λ s' e.
        man.epoll_ctl_add-see s s' epfd fd e
        ∙ ap (λ (x : Seen). record x { watched = (epfd, fd) ∷ x.watched }) now)

  create_threads-After :
      (num : ℕ) (s : k.State) (seen : Seen)
      → man.see s ≡ seen
      → After k
          (λ s'. man.see s' ≡ record seen { threads = num + seen.threads })
          (create_threads k num s)
  unfolding create_threads
  create_threads-After zero s seen now = now ∙ ap (λ n. record seen { threads = n }) (omega arith)
  create_threads-After (suc num) s seen now =
      let s1 = (k.pthread_create s).1 in
      let one_more = record seen { threads = suc seen.threads } in
      >>=-After k (λ s'. man.see s' ≡ one_more) _ _ _
        (thread_error_check-After k _ _ (k.pthread_create s).0 s1 (Failed.pthread_create s) (λ e.
          man.pthread_create-see s e ∙ ap (λ (x : Seen). record x { threads = suc x.threads }) now))
        (λ s' one.
          subst
            (λ n. After k (λ t. man.see t ≡ record seen { threads = n }) (create_threads k num s'))
            (sum num seen.threads) (create_threads-After num s' one_more one))

  start_threads-After :
      (num : ℕ) (s : k.State) (seen : Seen)
      → man.see s ≡ seen
      → After k
          (λ s'. man.see s' ≡ record seen { threads = num + seen.threads })
          (start_threads k num s)
  unfolding start_threads
  start_threads-After num s seen now = elim (Bool-cases (k.calloc s (num * 8))) [
    | inr e ↦ rw (e, start_threads) (Failed.thread_ids s (num * 8) e)
    | inl ids ↦ elim (Bool-cases (k.calloc s (num * 4))) [
      | inr e ↦ rw (ids, e, start_threads) (Failed.active_fds s (num * 4) e)
      | inl fds ↦ rw (ids, fds, start_threads) (create_threads-After num s seen now)
    ]
  ]

  -- The start of the server, where `atoi` reads a number from the port of the settings, and the calls
  -- that succeed do what their manual says. Whichever calls fail: the process leaves with status 1
  -- and names a call that has failed, or it comes to its loop, and then its socket is bound to the
  -- address of the settings and listens, its epoll instance watches that socket and the reading
  -- end of the pipe, five threads more were made, those two descriptors and both ends of the pipe
  -- are open besides what was, and nothing else has changed.
  pub start_server-Up :
      (s : k.State) (settings : Settings) (n : ℕ)
      → atoi settings.port ≡ some n
      → After k
          (λ (r : Server k).
            man.see r.kernel
            ≡ up r.listen_fd
                (address inet_addr settings.ip n)
                r.epfd
                r.pipe_read
                r.pipe_write
                (man.see s))
          (start_server e inet_addr k s settings)
  unfolding start_server
  start_server-Up s settings n read =
      let addr = address inet_addr settings.ip n in
      >>=-After k (λ (r : ℕ × ℕ × k.State). man.see r.2 ≡ with_fd r.0 (with_fd r.1 (man.see s))) _ _
        _
        (error_check-After k _ _ _ (Failed.pipe (k.signal s)) (λ r e.
          man.pipe-see (k.signal s) r.2 r.0 r.1 e
          ∙ ap (λ (x : Seen). with_fd r.0 (with_fd r.1 x)) (man.signal-see s)))
        (λ p piped.
          let now = with_fd p.0 (with_fd p.1 (man.see s)) in
          >>=-After k (λ s2. man.see s2 ≡ now) _ _ _
            (error_check-After k _ _ _ (Failed.sigaction p.2)
              (λ s2 e. man.sigaction-see p.2 s2 e ∙ piped))
            (λ s2 quiet.
              >>=-After k (λ (r : ℕ × k.State). man.see r.1 ≡ opened r.0 addr now) _ _ _
                (subst
                  (λ x.
                    After k (λ (r : ℕ × k.State). man.see r.1 ≡ opened r.0 addr x)
                      (init_socket e inet_addr k s2 settings.ip settings.port))
                  quiet (init_socket-After s2 settings.ip settings.port n read))
                (λ l listening.
                  let mine = opened l.0 addr now in
                  >>=-After k (λ s4. man.see s4 ≡ with_threads mine) _ _ _
                    (start_threads-After 5 l.1 mine listening)
                    (λ s4 crew.
                      >>=-After k
                        (λ (r : ℕ × k.State). man.see r.1 ≡ with_fd r.0 (with_threads mine)) _ _ _
                        (error_check-After k _ _ _ (Failed.epoll_create1 s4) (λ r e.
                          man.epoll_create1-see s4 r.1 r.0 e
                          ∙ ap (λ (x : Seen). with_fd r.0 x) crew))
                        (λ ep polled.
                          >>=-After k
                            (λ s6.
                              man.see s6 ≡ watching ep.0 l.0 (with_fd ep.0 (with_threads mine)))
                            _ _ _ (add_epoll_fd-After ep.1 ep.0 l.0 _ polled)
                            (λ s6 one.
                              >>=-After k
                                (λ s7.
                                  man.see s7
                                  ≡ watching ep.0 p.0
                                      (watching ep.0 l.0 (with_fd ep.0 (with_threads mine))))
                                _ _ _ (add_epoll_fd-After s6 ep.0 p.0 _ one) (λ s7 h. h)))))))

  pub start_client-Up :
      (s : k.State) (settings : Settings) (n : ℕ)
      → atoi settings.port ≡ some n
      → After k
          (λ (r : ℕ × k.State).
            man.see r.1 ≡ linked r.0 (address inet_addr settings.ip n) (man.see s))
          (start_client e inet_addr k s settings)
  unfolding start_client
  start_client-Up s settings n read =
      subst
        (λ x.
          After k
            (λ (r : ℕ × k.State). man.see r.1 ≡ linked r.0 (address inet_addr settings.ip n) x)
            (connect_socket e inet_addr k (k.signal s) settings.ip settings.port))
        (man.signal-see s) (connect_socket-After (k.signal s) settings.ip settings.port n read)
