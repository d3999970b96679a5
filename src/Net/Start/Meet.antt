-- ===== src/Net/Start/Meet.antt =====
-- The server and the client with one configuration file.
use wind_cloud_v.Base.{ℕ, ◌≡◌, refl, sym, ap, ◌∙◌, Option, some, Bytes, codes}
use wind_cloud_v.Libc.{atoi}
use wind_cloud_v.Wire.Endian.{Endian}
use wind_cloud_v.Server.World.{Run, returns, overread, out_of_fuel, ◌>>=◌}
use wind_cloud_v.Config.{
  Settings, load_value_or_default, load_settings, server_settings, client_settings,
}
use wind_cloud_v.Net.{went, Sockaddr, Kernel}
use wind_cloud_v.Net.Port.{address}
use wind_cloud_v.Net.Calls.{Manual, Failed, After-went}
use wind_cloud_v.Net.Start.{Server, start_server, start_client}
use wind_cloud_v.Net.Start.Up.{up, linked, start_server-Up, start_client-Up}

-- A run that returned did so behind its first part.
returned :
    {A B : Type 0} (m : Run A) (f : A → Run B) (b : B)
    → (m >>= f) ≡ returns b
    → (a : A) × (m ≡ returns a) × (f a ≡ returns b)
returned (returns a) f b e = (a, refl, e)
returned overread f b e = cc
returned out_of_fuel f b e = cc

-- The address and the port are read before the settings of the log, and by their own keys.
load_settings-address :
    (file : Option Bytes) (key default : Bytes) (s : Settings)
    → load_settings file key default ≡ returns s
    → (load_value_or_default file (codes "ip") 64 (codes "127.0.0.1") ≡ returns s.ip)
      × (load_value_or_default file (codes "port") 64 (codes "9090") ≡ returns s.port)
load_settings-address file key default s e =
    let (ip, has_ip, e1) =
      returned (load_value_or_default file (codes "ip") 64 (codes "127.0.0.1")) _ s e in
    let (port, has_port, e2) =
      returned (load_value_or_default file (codes "port") 64 (codes "9090")) _ s e1 in
    let (level, has_level, e3) =
      returned (load_value_or_default file (codes "log") 32 (codes "INFO")) _ s e2 in
    let (path, has_path, e4) = returned (load_value_or_default file key 256 default) _ s e3 in
    let whole : Settings = record { ip = ip; port = port; log_level = level; log_file = path } in
    let it : ◌≡◌ {A = Run Settings} (returns whole) (returns s) = e4 in
    let same : whole ≡ s = cc in
    (
      has_ip ∙ ap (λ (x : Settings). returns x.ip) same,
      has_port ∙ ap (λ (x : Settings). returns x.port) same,
    )

one_value : (m : Run Bytes) (x y : Bytes) → m ≡ returns x → m ≡ returns y → x ≡ y
one_value m x y e f = let it : ◌≡◌ {A = Run Bytes} (returns x) (returns y) = sym e ∙ f in cc

-- Both programs read one address from one file.
settings-address :
    (file : Option Bytes) (a b : Settings)
    → server_settings file ≡ returns a
    → client_settings file ≡ returns b
    → (a.ip ≡ b.ip) × (a.port ≡ b.port)
unfolding server_settings client_settings
settings-address file a b e f =
    let (ip, port) = load_settings-address file _ _ a e in
    let (ip', port') = load_settings-address file _ _ b f in
    (one_value _ a.ip b.ip ip ip', one_value _ a.port b.port port port')

module _ (e e' : Endian) (inet_addr : Bytes → Bytes) (k k' : Kernel) (man : Manual k)
    (man' : Manual k') where
  -- The server listens at an address, and the client is connected to it.
  pub record Meets (s : k.State) (t : k'.State) (a b : Settings) (n : ℕ) : Type 0 where
    pub server : Server k
    pub served : start_server e inet_addr k s a ≡ went server
    pub client : ℕ × k'.State
    pub joined : start_client e' inet_addr k' t b ≡ went client
    pub addr : Sockaddr
    pub where_at : addr ≡ address inet_addr a.ip n
    pub listens :
        man.see server.kernel
        ≡ up server.listen_fd addr server.epfd server.pipe_read server.pipe_write (man.see s)
    pub connects : man'.see client.1 ≡ linked client.0 addr (man'.see t)

  -- A server and a client that read the same configuration file, on hosts of any byte order, where
  -- `atoi` reads a number from its port, no call of either side fails, and the calls do what their
  -- manual says. Then both start. The server has a socket that is bound and listens, an epoll
  -- instance that watches just it and the reading end of its pipe besides what was watched
  -- before, and five threads more; the client has a socket that is connected; and both are to one
  -- address, that of the file, whose port is the number modulo 2 ^ 16 in network byte order.
  pub start_server-start_client :
      (file : Option Bytes) (a b : Settings) (n : ℕ) (s : k.State) (t : k'.State)
      → server_settings file ≡ returns a
      → client_settings file ≡ returns b
      → atoi a.port ≡ some n
      → ((msg : Bytes) → ¬ Failed k msg)
      → ((msg : Bytes) → ¬ Failed k' msg)
      → Meets s t a b n
  start_server-start_client file a b n s t mine yours read ok ok' =
      let (ip, port) = settings-address file a b mine yours in
      let (r, served, seen) = After-went k _ _ (start_server-Up e inet_addr k man s a n read) ok in
      let (c, joined, seen') =
        After-went k' _ _ (start_client-Up e' inet_addr k' man' t b n (ap atoi (sym port) ∙ read))
          ok' in
      record {
        server = r;
        served = served;
        client = c;
        joined = joined;
        addr = address inet_addr a.ip n;
        where_at = refl;
        listens = seen;
        connects =
            seen' ∙ ap (λ (x : Bytes). linked c.0 (address inet_addr x n) (man'.see t)) (sym ip);
      }
