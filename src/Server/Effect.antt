-- ===== src/Server/Effect.antt =====
-- What a step of a handler of src/server/handle.c may change.
use wind_cloud_v.Base.{
  ℕ, ◌+◌, ◌≤◌, ◌<◌, ◌≡◌, ap, subst, ◌∙◌, Bool, some, Option-cases, inl, inr, List, ◌++◌, ◌∷◌, [],
  Bytes, length, length-append, take_all, arith,
}
use wind_cloud_v.Wire.Stream.{Conn, pending}
use wind_cloud_v.Wire.Types.{path_max, CmdType, Status, Host}
use wind_cloud_v.Wire.Packet.{recv_packet, send_packet}
use wind_cloud_v.Wire.Packet.Framing.{send_packet-incoming, recv_packet-pending, taken_packet}
use wind_cloud_v.Wire.Command.{snprintf}
use wind_cloud_v.Server.Path.{server_base_dir, resolve_target_path}
use wind_cloud_v.Server.Path.Canonical.{AllNames, below_root, path_of}
use wind_cloud_v.Server.Path.Walk.{Fits}
use wind_cloud_v.Server.Path.Sandbox.{resolve_target_path-IsInside}
use wind_cloud_v.Server.World.{
  Session, Posix, World, Here, closing, Run, returns, overread, out_of_fuel,
}
use wind_cloud_v.Server.Reply.{send_text_reply, recv_follow_packet}

-- A current path the server can be in: names below the root, with room for the NUL.
pub record IsSession (s : Session) : Type 0 where
  pub stack : List Bytes
  pub names : AllNames stack
  pub path : s.current_path ≡ path_of stack
  pub fits : Fits stack

-- A real path in the served directory.
abbrev pub IsUnder : Bytes → Type 0
IsUnder q = (st : List Bytes) × AllNames st × (q ≡ server_base_dir ++ below_root st)

-- The disks that calls of the file system lead to, each call on a path in the served directory.
pub data Touched (os : Posix) (d : os.Disk) : os.Disk → Type 0 where
  untouched : Touched os d d
  removed :
      {e f : os.Disk} (p : Bytes)
      → Touched os d e
      → IsUnder p
      → os.remove e p ≡ some f
      → Touched os d f
  made :
      {e f : os.Disk} (p : Bytes)
      → Touched os d e
      → IsUnder p
      → os.mkdir e p ≡ some f
      → Touched os d f
  opened :
      {e f : os.Disk} (p : Bytes)
      → Touched os d e
      → IsUnder p
      → os.open_create e p ≡ some f
      → Touched os d f
  resized :
      {e f : os.Disk} (p : Bytes) (n : ℕ)
      → Touched os d e
      → IsUnder p
      → os.ftruncate e p n ≡ some f
      → Touched os d f
  stored :
      {e f : os.Disk} (p : Bytes) (off : ℕ) (new : Bytes)
      → Touched os d e
      → IsUnder p
      → os.store e p off new ≡ f
      → Touched os d f

Touched-trans : {os : Posix} {d e f : os.Disk} → Touched os d e → Touched os e f → Touched os d f
Touched-trans a Touched.untouched = a
Touched-trans a (Touched.removed p b under e) = Touched.removed p (Touched-trans a b) under e
Touched-trans a (Touched.made p b under e) = Touched.made p (Touched-trans a b) under e
Touched-trans a (Touched.opened p b under e) = Touched.opened p (Touched-trans a b) under e
Touched-trans a (Touched.resized p n b under e) = Touched.resized p n (Touched-trans a b) under e
Touched-trans a (Touched.stored p off new b under e) =
    Touched.stored p off new (Touched-trans a b) under e

pub record Effect (os : Posix) (w w' : Here os) : Type 0 where
  pub session : IsSession w.session → IsSession w'.session
  pub files : Touched os w.disk w'.disk
  pub input : pending w'.conn.incoming ≤ pending w.conn.incoming

-- A handler ends in the model's fuel, and with such an effect if it returns.
abbrev pub Keeps : (os : Posix) → Here os → Run (Bool × Here os) → Type 0
Keeps os w (returns r) = Effect os w r.1
Keeps os w overread = Unit
Keeps os w out_of_fuel = ⊥

module _ {os : Posix} where
  pub Effect-refl : (w : Here os) → Effect os w w
  Effect-refl w = record { session = λ s. s; files = Touched.untouched; input = omega arith }

  pub Effect-trans : {u v w : Here os} → Effect os u v → Effect os v w → Effect os u w
  Effect-trans a b = record {
    session = λ s. b.session (a.session s);
    files = Touched-trans a.files b.files;
    input = omega (arith, a.input, b.input);
  }

  pub Keeps-trans :
      {u v : Here os} (r : Run (Bool × Here os)) → Effect os u v → Keeps os v r → Keeps os u r
  Keeps-trans (returns r) a k = Effect-trans a k
  Keeps-trans overread a k = tt
  Keeps-trans out_of_fuel a k = k

  pub Effect-conn :
      (w : Here os) (c : Conn)
      → pending c.incoming ≤ pending w.conn.incoming
      → Effect os w (record w { conn = c })
  Effect-conn w c h = record { session = λ s. s; files = Touched.untouched; input = h }

  pub Effect-disk :
      (w : Here os) (d : os.Disk) → Touched os w.disk d → Effect os w (record w { disk = d })
  Effect-disk w d files = record { session = λ s. s; files = files; input = omega arith }

  pub Effect-closing : (w : Here os) → Effect os w (closing w)
  Effect-closing w = record {
    session = λ s. record { stack = s.stack; names = s.names; path = s.path; fits = s.fits };
    files = Touched.untouched;
    input = omega arith;
  }

  module _ (host : Host) (w : Here os) where
    pub send_packet-Effect :
        (t : CmdType) (s : Status) (payload : Bytes)
        → Effect os w (record w { conn = (send_packet host w.conn t s payload).1 })
    send_packet-Effect t s payload =
        Effect-conn w _ (omega (arith, ap pending (send_packet-incoming host w.conn t s payload)))

    pub send_text_reply-Effect :
        (t : CmdType) (s : Status) (msg : Bytes) → Effect os w (send_text_reply host w t s msg).1
    unfolding send_text_reply
    send_text_reply-Effect t s msg = send_packet-Effect t s (msg ++ 0 ∷ [])

    pub recv_packet-Effect : Effect os w (record w { conn = (recv_packet host w.conn).1 })
    recv_packet-Effect = Effect-conn w _ (omega (arith, recv_packet-pending host w.conn))

    pub recv_follow_packet-Effect : Effect os w (recv_follow_packet host w).1
    unfolding recv_follow_packet
    recv_follow_packet-Effect = elim (Option-cases (recv_packet host w.conn).0) [
      | inl bad ↦ rw (bad, recv_follow_packet) (Effect-trans recv_packet-Effect (Effect-closing _))
      | inr (p, got) ↦ rw (got, recv_follow_packet) recv_packet-Effect
    ]

module _ {Disk : Type 0} (host : Host) (w : World Disk) where
  -- A packet that arrives takes 20 bytes at least.
  pub recv_follow_packet-pending :
      pending (recv_follow_packet host w).1.conn.incoming
        + taken_packet (recv_follow_packet host w).0
      ≤ pending w.conn.incoming
  unfolding recv_follow_packet
  recv_follow_packet-pending =
      let rest = pending (recv_packet host w.conn).1.incoming in
      elim (Option-cases (recv_packet host w.conn).0) [
        | inl bad ↦ rw (bad, recv_follow_packet) (omega (arith, recv_packet-pending host w.conn))
        | inr (p, got) ↦
            rw (got, recv_follow_packet)
              (subst (λ r. rest + taken_packet r ≤ pending w.conn.incoming) got
                (recv_packet-pending host w.conn))
      ]

Fits-of_real : (st : List Bytes) → length (server_base_dir ++ below_root st) < path_max → Fits st
Fits-of_real [] h = omega arith
Fits-of_real (t ∷ st) h = omega (arith, length-append server_base_dir (below_root (t ∷ st)))

-- The target of an argument is under the served directory.
pub target-IsUnder :
    (current arg v r : Bytes) → resolve_target_path current arg ≡ some (v, r) → IsUnder r
target-IsUnder current arg v r e =
    let t = resolve_target_path-IsInside current arg v r e in (t.stack, t.names, t.real)

-- A target is a path that a session can change to.
pub target-IsSession :
    (s : Session) (arg v r : Bytes)
    → resolve_target_path s.current_path arg ≡ some (v, r)
    → IsSession (record s { current_path = snprintf path_max v })
target-IsSession s arg v r e =
    let t = resolve_target_path-IsInside s.current_path arg v r e in
    let fits = Fits-of_real t.stack (subst (λ (x : Bytes). length x < path_max) t.real t.fits) in
    record {
      stack = t.stack;
      names = t.names;
      path = take_all 4095 v (omega (arith, ap length t.virtual, fits)) ∙ t.virtual;
      fits = fits;
    }
