-- ===== src/EndToEnd/Command.antt =====
-- A command of `handle_simple_command` of src/client/client_command_handle.c, through
-- `dispatch_command` of src/server/handle.c and back.
use wind_cloud_v.Base.{
  ◌≤◌, ◌<◌, ◌≡◌, refl, sym, ap, subst, ◌∙◌, Bool, true, false, some, [], ◌∷◌, ◌++◌, Bytes, length,
  drop, drop-append_length, length-append, arith,
}
use wind_cloud_v.Wire.Stream.Laws.{deliverable, IsWilling}
use wind_cloud_v.Wire.Types.{
  path_max, max_text_payload, max_packet_payload, CmdType, cmd_of-cmd_code, Status, Packet, Host,
}
use wind_cloud_v.Wire.Packet.{header_of, send_packet, recv_packet}
use wind_cloud_v.Wire.Packet.Framing.{
  packet_bytes, send_packet-packet_bytes, send_packet-incoming, recv_packet-send_packet,
  recv_packet-frame,
}
use wind_cloud_v.Wire.Packet.Blocks.{HasMemory}
use wind_cloud_v.Server.Reply.Laws.{NoNul}
use wind_cloud_v.Server.World.{Posix, Here, returns}
use wind_cloud_v.Server.Reply.{text, error, copy_string_payload}
use wind_cloud_v.Server.Reply.Laws.{copy_string_payload_lem}
use wind_cloud_v.Server.Commands.{handle_pwd, handle_cd, handle_ls, handle_rm, handle_mkdir}
use wind_cloud_v.Server.Commands.Answer.{Answered, IsReply, reply, commands-Answered}
use wind_cloud_v.Server.Request.{with_arg, dispatch, dispatch_command}
use wind_cloud_v.Client.World.{Line, Client, say}
use wind_cloud_v.Client.Simple.{simple_payload, handle_simple_command}
use wind_cloud_v.Client.Simple.Reply.{reply_type, shown, recv_text_response-reply}

-- The commands that are answered with one packet.
abbrev pub IsSimple : CmdType → Type 0
IsSimple CmdType.pwd = Unit
IsSimple CmdType.ls = Unit
IsSimple CmdType.cd = Unit
IsSimple CmdType.rm = Unit
IsSimple CmdType.mkdir = Unit
IsSimple _ = ⊥

-- The packet that carries a request.
abbrev pub request_packet : CmdType → Bytes → Packet
request_packet type arg = record {
  header = header_of type Status.status_ok (length (simple_payload arg));
  payload = simple_payload arg;
}

module _ (host : Host) (os : Posix) where
  -- A command that needs its argument.
  abbrev given : Here os → Bytes → Bytes → (Bytes → Bool × Here os) → Bool × Here os
  given w missing [] handle = error host w Status.bad_request missing
  given w missing (c ∷ s) handle = handle (c ∷ s)

  -- What a request asks of the server.
  unfoldable pub asked : Here os → CmdType → Bytes → Bool × Here os
  asked w CmdType.pwd arg = handle_pwd host os w
  asked w CmdType.ls arg = handle_ls host os w
  asked w CmdType.cd arg = given w (text "cd 缺少目录参数") arg (handle_cd host os w)
  asked w CmdType.rm arg = given w (text "rm 缺少文件名") arg (handle_rm host os w)
  asked w CmdType.mkdir arg = given w (text "mkdir 缺少目录名") arg (handle_mkdir host os w)
  asked w _ arg = (false, w)

  with_arg-given :
      (w : Here os) (type : CmdType) (missing arg : Bytes) (handle : Bytes → Bool × Here os)
      → NoNul arg
      → length arg < path_max
      → with_arg host os w (request_packet type arg) missing (λ a. returns (handle a))
        ≡ returns (given w missing arg handle)
  unfolding with_arg copy_string_payload
  with_arg-given w type missing [] handle clean short = refl
  with_arg-given w type missing (c ∷ s) handle clean short =
      rw
        (
          copy_string_payload_lem (request_packet type (c ∷ s)) (c ∷ s) (λ e. cc) clean short
              (refl, refl),
          with_arg,
        )
        refl

  module _ (w : Here os) where
    dispatch-asked :
        (type : CmdType) (arg : Bytes)
        → IsSimple type
        → NoNul arg
        → length arg < path_max
        → dispatch host os (some type) w (request_packet type arg) ≡ returns (asked w type arg)
    unfolding dispatch asked
    dispatch-asked CmdType.pwd arg simple clean short = refl
    dispatch-asked CmdType.ls arg simple clean short = refl
    dispatch-asked CmdType.cd arg simple clean short =
        with_arg-given w _ _ arg (handle_cd host os w) clean short
    dispatch-asked CmdType.rm arg simple clean short =
        with_arg-given w _ _ arg (handle_rm host os w) clean short
    dispatch-asked CmdType.mkdir arg simple clean short =
        with_arg-given w _ _ arg (handle_mkdir host os w) clean short
    dispatch-asked _ arg simple clean short = absurd simple

    -- The server does what the request asks.
    dispatch_command-asked :
        (type : CmdType) (arg : Bytes)
        → IsSimple type
        → NoNul arg
        → length arg < path_max
        → dispatch_command host os w (request_packet type arg) ≡ returns (asked w type arg)
    unfolding dispatch_command
    dispatch_command-asked type arg simple clean short =
        rw (cmd_of-cmd_code type, dispatch_command) (dispatch-asked type arg simple clean short)

    module _ (room : IsWilling w.conn.room) (short : length w.session.current_path < path_max) where
      given-Answered :
          (missing arg : Bytes) (handle : Bytes → Bool × Here os)
          → length missing < max_text_payload
          → ((a : Bytes) → Answered w (handle a))
          → Answered w (given w missing arg handle)
      given-Answered missing [] handle small h = reply host os w room w _ _ missing refl tt small
      given-Answered missing (c ∷ s) handle small h = h (c ∷ s)

      asked-Answered :
          (type : CmdType) (arg : Bytes) → IsSimple type → Answered w (asked w type arg)
      unfolding asked text
      asked-Answered CmdType.pwd arg simple = (commands-Answered host os w room short).0
      asked-Answered CmdType.ls arg simple = (commands-Answered host os w room short).1
      asked-Answered CmdType.cd arg simple =
          given-Answered _ arg _ (omega arith)
            (λ a. ((commands-Answered host os w room short).2 a).0)
      asked-Answered CmdType.rm arg simple =
          given-Answered _ arg _ (omega arith)
            (λ a. ((commands-Answered host os w room short).2 a).1)
      asked-Answered CmdType.mkdir arg simple =
          given-Answered _ arg _ (omega arith)
            (λ a. ((commands-Answered host os w room short).2 a).2)
      asked-Answered _ arg simple = absurd simple

-- A command that was carried out and answered: the server took the request and did what it asks, and
-- the client printed the message that the server sent.
pub record Exchanged (a b : Host) (os : Posix) {Disk : Type 0} (type : CmdType) (arg : Bytes)
    (c : Client Disk) (w v : Here os) : Type 0 where
  pub taken : (recv_packet b w.conn).0 ≡ some (request_packet type arg)
  pub done :
      dispatch_command b os (record w { conn = (recv_packet b w.conn).1 }) (request_packet type arg)
      ≡ returns (true, v)
  pub answer : CmdType
  pub status : Status
  pub message : Bytes
  pub sent : v.conn.sent ≡ w.conn.sent ++ packet_bytes answer status (message ++ 0 ∷ [])
  pub after : Client Disk
  pub shows : handle_simple_command a c (record { type = type; arg = arg }) ≡ returns (true, after)
  pub printed : after.printed ≡ c.printed ++ Line.text (shown message) ∷ []

-- An argument fits a packet.
payload_le :
    (arg : Bytes) → length arg < path_max → length (simple_payload arg) ≤ max_packet_payload
payload_le [] h = omega arith
payload_le (x ∷ s) h = omega (arith, h, length-append (x ∷ s) (0 ∷ []))

reply_type-IsReply :
    (type : CmdType) → IsReply type → (refused : Bool) × (reply_type refused ≡ type)
reply_type-IsReply CmdType.ack h = (false, refl)
reply_type-IsReply CmdType.error h = (true, refl)
reply_type-IsReply _ h = absurd h

module _ (a b : Host) (os : Posix) {Disk : Type 0} (mem : HasMemory a) (mem' : HasMemory b)
    (type : CmdType) (arg : Bytes) (simple : IsSimple type) (clean : NoNul arg)
    (small : length arg < path_max) where
  -- A command of one packet, from the client to the server and back, where both hosts have memory.
  -- The client sends `pwd`, `ls`, `cd`, `rm` or `mkdir` with an argument of fewer than 4096 bytes
  -- and no NUL, over a kernel that takes bytes at each `write`; the server, whose kernel does so
  -- too and whose current path fits its buffer, receives it, cut in any way, and what it sends
  -- back reaches the client, cut in any way. Then the server takes the client's request, does what
  -- `asked` says for its type and argument, returns 0 and sends one packet of text, and the client
  -- returns 0 and prints that text up to its first NUL.
  pub handle_simple_command-asked :
      (rest rest' : Bytes) (c : Client Disk) (w : Here os)
      → IsWilling c.conn.room
      → IsWilling w.conn.room
      → length w.session.current_path < path_max
      → deliverable w.conn.incoming
        ≡ drop
            (length c.conn.sent)
            (send_packet a c.conn type Status.status_ok (simple_payload arg)).1.sent
          ++ rest
      → deliverable c.conn.incoming
        ≡ drop
            (length w.conn.sent)
            (asked b os (record w { conn = (recv_packet b w.conn).1 }) type arg).1.conn.sent
          ++ rest'
      → Exchanged a b os type arg c w
          (asked b os (record w { conn = (recv_packet b w.conn).1 }) type arg).1
  unfolding handle_simple_command
  handle_simple_command-asked rest rest' c w open_ ready short e e' =
      let out =
        send_packet-packet_bytes a c.conn type Status.status_ok (simple_payload arg)
          (payload_le arg small) open_ in
      let (got, left) =
        recv_packet-send_packet a b c.conn w.conn type Status.status_ok (simple_payload arg) rest
          (payload_le arg small) open_ (mem' _) e in
      let w' = record w { conn = (recv_packet b w.conn).1 } in
      let v = asked b os w' type arg in
      let (kept, room) = recv_packet-frame b w.conn in
      let r = asked-Answered b os w' (subst IsWilling (sym room) ready) short type arg simple in
      let (refused, kind) = reply_type-IsReply r.type r.plain in
      let sent : v.1.conn.sent ≡ w.conn.sent ++ packet_bytes r.type r.status (r.message ++ 0 ∷ []) =
        r.sent ∙ ap (λ (x : Bytes). x ++ packet_bytes r.type r.status (r.message ++ 0 ∷ [])) kept in
      let conn = (send_packet a c.conn type Status.status_ok (simple_payload arg)).1 in
      let back : deliverable conn.incoming
          ≡ packet_bytes (reply_type refused) r.status (r.message ++ 0 ∷ []) ++ rest' =
        ap deliverable (send_packet-incoming a c.conn type Status.status_ok (simple_payload arg))
        ∙ e'
        ∙ ap (λ (x : Bytes). drop (length w.conn.sent) x ++ rest') sent
        ∙ ap (λ (x : Bytes). x ++ rest') (drop-append_length _ w.conn.sent _ refl)
        ∙ ap (λ t. packet_bytes t r.status (r.message ++ 0 ∷ []) ++ rest') (sym kind) in
      let c' = record c { conn = conn } in
      record {
        taken = got;
        done =
            dispatch_command-asked b os w' type arg simple clean small
            ∙ ap (λ (x : Bool). returns (x, v.1)) r.ok;
        answer = r.type;
        status = r.status;
        message = r.message;
        sent = sent;
        after = say (Line.text (shown r.message)) (record c' { conn = (recv_packet a conn).1 });
        shows =
            rw
              (
                out.0,
                handle_simple_command,
                recv_text_response-reply a mem refused r.status r.message rest' c'
                    (omega (arith, r.short)) back,
              )
              refl;
        printed = refl;
      }
