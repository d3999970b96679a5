-- ===== src/EndToEnd/Retrieval.antt =====
-- A download from the client's `handle_gets` to the server's and back.
use wind_cloud_v.Base.{
  ℕ, ◌^◌, ◌≤◌, ◌<◌, ◌≡◌, ◌≢◌, refl, sym, ap, subst, ◌∙◌, Bool, true, some, [], ◌∷◌, ◌++◌,
  append_assoc, Bytes, length, take, drop, drop-append_length, length-append, arith,
}
use wind_cloud_v.Wire.Stream.Laws.{deliverable, IsWilling}
use wind_cloud_v.Wire.Types.{path_max, CmdType, cmd_of-cmd_code, Status, Packet, Host}
use wind_cloud_v.Wire.Packet.{header_of, recv_packet}
use wind_cloud_v.Wire.Packet.Framing.{packet_bytes, recv_packet-packet_bytes, recv_packet-frame}
use wind_cloud_v.Wire.Packet.Blocks.{frames, HasMemory}
use wind_cloud_v.Server.Path.{resolve_target_path}
use wind_cloud_v.Server.World.{Posix, Documented, Here, Run, returns, left_by}
use wind_cloud_v.Server.Reply.{file_info_bytes}
use wind_cloud_v.Server.Reply.Laws.{
  NoNul, copy_string_payload_lem, length-file_info_bytes, file_info_bytes-size,
}
use wind_cloud_v.Server
use wind_cloud_v.Server.Request.{with_arg, dispatch, dispatch_command}
use wind_cloud_v.Client.World.{Calls, Written, Mine, downloaded}
use wind_cloud_v.Client.Download.{handle_gets}
use wind_cloud_v.EndToEnd.Arrival.{end_bytes}
use wind_cloud_v.EndToEnd.Store.{resume_bytes}
use wind_cloud_v.EndToEnd.Fetch.{handle_gets-Takes}
use wind_cloud_v.EndToEnd.Give.{handle_gets-Gives}

-- What the client sends for a download that succeeds.
abbrev pub asks : Host → Bytes → ℕ → Bytes
asks host arg offset =
    packet_bytes CmdType.gets_req Status.status_ok (arg ++ 0 ∷ [])
    ++ packet_bytes CmdType.resume_pos Status.status_ok (resume_bytes host offset)

-- The packet of the request.
abbrev pub request : Bytes → Packet
request arg = record {
  header = header_of CmdType.gets_req Status.status_ok (length (arg ++ 0 ∷ []));
  payload = arg ++ 0 ∷ [];
}

-- What the server makes of the request.
abbrev pub serves : (b : Host) (os : Posix) → Here os → Bytes → Run (Bool × Here os)
serves b os w arg =
    dispatch_command b os (record w { conn = (recv_packet b w.conn).1 }) (request arg)

-- Both sides of a download that succeeded.
pub record Fetched (a b : Host) (os os' : Posix) (arg contents left : Bytes) (c : Mine os')
    (w : Here os) (offset : ℕ) (r : Run (Bool × Mine os')) : Type 0 where
  pub taken : (recv_packet b w.conn).0 ≡ some (request arg)
  pub served : serves b os w arg ≡ returns (true, left_by w (serves b os w arg))
  pub after : Mine os'
  pub result : r ≡ returns (true, after)
  pub file : os'.file after.disk arg ≡ some contents
  pub sent : after.conn.sent ≡ c.conn.sent ++ asks a arg offset
  pub printed : after.printed ≡ c.printed ++ downloaded arg (length contents) ∷ []
  pub remains : deliverable after.conn.incoming ≡ left

module _ (a b : Host) (same : a.endian ≡ b.endian) (mem : HasMemory a) (mem' : HasMemory b)
    (os os' : Posix) (calls : Calls os') (written : Written os' calls) (doc : Documented os)
    (doc' : Documented os') (arg contents : Bytes) (named : arg ≢ []) (clean : NoNul arg)
    (short : length arg < path_max) (range : length contents < 2 ^ 63) where
  -- The switch takes the request to `handle_gets`.
  served_by :
      (w : Here os) → dispatch_command b os w (request arg) ≡ Server.Download.handle_gets b os w arg
  unfolding dispatch_command dispatch with_arg
  served_by w =
      rw
        (
          cmd_of-cmd_code CmdType.gets_req,
          copy_string_payload_lem (request arg) arg named clean short (refl, refl),
          dispatch_command,
          dispatch,
          with_arg,
        )
        refl

  -- A whole download, from a server of the same byte order, where both hosts have memory and both
  -- file systems do what their manual says. The name is not empty, has no NUL and is shorter than
  -- 4096 bytes; the client can create and position the file of that name, whose bytes are the
  -- first ones of the server's; the server resolves the name to a file that opens and has less
  -- than 2 ^ 63 bytes; and each `write` takes bytes. What the server sends reaches the client, and
  -- what the server hears is what the client sends on success, both cut in any way. Then the
  -- server takes the request, and `dispatch_command` returns 0; the client's `handle_gets` returns
  -- 0, reports the download, sends just what the server heard, and its file is the server's.
  pub handle_gets-handle_gets :
      (target path held left rest : Bytes) (c : Mine os') (d : os'.Disk) (w : Here os)
      → os'.open_create c.disk arg ≡ some d
      → os'.file d arg ≡ some held
      → length held ≤ length contents
      → held ≡ take (length held) contents
      → calls.lseek d arg (length held) ≡ true
      → IsWilling c.conn.room
      → IsWilling c.writes
      → resolve_target_path w.session.current_path arg ≡ some (target, path)
      → os.open_read w.disk path ≡ true
      → os.file w.disk path ≡ some contents
      → IsWilling w.conn.room
      → deliverable w.conn.incoming ≡ asks a arg (length held) ++ rest
      → deliverable c.conn.incoming
        ≡ drop (length w.conn.sent) (left_by w (serves b os w arg)).conn.sent ++ left
      → Fetched a b os os' arg contents left c w (length held) (handle_gets a os' calls c arg)
  handle_gets-handle_gets target path held left rest c d w made stored bound prefix set room writes
        at opens there ready hears arrives =
      let (got, next) =
        recv_packet-packet_bytes b w.conn CmdType.gets_req Status.status_ok (arg ++ 0 ∷ [])
          (packet_bytes CmdType.resume_pos Status.status_ok (resume_bytes a (length held)) ++ rest)
          (omega (arith, short, length-append arg (0 ∷ []))) (mem' _)
          (hears
            ∙ append_assoc (packet_bytes CmdType.gets_req Status.status_ok (arg ++ 0 ∷ []))
                (packet_bytes CmdType.resume_pos Status.status_ok (resume_bytes a (length held)))
                rest) in
      let (kept, kept_room) = recv_packet-frame b w.conn in
      let w' = record w { conn = (recv_packet b w.conn).1 } in
      let u =
        handle_gets-Gives a b same mem' os doc contents (length held) bound range w' arg target path
          rest short at opens there (subst IsWilling (sym kept_room) ready) next in
      let info = file_info_bytes b arg (length contents) in
      let result : serves b os w arg ≡ returns (true, u.after) = served_by w' ∙ u.result in
      let same_end : left_by w (serves b os w arg) ≡ u.after = ap (left_by w) result in
      let heard : deliverable c.conn.incoming
          ≡ packet_bytes CmdType.gets_resp Status.status_ok info
            ++ (frames u.blocks ++ (end_bytes ++ left)) =
        arrives
        ∙ ap (λ (x : Here os). drop (length w.conn.sent) x.conn.sent ++ left) same_end
        ∙ ap (λ (x : Bytes). drop (length w.conn.sent) x ++ left)
            (u.sent
              ∙ ap
                  (λ (x : Bytes).
                    x
                    ++ (packet_bytes CmdType.gets_resp Status.status_ok info
                        ++ (frames u.blocks ++ end_bytes)))
                  kept)
        ∙ ap (λ (x : Bytes). x ++ left) (drop-append_length _ w.conn.sent _ refl)
        ∙ append_assoc (packet_bytes CmdType.gets_resp Status.status_ok info)
            (frames u.blocks ++ end_bytes) left
        ∙ ap (λ (x : Bytes). packet_bytes CmdType.gets_resp Status.status_ok info ++ x)
            (append_assoc (frames u.blocks) end_bytes left) in
      let v =
        handle_gets-Takes a os' calls doc' written mem arg contents left u.blocks u.small range info
          Status.status_ok (length-file_info_bytes b arg (length contents) short)
          (file_info_bytes-size a b arg (length contents) same short (omega (arith, range))) c d
          held made stored short bound prefix u.whole set room writes heard in
      record {
        taken = got;
        served = result ∙ ap (λ (x : Here os). returns (true, x)) (sym same_end);
        after = v.after;
        result = v.result;
        file = v.file;
        sent = v.sent;
        printed = v.printed;
        remains = v.left;
      }
