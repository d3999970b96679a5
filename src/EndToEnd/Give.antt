-- ===== src/EndToEnd/Give.antt =====
-- `handle_gets` of src/server/handle.c from its first line to its last, to a client that answers.
use wind_cloud_v.Base.{
  ℕ, suc, ◌^◌, ◌≤◌, ◌<◌, ◌≡◌, refl, sym, ap, subst, ◌∙◌, Bool, true, false, some, List, [], ◌++◌,
  append_assoc, Bytes, length, drop, ltb, arith,
}
use wind_cloud_v.Wire.Endian.{host_to_net_u64}
use wind_cloud_v.Wire.Stream.Laws.{deliverable, IsWilling}
use wind_cloud_v.Wire.Types.{path_max, CmdType, is_cmd_lem, Status, Packet, Host}
use wind_cloud_v.Wire.Packet.{header_of, send_packet, recv_packet}
use wind_cloud_v.Wire.Packet.Framing.{
  packet_bytes, recv_packet-packet_bytes, recv_packet-frame, send_packet-packet_bytes,
  send_packet-incoming,
}
use wind_cloud_v.Wire.Packet.Blocks.{frames, concat, AllBlocks, HasMemory}
use wind_cloud_v.Server.Path.{resolve_target_path}
use wind_cloud_v.Server.World.{Posix, Documented, Here, Run, returns, ◌>>=◌}
use wind_cloud_v.Server.Reply.{file_info_bytes, send_file_info_packet}
use wind_cloud_v.Server.Reply.Laws.{
  extract_resume_offset_lem, length-file_info_bytes, length-store64,
}
use wind_cloud_v.Server.Download.{gets_loop, gets_end, gets_resume, gets_send, handle_gets}
use wind_cloud_v.Server.Download.Stream.{Streams, gets_loop-Streams}
use wind_cloud_v.EndToEnd.Arrival.{end_bytes}
use wind_cloud_v.EndToEnd.Receive.{recv_follow_packet-some}
use wind_cloud_v.EndToEnd.Store.{resume_bytes}

-- The server announced the file and sent it from an offset on.
pub record Gives (b : Host) (os : Posix) (w : Here os) (arg contents : Bytes) (offset : ℕ)
    (r : Run (Bool × Here os)) : Type 0 where
  pub after : Here os
  pub result : r ≡ returns (true, after)
  pub blocks : List Bytes
  pub whole : concat blocks ≡ drop offset contents
  pub small : AllBlocks blocks
  pub sent :
      after.conn.sent
      ≡ w.conn.sent
        ++ (packet_bytes CmdType.gets_resp Status.status_ok
              (file_info_bytes b arg (length contents))
            ++ (frames blocks ++ end_bytes))

module _ (a b : Host) (same : a.endian ≡ b.endian) (mem : HasMemory b) (os : Posix)
    (doc : Documented os) (contents : Bytes) (offset : ℕ) (bound : offset ≤ length contents)
    (range : length contents < 2 ^ 63) where
  -- The client's answer.
  abbrev resume_packet : Packet
  resume_packet =
      let payload = resume_bytes a offset in
      record {
        header = header_of CmdType.resume_pos Status.status_ok (length payload);
        payload = payload;
      }

  gets_resume-Streams :
      (w : Here os) (path : Bytes)
      → os.file w.disk path ≡ some contents
      → IsWilling w.conn.room
      → (u : Streams os w
          (drop offset contents)
          (gets_loop b os (suc (length contents)) contents (length contents) offset w))
        × (gets_resume b os w path (length contents) resume_packet
            ≡ returns (gets_end b os (true, u.after)))
  unfolding gets_resume
  gets_resume-Streams w path there room =
      let total = length contents in
      let u =
        gets_loop-Streams b os contents total (suc total) offset w (omega arith) refl bound room in
      let at = extract_resume_offset_lem a b resume_packet offset same (omega arith) (refl, refl) in
      let fits : ltb total offset ≡ false = ground arith in
      (
        u,
        rw (is_cmd_lem CmdType.resume_pos, at, fits, there, gets_resume)
            (ap (λ r. r >>= (λ x. returns (gets_end b os x))) u.result),
      )

  gets_send-Gives :
      (w : Here os) (arg path rest : Bytes)
      → length arg < path_max
      → os.file w.disk path ≡ some contents
      → IsWilling w.conn.room
      → deliverable w.conn.incoming
        ≡ packet_bytes CmdType.resume_pos Status.status_ok (resume_bytes a offset) ++ rest
      → Gives b os w arg contents offset (gets_send b os w arg path (length contents))
  unfolding gets_send send_file_info_packet gets_end
  gets_send-Gives w arg path rest short there room e =
      let bytes = file_info_bytes b arg (length contents) in
      let (ok, out, room') =
        send_packet-packet_bytes b w.conn CmdType.gets_resp Status.status_ok bytes
          (omega (arith, length-file_info_bytes b arg (length contents) short)) room in
      let conn = (send_packet b w.conn CmdType.gets_resp Status.status_ok bytes).1 in
      let w' = record w { conn = conn } in
      let (got, next) =
        recv_packet-packet_bytes b conn CmdType.resume_pos Status.status_ok (resume_bytes a offset)
          rest (omega (arith, length-store64 a.endian (host_to_net_u64 a.endian offset))) (mem _)
          (ap deliverable (send_packet-incoming b w.conn CmdType.gets_resp Status.status_ok bytes)
            ∙ e) in
      let heard = recv_follow_packet-some b os w' resume_packet got in
      let (kept, kept_room) = recv_packet-frame b conn in
      let w'' = record w' { conn = (recv_packet b conn).1 } in
      let (u, result) =
        gets_resume-Streams w'' path there (subst IsWilling (sym kept_room) room') in
      let end =
        send_packet-packet_bytes b u.after.conn CmdType.file_end Status.status_ok [] (omega arith)
          u.room in
      record {
        after = (gets_end b os (true, u.after)).1;
        result =
            rw (ok, ap (λ x. x.0) heard, ap (λ x. x.1) heard, gets_send)
              (result ∙ ap (λ (x : Bool). returns (x, (gets_end b os (true, u.after)).1)) end.0);
        blocks = u.blocks;
        whole = u.whole;
        small = u.small;
        sent =
            end.1
            ∙ ap (λ (x : Bytes). x ++ end_bytes) u.sent
            ∙ append_assoc w''.conn.sent (frames u.blocks) end_bytes
            ∙ ap (λ (x : Bytes). x ++ (frames u.blocks ++ end_bytes)) (kept ∙ out)
            ∙ append_assoc w.conn.sent _ _;
      }

  pub handle_gets-Gives :
      (w : Here os) (arg target path rest : Bytes)
      → length arg < path_max
      → resolve_target_path w.session.current_path arg ≡ some (target, path)
      → os.open_read w.disk path ≡ true
      → os.file w.disk path ≡ some contents
      → IsWilling w.conn.room
      → deliverable w.conn.incoming
        ≡ packet_bytes CmdType.resume_pos Status.status_ok (resume_bytes a offset) ++ rest
      → Gives b os w arg contents offset (handle_gets b os w arg)
  unfolding handle_gets
  handle_gets-Gives w arg target path rest short at opens there room e =
      rw (at, opens, doc.fstat-file w.disk path contents there, handle_gets)
        (gets_send-Gives w arg path rest short there room e)
