-- ===== src/EndToEnd/Fetch.antt =====
-- `handle_gets` of src/client/client_command_handle.c from its first line to its last, against a server
-- that answers.
use wind_cloud_v.Base.{
  ◌^◌, ◌≤◌, ◌<◌, ◌≡◌, refl, sym, ap, subst, ◌∙◌, Bool, true, false, some, List, [], ◌∷◌, ◌++◌,
  append_assoc, Bytes, length, take, drop, length-append, length-drop, take-append-drop, ltb, arith,
}
use wind_cloud_v.Wire.Endian.{load64, host_to_net_u64, net_to_host_u64}
use wind_cloud_v.Wire.Stream.Laws.{deliverable, IsWilling}
use wind_cloud_v.Wire.Types.{path_max, CmdType, cmd_code, is_cmd, Status, Packet, Host}
use wind_cloud_v.Wire.Packet.{header_of, send_packet, recv_packet}
use wind_cloud_v.Wire.Packet.Framing.{
  packet_bytes, recv_packet-packet_bytes, recv_packet-frame, send_packet-packet_bytes,
  send_packet-incoming,
}
use wind_cloud_v.Wire.Packet.Blocks.{frames, concat, AllBlocks, HasMemory}
use wind_cloud_v.Server.World.{Posix, Documented, Run, returns, ◌>>=◌, rounds}
use wind_cloud_v.Server.Reply.{file_info_size}
use wind_cloud_v.Server.Reply.Laws.{length-store64}
use wind_cloud_v.Client.World.{Calls, Written, Mine, Line, downloaded}
use wind_cloud_v.Client.Download.{gets_end, gets_from, gets_open, gets_answer, handle_gets}
use wind_cloud_v.EndToEnd.Arrival.{end_bytes, few_blocks}
use wind_cloud_v.EndToEnd.Store.{resume_bytes}
use wind_cloud_v.Client.Download.Contents.{gets_blocks-Received}

-- The client received the file and reported it.
pub record Takes (os : Posix) (c : Mine os) (path contents rest out : Bytes)
    (r : Run (Bool × Mine os)) : Type 0 where
  pub after : Mine os
  pub result : r ≡ returns (true, after)
  pub file : os.file after.disk path ≡ some contents
  pub sent : after.conn.sent ≡ c.conn.sent ++ out
  pub printed : after.printed ≡ c.printed ++ downloaded path (length contents) ∷ []
  pub left : deliverable after.conn.incoming ≡ rest

module _ (host : Host) (os : Posix) (calls : Calls os) (doc : Documented os)
    (written : Written os calls) (mem : HasMemory host) (path contents rest : Bytes)
    (blocks : List Bytes) (small : AllBlocks blocks) (range : length contents < 2 ^ 63) where
  gets_from-Takes :
      (c : Mine os) (held : Bytes)
      → os.file c.disk path ≡ some held
      → length held ≤ length contents
      → held ≡ take (length held) contents
      → concat blocks ≡ drop (length held) contents
      → calls.lseek c.disk path (length held) ≡ true
      → IsWilling c.conn.room
      → IsWilling c.writes
      → deliverable c.conn.incoming ≡ frames blocks ++ (end_bytes ++ rest)
      → Takes os c path contents rest
          (packet_bytes CmdType.resume_pos Status.status_ok (resume_bytes host (length held)))
          (gets_from host os calls c path (length contents) (length held))
  unfolding gets_from gets_end
  gets_from-Takes c held there bound prefix whole set room writes e =
      let payload = resume_bytes host (length held) in
      let (ok, out, room') =
        send_packet-packet_bytes host c.conn CmdType.resume_pos Status.status_ok payload
          (omega (arith, length-store64 host.endian (host_to_net_u64 host.endian (length held))))
          room in
      let conn = (send_packet host c.conn CmdType.resume_pos Status.status_ok payload).1 in
      let c' = record c { conn = conn } in
      let e' =
        ap deliverable
          (send_packet-incoming host c.conn CmdType.resume_pos Status.status_ok payload)
        ∙ e in
      let u =
        gets_blocks-Received host os calls written mem path rest (rounds conn) blocks c' held
          (few_blocks blocks rest conn (rounds conn) e' (omega arith)) small
          (omega (arith, range, ap length whole, length-drop (length held) contents, bound)) there
          writes e' in
      record {
        after = (gets_end host os calls path (length contents) (true, u.after)).1;
        result =
            rw (set, ok, gets_from)
              (ap (λ r. r >>= (λ x. returns (gets_end host os calls path (length contents) x)))
                u.result);
        file =
            u.file
            ∙ ap some (
                ap (λ (x : Bytes). held ++ x) whole
                ∙ ap (λ (x : Bytes). x ++ drop (length held) contents) prefix
                ∙ take-append-drop (length held) contents);
        sent = u.sent ∙ out;
        printed = ap (λ (x : List Line). x ++ downloaded path (length contents) ∷ []) u.printed;
        left = u.left;
      }

  gets_open-Takes :
      (c : Mine os) (held : Bytes)
      → os.file c.disk path ≡ some held
      → length held ≤ length contents
      → held ≡ take (length held) contents
      → concat blocks ≡ drop (length held) contents
      → calls.lseek c.disk path (length held) ≡ true
      → IsWilling c.conn.room
      → IsWilling c.writes
      → deliverable c.conn.incoming ≡ frames blocks ++ (end_bytes ++ rest)
      → Takes os c path contents rest
          (packet_bytes CmdType.resume_pos Status.status_ok (resume_bytes host (length held)))
          (gets_open host os calls c path (length contents))
  unfolding gets_open
  gets_open-Takes c held there bound prefix whole set room writes e =
      let fits : ltb (length contents) (length held) ≡ false = ground arith in
      rw (doc.fstat-file c.disk path held there, gets_open, fits)
        (gets_from-Takes c held there bound prefix whole set room writes e)

  module _ (bytes : Bytes) (status : Status) (sized : length bytes ≡ file_info_size)
      (means : net_to_host_u64 host.endian (load64 host.endian (drop path_max bytes))
        ≡ length contents) where
    -- The answer to the request.
    abbrev answer : Packet
    answer = record { header = header_of CmdType.gets_resp status (length bytes); payload = bytes }

    pub gets_answer-open :
        (c : Mine os) (d : os.Disk)
        → os.open_create c.disk path ≡ some d
        → gets_answer host os calls c path answer
          ≡ gets_open host os calls (record c { disk = d }) path (length contents)
    unfolding gets_answer is_cmd cmd_code
    gets_answer-open c d made = rw (sized, made, means, gets_answer) refl

    pub handle_gets-Takes :
        (c : Mine os) (d : os.Disk) (held : Bytes)
        → os.open_create c.disk path ≡ some d
        → os.file d path ≡ some held
        → length path < path_max
        → length held ≤ length contents
        → held ≡ take (length held) contents
        → concat blocks ≡ drop (length held) contents
        → calls.lseek d path (length held) ≡ true
        → IsWilling c.conn.room
        → IsWilling c.writes
        → deliverable c.conn.incoming
          ≡ packet_bytes CmdType.gets_resp status bytes ++ (frames blocks ++ (end_bytes ++ rest))
        → Takes os c path contents rest
            (packet_bytes CmdType.gets_req Status.status_ok (path ++ 0 ∷ [])
              ++ packet_bytes CmdType.resume_pos Status.status_ok (resume_bytes host (length held)))
            (handle_gets host os calls c path)
    unfolding handle_gets
    handle_gets-Takes c d held made there short bound prefix whole set room writes e =
        let name = path ++ 0 ∷ [] in
        let (ok, out, room') =
          send_packet-packet_bytes host c.conn CmdType.gets_req Status.status_ok name
            (omega (arith, short, length-append path (0 ∷ []))) room in
        let conn = (send_packet host c.conn CmdType.gets_req Status.status_ok name).1 in
        let (got, next) =
          recv_packet-packet_bytes host conn CmdType.gets_resp status bytes
            (frames blocks ++ (end_bytes ++ rest)) (omega (arith, sized)) (mem _)
            (ap deliverable
                (send_packet-incoming host c.conn CmdType.gets_req Status.status_ok name)
              ∙ e) in
        let (kept, kept_room) = recv_packet-frame host conn in
        let c' = record c { conn = (recv_packet host conn).1 } in
        let u =
          gets_open-Takes (record c' { disk = d }) held there bound prefix whole set
            (subst IsWilling (sym kept_room) room') writes next in
        record {
          after = u.after;
          result = rw (ok, got, handle_gets) (gets_answer-open c' d made ∙ u.result);
          file = u.file;
          sent =
              u.sent
              ∙ ap
                  (λ (x : Bytes).
                    x
                    ++ packet_bytes CmdType.resume_pos Status.status_ok
                        (resume_bytes host (length held)))
                  (kept ∙ out)
              ∙ append_assoc c.conn.sent _ _;
          printed = u.printed;
          left = u.left;
        }
