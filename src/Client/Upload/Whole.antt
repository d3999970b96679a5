-- ===== src/Client/Upload/Whole.antt =====
-- `handle_puts` of src/client/client_command_handle.c from its first line to its last, against a server
-- that answers.
use wind_cloud_v.Base.{
  ℕ, suc, ◌+◌, ◌-◌, ◌^◌, ◌≤◌, ◌<◌, ◌≡◌, refl, sym, ap, subst, ◌∙◌, Bool, true, false, some, List,
  [], ◌∷◌, ◌++◌, append_assoc, Bytes, length, drop, length-append, length-take, length-drop, ltb,
  if◌then◌else◌, arith,
}
use wind_cloud_v.Libc.{basename}
use wind_cloud_v.Wire.Endian.{load64, net_to_host_u64}
use wind_cloud_v.Wire.Stream.Laws.{deliverable, IsWilling}
use wind_cloud_v.Wire.Types.{
  path_max, max_packet_payload, CmdType, cmd_code, is_cmd, Status, Packet, Host,
}
use wind_cloud_v.Wire.Packet.{header_of, send_packet, recv_packet}
use wind_cloud_v.Wire.Packet.Framing.{
  packet_bytes, recv_packet-packet_bytes, recv_packet-frame, send_packet-packet_bytes,
  send_packet-incoming,
}
use wind_cloud_v.Wire.Packet.Blocks.{frames, concat, AllBlocks, HasMemory}
use wind_cloud_v.Wire.Command.{snprintf}
use wind_cloud_v.Server.World.{Posix, Documented, Run, returns, ◌>>=◌}
use wind_cloud_v.Server.Reply.{file_info_bytes, resume_size}
use wind_cloud_v.Server.Reply.Laws.{length-file_info_bytes}
use wind_cloud_v.Server.Download.{readable}
use wind_cloud_v.Client.World.{Calls, text, uploaded, Client, Mine, say, Line}
use wind_cloud_v.Client.Simple.Reply.{reply_type, shown, puts_end-reply}
use wind_cloud_v.Client.Upload.{
  safe_basename, puts_end, puts_from, puts_answer, puts_request, handle_puts,
}
use wind_cloud_v.Client.Upload.Stream.{IsReading, Sends, puts_blocks-Sends}

-- Where an upload starts, when the server says that it holds so many bytes.
abbrev pub start_of : ℕ → ℕ → ℕ
start_of file_size offset = if ltb file_size offset then 0 else offset

-- From the resume offset on: `rest` is sent in blocks, then the end packet, and the answer is taken.
pub record Carried (host : Host) {Disk : Type 0} (c : Client Disk) (base rest msg left : Bytes)
    (r : Run (Bool × Client Disk)) : Type 0 where
  pub after : Client Disk
  pub result : r ≡ returns (true, after)
  pub blocks : List Bytes
  pub whole : concat blocks ≡ rest
  pub small : AllBlocks blocks
  pub sent :
      after.conn.sent
      ≡ c.conn.sent ++ (frames blocks ++ packet_bytes CmdType.file_end Status.status_ok [])
  pub printed : after.printed ≡ (c.printed ++ Line.text (shown msg) ∷ []) ++ uploaded base ∷ []
  pub incoming : deliverable after.conn.incoming ≡ left

module _ (host : Host) (mem : HasMemory host) where
  -- The end of an upload, behind the blocks.
  end-Carried :
      {Disk : Type 0} (c : Client Disk) (base rest msg left : Bytes) (refused : Bool)
      (status : Status) (r : Run (Bool × Client Disk))
      → length msg < max_packet_payload
      → deliverable c.conn.incoming
        ≡ packet_bytes (reply_type refused) status (msg ++ 0 ∷ []) ++ left
      → Sends c rest r
      → Carried host c base rest msg left (r >>= puts_end host base)
  end-Carried c base rest msg left refused status r short e u =
      let d = u.after in
      let e' : deliverable d.conn.incoming
          ≡ packet_bytes (reply_type refused) status (msg ++ 0 ∷ []) ++ left =
        ap deliverable u.incoming ∙ e in
      let out =
        send_packet-packet_bytes host d.conn CmdType.file_end Status.status_ok [] (omega arith)
          u.room in
      let conn = (send_packet host d.conn CmdType.file_end Status.status_ok []).1 in
      let got =
        recv_packet-packet_bytes host conn (reply_type refused) status (msg ++ 0 ∷ []) left
          (omega (arith, short, length-append msg (0 ∷ []))) (mem _)
          (ap deliverable (send_packet-incoming host d.conn CmdType.file_end Status.status_ok [])
            ∙ e') in
      record {
        after =
            say (uploaded base)
              (say (text (shown msg)) (record d { conn = (recv_packet host conn).1 }));
        result =
            ap (λ x. x >>= puts_end host base) u.result
            ∙ puts_end-reply host mem base refused status msg left d u.room short e';
        blocks = u.blocks;
        whole = u.whole;
        small = u.small;
        sent =
            (recv_packet-frame host conn).0
            ∙ out.1
            ∙ ap (λ (x : Bytes). x ++ packet_bytes CmdType.file_end Status.status_ok []) u.sent
            ∙ append_assoc c.conn.sent (frames u.blocks) _;
        printed =
            ap (λ (x : List Line). (x ++ Line.text (shown msg) ∷ []) ++ uploaded base ∷ [])
              u.printed;
        incoming = got.1;
      }

-- What `safe_basename` makes of a path fits its buffer.
pub safe_basename-lt : (path : Bytes) → length (safe_basename path path_max) < path_max
unfolding safe_basename
safe_basename-lt path =
    omega (arith, length-take (path_max - 1) (basename (snprintf path_max path)))

-- An upload as the client sees it: the request, the blocks and the end go out, and both answers are
-- read.
pub record Uploads (host : Host) {Disk : Type 0} (c : Client Disk) (base contents msg left : Bytes)
    (offset : ℕ) (r : Run (Bool × Client Disk)) : Type 0 where
  pub after : Client Disk
  pub result : r ≡ returns (true, after)
  pub blocks : List Bytes
  pub whole : concat blocks ≡ drop (start_of (length contents) offset) contents
  pub small : AllBlocks blocks
  pub sent :
      after.conn.sent
      ≡ c.conn.sent
        ++ (packet_bytes CmdType.puts_req Status.status_ok
              (file_info_bytes host base (length contents))
            ++ (frames blocks ++ packet_bytes CmdType.file_end Status.status_ok []))
  pub printed : after.printed ≡ (c.printed ++ Line.text (shown msg) ∷ []) ++ uploaded base ∷ []
  pub incoming : deliverable after.conn.incoming ≡ left

module _ (host : Host) (mem : HasMemory host) (os : Posix) (calls : Calls os)
    (path contents msg left : Bytes) (refused : Bool) (status : Status) (offset : ℕ)
    (short : length msg < max_packet_payload) (range : length contents < 2 ^ 63) where
  puts_from-Carried :
      (c : Mine os) (base : Bytes)
      → os.file c.disk path ≡ some contents
      → calls.lseek c.disk path (start_of (length contents) offset) ≡ true
      → IsReading c.reads
      → IsWilling c.conn.room
      → deliverable c.conn.incoming
        ≡ packet_bytes (reply_type refused) status (msg ++ 0 ∷ []) ++ left
      → Carried host c base
          (drop (start_of (length contents) offset) contents)
          msg
          left
          (puts_from host os calls c path base (length contents) offset)
  unfolding puts_from
  puts_from-Carried c base there set rd room e =
      let start = start_of (length contents) offset in
      let rest = drop start contents in
      let within : start ≤ length contents = start_le (ltb (length contents) offset) refl in
      rw (there, set, puts_from)
        (end-Carried host mem c base rest msg left refused status _ short e (
          puts_blocks-Sends host (suc (length c.reads + length rest)) (length contents) start rest c
            (omega arith) (omega (arith, length-drop start contents, within)) range rd room))
    where
      start_le :
          (b : Bool)
          → ltb (length contents) offset ≡ b
          → (if b then 0 else offset) ≤ length contents
      start_le true e = omega arith
      start_le false e = ground arith

  module _ (bytes : Bytes) (resume : Status) (eight : length bytes ≡ resume_size)
      (means : net_to_host_u64 host.endian (load64 host.endian bytes) ≡ offset) where
    -- The answer to the request.
    abbrev answer : Packet
    answer = record { header = header_of CmdType.puts_resp resume (length bytes); payload = bytes }

    puts_answer-from :
        (c : Mine os) (base : Bytes)
        → puts_answer host os calls c path base (length contents) answer
          ≡ puts_from host os calls c path base (length contents) offset
    unfolding puts_answer is_cmd cmd_code
    puts_answer-from c base = rw (eight, puts_answer, means) refl

    -- An upload from the first line of the client's `handle_puts` to its last. The file opens, has less
    -- than 2 ^ 63 bytes and can be positioned; no `read` fails or comes up empty before the end, and
    -- each `write` to the socket takes bytes; the server answers the request with an offset and the
    -- end packet with a text. Then the client sends the request with the file's base name and size,
    -- the file from the offset on in blocks of at most 4096 bytes, from 0 on where the offset lies
    -- behind the file's end, and the end packet; it prints the text and reports the upload, and
    -- returns 0.
    pub handle_puts-Uploads :
        (c : Mine os)
        → Documented os
        → os.open_read c.disk path ≡ true
        → os.file c.disk path ≡ some contents
        → calls.lseek c.disk path (start_of (length contents) offset) ≡ true
        → IsReading c.reads
        → IsWilling c.conn.room
        → deliverable c.conn.incoming
          ≡ packet_bytes CmdType.puts_resp resume bytes
            ++ (packet_bytes (reply_type refused) status (msg ++ 0 ∷ []) ++ left)
        → Uploads host c
            (safe_basename path path_max)
            contents
            msg
            left
            offset
            (handle_puts host os calls c path)
    unfolding handle_puts puts_request
    handle_puts-Uploads c doc readable there set rd room e =
        let base = safe_basename path path_max in
        let info = file_info_bytes host base (length contents) in
        let len = length-file_info_bytes host base (length contents) (safe_basename-lt path) in
        let (ok, out, room') =
          send_packet-packet_bytes host c.conn CmdType.puts_req Status.status_ok info
            (omega (arith, len)) room in
        let conn = (send_packet host c.conn CmdType.puts_req Status.status_ok info).1 in
        let (got, next) =
          recv_packet-packet_bytes host conn CmdType.puts_resp resume bytes
            (packet_bytes (reply_type refused) status (msg ++ 0 ∷ []) ++ left)
            (omega (arith, eight)) (mem _)
            (ap deliverable
                (send_packet-incoming host c.conn CmdType.puts_req Status.status_ok info)
              ∙ e) in
        let (kept, kept_room) = recv_packet-frame host conn in
        let c' = record c { conn = (recv_packet host conn).1 } in
        let u =
          puts_from-Carried c' base there set rd (subst IsWilling (sym kept_room) room') next in
        record {
          after = u.after;
          result =
              rw
                (
                  readable,
                  doc.fstat-file c.disk path contents there,
                  ok,
                  got,
                  handle_puts,
                  puts_request,
                )
                (puts_answer-from c' base ∙ u.result);
          blocks = u.blocks;
          whole = u.whole;
          small = u.small;
          sent =
              u.sent
              ∙ ap
                  (λ (x : Bytes).
                    x ++ (frames u.blocks ++ packet_bytes CmdType.file_end Status.status_ok []))
                  (kept ∙ out)
              ∙ append_assoc c.conn.sent _ _;
          printed = u.printed;
          incoming = u.incoming;
        }
