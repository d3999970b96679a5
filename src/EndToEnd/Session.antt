-- ===== src/EndToEnd/Session.antt =====
-- An upload from the client's `handle_puts` to the server's and back.
use wind_cloud_v.Base.{
  ℕ, ◌^◌, ◌≤◌, ◌<◌, ◌≡◌, ◌≢◌, refl, sym, ap, subst, ◌∙◌, Bool, true, false, none, some, [], ◌∷◌,
  ◌++◌, append-nil, append_assoc, Bytes, length, take, drop, drop-append_length, ltb, arith,
}
use wind_cloud_v.Wire.Endian.{load64, host_to_net_u64, net_to_host_u64}
use wind_cloud_v.Wire.Endian.Laws.{net_to_host_u64-load64}
use wind_cloud_v.Wire.Stream.Laws.{deliverable, IsWilling}
use wind_cloud_v.Wire.Types.{max_packet_payload, path_max, CmdType, Status, Packet, Host}
use wind_cloud_v.Wire.Packet.{header_of, recv_packet}
use wind_cloud_v.Wire.Packet.Framing.{packet_bytes, recv_packet-packet_bytes, recv_packet-frame}
use wind_cloud_v.Wire.Packet.Blocks.{frames, HasMemory}
use wind_cloud_v.Server.Path.{resolve_target_path}
use wind_cloud_v.Server.World.{Posix, Documented, Here, Run, returns, left_by}
use wind_cloud_v.Server.Reply.{text, file_info_bytes}
use wind_cloud_v.Server.Reply.Laws.{
  NoNul, extract_file_info_lem, length-store64, length-file_info_bytes,
}
use wind_cloud_v.Server.Upload as Taking
use wind_cloud_v.Client.World.{Calls, Line, uploaded, Mine}
use wind_cloud_v.Client.Simple.Reply.{shown}
use wind_cloud_v.Client.Upload.{safe_basename, handle_puts}
use wind_cloud_v.Client.Upload.Stream.{IsReading}
use wind_cloud_v.Client.Upload.Whole.{start_of, safe_basename-lt, handle_puts-Uploads}
use wind_cloud_v.EndToEnd.Arrival.{end_bytes}
use wind_cloud_v.EndToEnd.Store.{resume_bytes, done_text, handle_puts-Stores}

-- What the server sends for an upload that succeeds.
abbrev pub answers : Host → ℕ → Bytes
answers host offset =
    packet_bytes CmdType.puts_resp Status.status_ok (resume_bytes host offset)
    ++ packet_bytes CmdType.ack Status.status_ok (done_text ++ 0 ∷ [])

-- The packet of the request.
abbrev pub request : Host → Bytes → Bytes → Packet
request host base contents =
    let bytes = file_info_bytes host base (length contents) in
    record { header = header_of CmdType.puts_req Status.status_ok (length bytes); payload = bytes }

done_short : length done_text < max_packet_payload
unfolding text
done_short = omega arith

-- Both sides of an upload that succeeded.
pub record Copied (a b : Host) (os os' : Posix) (contents rest : Bytes) (base path : Bytes)
    (c : Mine os') (w : Here os) (offset : ℕ) (r : Run (Bool × Mine os')) : Type 0 where
  pub after : Mine os'
  pub result : r ≡ returns (true, after)
  pub printed :
      after.printed ≡ (c.printed ++ Line.text (shown done_text) ∷ []) ++ uploaded base ∷ []
  pub taken : (recv_packet b w.conn).0 ≡ some (request a base contents)
  pub stored : Here os
  pub served :
      Taking.handle_puts b os
        (record w { conn = (recv_packet b w.conn).1 })
        (request a base contents)
      ≡ returns (true, stored)
  pub file : os.file stored.disk path ≡ some contents
  pub sent : stored.conn.sent ≡ w.conn.sent ++ answers b offset
  pub left : deliverable stored.conn.incoming ≡ rest

module _ (a b : Host) (same : a.endian ≡ b.endian) (mem : HasMemory a) (mem' : HasMemory b)
    (os os' : Posix) (calls : Calls os') (doc : Documented os) (doc' : Documented os')
    (contents : Bytes) (some_byte : 0 < length contents) (range : length contents < 2 ^ 63) where
  -- The offset is the number that the server sent.
  offset_means :
      (offset : ℕ)
      → offset < 2 ^ 64
      → net_to_host_u64 a.endian (load64 a.endian (resume_bytes b offset)) ≡ offset
  offset_means offset h =
      ap (λ e. net_to_host_u64 e (load64 e (resume_bytes b offset))) same
      ∙ ap (λ (x : Bytes). net_to_host_u64 b.endian (load64 b.endian x)) (sym (append-nil _))
      ∙ net_to_host_u64-load64 b.endian offset [] h

  start_within :
      (offset : ℕ) → offset ≤ length contents → start_of (length contents) offset ≡ offset
  start_within offset h = let e : ltb (length contents) offset ≡ false = ground arith in rw e refl

  -- A whole upload, to a server of the same byte order, where both hosts have memory and both file
  -- systems do what their manual says. The client's file opens, can be positioned, is not empty
  -- and has less than 2 ^ 63 bytes, and its base name is not empty and has no NUL; the server
  -- resolves that name, can open the file, whose bytes are the first ones of the client's, and can
  -- set its length and map it; no `read` fails or comes up empty before the end, and each `write`
  -- to a socket takes bytes. What the client sends reaches the server, and what the client hears
  -- is what the server sends on success, both cut in any way. Then the client's `handle_puts`
  -- returns 0 and reports the upload; the server takes its request, and its `handle_puts` returns
  -- 0, leaves the client's file at the resolved path, and sends just what the client heard.
  pub handle_puts-handle_puts :
      (local target path held left rest : Bytes) (c : Mine os') (w : Here os) (d : os.Disk)
      → os'.open_read c.disk local ≡ true
      → os'.file c.disk local ≡ some contents
      → calls.lseek c.disk local (length held) ≡ true
      → IsReading c.reads
      → IsWilling c.conn.room
      → safe_basename local path_max ≢ []
      → NoNul (safe_basename local path_max)
      → resolve_target_path w.session.current_path (safe_basename local path_max)
        ≡ some (target, path)
      → os.open_create w.disk path ≡ some d
      → os.file d path ≡ some held
      → length held ≤ length contents
      → held ≡ take (length held) contents
      → ((e : os.Disk) (n : ℕ) → os.ftruncate e path n ≢ none)
      → ((e : os.Disk) (n : ℕ) → os.mmap e path n ≡ true)
      → IsWilling w.conn.room
      → deliverable c.conn.incoming ≡ answers b (length held) ++ left
      → deliverable w.conn.incoming
        ≡ drop (length c.conn.sent) (left_by c (handle_puts a os' calls c local)).conn.sent ++ rest
      → Copied a b os os' contents rest
          (safe_basename local path_max)
          path
          c
          w
          (length held)
          (handle_puts a os' calls c local)
  handle_puts-handle_puts local target path held left rest c w d opens there set rd room named clean
        at made stored bound prefix sized maps ready hears arrives =
      let base = safe_basename local path_max in
      let offset = length held in
      let info_bytes = file_info_bytes a base (length contents) in
      let start = start_within offset bound in
      let u =
        handle_puts-Uploads a mem os' calls local contents done_text left false Status.status_ok
          offset done_short range (resume_bytes b offset) Status.status_ok
          (length-store64 b.endian (host_to_net_u64 b.endian offset))
          (offset_means offset (omega arith)) c doc' opens there
          (subst (λ n. calls.lseek c.disk local n ≡ true) (sym start) set) rd room
          (hears
            ∙ append_assoc (packet_bytes CmdType.puts_resp Status.status_ok (resume_bytes b offset))
                (packet_bytes CmdType.ack Status.status_ok (done_text ++ 0 ∷ [])) left) in
      let tail = frames u.blocks ++ end_bytes in
      let heard : deliverable w.conn.incoming
          ≡ packet_bytes CmdType.puts_req Status.status_ok info_bytes
            ++ (frames u.blocks ++ (end_bytes ++ rest)) =
        arrives
        ∙ ap (λ (x : Mine os'). drop (length c.conn.sent) x.conn.sent ++ rest)
            (ap (left_by c) u.result)
        ∙ ap (λ (x : Bytes). drop (length c.conn.sent) x ++ rest) u.sent
        ∙ ap (λ (x : Bytes). x ++ rest) (drop-append_length _ c.conn.sent _ refl)
        ∙ append_assoc (packet_bytes CmdType.puts_req Status.status_ok info_bytes) tail rest
        ∙ ap (λ (x : Bytes). packet_bytes CmdType.puts_req Status.status_ok info_bytes ++ x)
            (append_assoc (frames u.blocks) end_bytes rest) in
      let (got, next) =
        recv_packet-packet_bytes b w.conn CmdType.puts_req Status.status_ok info_bytes
          (frames u.blocks ++ (end_bytes ++ rest))
          (omega (arith, length-file_info_bytes a base (length contents) (safe_basename-lt local)))
          (mem' _) heard in
      let (kept, kept_room) = recv_packet-frame b w.conn in
      let w' = record w { conn = (recv_packet b w.conn).1 } in
      let v =
        handle_puts-Stores b os doc mem' path contents rest u.blocks u.small range sized maps
          some_byte w' (request a base contents) base target held d
          (extract_file_info_lem a b (request a base contents) base (length contents) same clean
            (safe_basename-lt local) (omega arith) (refl, refl))
          named at made stored bound prefix (u.whole ∙ ap (λ n. drop n contents) start) next
          (subst IsWilling (sym kept_room) ready) in
      record {
        after = u.after;
        result = u.result;
        printed = u.printed;
        taken = got;
        stored = v.after;
        served = v.result;
        file = v.file;
        sent = v.sent ∙ ap (λ (x : Bytes). x ++ answers b offset) kept;
        left = v.left;
      }
