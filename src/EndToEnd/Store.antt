-- ===== src/EndToEnd/Store.antt =====
-- `handle_puts` of src/server/handle.c from its first line to its last, on an upload that arrives whole.
use wind_cloud_v.Base.{
  ℕ, ◌+◌, ◌-◌, ◌^◌, ◌≤◌, ◌<◌, ◌≡◌, ◌≢◌, refl, sym, ap, subst, ◌∙◌, inl, inr, Bool, true, false,
  Option-cases, none, some, List, [], ◌∷◌, ◌++◌, append_assoc, Bytes, length, take, drop, replicate,
  length-append, length-take, length-replicate, length-drop, take-append_length, take_all, ltb, leb,
  ◌==◌, arith,
}
use wind_cloud_v.Wire.Endian.{store64, host_to_net_u64}
use wind_cloud_v.Server.Reply.Laws.{length-store64}
use wind_cloud_v.Wire.Stream.Laws.{deliverable, IsWilling}
use wind_cloud_v.Wire.Types.{path_max, CmdType, Status, Packet, Host}
use wind_cloud_v.Wire.Packet.{send_packet}
use wind_cloud_v.Wire.Packet.Framing.{packet_bytes, send_packet-packet_bytes, send_packet-incoming}
use wind_cloud_v.Wire.Packet.Blocks.{frames, concat, AllBlocks, HasMemory}
use wind_cloud_v.Server.World.{Posix, Documented, Here, Run, returns, ◌>>=◌, rounds, resize}
use wind_cloud_v.Server.Reply.{info, extract_file_info, text, send_text_reply, send_resume_packet}
use wind_cloud_v.Server.Upload.{
  truncate_to, puts_loop, puts_finish, puts_receive, puts_open, handle_puts,
}
use wind_cloud_v.Server.Path.{resolve_target_path}
use wind_cloud_v.Server.Upload.Contents.{puts_loop-puts_finish}
use wind_cloud_v.EndToEnd.Arrival.{end_bytes, arriving-frames, joined, few_blocks}
use wind_cloud_v.EndToEnd.Receive.{puts_loop-Whole}

-- The two packets that an upload is answered with.
abbrev pub resume_bytes : Host → ℕ → Bytes
resume_bytes host offset = store64 host.endian (host_to_net_u64 host.endian offset)

abbrev pub done_text : Bytes
done_text = text "上传完成"

-- The server stored the file and answered.
pub record Stores (host : Host) (os : Posix) (w : Here os) (path contents rest : Bytes) (offset : ℕ)
    (r : Run (Bool × Here os)) : Type 0 where
  pub after : Here os
  pub result : r ≡ returns (true, after)
  pub file : os.file after.disk path ≡ some contents
  pub sent :
      after.conn.sent
      ≡ w.conn.sent
        ++ (packet_bytes CmdType.puts_resp Status.status_ok (resume_bytes host offset)
            ++ packet_bytes CmdType.ack Status.status_ok (done_text ++ 0 ∷ []))
  pub left : deliverable after.conn.incoming ≡ rest

pub length-resize : (n : ℕ) (held : Bytes) → length held ≤ n → length (resize n held) ≡ n
length-resize n held h = omega (
  arith,
  length-append (take n held) (replicate (n - length held) 0),
  length-take n held,
  length-replicate {A = ℕ} (n - length held) 0,
)

-- What was there stays in front when the file is made longer.
pub take-resize :
    (n : ℕ) (held : Bytes) → length held ≤ n → take (length held) (resize n held) ≡ held
take-resize n held h =
    ap (λ (x : Bytes). take (length held) (x ++ replicate (n - length held) 0)) (take_all n held h)
    ∙ take-append_length (length held) held (replicate (n - length held) 0) refl

-- The handler of a request that is in order.
pub handle_puts-puts_open :
    (host : Host) (os : Posix) (w : Here os) (p : Packet) (name target path : Bytes) (total : ℕ)
    (d : os.Disk)
    → extract_file_info host p path_max ≡ info name total
    → name ≢ []
    → resolve_target_path w.session.current_path name ≡ some (target, path)
    → os.open_create w.disk path ≡ some d
    → handle_puts host os w p ≡ puts_open host os (record w { disk = d }) path total
unfolding handle_puts
handle_puts-puts_open host os w p [] target path total d asks n at made = absurd (n refl)
handle_puts-puts_open host os w p (c ∷ name) target path total d asks n at made =
    rw (asks, at, made, handle_puts) refl

module _ (host : Host) (os : Posix) (doc : Documented os) (mem : HasMemory host)
    (path contents rest : Bytes) (blocks : List Bytes) (small : AllBlocks blocks)
    (range : length contents < 2 ^ 63)
    (sized : (d : os.Disk) (n : ℕ) → os.ftruncate d path n ≢ none)
    (maps : (d : os.Disk) (n : ℕ) → os.mmap d path n ≡ true) (some_byte : 0 < length contents) where
  -- The receive loop and the reply behind it.
  loop_end :
      (w : Here os) (old : Bytes) (offset : ℕ)
      → offset ≤ length contents
      → concat blocks ≡ drop offset contents
      → deliverable w.conn.incoming ≡ frames blocks ++ (end_bytes ++ rest)
      → os.file w.disk path ≡ some old
      → length old ≡ length contents
      → take offset old ≡ take offset contents
      → IsWilling w.conn.room
      → (after : Here os) × ((puts_loop host os (rounds w.conn) path (length contents) true offset w
            >>= (λ r. returns (puts_finish host os path r)))
          ≡ returns (true, after))
        × (os.file after.disk path ≡ some contents)
        × (after.conn.sent
            ≡ w.conn.sent ++ packet_bytes CmdType.ack Status.status_ok (done_text ++ 0 ∷ []))
        × (deliverable after.conn.incoming ≡ rest)
  unfolding puts_finish send_text_reply text
  loop_end w old offset bound whole arrives there size same room =
      let total = length contents in
      let few = few_blocks blocks rest w.conn (rounds w.conn) arrives (omega arith) in
      let len : offset + length (concat blocks) ≡ total =
        omega (arith, ap length whole, length-drop offset contents, bound) in
      let u =
        puts_loop-Whole host os mem path total true rest range (rounds w.conn) offset blocks w few
          small len arrives in
      let (ok, after, result, file) =
        puts_loop-puts_finish host os doc path total sized range (rounds w.conn) offset w old
          (omega arith) there size bound in
      let out =
        send_packet-packet_bytes host u.after.conn CmdType.ack Status.status_ok
          (done_text ++ 0 ∷ []) (omega arith) (subst IsWilling (sym u.room) room) in
      let end = puts_finish host os path (true, total, u.after) in
      let mine : (puts_loop host os (rounds w.conn) path total true offset w
            >>= (λ r. returns (puts_finish host os path r)))
          ≡ returns end =
        ap (λ r. r >>= (λ x. returns (puts_finish host os path x))) u.result in
      let it : ◌≡◌ {A = Run (Bool × Here os)} (returns end) (returns (ok, after)) =
        sym mine ∙ result in
      let same_end : end ≡ (ok, after) = cc in
      let came =
        arriving-frames host (rounds w.conn) total offset blocks w.conn rest mem few small
          (omega (arith, len)) arrives in
      (
        end.1,
        mine ∙ ap (λ (x : Bool). returns (x, end.1)) out.0,
        ap (λ (x : Bool × Here os). os.file x.1.disk path) same_end
            ∙ file
            ∙ ap (λ (x : Bytes). some (take offset old ++ x)) came
            ∙ ap some (joined offset old contents blocks same whole),
        out.1
            ∙ ap
                (λ (x : Bytes).
                  x ++ packet_bytes CmdType.ack Status.status_ok (done_text ++ 0 ∷ []))
                u.sent,
        ap deliverable (
              send_packet-incoming host u.after.conn CmdType.ack Status.status_ok
                (done_text ++ 0 ∷ []))
            ∙ u.left,
      )

  puts_receive-Stores :
      (w : Here os) (held : Bytes)
      → os.file w.disk path ≡ some held
      → length held ≤ length contents
      → held ≡ take (length held) contents
      → concat blocks ≡ drop (length held) contents
      → deliverable w.conn.incoming ≡ frames blocks ++ (end_bytes ++ rest)
      → IsWilling w.conn.room
      → Stores host os w path contents rest
          (length held)
          (puts_receive host os w path (length contents) (length held))
  unfolding puts_receive send_resume_packet truncate_to
  puts_receive-Stores w held there bound prefix whole arrives room =
      let total = length contents in
      let payload = resume_bytes host (length held) in
      let (ok, out, room') =
        send_packet-packet_bytes host w.conn CmdType.puts_resp Status.status_ok payload
          (omega (arith, length-store64 host.endian (host_to_net_u64 host.endian (length held))))
          room in
      let w' = record w {
        conn = (send_packet host w.conn CmdType.puts_resp Status.status_ok payload).1;
      } in
      let some_total : (total == 0) ≡ false = ground arith in
      let in_range : leb (2 ^ 63) total ≡ false = ground arith in
      elim (Option-cases (os.ftruncate w.disk path total)) [
        | inl bad ↦ absurd (sized w.disk total bad)
        | inr (d, cut) ↦
            let v = record w' { disk = d } in
            let (after, result, file, sent, left) =
              loop_end v (resize total held) (length held) bound whole
                (ap deliverable
                    (send_packet-incoming host w.conn CmdType.puts_resp Status.status_ok payload)
                  ∙ arrives)
                (doc.ftruncate-file w.disk d path total held there cut)
                (length-resize total held bound) (take-resize total held bound ∙ prefix) room' in
            record {
              after = after;
              result = rw (ok, some_total, in_range, cut, maps d total, puts_receive) result;
              file = file;
              sent =
                  sent
                  ∙ ap
                      (λ (x : Bytes).
                        x ++ packet_bytes CmdType.ack Status.status_ok (done_text ++ 0 ∷ []))
                      out
                  ∙ append_assoc w.conn.sent _ _;
              left = left;
            }
      ]

  puts_open-Stores :
      (w : Here os) (held : Bytes)
      → os.file w.disk path ≡ some held
      → length held ≤ length contents
      → held ≡ take (length held) contents
      → concat blocks ≡ drop (length held) contents
      → deliverable w.conn.incoming ≡ frames blocks ++ (end_bytes ++ rest)
      → IsWilling w.conn.room
      → Stores host os w path contents rest
          (length held)
          (puts_open host os w path (length contents))
  unfolding puts_open
  puts_open-Stores w held there bound prefix whole arrives room =
      let fits : ltb (length contents) (length held) ≡ false = ground arith in
      rw (doc.fstat-file w.disk path held there, puts_open, fits)
        (puts_receive-Stores w held there bound prefix whole arrives room)

  -- An upload on the server's side.
  pub handle_puts-Stores :
      (w : Here os) (p : Packet) (name target held : Bytes) (d : os.Disk)
      → extract_file_info host p path_max ≡ info name (length contents)
      → name ≢ []
      → resolve_target_path w.session.current_path name ≡ some (target, path)
      → os.open_create w.disk path ≡ some d
      → os.file d path ≡ some held
      → length held ≤ length contents
      → held ≡ take (length held) contents
      → concat blocks ≡ drop (length held) contents
      → deliverable w.conn.incoming ≡ frames blocks ++ (end_bytes ++ rest)
      → IsWilling w.conn.room
      → Stores host os w path contents rest (length held) (handle_puts host os w p)
  handle_puts-Stores w p name target held d asks n at made there bound prefix whole arrives room =
      let u = puts_open-Stores (record w { disk = d }) held there bound prefix whole arrives room in
      record {
        after = u.after;
        result =
            handle_puts-puts_open host os w p name target path (length contents) d asks n at made
            ∙ u.result;
        file = u.file;
        sent = u.sent;
        left = u.left;
      }
