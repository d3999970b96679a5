-- ===== src/EndToEnd/Broken.antt =====
-- `handle_puts` of src/server/handle.c on an upload whose stream ends anywhere.
use wind_cloud_v.Base.{
  ℕ, ◌+◌, ◌^◌, ◌≤◌, ◌<◌, ◌≡◌, ◌≢◌, refl, sym, ap, subst, ◌∙◌, inl, inr, Bool, true, false,
  Option-cases, Bool-cases, none, some, List, [], ◌++◌, Bytes, length, take, drop, length-take,
  length-drop, take-append-drop, take-append_add, ltb, leb, ◌==◌, arith,
}
use wind_cloud_v.Wire.Stream.Laws.{deliverable}
use wind_cloud_v.Wire.Types.{path_max, CmdType, Status, Packet, Host}
use wind_cloud_v.Wire.Packet.{send_packet}
use wind_cloud_v.Wire.Packet.Framing.{send_packet-incoming}
use wind_cloud_v.Wire.Packet.Blocks.{frames, concat, AllBlocks, HasMemory}
use wind_cloud_v.Server.World.{Posix, Documented, Here, Run, returns, ◌>>=◌, rounds, resize}
use wind_cloud_v.Server.Reply.{info, extract_file_info, send_resume_packet}
use wind_cloud_v.Server.Upload.{
  truncate_to, puts_loop, puts_finish, puts_receive, puts_open, handle_puts,
}
use wind_cloud_v.Server.Path.{resolve_target_path}
use wind_cloud_v.Server.Upload.Arriving.{arriving}
use wind_cloud_v.Server.Upload.Contents.{puts_loop-puts_finish}
use wind_cloud_v.EndToEnd.Arrival.{end_bytes}
use wind_cloud_v.EndToEnd.Interrupted.{arriving-cut}
use wind_cloud_v.EndToEnd.Store.{resume_bytes, handle_puts-puts_open, length-resize, take-resize}

-- The first bytes, in two pieces.
pub take_add :
    (n k : ℕ) (bs : Bytes) → n ≤ length bs → take (n + k) bs ≡ take n bs ++ take k (drop n bs)
take_add n k bs h =
    ap (take (n + k)) (sym (take-append-drop n bs))
    ∙ take-append_add (n + k) k (take n bs) (drop n bs) (omega (arith, length-take n bs))

-- The server returned, and the file has the first bytes of the upload, those it had at least.
pub record Breaks (os : Posix) (path contents held : Bytes) (r : Run (Bool × Here os))
    : Type 0 where
  pub ok : Bool
  pub after : Here os
  pub result : r ≡ returns (ok, after)
  pub n : ℕ
  pub longer : length held ≤ n
  pub bound : n ≤ length contents
  pub file : os.file after.disk path ≡ some (take n contents)

module _ (host : Host) (os : Posix) (doc : Documented os) (mem : HasMemory host)
    (path contents lost rest : Bytes) (blocks : List Bytes) (small : AllBlocks blocks)
    (range : length contents < 2 ^ 63)
    (sized : (d : os.Disk) (n : ℕ) → os.ftruncate d path n ≢ none)
    (maps : (d : os.Disk) (n : ℕ) → os.mmap d path n ≡ true) (some_byte : 0 < length contents)
    (held : Bytes) (fits : length held ≤ length contents)
    (prefix : held ≡ take (length held) contents)
    (whole : concat blocks ≡ drop (length held) contents) where
  puts_loop-Breaks :
      (w : Here os) (old : Bytes)
      → deliverable w.conn.incoming ++ lost ≡ frames blocks ++ (end_bytes ++ rest)
      → os.file w.disk path ≡ some old
      → length old ≡ length contents
      → take (length held) old ≡ held
      → Breaks os path contents held (
          puts_loop host os (rounds w.conn) path (length contents) true (length held) w
          >>= (λ r. returns (puts_finish host os path r)))
  puts_loop-Breaks w old arrives there size same =
      let total = length contents in
      let offset = length held in
      let (ok, after, result, file) =
        puts_loop-puts_finish host os doc path total sized range (rounds w.conn) offset w old
          (omega arith) there size fits in
      let u =
        arriving-cut host (rounds w.conn) total offset blocks w.conn lost rest mem small
          (omega (arith, ap length whole, length-drop offset contents, fits)) arrives in
      record {
        ok = ok;
        after = after;
        result = result;
        n = offset + u.n;
        longer = omega arith;
        bound = omega (arith, u.bound, ap length whole, length-drop offset contents, fits);
        file =
            file
            ∙ ap some (
                ap (λ (x : Bytes). x ++ arriving host (rounds w.conn) total offset w.conn)
                  (same ∙ prefix)
                ∙ ap (λ (x : Bytes). take offset contents ++ x) (u.same ∙ ap (take u.n) whole)
                ∙ sym (take_add offset u.n contents fits));
      }

  -- Nothing was written.
  unchanged :
      (w : Here os) (ok : Bool)
      → os.file w.disk path ≡ some held
      → Breaks os path contents held (returns (ok, w))
  unchanged w ok there = record {
    ok = ok;
    after = w;
    result = refl;
    n = length held;
    longer = omega arith;
    bound = fits;
    file = there ∙ ap some prefix;
  }

  puts_receive-Breaks :
      (w : Here os)
      → os.file w.disk path ≡ some held
      → deliverable w.conn.incoming ++ lost ≡ frames blocks ++ (end_bytes ++ rest)
      → Breaks os path contents held (puts_receive host os w path (length contents) (length held))
  unfolding puts_receive send_resume_packet truncate_to
  puts_receive-Breaks w there arrives =
      let total = length contents in
      let payload = resume_bytes host (length held) in
      let sending = send_packet host w.conn CmdType.puts_resp Status.status_ok payload in
      let some_total : (total == 0) ≡ false = ground arith in
      let in_range : leb (2 ^ 63) total ≡ false = ground arith in
      elim (Bool-cases sending.0) [
        | inr fails ↦ rw (fails, puts_receive) (unchanged _ false there)
        | inl ok ↦ elim (Option-cases (os.ftruncate w.disk path total)) [
          | inl bad ↦ absurd (sized w.disk total bad)
          | inr (d, cut) ↦
              rw (ok, some_total, in_range, cut, maps d total, puts_receive)
                (puts_loop-Breaks (record w { conn = sending.1; disk = d }) (resize total held)
                  (ap (λ (x : Bytes). x ++ lost)
                      (ap deliverable (
                        send_packet-incoming host w.conn CmdType.puts_resp Status.status_ok
                          payload))
                    ∙ arrives)
                  (doc.ftruncate-file w.disk d path total held there cut)
                  (length-resize total held fits) (take-resize total held fits))
        ]
      ]

  -- An upload that is broken off, on the server's side.
  pub handle_puts-Breaks :
      (w : Here os) (p : Packet) (name target : Bytes) (d : os.Disk)
      → extract_file_info host p path_max ≡ info name (length contents)
      → name ≢ []
      → resolve_target_path w.session.current_path name ≡ some (target, path)
      → os.open_create w.disk path ≡ some d
      → os.file d path ≡ some held
      → deliverable w.conn.incoming ++ lost ≡ frames blocks ++ (end_bytes ++ rest)
      → Breaks os path contents held (handle_puts host os w p)
  unfolding puts_open
  handle_puts-Breaks w p name target d asks n at made there arrives =
      let same : ltb (length contents) (length held) ≡ false = ground arith in
      subst (Breaks os path contents held)
        (sym
          (handle_puts-puts_open host os w p name target path (length contents) d asks n at made))
        (rw (doc.fstat-file d path held there, puts_open, same)
          (puts_receive-Breaks (record w { disk = d }) there arrives))
