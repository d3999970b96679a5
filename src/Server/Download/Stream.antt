-- ===== src/Server/Download/Stream.antt =====
-- What `handle_gets` puts on the wire, against the file.
use wind_cloud_v.Base.{
  ℕ, zero, suc, ◌+◌, ◌-◌, ◌≤◌, ◌<◌, ◌≡◌, refl, sym, ap, ◌∙◌, inl, inr, Bool, true, Bool-cases, List,
  [], ◌∷◌, ◌++◌, append-nil, append_assoc, Bytes, length, take, drop, length-take, length-drop,
  take-append-drop, drop_all, ltb, ◌==◌, if◌then◌else◌, arith,
}
use wind_cloud_v.Wire.Stream.{send_n}
use wind_cloud_v.Wire.Stream.Laws.{IsWilling, send_n-IsWilling}
use wind_cloud_v.Wire.Endian.Laws.{be32}
use wind_cloud_v.Wire.Types.{
  tlv_magic, tlv_version, file_block_size, CmdType, cmd_code, Status, status_code, Host,
}
use wind_cloud_v.Wire.Packet.{header_of, header_bytes}
use wind_cloud_v.Wire.Packet.Blocks.{frames, concat, AllBlocks}
use wind_cloud_v.Wire.Packet.Framing.{packet_bytes, header_bytes_lem}
use wind_cloud_v.Server.World.{Posix, World, Here, Run, returns}
use wind_cloud_v.Server.Reply.{send_file_data_packet}
use wind_cloud_v.Server.Download.{gets_loop}

-- A run that sends the bytes `rest` in blocks, and returns.
pub record Streams (os : Posix) (w : Here os) (rest : Bytes) (r : Run (Bool × Here os))
    : Type 0 where
  pub after : Here os
  pub result : r ≡ returns (true, after)
  pub blocks : List Bytes
  pub whole : concat blocks ≡ rest
  pub small : AllBlocks blocks
  pub sent : after.conn.sent ≡ w.conn.sent ++ frames blocks
  pub room : IsWilling after.conn.room

drop-drop : (n k : ℕ) (bs : Bytes) → drop k (drop n bs) ≡ drop (n + k) bs
drop-drop zero k bs = let e : 0 + k ≡ k = omega arith in rw e
drop-drop (suc n) k [] =
    let e : suc n + k ≡ suc (n + k) = omega arith in rw e (drop_all k [] (omega arith))
drop-drop (suc n) k (b ∷ bs) =
    let e : suc n + k ≡ suc (n + k) = omega arith in rw e (drop-drop n k bs)

-- The size of the next block.
abbrev next_size : ℕ → ℕ → ℕ
next_size total offset =
    if ltb file_block_size (total - offset) then file_block_size else total - offset

-- The header of a data packet of `n` bytes.
abbrev words : ℕ → Bytes
words n =
    be32 tlv_magic
    ++ (be32 tlv_version
        ++ (be32 (cmd_code CmdType.file_data) ++ (be32 (status_code Status.status_ok) ++ be32 n)))

module _ {Disk : Type 0} (host : Host) (w : World Disk) (contents : Bytes) (offset chunk : ℕ) where
  abbrev block : Bytes
  block = take chunk (drop offset contents)

  send_file_data_packet-packet_bytes :
      offset + chunk ≤ length contents
      → IsWilling w.conn.room
      → ((send_file_data_packet host w contents offset chunk).0 ≡ true)
        × ((send_file_data_packet host w contents offset chunk).1.conn.sent
            ≡ w.conn.sent ++ packet_bytes CmdType.file_data Status.status_ok block)
        × IsWilling (send_file_data_packet host w contents offset chunk).1.conn.room
  unfolding send_file_data_packet
  send_file_data_packet-packet_bytes fits h =
      let head = header_bytes host.endian (header_of CmdType.file_data Status.status_ok chunk) in
      let (ok, out, room) = send_n-IsWilling w.conn head h in
      let (ok', out', room') = send_n-IsWilling (send_n w.conn head).1 block room in
      let full : length block ≡ chunk =
        omega (arith, length-take chunk (drop offset contents), length-drop offset contents) in
      let same : (length block == chunk) ≡ true = ground (arith, full) in
      rw (ok, ok', same)
        (
          refl,
          out'
              ∙ ap (λ (x : Bytes). x ++ block) out
              ∙ ap (λ (x : Bytes). (w.conn.sent ++ x) ++ block)
                  (header_bytes_lem host.endian CmdType.file_data Status.status_ok chunk
                    ∙ ap words (sym full))
              ∙ append_assoc w.conn.sent (words (length block)) block,
          room',
        )

module _ (host : Host) (os : Posix) (contents : Bytes) (total : ℕ) where
  -- One more block in front.
  send_block :
      (offset chunk : ℕ) (w : Here os) (r : Run (Bool × Here os))
      → 0 < chunk
      → chunk ≤ file_block_size
      → offset + chunk ≤ length contents
      → IsWilling w.conn.room
      → Streams os
          (send_file_data_packet host w contents offset chunk).1
          (drop (offset + chunk) contents)
          r
      → Streams os w (drop offset contents) r
  unfolding concat frames
  send_block offset chunk w r some_byte small fits h u =
      let b = take chunk (drop offset contents) in
      let full : length b ≡ chunk =
        omega (arith, length-take chunk (drop offset contents), length-drop offset contents) in
      let step = send_file_data_packet-packet_bytes host w contents offset chunk fits h in
      record {
        after = u.after;
        result = u.result;
        blocks = b ∷ u.blocks;
        whole =
            ap (λ (x : Bytes). b ++ x) (u.whole ∙ sym (drop-drop offset chunk contents))
            ∙ take-append-drop chunk (drop offset contents);
        small = (omega (arith, full), omega (arith, full), u.small);
        sent =
            u.sent
            ∙ ap (λ (x : Bytes). x ++ frames u.blocks) step.1
            ∙ append_assoc w.conn.sent (packet_bytes CmdType.file_data Status.status_ok b)
                (frames u.blocks);
        room = u.room;
      }

  -- When the kernel keeps taking bytes and the file has the size that was announced, the block loop
  -- of a download returns, and it has sent, as data packets of at most 4096 bytes and one
  -- behind the other, exactly the bytes of the file from the offset on.
  pub gets_loop-Streams :
      (fuel offset : ℕ) (w : Here os)
      → total - offset < fuel
      → length contents ≡ total
      → offset ≤ total
      → IsWilling w.conn.room
      → Streams os w (drop offset contents) (gets_loop host os fuel contents total offset w)
  unfolding gets_loop frames concat
  gets_loop-Streams zero offset w h size bound room = absurd (omega arith)
  gets_loop-Streams (suc fuel) offset w h size bound room = elim (Bool-cases (ltb offset total)) [
    | inr over ↦
        rw (over, gets_loop)
          (record {
            after = w;
            result = refl;
            blocks = [];
            whole = sym (drop_all offset contents (ground arith));
            small = tt;
            sent = sym (append-nil w.conn.sent);
            room = room;
          })
    | inl more ↦
        let n = next_size total offset in
        let some_byte : 0 < n = ground arith in
        let small : n ≤ file_block_size = ground arith in
        let fits : offset + n ≤ total = ground arith in
        let step =
          send_file_data_packet-packet_bytes host w contents offset n (omega (arith, fits, size))
            room in
        rw (more, step.0, gets_loop)
          (send_block offset n w _ some_byte small (omega (arith, fits, size)) room (
            gets_loop-Streams fuel (offset + n) (send_file_data_packet host w contents offset n).1
              (omega (arith, some_byte, fits)) size fits step.2))
  ]
