-- ===== src/EndToEnd/Receive.antt =====
-- The receive loop of `handle_puts` in src/server/handle.c on a file that arrives whole.
use wind_cloud_v.Base.{
  ℕ, zero, suc, ◌+◌, ◌%◌, ◌^◌, ◌<◌, ◌≡◌, refl, ap, ◌∙◌, inl, inr, Bool, true, false, ◌&&◌,
  Bool-cases, some, List, [], ◌∷◌, ◌++◌, Bytes, length, length-append, ltb, ◌==◌, arith,
}
use wind_cloud_v.Wire.Stream.{Conn}
use wind_cloud_v.Wire.Stream.Laws.{deliverable}
use wind_cloud_v.Wire.Types.{CmdType, cmd_code, is_cmd, Packet, Host}
use wind_cloud_v.Wire.Packet.{recv_packet}
use wind_cloud_v.Wire.Packet.Framing.{recv_packet-frame}
use wind_cloud_v.Wire.Packet.Blocks.{
  frames, concat, AllBlocks, HasMemory, data_packet, end_packet, recv_packet-frames,
  recv_packet-end,
}
use wind_cloud_v.Server.World.{Posix, Here, Run, returns}
use wind_cloud_v.Server.Reply.{recv_follow_packet}
use wind_cloud_v.Server.Upload.{puts_store, puts_loop}
use wind_cloud_v.EndToEnd.Arrival.{end_bytes}

-- The loop took the file to its end, and sent nothing.
pub record Whole (os : Posix) (w : Here os) (total : ℕ) (rest : Bytes)
    (r : Run (Bool × ℕ × Here os)) : Type 0 where
  pub after : Here os
  pub result : r ≡ returns (true, total, after)
  pub left : deliverable after.conn.incoming ≡ rest
  pub sent : after.conn.sent ≡ w.conn.sent
  pub room : after.conn.room ≡ w.conn.room

block_kinds :
    (is_cmd (cmd_code CmdType.file_data) CmdType.file_end ≡ false)
    × (is_cmd (cmd_code CmdType.file_data) CmdType.file_data ≡ true)
    × (is_cmd (cmd_code CmdType.file_end) CmdType.file_end ≡ true)
unfolding is_cmd cmd_code
block_kinds = (refl, refl, refl)

pub recv_follow_packet-some :
    (host : Host) (os : Posix) (w : Here os) (p : Packet)
    → (recv_packet host w.conn).0 ≡ some p
    → recv_follow_packet host w ≡ (some p, record w { conn = (recv_packet host w.conn).1 })
unfolding recv_follow_packet
recv_follow_packet-some host os w p e = rw (e, recv_follow_packet) refl

module _ (host : Host) (os : Posix) (mem : HasMemory host) (path : Bytes) (total : ℕ)
    (mapped : Bool) (rest : Bytes) (range : total < 2 ^ 63) where
  puts_store-conn :
      (offset : ℕ) (p : Packet) (w : Here os)
      → (puts_store host os path mapped offset p w).conn ≡ w.conn
  unfolding puts_store
  puts_store-conn offset p w = elim (Bool-cases (ltb 0 p.header.data_len && mapped)) [
    | inl write ↦ rw write refl
    | inr skip ↦ rw skip refl
  ]

  pub puts_loop-Whole :
      (fuel offset : ℕ) (blocks : List Bytes) (w : Here os)
      → length blocks < fuel
      → AllBlocks blocks
      → offset + length (concat blocks) ≡ total
      → deliverable w.conn.incoming ≡ frames blocks ++ (end_bytes ++ rest)
      → Whole os w total rest (puts_loop host os fuel path total mapped offset w)
  unfolding puts_loop concat
  puts_loop-Whole zero offset blocks w f small size e = absurd (omega arith)
  puts_loop-Whole (suc fuel) offset [] w f small size e =
      let (got, left) = recv_packet-end host mem w.conn rest e in
      let done : (offset == total) ≡ true = ground (arith, size) in
      let (sent, room) = recv_packet-frame host w.conn in
      rw
        (
          ap (λ x. x.0) (recv_follow_packet-some host os w end_packet got),
          ap (λ x. x.1) (recv_follow_packet-some host os w end_packet got),
          puts_loop,
          block_kinds.2,
          done,
        )
        (record {
          after = record w { conn = (recv_packet host w.conn).1 };
          result =
              ap (λ n. returns (true, n, record w { conn = (recv_packet host w.conn).1 }))
                (omega (arith, size));
          left = left;
          sent = sent;
          room = room;
        })
  puts_loop-Whole (suc fuel) offset (block ∷ blocks) w f (some_byte, short, small) size e =
      let (got, left) =
        recv_packet-frames host mem w.conn block blocks (end_bytes ++ rest) short e in
      let (sent, room) = recv_packet-frame host w.conn in
      let w' = record w { conn = (recv_packet host w.conn).1 } in
      let long = length-append block (concat blocks) in
      let next : (offset + length block) % 2 ^ 64 ≡ offset + length block =
        omega (arith, size, long, range) in
      let fits : ltb total (offset + length block) ≡ false = ground (arith, size, long) in
      let v = puts_store host os path mapped offset (data_packet block) w' in
      let same = puts_store-conn offset (data_packet block) w' in
      let u =
        puts_loop-Whole fuel (offset + length block) blocks v (omega arith) small
          (omega (arith, size, long)) (ap (λ (x : Conn). deliverable x.incoming) same ∙ left) in
      rw
        (
          ap (λ x. x.0) (recv_follow_packet-some host os w (data_packet block) got),
          ap (λ x. x.1) (recv_follow_packet-some host os w (data_packet block) got),
          puts_loop,
          block_kinds.0,
          block_kinds.1,
          next,
          fits,
        )
        (record {
          after = u.after;
          result = u.result;
          left = u.left;
          sent = u.sent ∙ ap (λ (x : Conn). x.sent) same ∙ sent;
          room = u.room ∙ ap (λ (x : Conn). x.room) same ∙ room;
        })
