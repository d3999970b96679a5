-- ===== src/Client/Download/Contents.antt =====
-- What the client's `handle_gets` writes, against the data packets that arrive.
use wind_cloud_v.Base.{
  ℕ, zero, suc, ◌+◌, ◌%◌, ◌^◌, ◌<◌, ◌≡◌, refl, sym, ap, ◌∙◌, Bool, true, false, some, List, [], ◌∷◌,
  ◌++◌, append-nil, append_assoc, Bytes, length, drop, length-append, take_all, drop_all, arith,
}
use wind_cloud_v.Wire.Stream.{Conn}
use wind_cloud_v.Wire.Stream.Laws.{deliverable, IsWilling, write_loop-whole}
use wind_cloud_v.Wire.Types.{CmdType, cmd_code, is_cmd, is_cmd_lem, Status, Host}
use wind_cloud_v.Wire.Packet.{recv_packet}
use wind_cloud_v.Wire.Packet.Framing.{packet_bytes, recv_packet-frame}
use wind_cloud_v.Wire.Packet.Blocks.{
  frames, concat, AllBlocks, HasMemory, recv_packet-frames, recv_packet-end,
}
use wind_cloud_v.Server.World.{overwrite, Posix, Run, returns}
use wind_cloud_v.Client.World.{Calls, Written, Mine}
use wind_cloud_v.Client.Download.{write_n, gets_blocks}

overwrite-end : (new old : Bytes) → overwrite (length old) new old ≡ old ++ new
overwrite-end new old =
    ap (λ (x : Bytes). x ++ (new ++ drop (length old + length new) old))
      (take_all (length old) old (omega arith))
    ∙ ap (λ (x : Bytes). old ++ (new ++ x)) (drop_all (length old + length new) old (omega arith))
    ∙ ap (λ (x : Bytes). old ++ x) (append-nil new)

-- A download that was received to its end.
pub record Received (os : Posix) (c : Mine os) (path old came rest : Bytes)
    (r : Run (Bool × Mine os)) : Type 0 where
  pub after : Mine os
  pub result : r ≡ returns (true, after)
  pub file : os.file after.disk path ≡ some (old ++ came)
  pub left : deliverable after.conn.incoming ≡ rest
  pub sent : after.conn.sent ≡ c.conn.sent
  pub printed : after.printed ≡ c.printed

module _ (host : Host) (os : Posix) (calls : Calls os) (doc : Written os calls)
    (mem : HasMemory host) (path rest : Bytes) where
  -- A whole block is written behind the old bytes.
  pub write_n-file :
      (c : Mine os) (old block : Bytes)
      → os.file c.disk path ≡ some old
      → IsWilling c.writes
      → ((write_n host os calls c path (length old) block).0 ≡ true)
        × (os.file (write_n host os calls c path (length old) block).1.disk path
            ≡ some (old ++ block))
        × IsWilling (write_n host os calls c path (length old) block).1.writes
        × ((write_n host os calls c path (length old) block).1.conn ≡ c.conn)
        × ((write_n host os calls c path (length old) block).1.printed ≡ c.printed)
  unfolding write_n
  write_n-file c old block there h =
      let (ok, out, room) = write_loop-whole block c.writes h in
      (
        ok,
        ap (λ (x : Bytes). os.file (calls.write c.disk path (length old) x) path) out
            ∙ doc.write-file c.disk path (length old) block old there (omega arith)
            ∙ ap some (overwrite-end block old),
        room,
        refl,
        refl,
      )

  -- A block is no other kind of packet.
  pub block_kinds :
      (is_cmd (cmd_code CmdType.file_data) CmdType.file_end ≡ false)
      × (is_cmd (cmd_code CmdType.file_data) CmdType.error ≡ false)
      × (is_cmd (cmd_code CmdType.file_data) CmdType.file_data ≡ true)
  unfolding is_cmd cmd_code
  block_kinds = (refl, refl, refl)

  pub gets_blocks-Received :
      (fuel : ℕ) (blocks : List Bytes) (c : Mine os) (old : Bytes)
      → length blocks < fuel
      → AllBlocks blocks
      → length old + length (concat blocks) < 2 ^ 64
      → os.file c.disk path ≡ some old
      → IsWilling c.writes
      → deliverable c.conn.incoming
        ≡ frames blocks ++ (packet_bytes CmdType.file_end Status.status_ok [] ++ rest)
      → Received os c path old
          (concat blocks)
          rest
          (gets_blocks host os calls fuel path (length old) c)
  unfolding gets_blocks concat
  gets_blocks-Received zero blocks c old f all range there h e = absurd (omega arith)
  gets_blocks-Received (suc fuel) [] c old f all range there h e =
      let (got, left) = recv_packet-end host mem c.conn rest e in
      rw (got, gets_blocks, is_cmd_lem CmdType.file_end)
        (record {
          after = record c { conn = (recv_packet host c.conn).1 };
          result = refl;
          file = there ∙ ap some (sym (append-nil old));
          left = left;
          sent = (recv_packet-frame host c.conn).0;
          printed = refl;
        })
  gets_blocks-Received (suc fuel) (block ∷ blocks) c old f all range there h e =
      let (got, left) =
        recv_packet-frames host mem c.conn block blocks
          (packet_bytes CmdType.file_end Status.status_ok [] ++ rest) all.1 e in
      let c' = record c { conn = (recv_packet host c.conn).1 } in
      let (ok, file, room, conn, printed) = write_n-file c' old block there h in
      let next : (length old + length block) % 2 ^ 64 ≡ length (old ++ block) =
        omega (arith, range, length-append old block, length-append block (concat blocks)) in
      let more =
        gets_blocks-Received fuel blocks (write_n host os calls c' path (length old) block).1
          (old ++ block) (omega arith) all.2
          (omega (arith, range, length-append old block, length-append block (concat blocks))) file
          room (ap (λ x. deliverable x.incoming) conn ∙ left) in
      rw (got, gets_blocks, block_kinds.0, block_kinds.1, block_kinds.2, ok, next)
        (record {
          after = more.after;
          result = more.result;
          file = more.file ∙ ap some (append_assoc old block (concat blocks));
          left = more.left;
          sent = more.sent ∙ ap (λ (x : Conn). x.sent) conn ∙ (recv_packet-frame host c.conn).0;
          printed = more.printed ∙ printed;
        })
