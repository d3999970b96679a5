-- ===== src/EndToEnd/Partly.antt =====
-- The block loop of `handle_gets` in src/client/client_command_handle.c on a stream that ends anywhere.
use wind_cloud_v.Base.{
  ℕ, zero, suc, ◌+◌, ◌%◌, ◌^◌, ◌≤◌, ◌<◌, ◌≡◌, refl, sym, ap, subst, ◌∙◌, inl, inr, Bool, true,
  false, some, List, [], ◌∷◌, ◌++◌, append-nil, append_assoc, Bytes, length, length-append,
  take-append_add, arith,
}
use wind_cloud_v.Wire.Stream.{Conn, pending}
use wind_cloud_v.Wire.Stream.Laws.{deliverable, IsWilling}
use wind_cloud_v.Wire.Types.{CmdType, is_cmd_lem, Status, Host}
use wind_cloud_v.Wire.Packet.{recv_packet}
use wind_cloud_v.Wire.Packet.Framing.{packet_bytes, taken_packet, recv_packet-pending}
use wind_cloud_v.Wire.Packet.Blocks.{frames, concat, AllBlocks, HasMemory}
use wind_cloud_v.Wire.Packet.Cut.{recv_packet-cut}
use wind_cloud_v.Server.World.{Posix, Run, returns}
use wind_cloud_v.Client.World.{Calls, Written, Mine}
use wind_cloud_v.Client.Download.{write_n, gets_blocks}
use wind_cloud_v.Client.Download.Contents.{write_n-file, block_kinds}
use wind_cloud_v.EndToEnd.Arrival.{end_bytes}
use wind_cloud_v.EndToEnd.Interrupted.{Front, none_of}

-- The loop ended, and wrote what came behind what was there.
pub record Partly (os : Posix) (path old whole : Bytes) (r : Run (Bool × Mine os)) : Type 0 where
  pub ok : Bool
  pub after : Mine os
  pub result : r ≡ returns (ok, after)
  pub came : Bytes
  pub front : Front came whole
  pub file : os.file after.disk path ≡ some (old ++ came)

module _ (host : Host) (os : Posix) (calls : Calls os) (written : Written os calls)
    (mem : HasMemory host) (path lost rest : Bytes) where
  -- Nothing more is written.
  stops :
      (c : Mine os) (ok : Bool) (old whole : Bytes)
      → os.file c.disk path ≡ some old
      → Partly os path old whole (returns (ok, c))
  stops c ok old whole there = record {
    ok = ok;
    after = c;
    result = refl;
    came = [];
    front = none_of whole;
    file = there ∙ ap some (sym (append-nil old));
  }

  pub gets_blocks-Partly :
      (fuel : ℕ) (blocks : List Bytes) (c : Mine os) (old : Bytes)
      → pending c.conn.incoming < fuel
      → AllBlocks blocks
      → length old + length (concat blocks) < 2 ^ 64
      → os.file c.disk path ≡ some old
      → IsWilling c.writes
      → deliverable c.conn.incoming ++ lost ≡ frames blocks ++ (end_bytes ++ rest)
      → Partly os path old (concat blocks) (gets_blocks host os calls fuel path (length old) c)
  unfolding gets_blocks concat frames
  gets_blocks-Partly zero blocks c old f all range there h e = absurd (omega arith)
  gets_blocks-Partly (suc fuel) [] c old f all range there h e =
      elim (recv_packet-cut host mem c.conn CmdType.file_end Status.status_ok [] (omega arith) lost
        rest e) [
          | inl lack ↦ rw (lack, gets_blocks) (stops _ false old [] there)
          | inr (got, left) ↦
              rw (got, gets_blocks, is_cmd_lem CmdType.file_end) (stops _ true old [] there)
        ]
  gets_blocks-Partly (suc fuel) (block ∷ blocks) c old f (some_byte, short, small) range there h e =
      elim (recv_packet-cut host mem c.conn CmdType.file_data Status.status_ok block (omega arith)
        lost (frames blocks ++ (end_bytes ++ rest))
        (e
          ∙ append_assoc (packet_bytes CmdType.file_data Status.status_ok block) (frames blocks)
              (end_bytes ++ rest))) [
                | inl lack ↦
                    rw (lack, gets_blocks) (stops _ false old (block ++ concat blocks) there)
                | inr (got, left) ↦
                    let c' = record c { conn = (recv_packet host c.conn).1 } in
                    let spent : pending c'.conn.incoming + 20 ≤ pending c.conn.incoming =
                      subst
                        (λ r.
                          pending (recv_packet host c.conn).1.incoming + taken_packet r
                          ≤ pending c.conn.incoming)
                        got (recv_packet-pending host c.conn) in
                    let (ok, file, room, conn, printed) =
                      write_n-file host os calls written mem path rest c' old block there h in
                    let next : (length old + length block) % 2 ^ 64 ≡ length (old ++ block) =
                      omega (
                        arith,
                        range,
                        length-append old block,
                        length-append block (concat blocks),
                      ) in
                    let more =
                      gets_blocks-Partly fuel blocks
                        (write_n host os calls c' path (length old) block).1 (old ++ block)
                        (omega (arith, spent, f, ap (λ (x : Conn). pending x.incoming) conn)) small
                        (omega (
                          arith,
                          range,
                          length-append old block,
                          length-append block (concat blocks),
                        ))
                        file room (ap (λ (x : Conn). deliverable x.incoming ++ lost) conn ∙ left) in
                    let kinds = block_kinds host os calls written mem path rest in
                    rw (got, gets_blocks, kinds.0, kinds.1, kinds.2, ok, next)
                      (record {
                        ok = more.ok;
                        after = more.after;
                        result = more.result;
                        came = block ++ more.came;
                        front = record {
                          n = length block + more.front.n;
                          bound =
                              omega (arith, length-append block (concat blocks), more.front.bound);
                          same =
                              ap (λ (x : Bytes). block ++ x) more.front.same
                              ∙ sym (
                                  take-append_add (length block + more.front.n) more.front.n block
                                    (concat blocks) refl);
                        };
                        file = more.file ∙ ap some (append_assoc old block more.came);
                      })
              ]
