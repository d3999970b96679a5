-- ===== src/EndToEnd/Upload.antt =====
-- `handle_puts` of the client against `handle_puts` of the server.
use wind_cloud_v.Base.{
  ℕ, suc, ◌^◌, ◌+◌, ◌≤◌, ◌<◌, ◌≡◌, ◌≢◌, sym, ap, subst, ◌∙◌, Bool, true, none, some, List, [], ◌++◌,
  Bytes, length, take, drop, length-drop, arith,
}
use wind_cloud_v.Wire.Stream.{pending}
use wind_cloud_v.Wire.Stream.Laws.{deliverable, IsWilling}
use wind_cloud_v.Wire.Types.{CmdType, Status, Host}
use wind_cloud_v.Wire.Packet.{send_packet}
use wind_cloud_v.Wire.Packet.Blocks.{frames, concat, AllBlocks, HasMemory}
use wind_cloud_v.Server.World.{Posix, Documented, Here, Run, returns, ◌>>=◌, left_by}
use wind_cloud_v.Server.Upload.{puts_loop, puts_finish}
use wind_cloud_v.Server.Upload.Contents.{puts_loop-puts_finish}
use wind_cloud_v.Client.World.{Client}
use wind_cloud_v.Client.Upload.{puts_blocks}
use wind_cloud_v.Client.Upload.Stream.{IsReading, puts_blocks-Sends}
use wind_cloud_v.EndToEnd.Arrival.{end_bytes, arriving-frames, blocks_then_end, joined, few_blocks}

module _ (a b : Host) (os : Posix) (doc : Documented os) (mem : HasMemory b) where
  uploaded :
      (path contents old rest : Bytes) (total offset fuel : ℕ) (blocks : List Bytes) (w : Here os)
      → ((d : os.Disk) (n : ℕ) → os.ftruncate d path n ≢ none)
      → total < 2 ^ 63
      → length contents ≡ total
      → offset ≤ total
      → AllBlocks blocks
      → concat blocks ≡ drop offset contents
      → deliverable w.conn.incoming ≡ frames blocks ++ (end_bytes ++ rest)
      → pending w.conn.incoming < fuel
      → os.file w.disk path ≡ some old
      → length old ≡ total
      → take offset old ≡ take offset contents
      → (ok : Bool) × (after : Here os) × ((puts_loop b os fuel path total true offset w
            >>= (λ r. returns (puts_finish b os path r)))
          ≡ returns (ok, after))
        × (os.file after.disk path ≡ some contents)
  uploaded path contents old rest total offset fuel blocks w sized range full bound small whole
        arrives f there size same =
      let came =
        arriving-frames b fuel total offset blocks w.conn rest mem
          (few_blocks blocks rest w.conn fuel arrives f) small
          (omega (arith, ap length whole, length-drop offset contents, full, bound)) arrives in
      let (ok, after, result, file) =
        puts_loop-puts_finish b os doc path total sized range fuel offset w old f there size
          bound in
      (
        ok,
        after,
        result,
        file
            ∙ ap (λ (x : Bytes). some (take offset old ++ x)) came
            ∙ ap some (joined offset old contents blocks same whole),
      )

  -- What the client's block loop does with a file, from the offset that the server holds.
  abbrev pub sends : {Disk : Type 0} → Bytes → ℕ → ℕ → Client Disk → Run (Bool × Client Disk)
  sends contents total offset c =
      puts_blocks a (suc (length c.reads + length (drop offset contents))) total offset
        (drop offset contents) c

  -- An upload copies the file, of less than 2 ^ 63 bytes, where the server's host has memory, its
  -- file system does what its manual says, and `ftruncate` does not fail. The client's block loop
  -- runs from the offset that the server holds, within the file, over a kernel that takes bytes at
  -- each `write` and gives some at each `read`, and the end packet follows; what is sent reaches
  -- the server, of either byte order, cut in any way. If the server's file has its full length and
  -- agrees with the client's up to the offset, then the client's loop returns 0, the server's loop
  -- and what follows it return, and the server's file is the client's.
  pub puts_blocks-puts_loop :
      {Disk : Type 0} (path contents old rest : Bytes) (total offset fuel : ℕ) (c : Client Disk)
      (w : Here os)
      → ((d : os.Disk) (n : ℕ) → os.ftruncate d path n ≢ none)
      → total < 2 ^ 63
      → length contents ≡ total
      → offset ≤ total
      → IsReading c.reads
      → IsWilling c.conn.room
      → deliverable w.conn.incoming
        ≡ drop
            (length c.conn.sent)
            (send_packet a
              (left_by c (sends contents total offset c)).conn
              CmdType.file_end
              Status.status_ok
              []).1.sent
          ++ rest
      → pending w.conn.incoming < fuel
      → os.file w.disk path ≡ some old
      → length old ≡ total
      → take offset old ≡ take offset contents
      → (sends contents total offset c ≡ returns (true, left_by c (sends contents total offset c)))
        × ((ok : Bool) × (after : Here os) × ((puts_loop b os fuel path total true offset w
                >>= (λ r. returns (puts_finish b os path r)))
              ≡ returns (ok, after))
            × (os.file after.disk path ≡ some contents))
  puts_blocks-puts_loop {Disk} path contents old rest total offset fuel c w sized range full bound
        rd room e f there size same =
      let u =
        puts_blocks-Sends a (suc (length c.reads + length (drop offset contents))) total offset
          (drop offset contents) c (omega arith)
          (omega (arith, length-drop offset contents, full, bound)) range rd room in
      let c' = left_by c (sends contents total offset c) in
      let same_end : c' ≡ u.after = ap (left_by c) u.result in
      let sent : c'.conn.sent ≡ c.conn.sent ++ frames u.blocks =
        ap (λ (x : Client Disk). x.conn.sent) same_end ∙ u.sent in
      let willing : IsWilling c'.conn.room =
        subst (λ (x : Client Disk). IsWilling x.conn.room) (sym same_end) u.room in
      (
        u.result ∙ ap (λ (x : Client Disk). returns (true, x)) (sym same_end),
        uploaded path contents old rest total offset fuel u.blocks w sized range full bound u.small
            u.whole (e ∙ blocks_then_end a c.conn.sent c'.conn u.blocks rest sent willing) f there
            size same,
      )
