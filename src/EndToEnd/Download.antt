-- ===== src/EndToEnd/Download.antt =====
-- `handle_gets` of the server against `handle_gets` of the client.
use wind_cloud_v.Base.{
  ℕ, suc, ◌^◌, ◌≤◌, ◌<◌, ◌≡◌, refl, sym, ap, subst, ◌∙◌, true, some, List, ◌++◌, Bytes, length,
  take, drop, length-take, length-drop, arith,
}
use wind_cloud_v.Wire.Stream.{pending}
use wind_cloud_v.Wire.Stream.Laws.{deliverable, IsWilling}
use wind_cloud_v.Wire.Types.{Host}
use wind_cloud_v.Wire.Packet.Blocks.{frames, concat, AllBlocks, HasMemory}
use wind_cloud_v.Server.World.{Posix, Here, returns, left_by}
use wind_cloud_v.Server.Download.{gets_loop, gets_end}
use wind_cloud_v.Server.Download.Stream.{gets_loop-Streams}
use wind_cloud_v.Client.World.{Calls, Written, Mine}
use wind_cloud_v.Client.Download.{gets_blocks}
use wind_cloud_v.Client.Download.Contents.{gets_blocks-Received}
use wind_cloud_v.EndToEnd.Arrival.{end_bytes, blocks_then_end, joined, few_blocks}

module _ (a b : Host) (os : Posix) (os' : Posix) (calls : Calls os') (doc : Written os' calls)
    (mem : HasMemory b) where
  downloaded :
      (path contents rest : Bytes) (total offset fuel : ℕ) (blocks : List Bytes) (c : Mine os')
      → total < 2 ^ 63
      → length contents ≡ total
      → offset ≤ total
      → AllBlocks blocks
      → concat blocks ≡ drop offset contents
      → deliverable c.conn.incoming ≡ frames blocks ++ (end_bytes ++ rest)
      → pending c.conn.incoming < fuel
      → IsWilling c.writes
      → os'.file c.disk path ≡ some (take offset contents)
      → (after : Mine os') × (gets_blocks b os' calls fuel path offset c ≡ returns (true, after))
        × (os'.file after.disk path ≡ some contents)
        × (deliverable after.conn.incoming ≡ rest)
  downloaded path contents rest total offset fuel blocks c range full bound small whole arrives f
        writes there =
      let here : length (take offset contents) ≡ offset =
        omega (arith, length-take offset contents, full, bound) in
      let r =
        gets_blocks-Received b os' calls doc mem path rest fuel blocks c (take offset contents)
          (few_blocks blocks rest c.conn fuel arrives f) small
          (omega (arith, here, ap length whole, length-drop offset contents, full, bound, range))
          there writes arrives in
      (
        r.after,
        ap (λ n. gets_blocks b os' calls fuel path n c) (sym here) ∙ r.result,
        r.file ∙ ap some (joined offset contents contents blocks refl whole),
        r.left,
      )

  -- A download copies the file, of less than 2 ^ 63 bytes, where the client's host has memory and
  -- `write` to a file does what its manual says. The server's block loop runs from the offset that
  -- the client asked for, within the file, over a kernel that takes bytes at each `write`, and the
  -- end packet follows; what is sent reaches the client, of either byte order, cut in any way. If
  -- the client's file is the part of the server's in front of the offset and every `write` to it
  -- takes bytes, then the server's loop returns 0, the client's loop ends at the end packet, and
  -- the client's file is the server's.
  pub gets_loop-gets_blocks :
      (path contents rest : Bytes) (total offset fuel : ℕ) (w : Here os) (c : Mine os')
      → total < 2 ^ 63
      → length contents ≡ total
      → offset ≤ total
      → IsWilling w.conn.room
      → deliverable c.conn.incoming
        ≡ drop
            (length w.conn.sent)
            (gets_end a os
              (true, left_by w (gets_loop a os (suc total) contents total offset w))).1.conn.sent
          ++ rest
      → pending c.conn.incoming < fuel
      → IsWilling c.writes
      → os'.file c.disk path ≡ some (take offset contents)
      → (gets_loop a os (suc total) contents total offset w
          ≡ returns (true, left_by w (gets_loop a os (suc total) contents total offset w)))
        × ((after : Mine os') × (gets_blocks b os' calls fuel path offset c ≡ returns (true, after))
            × (os'.file after.disk path ≡ some contents)
            × (deliverable after.conn.incoming ≡ rest))
  unfolding gets_end
  gets_loop-gets_blocks path contents rest total offset fuel w c range full bound room e f writes
        there =
      let u =
        gets_loop-Streams a os contents total (suc total) offset w (omega arith) full bound room in
      let w' = left_by w (gets_loop a os (suc total) contents total offset w) in
      let same_end : w' ≡ u.after = ap (left_by w) u.result in
      let sent : w'.conn.sent ≡ w.conn.sent ++ frames u.blocks =
        ap (λ (x : Here os). x.conn.sent) same_end ∙ u.sent in
      let willing : IsWilling w'.conn.room =
        subst (λ (x : Here os). IsWilling x.conn.room) (sym same_end) u.room in
      (
        u.result ∙ ap (λ (x : Here os). returns (true, x)) (sym same_end),
        downloaded path contents rest total offset fuel u.blocks c range full bound u.small u.whole
            (e ∙ blocks_then_end a w.conn.sent w'.conn u.blocks rest sent willing) f writes there,
      )
