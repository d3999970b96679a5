-- ===== src/EndToEnd/Lost.antt =====
-- `handle_gets` of src/client/client_command_handle.c on a download whose stream ends anywhere.
use wind_cloud_v.Base.{
  ℕ, ◌+◌, ◌^◌, ◌≤◌, ◌<◌, ◌≡◌, refl, sym, ap, subst, ◌∙◌, ◌⊎◌, inl, inr, Bool, true, false,
  Bool-cases, some, List, [], ◌∷◌, ◌++◌, Bytes, length, take, drop, length-drop, ltb, arith,
}
use wind_cloud_v.Wire.Endian.{load64, net_to_host_u64}
use wind_cloud_v.Wire.Stream.Laws.{deliverable, IsWilling}
use wind_cloud_v.Wire.Types.{path_max, CmdType, Status, Host}
use wind_cloud_v.Wire.Packet.{send_packet, recv_packet}
use wind_cloud_v.Wire.Packet.Framing.{packet_bytes, send_packet-incoming}
use wind_cloud_v.Wire.Packet.Blocks.{frames, concat, AllBlocks, HasMemory}
use wind_cloud_v.Wire.Packet.Cut.{recv_packet-cut}
use wind_cloud_v.Server.World.{Posix, Documented, Run, returns, ◌>>=◌, rounds}
use wind_cloud_v.Server.Reply.{file_info_size}
use wind_cloud_v.Client.World.{Calls, Written, Mine}
use wind_cloud_v.Client.Download.{gets_end, gets_from, gets_open, handle_gets}
use wind_cloud_v.EndToEnd.Arrival.{end_bytes}
use wind_cloud_v.EndToEnd.Interrupted.{Front}
use wind_cloud_v.EndToEnd.Store.{resume_bytes}
use wind_cloud_v.EndToEnd.Broken.{take_add}
use wind_cloud_v.EndToEnd.Fetch.{gets_answer-open}
use wind_cloud_v.EndToEnd.Partly.{gets_blocks-Partly}

-- The client returned, and left its disk alone or has the first bytes of the file, those it had at
-- least.
pub record Loses (os : Posix) (c : Mine os) (path contents held : Bytes) (r : Run (Bool × Mine os))
    : Type 0 where
  pub ok : Bool
  pub after : Mine os
  pub result : r ≡ returns (ok, after)
  pub n : ℕ
  pub longer : length held ≤ n
  pub bound : n ≤ length contents
  pub file : (after.disk ≡ c.disk) ⊎ (os.file after.disk path ≡ some (take n contents))

module _ (host : Host) (os : Posix) (calls : Calls os) (doc : Documented os)
    (written : Written os calls) (mem : HasMemory host) (path contents lost rest : Bytes)
    (blocks : List Bytes) (small : AllBlocks blocks) (range : length contents < 2 ^ 63)
    (held : Bytes) (fits : length held ≤ length contents)
    (prefix : held ≡ take (length held) contents)
    (whole : concat blocks ≡ drop (length held) contents) where
  -- The disk is as it was.
  untouched :
      (c d : Mine os) (ok : Bool)
      → d.disk ≡ c.disk
      → Loses os c path contents held (returns (ok, d))
  untouched c d ok same = record {
    ok = ok;
    after = d;
    result = refl;
    n = length held;
    longer = omega arith;
    bound = fits;
    file = inl same;
  }

  -- The bytes that were there and those that came.
  held_then_came :
      (came : Bytes) (u : Front came (concat blocks))
      → held ++ came ≡ take (length held + u.n) contents
  held_then_came came u =
      ap (λ (x : Bytes). x ++ came) prefix
      ∙ ap (λ (x : Bytes). take (length held) contents ++ x) (u.same ∙ ap (take u.n) whole)
      ∙ sym (take_add (length held) u.n contents fits)

  gets_end-disk :
      (n : ℕ) (ok : Bool) (c : Mine os) → (gets_end host os calls path n (ok, c)).1.disk ≡ c.disk
  unfolding gets_end
  gets_end-disk n true c = refl
  gets_end-disk n false c = refl

  gets_from-Loses :
      (c : Mine os)
      → os.file c.disk path ≡ some held
      → IsWilling c.writes
      → deliverable c.conn.incoming ++ lost ≡ frames blocks ++ (end_bytes ++ rest)
      → Loses os c path contents held
          (gets_from host os calls c path (length contents) (length held))
  unfolding gets_from gets_end
  gets_from-Loses c there writes e =
      let payload = resume_bytes host (length held) in
      let sending = send_packet host c.conn CmdType.resume_pos Status.status_ok payload in
      let c' = record c { conn = sending.1 } in
      let long : length (concat blocks) + length held ≡ length contents =
        omega (arith, ap length whole, length-drop (length held) contents, fits) in
      elim (Bool-cases (calls.lseek c.disk path (length held))) [
        | inr bad ↦ rw (bad, gets_from) (untouched c c false refl)
        | inl set ↦ elim (Bool-cases sending.0) [
          | inr fails ↦ rw (set, fails, gets_from) (untouched c c' false refl)
          | inl ok ↦
              let u =
                gets_blocks-Partly host os calls written mem path lost rest (rounds sending.1)
                  blocks c' held (omega arith) small (omega (arith, range, long)) there writes
                  (ap (λ (x : Bytes). x ++ lost)
                      (ap deliverable (
                        send_packet-incoming host c.conn CmdType.resume_pos Status.status_ok
                          payload))
                    ∙ e) in
              rw (set, ok, gets_from)
                (record {
                  ok = u.ok;
                  after = (gets_end host os calls path (length contents) (u.ok, u.after)).1;
                  result =
                      ap
                        (λ r.
                          r >>= (λ x. returns (gets_end host os calls path (length contents) x)))
                        u.result;
                  n = length held + u.front.n;
                  longer = omega arith;
                  bound = omega (arith, u.front.bound, long);
                  file = inr (
                      ap (λ (x : os.Disk). os.file x path)
                        (gets_end-disk (length contents) u.ok u.after)
                      ∙ u.file
                      ∙ ap some (held_then_came u.came u.front));
                })
        ]
      ]

  gets_open-Loses :
      (c : Mine os)
      → os.file c.disk path ≡ some held
      → IsWilling c.writes
      → deliverable c.conn.incoming ++ lost ≡ frames blocks ++ (end_bytes ++ rest)
      → Loses os c path contents held (gets_open host os calls c path (length contents))
  unfolding gets_open
  gets_open-Loses c there writes e =
      let within : ltb (length contents) (length held) ≡ false = ground arith in
      rw (doc.fstat-file c.disk path held there, gets_open, within)
        (gets_from-Loses c there writes e)

  -- The file was opened, with what it held.
  opened_at :
      (c d : Mine os) {r : Run (Bool × Mine os)}
      → os.file d.disk path ≡ some held
      → Loses os d path contents held r
      → Loses os c path contents held r
  opened_at c d there u = elim u.file [
    | inl same ↦ record {
      ok = u.ok;
      after = u.after;
      result = u.result;
      n = length held;
      longer = omega arith;
      bound = fits;
      file = inr (ap (λ (x : os.Disk). os.file x path) same ∙ there ∙ ap some prefix);
    }
    | inr file ↦ record {
      ok = u.ok;
      after = u.after;
      result = u.result;
      n = u.n;
      longer = u.longer;
      bound = u.bound;
      file = inr file;
    }
  ]

  -- A download that is broken off, on the client's side.
  pub handle_gets-Loses :
      (bytes : Bytes) (status : Status) (c : Mine os) (d : os.Disk)
      → length bytes ≡ file_info_size
      → net_to_host_u64 host.endian (load64 host.endian (drop path_max bytes)) ≡ length contents
      → os.open_create c.disk path ≡ some d
      → os.file d path ≡ some held
      → IsWilling c.writes
      → deliverable c.conn.incoming ++ lost
        ≡ packet_bytes CmdType.gets_resp status bytes ++ (frames blocks ++ (end_bytes ++ rest))
      → Loses os c path contents held (handle_gets host os calls c path)
  unfolding handle_gets
  handle_gets-Loses bytes status c d sized means made there writes e =
      let name = path ++ 0 ∷ [] in
      let sending = send_packet host c.conn CmdType.gets_req Status.status_ok name in
      let e' =
        ap (λ (x : Bytes). x ++ lost)
          (ap deliverable (send_packet-incoming host c.conn CmdType.gets_req Status.status_ok name))
        ∙ e in
      elim (Bool-cases sending.0) [
        | inr fails ↦
            rw (fails, handle_gets) (untouched c (record c { conn = sending.1 }) false refl)
        | inl ok ↦
            elim (recv_packet-cut host mem sending.1 CmdType.gets_resp status bytes
              (omega (arith, sized)) lost (frames blocks ++ (end_bytes ++ rest)) e') [
                | inl lack ↦
                    rw (ok, lack, handle_gets)
                      (untouched c (record c { conn = (recv_packet host sending.1).1 }) false refl)
                | inr (got, left) ↦
                    let c' = record c { conn = (recv_packet host sending.1).1 } in
                    let opened =
                      gets_answer-open host os calls doc written mem path contents rest blocks small
                        range bytes status sized means c' d made in
                    rw (ok, got, handle_gets)
                      (subst (Loses os c path contents held) (sym opened) (
                        opened_at c (record c' { disk = d }) there
                          (gets_open-Loses (record c' { disk = d }) there writes left)))
              ]
      ]
