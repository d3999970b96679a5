-- ===== src/Server/Download/Laws.antt =====
-- `handle_gets` against what a step may change.
use wind_cloud_v.Base.{
  ℕ, zero, suc, ◌+◌, ◌-◌, ◌<◌, ap, inl, inr, Bool, true, false, Option-cases, Bool-cases, Bytes,
  take, drop, ltb, if◌then◌else◌, arith,
}
use wind_cloud_v.Wire.Stream.{send_n}
use wind_cloud_v.Wire.Stream.Laws.{send_n-incoming}
use wind_cloud_v.Wire.Types.{file_block_size, CmdType, is_cmd, Status, Packet, Host}
use wind_cloud_v.Wire.Packet.{header_of, header_bytes}
use wind_cloud_v.Server.Path.{resolve_target_path}
use wind_cloud_v.Server.World.{Posix, Here, Run, returns, overread, out_of_fuel, ◌>>=◌}
use wind_cloud_v.Server.Reply.{
  recv_follow_packet, send_file_info_packet, send_file_data_packet, extract_resume_offset,
}
use wind_cloud_v.Wire.Stream.{pending}
use wind_cloud_v.Server.Effect.{
  Effect, Effect-refl, Effect-trans, Effect-conn, Effect-closing, Keeps, Keeps-trans,
  send_packet-Effect, send_text_reply-Effect, recv_follow_packet-Effect,
}
use wind_cloud_v.Server.Download.{gets_loop, gets_end, gets_resume, gets_send, handle_gets}

-- The size of the next block.
abbrev pub chunk : ℕ → ℕ → ℕ
chunk total offset =
    if ltb file_block_size (total - offset) then file_block_size else total - offset

module _ (host : Host) (os : Posix) where
  send_file_data_packet-Effect :
      (w : Here os) (contents : Bytes) (offset size : ℕ)
      → Effect os w (send_file_data_packet host w contents offset size).1
  unfolding send_file_data_packet
  send_file_data_packet-Effect w contents offset size =
      let head = header_bytes host.endian (header_of CmdType.file_data Status.status_ok size) in
      let c = (send_n w.conn head).1 in
      let block = take size (drop offset contents) in
      let a = ap pending (send_n-incoming w.conn head) in
      elim (Bool-cases (send_n w.conn head).0) [
        | inl ok ↦ rw ok (Effect-conn w _ (omega (arith, a, ap pending (send_n-incoming c block))))
        | inr bad ↦ rw bad (Effect-conn w _ (omega (arith, a)))
      ]

  -- Each block moves the offset on, so the loop ends within the fuel it is given.
  gets_loop-Keeps :
      (fuel : ℕ) (contents : Bytes) (total offset : ℕ) (w : Here os)
      → total - offset < fuel
      → Keeps os w (gets_loop host os fuel contents total offset w)
  unfolding gets_loop
  gets_loop-Keeps zero contents total offset w h = absurd (omega arith)
  gets_loop-Keeps (suc fuel) contents total offset w h =
      let n = chunk total offset in
      let w' = (send_file_data_packet host w contents offset n).1 in
      let e = send_file_data_packet-Effect w contents offset n in
      elim (Bool-cases (ltb offset total)) [
        | inr done ↦ rw done (Effect-refl w)
        | inl more ↦ elim (Bool-cases (send_file_data_packet host w contents offset n).0) [
          | inr bad ↦ rw (more, bad) (Effect-trans e (Effect-closing w'))
          | inl ok ↦
              rw (more, ok)
                (Keeps-trans _ e
                  (gets_loop-Keeps fuel contents total (offset + n) w' (ground arith)))
        ]
      ]

  gets_end-Effect : (r : Bool × Here os) → Effect os r.1 (gets_end host os r).1
  unfolding gets_end
  gets_end-Effect (false, w) = Effect-refl w
  gets_end-Effect (true, w) = send_packet-Effect host w _ _ _

  ended-Keeps :
      (w : Here os) (r : Run (Bool × Here os))
      → Keeps os w r
      → Keeps os w (r >>= (λ x. returns (gets_end host os x)))
  ended-Keeps w (returns r) k = Effect-trans k (gets_end-Effect r)
  ended-Keeps w overread k = tt
  ended-Keeps w out_of_fuel k = k

  gets_resume-Keeps :
      (w : Here os) (path : Bytes) (total : ℕ) (p : Packet)
      → Keeps os w (gets_resume host os w path total p)
  unfolding gets_resume
  gets_resume-Keeps w path total p =
      elim (Bool-cases (is_cmd p.header.cmd_type CmdType.resume_pos)) [
        | inr other ↦ rw other (Effect-closing w)
        | inl resume ↦ elim (Option-cases (extract_resume_offset host p)) [
          | inl bad ↦ rw (resume, bad, gets_resume) (Effect-closing w)
          | inr (offset, got) ↦
              rw (resume, got, gets_resume)
                (ended-Keeps w _ (gets_loop-Keeps (suc total) _ total _ w (omega arith)))
        ]
      ]

  gets_send-Keeps :
      (w : Here os) (arg path : Bytes) (total : ℕ) → Keeps os w (gets_send host os w arg path total)
  unfolding gets_send
  gets_send-Keeps w arg path total =
      let sent = send_file_info_packet host w CmdType.gets_resp Status.status_ok arg total in
      let e : Effect os w sent.1 =
        unfold send_file_info_packet in send_packet-Effect host w _ _ _ in
      let f = Effect-trans e (recv_follow_packet-Effect host sent.1) in
      elim (Bool-cases sent.0) [
        | inr bad ↦ rw bad (Effect-trans e (Effect-closing sent.1))
        | inl ok ↦ elim (Option-cases (recv_follow_packet host sent.1).0) [
          | inl bad ↦ rw (ok, bad, gets_send) f
          | inr (p, got) ↦
              rw (ok, got, gets_send) (Keeps-trans _ f (gets_resume-Keeps _ path total p))
        ]
      ]

  -- `handle_gets` ends within the model's fuel for any argument, file and input; the session's path
  -- stays a chain of names below the root, no file outside the served directory changes, and no
  -- input is made up.
  pub handle_gets-Keeps : (w : Here os) (arg : Bytes) → Keeps os w (handle_gets host os w arg)
  unfolding handle_gets
  handle_gets-Keeps w arg = elim (Option-cases (resolve_target_path w.session.current_path arg)) [
    | inl bad ↦ rw (bad, handle_gets) (send_text_reply-Effect host w _ _ _)
    | inr ((v, path), at) ↦ elim (Bool-cases (os.open_read w.disk path)) [
      | inr bad ↦ rw (at, handle_gets, bad) (send_text_reply-Effect host w _ _ _)
      | inl open_ ↦ elim (Option-cases (os.fstat w.disk path)) [
        | inl bad ↦ rw (at, handle_gets, open_, bad) (send_text_reply-Effect host w _ _ _)
        | inr (total, size) ↦ rw (at, handle_gets, open_, size) (gets_send-Keeps w arg path total)
      ]
    ]
  ]
