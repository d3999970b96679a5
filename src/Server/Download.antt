-- ===== src/Server/Download.antt =====
-- `handle_gets` of src/server/handle.c, in the pieces between its early returns.
pub mod Laws
pub mod Stream
use wind_cloud_v.Base.{
  ℕ, zero, suc, ◌+◌, ◌-◌, ◌%◌, ◌^◌, Bool, true, false, not, ◌&&◌, ◌||◌, Option, none, some, List,
  [], ◌∷◌, ◌++◌, Bytes, length, ltb, leb, min, drop, take, ◌==◌, if◌then◌else◌, codes, equal,
}
use wind_cloud_v.Wire.Types.{
  path_max, max_text_payload, file_block_size, CmdType, is_cmd, Status, Packet, Host,
}
use wind_cloud_v.Wire.Packet.{send_packet, recv_packet}
use wind_cloud_v.Wire.Command.{snprintf}
use wind_cloud_v.Server.Path.{build_real_path, resolve_target_path}
use wind_cloud_v.Server.World.{
  Posix, World, Here, closing, Run, returns, overread, out_of_fuel, ◌>>=◌, rounds,
}
use wind_cloud_v.Server.Reply.{
  text, send_text_reply, ack, error, send_resume_packet, recv_follow_packet, send_file_info_packet,
  send_file_data_packet, copy_string_payload, refused, past_end, info, extract_file_info,
  extract_resume_offset,
}

-- What a descriptor opened for reading reads; a directory is opened, too, and gives nothing.
abbrev pub readable : Option Bytes → Bytes
readable none = []
readable (some bs) = bs

module _ (host : Host) (os : Posix) where
  -- The block loop: it sends from `offset` to `total`, and is done or asks for the close.
  unfoldable pub gets_loop : ℕ → Bytes → ℕ → ℕ → Here os → Run (Bool × Here os)
  gets_loop zero contents total offset w = out_of_fuel
  gets_loop (suc fuel) contents total offset w =
      let rest = total - offset in
      let chunk_size = if ltb file_block_size rest then file_block_size else rest in
      let (ok, w') = send_file_data_packet host w contents offset chunk_size in
      let more = gets_loop fuel contents total (offset + chunk_size) w' in
      if not (ltb offset total)
      then returns (true, w)
      else if not ok
      then returns (false, closing w')
      else more

  -- The end packet, if the loop was not cut short.
  unfoldable pub gets_end : Bool × Here os → Bool × Here os
  gets_end (false, w) = (false, w)
  gets_end (true, w) =
      let (ok, c) = send_packet host w.conn CmdType.file_end Status.status_ok [] in
      (ok, record w { conn = c })

  -- From the client's answer on; an offset behind the end of the file starts again at 0.
  unfoldable pub gets_resume : Here os → Bytes → ℕ → Packet → Run (Bool × Here os)
  gets_resume w path total p =
      if not (is_cmd p.header.cmd_type CmdType.resume_pos)
      then returns (false, closing w)
      else elim (extract_resume_offset host p) [
        | none ↦ returns (false, closing w)
        | some offset ↦
            let start = if ltb total offset then 0 else offset in
            gets_loop (suc total) (readable (os.file w.disk path)) total start w
            >>= (λ r. returns (gets_end r))
      ]

  unfoldable pub gets_send : Here os → Bytes → Bytes → ℕ → Run (Bool × Here os)
  gets_send w arg path total =
      let (ok, w') = send_file_info_packet host w CmdType.gets_resp Status.status_ok arg total in
      let (r, w'') = recv_follow_packet host w' in
      if not ok
      then returns (false, closing w')
      else elim r [ none ↦ returns (false, w'') | some p ↦ gets_resume w'' path total p ]

  unfoldable pub handle_gets : Here os → Bytes → Run (Bool × Here os)
  handle_gets w arg = elim (resolve_target_path w.session.current_path arg) [
    | none ↦ returns (error host w Status.bad_request (text "下载文件名非法"))
    | some (target, path) ↦
        if not (os.open_read w.disk path)
        then returns (error host w Status.not_found (text "服务端文件不存在"))
        else elim (os.fstat w.disk path) [
          | none ↦ returns (error host w Status.io_error (text "读取文件信息失败"))
          | some total ↦ gets_send w arg path total
        ]
  ]
