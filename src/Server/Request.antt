-- ===== src/Server/Request.antt =====
-- `dispatch_command` and `handle_request` of src/server/handle.c.
pub mod Laws
use wind_cloud_v.Base.{
  ℕ, zero, suc, ◌+◌, ◌-◌, ◌%◌, ◌^◌, Bool, true, false, not, ◌&&◌, ◌||◌, Option, none, some, List,
  [], ◌∷◌, ◌++◌, Bytes, length, ltb, leb, min, drop, take, ◌==◌, if◌then◌else◌, codes, equal,
}
use wind_cloud_v.Wire.Types.{
  path_max, max_text_payload, file_block_size, CmdType, cmd_of, Status, Packet, Host,
}
use wind_cloud_v.Wire.Packet.{send_packet, recv_packet}
use wind_cloud_v.Wire.Command.{snprintf}
use wind_cloud_v.Server.Path.{build_real_path, resolve_target_path}
use wind_cloud_v.Server.World.{
  Posix, World, Here, closing, Run, returns, overread, out_of_fuel, ◌>>=◌, rounds,
}
use wind_cloud_v.Server.Reply.{
  text, send_text_reply, ack, error, send_resume_packet, recv_follow_packet, send_file_info_packet,
  send_file_data_packet, copy_string_payload, refused, past_end, info, extract_file_info,
  extract_resume_offset,
}
use wind_cloud_v.Server.Commands.{handle_pwd, handle_cd, handle_ls, handle_rm, handle_mkdir}
use wind_cloud_v.Server.Upload.{handle_puts}
use wind_cloud_v.Server.Download.{handle_gets}

module _ (host : Host) (os : Posix) where
  -- A handler with a string argument, or the reply that the argument is missing.
  unfoldable pub with_arg :
      Here os → Packet → Bytes → (Bytes → Run (Bool × Here os)) → Run (Bool × Here os)
  with_arg w p missing handle = elim (copy_string_payload p path_max false) [
    | none ↦ returns (error host w Status.bad_request missing)
    | some arg ↦ handle arg
  ]

  -- The `switch` on the command type.
  unfoldable pub dispatch : Option CmdType → Here os → Packet → Run (Bool × Here os)
  dispatch (some CmdType.pwd) w p = returns (handle_pwd host os w)
  dispatch (some CmdType.ls) w p = returns (handle_ls host os w)
  dispatch (some CmdType.cd) w p =
      with_arg w p (text "cd 缺少目录参数") (λ arg. returns (handle_cd host os w arg))
  dispatch (some CmdType.rm) w p =
      with_arg w p (text "rm 缺少文件名") (λ arg. returns (handle_rm host os w arg))
  dispatch (some CmdType.mkdir) w p =
      with_arg w p (text "mkdir 缺少目录名") (λ arg. returns (handle_mkdir host os w arg))
  dispatch (some CmdType.puts_req) w p = handle_puts host os w p
  dispatch (some CmdType.gets_req) w p =
      with_arg w p (text "gets 缺少文件名") (λ arg. handle_gets host os w arg)
  dispatch _ w p = returns (error host (closing w) Status.protocol_error (text "未知命令类型"))

  unfoldable pub dispatch_command : Here os → Packet → Run (Bool × Here os)
  dispatch_command w p = dispatch (cmd_of p.header.cmd_type) w p

  -- The loop of `handle_request`: the world when the connection is given up.
  unfoldable pub request_loop : ℕ → Here os → Run (Here os)
  request_loop zero w = out_of_fuel
  request_loop (suc fuel) w =
      let (r, c) = recv_packet host w.conn in
      let next = λ (w' : Here os). request_loop fuel w' in
      let w' = record w { conn = c } in
      if w.session.should_close then returns w else elim r [
        | none ↦ returns w'
        | some p ↦
            dispatch_command w' p
            >>= (λ (ok, v). if not ok && not v.session.should_close then returns v else next v)
      ]

  unfoldable pub handle_request : Here os → Run (Here os)
  handle_request w = request_loop (rounds w.conn) w
