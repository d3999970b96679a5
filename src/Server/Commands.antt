-- ===== src/Server/Commands.antt =====
-- `handle_pwd`, `handle_cd`, `handle_ls`, `handle_rm` and `handle_mkdir` of
-- src/server/handle.c. A handler gives its
-- result (`true` is the return value 0) and the world it leaves. Logging is left out.
pub mod Laws
pub mod Listing
pub mod Answer
use wind_cloud_v.Base.{
  ℕ, zero, suc, ◌+◌, ◌-◌, ◌%◌, ◌^◌, Bool, true, false, not, ◌&&◌, ◌||◌, Option, none, some, List,
  [], ◌∷◌, ◌++◌, Bytes, length, ltb, leb, min, drop, take, ◌==◌, if◌then◌else◌, codes, equal,
}
use wind_cloud_v.Wire.Types.{
  path_max, max_text_payload, file_block_size, CmdType, cmd_of, Status, Packet, Host,
}
use wind_cloud_v.Wire.Packet.{send_packet, recv_packet}
use wind_cloud_v.Wire.Command.{snprintf}
use wind_cloud_v.Server.Path.{build_real_path, resolve_target_path}
use wind_cloud_v.Server.World.{
  Posix, World, Here, closing, Run, returns, overread, out_of_fuel, ◌>>=◌, rounds,
}
use wind_cloud_v.Server.Reply.{
  text, send_text_reply, ack, error, send_resume_packet, recv_follow_packet, send_file_info_packet,
  send_file_data_packet, copy_string_payload, refused, past_end, info, extract_file_info,
  extract_resume_offset,
}

-- The `readdir` loop of `handle_ls`: `result` is the buffer up to `used`, and `none` is the reply
-- that the listing is too long.
unfoldable pub ls_loop : List Bytes → Bytes → Option Bytes
ls_loop [] result = some result
ls_loop (name ∷ names) result =
    let skip = ls_loop names result in
    let used = length result + length name in
    let lined = ls_loop names (result ++ (name ++ b'\n' ∷ [])) in
    let bare = ls_loop names (result ++ name) in
    if equal name (codes ".") || equal name (codes "..")
    then skip
    else if leb (max_text_payload - length result) (length name)
    then none
    else if ltb (used + 2) max_text_payload
    then lined
    else bare

-- What `handle_ls` sends for a listing.
abbrev pub listing : Bytes → Bytes
listing [] = codes "(empty)"
listing (c ∷ s) = c ∷ s

module _ (host : Host) (os : Posix) where
  unfoldable pub handle_pwd : Here os → Bool × Here os
  handle_pwd w = ack host w w.session.current_path

  unfoldable pub handle_cd : Here os → Bytes → Bool × Here os
  handle_cd w arg = elim (resolve_target_path w.session.current_path arg) [
    | none ↦ error host w Status.bad_request (text "cd 参数非法")
    | some (next_virtual, real_path) ↦ elim (os.opendir w.disk real_path) [
      | none ↦ error host w Status.not_found (text "目录不存在")
      | some names ↦
          let s = record (w.session) { current_path = snprintf path_max next_virtual } in
          ack host (record w { session = s }) (text "进入目录成功")
    ]
  ]

  unfoldable pub handle_ls : Here os → Bool × Here os
  handle_ls w = elim (build_real_path w.session.current_path path_max) [
    | none ↦ error host w Status.bad_request (text "当前路径过长")
    | some real_path ↦ elim (os.opendir w.disk real_path) [
      | none ↦ error host w Status.io_error (text "目录打开失败")
      | some names ↦ elim (ls_loop names []) [
        | none ↦ error host w Status.io_error (text "目录内容过长")
        | some result ↦ ack host w (listing result)
      ]
    ]
  ]

  unfoldable pub handle_rm : Here os → Bytes → Bool × Here os
  handle_rm w arg = elim (resolve_target_path w.session.current_path arg) [
    | none ↦ error host w Status.bad_request (text "rm 参数非法")
    | some (target, real_path) ↦ elim (os.remove w.disk real_path) [
      | none ↦ error host w Status.io_error (text "删除失败")
      | some disk ↦ ack host (record w { disk = disk }) (text "删除成功")
    ]
  ]

  unfoldable pub handle_mkdir : Here os → Bytes → Bool × Here os
  handle_mkdir w arg = elim (resolve_target_path w.session.current_path arg) [
    | none ↦ error host w Status.bad_request (text "mkdir 参数非法")
    | some (target, real_path) ↦ elim (os.mkdir w.disk real_path) [
      | none ↦ error host w Status.io_error (text "创建文件夹失败")
      | some disk ↦ ack host (record w { disk = disk }) (text "创建文件夹成功")
    ]
  ]
