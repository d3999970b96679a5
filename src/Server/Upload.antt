-- ===== src/Server/Upload.antt =====
-- `handle_puts` of src/server/handle.c, in the pieces between its early returns.
pub mod Laws
pub mod Arriving
pub mod Contents
use wind_cloud_v.Base.{
  ℕ, zero, suc, ◌+◌, ◌-◌, ◌%◌, ◌^◌, Bool, true, false, not, ◌&&◌, ◌||◌, Option, none, some, List,
  [], ◌∷◌, ◌++◌, Bytes, length, ltb, leb, min, drop, take, ◌==◌, if◌then◌else◌, codes, equal,
}
use wind_cloud_v.Wire.Types.{
  path_max, max_text_payload, file_block_size, CmdType, is_cmd, Status, Packet, Host,
}
use wind_cloud_v.Wire.Packet.{send_packet, recv_packet}
use wind_cloud_v.Wire.Command.{snprintf}
use wind_cloud_v.Server.Path.{build_real_path, resolve_target_path}
use wind_cloud_v.Server.World.{
  Posix, World, Here, closing, Run, returns, overread, out_of_fuel, ◌>>=◌, rounds,
}
use wind_cloud_v.Server.Reply.{
  text, send_text_reply, ack, error, send_resume_packet, recv_follow_packet, send_file_info_packet,
  send_file_data_packet, copy_string_payload, refused, past_end, info, extract_file_info,
  extract_resume_offset,
}

module _ (host : Host) (os : Posix) where
  -- `ftruncate(fd, (off_t)n)`: from 2^63 on the length is negative, and the call fails.
  unfoldable pub truncate_to : os.Disk → Bytes → ℕ → Option os.Disk
  truncate_to d path n = if leb (2 ^ 63) n then none else os.ftruncate d path n

  -- One data packet in the loop: the write through the mapping. `mapped` says that `map_ptr` is not
  -- NULL.
  unfoldable pub puts_store : Bytes → Bool → ℕ → Packet → Here os → Here os
  puts_store path mapped offset p w =
      if ltb 0 p.header.data_len && mapped
      then record w { disk = os.store w.disk path offset p.payload }
      else w

  -- The receive loop of `handle_puts`: whether all came, and the final `write_offset`.
  unfoldable pub puts_loop : ℕ → Bytes → ℕ → Bool → ℕ → Here os → Run (Bool × ℕ × Here os)
  puts_loop zero path total mapped offset w = out_of_fuel
  puts_loop (suc fuel) path total mapped offset w =
      let (r, w') = recv_follow_packet host w in
      elim r [
        | none ↦ returns (false, offset, w')
        | some p ↦
            let next = (offset + p.header.data_len) % 2 ^ 64 in
            let more = puts_loop fuel path total mapped next (puts_store path mapped offset p w') in
            if is_cmd p.header.cmd_type CmdType.file_end
            then returns (offset == total, offset, w')
            else if not (is_cmd p.header.cmd_type CmdType.file_data)
            then returns (false, offset, closing w')
            else if ltb total next
            then returns (false, offset, closing w')
            else more
      ]

  -- What `handle_puts` does after the loop.
  unfoldable pub puts_finish : Bytes → Bool × ℕ × Here os → Bool × Here os
  puts_finish path (true, offset, w) = ack host w (text "上传完成")
  puts_finish path (false, offset, w) =
      let disk = elim (truncate_to w.disk path offset) as (λ _. os.Disk) [
        | none ↦ w.disk
        | some d ↦ d
      ] in
      error host (record w { disk = disk }) Status.io_error (text "上传中断，已保存断点")

  -- `handle_puts` from the first reply on: the file is open, and `offset` of its bytes are there.
  unfoldable pub puts_receive : Here os → Bytes → ℕ → ℕ → Run (Bool × Here os)
  puts_receive w path total offset =
      let (ok, w') = send_resume_packet host w CmdType.puts_resp Status.status_ok offset in
      if not ok
      then returns (false, closing w')
      else if total == 0
      then puts_loop (rounds w'.conn) path total false offset w'
        >>= (λ r. returns (puts_finish path r))
      else elim (truncate_to w'.disk path total) [
        | none ↦ returns (error host w' Status.io_error (text "服务端预分配文件失败"))
        | some d ↦
            if not (os.mmap d path total)
            then returns (error host (record w' { disk = d }) Status.io_error (text "服务端映射文件失败"))
            else puts_loop (rounds w'.conn) path total true offset (record w' { disk = d })
              >>= (λ r. returns (puts_finish path r))
      ]

  -- `write_offset` after `fstat`: 0 where the call fails.
  abbrev size_or_zero : Option ℕ → ℕ
  size_or_zero none = 0
  size_or_zero (some n) = n

  -- `handle_puts` once the target is open: a file longer than the upload is emptied.
  unfoldable pub puts_open : Here os → Bytes → ℕ → Run (Bool × Here os)
  puts_open w path total =
      let size = size_or_zero (os.fstat w.disk path) in
      if ltb total size
      then elim (truncate_to w.disk path 0) [
        | none ↦ returns (error host w Status.io_error (text "服务端重置文件失败"))
        | some d ↦ puts_receive (record w { disk = d }) path total 0
      ]
      else puts_receive w path total size

  unfoldable pub handle_puts : Here os → Packet → Run (Bool × Here os)
  handle_puts w p = elim (extract_file_info host p path_max) [
    | refused ↦ returns (error host w Status.bad_request (text "puts 请求格式错误"))
    | past_end ↦ overread
    | info [] total ↦ returns (error host w Status.bad_request (text "puts 请求格式错误"))
    | info (c ∷ name) total ↦ elim (resolve_target_path w.session.current_path (c ∷ name)) [
      | none ↦ returns (error host w Status.bad_request (text "上传文件名非法"))
      | some (target, path) ↦ elim (os.open_create w.disk path) [
        | none ↦ returns (error host w Status.io_error (text "服务端无法创建文件"))
        | some d ↦ puts_open (record w { disk = d }) path total
      ]
    ]
  ]
