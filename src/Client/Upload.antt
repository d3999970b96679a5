-- ===== src/Client/Upload.antt =====
-- `handle_puts` of src/client/client_command_handle.c, in the pieces between its early returns.
pub mod Stream
pub mod Whole
use wind_cloud_v.Base.{
  ℕ, zero, suc, ◌+◌, ◌-◌, ◌%◌, ◌^◌, Bool, true, false, not, ◌||◌, Option, none, some, List, [], ◌∷◌,
  ◌++◌, Bytes, length, take, drop, min, ltb, ◌==◌, if◌then◌else◌,
}
use wind_cloud_v.Libc.{basename}
use wind_cloud_v.Wire.Endian.{load64, net_to_host_u64}
use wind_cloud_v.Wire.Stream.{Outcome, interrupted, failed, moved, Conn}
use wind_cloud_v.Wire.Types.{path_max, file_block_size, CmdType, is_cmd, Status, Packet, Host}
use wind_cloud_v.Wire.Packet.{send_packet, recv_packet}
use wind_cloud_v.Wire.Command.{snprintf}
use wind_cloud_v.Server.World.{Posix, Run, returns, out_of_fuel, ◌>>=◌}
use wind_cloud_v.Server.Reply.{file_info_bytes, resume_size}
use wind_cloud_v.Server.Download.{readable}
use wind_cloud_v.Client.World.{Calls, uploaded, Client, Mine, say, print_text_from_packet}
use wind_cloud_v.Client.Simple.{recv_text_response}

-- `safe_basename` into a buffer of `buf_sz` bytes.
unfoldable pub safe_basename : Bytes → ℕ → Bytes
safe_basename path buf_sz = snprintf buf_sz (basename (snprintf path_max path))

-- `read(fd, buf, 4096)` where `rest` is the file from its position on.
unfoldable pub read : Bytes → List (Outcome ℕ) → Outcome Bytes × List (Outcome ℕ)
read rest [] = (moved (take file_block_size rest), [])
read rest (interrupted ∷ rs) = (interrupted, rs)
read rest (failed ∷ rs) = (failed, rs)
read rest (moved k ∷ rs) = (moved (take (min k file_block_size) rest), rs)

module _ {Disk : Type 0} (host : Host) where
  -- The block loop: `rest` is the file from its position on. `false` is a return of -1.
  unfoldable pub puts_blocks : ℕ → ℕ → ℕ → Bytes → Client Disk → Run (Bool × Client Disk)
  puts_blocks zero file_size resume_offset rest c = out_of_fuel
  puts_blocks (suc fuel) file_size resume_offset rest c =
      if not (ltb resume_offset file_size)
      then returns (true, c)
      else let (r, reads) = read rest c.reads in
        let c' = record c { reads = reads } in
        elim r [
          | interrupted ↦ puts_blocks fuel file_size resume_offset rest c'
          | failed ↦ returns (false, c')
          | moved [] ↦ returns (true, c')
          | moved (b ∷ bs) ↦
              let n = length (b ∷ bs) in
              let (ok, conn) =
                send_packet host c.conn CmdType.file_data Status.status_ok (b ∷ bs) in
              let sent = record c' { conn = conn } in
              let more =
                puts_blocks fuel file_size ((resume_offset + n) % 2 ^ 64) (drop n rest) sent in
              if not ok then returns (false, sent) else more
        ]

  -- From the end of the loop on.
  unfoldable pub puts_end : Bytes → Bool × Client Disk → Run (Bool × Client Disk)
  puts_end base_name (false, c) = returns (false, c)
  puts_end base_name (true, c) =
      let (ok, conn) = send_packet host c.conn CmdType.file_end Status.status_ok [] in
      if not ok
      then returns (false, record c { conn = conn })
      else recv_text_response host (record c { conn = conn })
        >>= (λ (done, c'). returns (done, if done then say (uploaded base_name) c' else c'))

module _ (host : Host) (os : Posix) (calls : Calls os) where
  -- From the resume offset on; an offset behind the end of the file starts again at 0.
  unfoldable pub puts_from : Mine os → Bytes → Bytes → ℕ → ℕ → Run (Bool × Mine os)
  puts_from c arg base_name file_size offset =
      let start = if ltb file_size offset then 0 else offset in
      let rest = drop start (readable (os.file c.disk arg)) in
      if not (calls.lseek c.disk arg start)
      then returns (false, c)
      else puts_blocks host (suc (length c.reads + length rest)) file_size start rest c
        >>= puts_end host base_name

  -- The server's answer to the request.
  unfoldable pub puts_answer : Mine os → Bytes → Bytes → ℕ → Packet → Run (Bool × Mine os)
  puts_answer c arg base_name file_size p =
      if is_cmd p.header.cmd_type CmdType.error
      then print_text_from_packet p c >>= (λ c'. returns (false, c'))
      else if not (is_cmd p.header.cmd_type CmdType.puts_resp)
          || not (p.header.data_len == resume_size)
      then returns (false, c)
      else puts_from c arg base_name file_size
          (net_to_host_u64 host.endian (load64 host.endian p.payload))

  unfoldable pub puts_request : Mine os → Bytes → Bytes → ℕ → Run (Bool × Mine os)
  puts_request c arg base_name file_size =
      let (ok, conn) =
        send_packet host c.conn CmdType.puts_req Status.status_ok
          (file_info_bytes host base_name file_size) in
      let (r, conn') = recv_packet host conn in
      if not ok then returns (false, record c { conn = conn }) else elim r [
        | none ↦ returns (false, record c { conn = conn' })
        | some p ↦ puts_answer (record c { conn = conn' }) arg base_name file_size p
      ]

  unfoldable pub handle_puts : Mine os → Bytes → Run (Bool × Mine os)
  handle_puts c arg =
      if not (os.open_read c.disk arg) then returns (false, c) else elim (os.fstat c.disk arg) [
        | none ↦ returns (false, c)
        | some file_size ↦ puts_request c arg (safe_basename arg path_max) file_size
      ]
