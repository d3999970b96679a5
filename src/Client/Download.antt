-- ===== src/Client/Download.antt =====
-- `write_n` and `handle_gets` of src/client/client_command_handle.c, in the pieces between its early
-- returns.
pub mod Contents
use wind_cloud_v.Base.{
  ℕ, zero, suc, ◌+◌, ◌%◌, ◌^◌, Bool, true, false, not, ◌||◌, Option, none, some, [], ◌∷◌, ◌++◌,
  Bytes, drop, ltb, ◌==◌, if◌then◌else◌,
}
use wind_cloud_v.Wire.Endian.{store64, load64, host_to_net_u64, net_to_host_u64}
use wind_cloud_v.Wire.Stream.{write_loop}
use wind_cloud_v.Wire.Types.{path_max, CmdType, is_cmd, Status, Packet, Host}
use wind_cloud_v.Wire.Packet.{send_packet, recv_packet}
use wind_cloud_v.Server.World.{Posix, Run, returns, out_of_fuel, ◌>>=◌, rounds}
use wind_cloud_v.Server.Reply.{file_info_size}
use wind_cloud_v.Client.World.{Calls, downloaded, Client, Mine, say, print_text_from_packet}

-- `st_size` where `fstat` succeeds, and 0 where it does not.
abbrev pub size_or_zero : Option ℕ → ℕ
size_or_zero none = 0
size_or_zero (some n) = n

module _ (host : Host) (os : Posix) (calls : Calls os) where
  -- `write_n` at the file's position: the loop is that of `send_n`, on a file.
  unfoldable pub write_n : Mine os → Bytes → ℕ → Bytes → Bool × Mine os
  write_n c path pos buf =
      let (ok, writes, out) = write_loop buf c.writes in
      (ok, record c { disk = calls.write c.disk path pos out; writes = writes })

  -- The loop up to the end packet: `true` is the `break`, with the world behind it.
  unfoldable pub gets_blocks : ℕ → Bytes → ℕ → Mine os → Run (Bool × Mine os)
  gets_blocks zero path local_size c = out_of_fuel
  gets_blocks (suc fuel) path local_size c =
      let (r, conn) = recv_packet host c.conn in
      let c' = record c { conn = conn } in
      elim r [
        | none ↦ returns (false, c')
        | some p ↦
            let (ok, written) = write_n c' path local_size p.payload in
            let more = gets_blocks fuel path ((local_size + p.header.data_len) % 2 ^ 64) written in
            if is_cmd p.header.cmd_type CmdType.file_end
            then returns (true, c')
            else if is_cmd p.header.cmd_type CmdType.error
            then print_text_from_packet p c' >>= (λ c''. returns (false, c''))
            else if not (is_cmd p.header.cmd_type CmdType.file_data)
            then returns (false, c')
            else if not ok
            then returns (false, written)
            else more
      ]

  unfoldable pub gets_end : Bytes → ℕ → Bool × Mine os → Bool × Mine os
  gets_end arg server_size (ok, c) = (ok, if ok then say (downloaded arg server_size) c else c)

  -- The file is open, and holds `local_size` bytes.
  unfoldable pub gets_from : Mine os → Bytes → ℕ → ℕ → Run (Bool × Mine os)
  gets_from c arg server_size local_size =
      let (ok, conn) =
        send_packet host c.conn CmdType.resume_pos Status.status_ok
          (store64 host.endian (host_to_net_u64 host.endian local_size)) in
      let c' = record c { conn = conn } in
      if not (calls.lseek c.disk arg local_size)
      then returns (false, c)
      else if not ok
      then returns (false, c')
      else gets_blocks (rounds conn) arg local_size c'
        >>= (λ r. returns (gets_end arg server_size r))

  -- A local file longer than the server's is emptied.
  unfoldable pub gets_open : Mine os → Bytes → ℕ → Run (Bool × Mine os)
  gets_open c arg server_size =
      let local_size = size_or_zero (os.fstat c.disk arg) in
      if ltb server_size local_size
      then elim (os.ftruncate c.disk arg 0) [
        | none ↦ returns (false, c)
        | some d ↦ gets_from (record c { disk = d }) arg server_size 0
      ]
      else gets_from c arg server_size local_size

  -- The server's answer to the request.
  unfoldable pub gets_answer : Mine os → Bytes → Packet → Run (Bool × Mine os)
  gets_answer c arg p =
      if is_cmd p.header.cmd_type CmdType.error
      then print_text_from_packet p c >>= (λ c'. returns (false, c'))
      else if not (is_cmd p.header.cmd_type CmdType.gets_resp)
          || not (p.header.data_len == file_info_size)
      then returns (false, c)
      else elim (os.open_create c.disk arg) [
        | none ↦ returns (false, c)
        | some d ↦
            gets_open (record c { disk = d }) arg
              (net_to_host_u64 host.endian (load64 host.endian (drop path_max p.payload)))
      ]

  unfoldable pub handle_gets : Mine os → Bytes → Run (Bool × Mine os)
  handle_gets c arg =
      let (ok, conn) = send_packet host c.conn CmdType.gets_req Status.status_ok (arg ++ 0 ∷ []) in
      let (r, conn') = recv_packet host conn in
      if not ok then returns (false, record c { conn = conn }) else elim r [
        | none ↦ returns (false, record c { conn = conn' })
        | some p ↦ gets_answer (record c { conn = conn' }) arg p
      ]
