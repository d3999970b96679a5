-- ===== src/Client/Simple.antt =====
-- `recv_text_response` and `handle_simple_command` of src/client/client_command_handle.c. A command
-- gives `true` for the return value 0. What goes to the standard error is left out.
pub mod Reply
use wind_cloud_v.Base.{
  Bool, true, false, not, ◌&&◌, none, some, [], ◌∷◌, ◌++◌, Bytes, if◌then◌else◌,
}
use wind_cloud_v.Wire.Types.{CmdType, is_cmd, Status, Packet, Host}
use wind_cloud_v.Wire.Packet.{send_packet, recv_packet}
use wind_cloud_v.Wire.Command.{Request}
use wind_cloud_v.Server.World.{Run, returns, ◌>>=◌}
use wind_cloud_v.Client.World.{Client, print_text_from_packet}

-- The argument with its NUL, or no payload.
abbrev pub simple_payload : Bytes → Bytes
simple_payload [] = []
simple_payload (b ∷ bs) = (b ∷ bs) ++ 0 ∷ []

module _ {Disk : Type 0} (host : Host) where
  -- An answer in text: an acknowledgement or an error, and both count as success.
  unfoldable pub text_response : Packet → Client Disk → Run (Bool × Client Disk)
  text_response p c =
      if not (is_cmd p.header.cmd_type CmdType.ack) && not (is_cmd p.header.cmd_type CmdType.error)
      then returns (false, c)
      else print_text_from_packet p c >>= (λ c'. returns (true, c'))

  unfoldable pub recv_text_response : Client Disk → Run (Bool × Client Disk)
  recv_text_response c =
      let (r, conn) = recv_packet host c.conn in
      elim r [
        | none ↦ returns (false, record c { conn = conn })
        | some p ↦ text_response p (record c { conn = conn })
      ]

  unfoldable pub handle_simple_command : Client Disk → Request → Run (Bool × Client Disk)
  handle_simple_command c req =
      let (ok, conn) = send_packet host c.conn req.type Status.status_ok (simple_payload req.arg) in
      if not ok
      then returns (false, record c { conn = conn })
      else recv_text_response (record c { conn = conn })
