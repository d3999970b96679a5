-- ===== src/Wire/Types.antt =====
-- The enums and structures of include/protocol.h.
use wind_cloud_v.Base.{ℕ, ◌≡◌, refl, Bool, true, Option, none, some, Bytes, ◌==◌, if◌then◌else◌}
use wind_cloud_v.Wire.Endian.{Endian}

abbrev pub tlv_magic : ℕ
tlv_magic = 0x544C_5631

abbrev pub tlv_version : ℕ
tlv_version = 1

abbrev pub max_packet_payload : ℕ
max_packet_payload = 65536

abbrev pub path_max : ℕ
path_max = 4096

abbrev pub max_text_payload : ℕ
max_text_payload = 4096

abbrev pub file_block_size : ℕ
file_block_size = 4096

-- `cmd_type_t`.
pub data CmdType : Type 0 where
  invalid pwd cd ls rm mkdir puts_req puts_resp gets_req gets_resp : CmdType
  resume_pos file_data file_end ack error : CmdType

-- The value of an enumerator.
unfoldable pub cmd_code : CmdType → ℕ
cmd_code invalid = 0
cmd_code pwd = 1
cmd_code cd = 2
cmd_code ls = 3
cmd_code rm = 4
cmd_code mkdir = 5
cmd_code puts_req = 6
cmd_code puts_resp = 7
cmd_code gets_req = 8
cmd_code gets_resp = 9
cmd_code resume_pos = 10
cmd_code file_data = 11
cmd_code file_end = 12
cmd_code ack = 13
cmd_code error = 14

-- `(cmd_type_t)n`: the enumerator of that value. A number that no enumerator has falls through
-- every `switch` and `==` of the program; here it is `none`.
unfoldable pub cmd_of : ℕ → Option CmdType
cmd_of n =
    if n == 0
    then some invalid
    else if n == 1
    then some pwd
    else if n == 2
    then some cd
    else if n == 3
    then some ls
    else if n == 4
    then some rm
    else if n == 5
    then some mkdir
    else if n == 6
    then some puts_req
    else if n == 7
    then some puts_resp
    else if n == 8
    then some gets_req
    else if n == 9
    then some gets_resp
    else if n == 10
    then some resume_pos
    else if n == 11
    then some file_data
    else if n == 12
    then some file_end
    else if n == 13
    then some ack
    else if n == 14
    then some error
    else none

-- `(cmd_type_t)n == t`.
unfoldable pub is_cmd : ℕ → CmdType → Bool
is_cmd n t = n == cmd_code t

pub is_cmd_lem : (t : CmdType) → is_cmd (cmd_code t) t ≡ true
unfolding is_cmd cmd_code
is_cmd_lem invalid = refl
is_cmd_lem _ = refl

pub cmd_of-cmd_code : (t : CmdType) → cmd_of (cmd_code t) ≡ some t
unfolding cmd_of cmd_code
cmd_of-cmd_code invalid = refl
cmd_of-cmd_code _ = refl

-- `status_code_t`.
pub data Status : Type 0 where
  status_ok bad_request not_found io_error protocol_error : Status

unfoldable pub status_code : Status → ℕ
status_code status_ok = 0
status_code bad_request = 1
status_code not_found = 2
status_code io_error = 3
status_code protocol_error = 4

-- `tlv_header_t`, in host byte order.
pub record Header : Type 0 where
  pub magic : ℕ
  pub version : ℕ
  pub cmd_type : ℕ
  pub status : ℕ
  pub data_len : ℕ

-- `packet_t`; a NULL payload is the empty one.
pub record Packet : Type 0 where
  pub header : Header
  pub payload : Bytes

-- What the host decides: its byte order, and whether `calloc` finds so many bytes.
pub record Host : Type 0 where
  pub endian : Endian
  pub calloc : ℕ → Bool
