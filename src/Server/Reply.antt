-- ===== src/Server/Reply.antt =====
-- The helpers of src/server/handle.c that take packets apart and send replies.
pub mod Laws
pub mod Tests
use Prim.Native.Char.{code}
use Prim.Native.String.{String}
use wind_cloud_v.Base.{
  ℕ, ◌+◌, ◌-◌, ◌*◌, ◌/◌, ◌%◌, Bool, true, false, not, ◌&&◌, ◌||◌, Option, none, some, List, [], ◌∷◌,
  ◌++◌, Bytes, length, take, drop, replicate, ltb, leb, ◌==◌, if◌then◌else◌,
}
use wind_cloud_v.Wire.Endian.{store64, load64, host_to_net_u64, net_to_host_u64}
use wind_cloud_v.Wire.Stream.{Conn, send_n}
use wind_cloud_v.Wire.Types.{path_max, CmdType, Status, Packet, Host}
use wind_cloud_v.Wire.Packet.{header_of, header_bytes, send_packet, recv_packet}
use wind_cloud_v.Wire.Command.{snprintf}
use wind_cloud_v.Server.World.{World, closing}

-- The UTF-8 bytes of a code point below 2^16, which all literals of the source are.
abbrev utf8_code : ℕ → Bytes → Bytes
utf8_code c rest =
    if ltb c 128
    then c ∷ rest
    else if ltb c 2048
    then (192 + c / 64) ∷ (128 + c % 64) ∷ rest
    else (224 + c / 4096) ∷ (128 + c / 64 % 64) ∷ (128 + c % 64) ∷ rest

-- A string literal of the source, as it is compiled.
unfoldable pub text : String → Bytes
text String.[] = []
text (String.◌∷◌ c s) = utf8_code (code c) (text s)

-- The string that starts at an address: the bytes before the first NUL. `none`: there is none.
unfoldable pub c_string : Bytes → Option Bytes
c_string [] = none
c_string (c ∷ s) =
    if c == 0 then some [] else elim (c_string s) [ none ↦ none | some t ↦ some (c ∷ t) ]

-- `file_info_payload_t` in memory: the name, filled up with NULs, and the converted size.
unfoldable pub file_info_bytes : Host → Bytes → ℕ → Bytes
file_info_bytes host file_name file_size =
    let name = snprintf path_max file_name in
    (name ++ replicate (path_max - length name) 0)
    ++ store64 host.endian (host_to_net_u64 host.endian file_size)

module _ {Disk : Type 0} (host : Host) where
  -- `send_text_reply`; every message of the server is a literal or a buffer, never NULL.
  unfoldable pub send_text_reply : World Disk → CmdType → Status → Bytes → Bool × World Disk
  send_text_reply w type status msg =
      let (ok, c) = send_packet host w.conn type status (msg ++ 0 ∷ []) in
      (ok, record w { conn = c })

  -- The replies of `CMD_ACK` and `CMD_ERROR`.
  abbrev pub ack : World Disk → Bytes → Bool × World Disk
  ack w msg = send_text_reply w CmdType.ack Status.status_ok msg

  abbrev pub error : World Disk → Status → Bytes → Bool × World Disk
  error w status msg = send_text_reply w CmdType.error status msg

  -- `send_resume_packet`.
  unfoldable pub send_resume_packet : World Disk → CmdType → Status → ℕ → Bool × World Disk
  send_resume_packet w type status offset =
      let payload = store64 host.endian (host_to_net_u64 host.endian offset) in
      let (ok, c) = send_packet host w.conn type status payload in (ok, record w { conn = c })

  -- `recv_follow_packet`: a failure asks for the connection to be closed.
  unfoldable pub recv_follow_packet : World Disk → Option Packet × World Disk
  recv_follow_packet w =
      let (r, c) = recv_packet host w.conn in
      elim r [
        | none ↦ (none, closing (record w { conn = c }))
        | some p ↦ (some p, record w { conn = c })
      ]

  -- `send_file_info_packet`.
  unfoldable pub send_file_info_packet :
      World Disk → CmdType → Status → Bytes → ℕ → Bool × World Disk
  send_file_info_packet w type status file_name file_size =
      let (ok, c) =
        send_packet host w.conn type status (file_info_bytes host file_name file_size) in
      (ok, record w { conn = c })

  -- `send_file_data_packet`: the header, then the `sendfile` loop over what the file holds at the
  -- offset; past the end of the file `sendfile` returns 0.
  unfoldable pub send_file_data_packet : World Disk → Bytes → ℕ → ℕ → Bool × World Disk
  send_file_data_packet w contents offset chunk_size =
      let header = header_of CmdType.file_data Status.status_ok chunk_size in
      let (ok, c) = send_n w.conn (header_bytes host.endian header) in
      if not ok
      then (false, record w { conn = c })
      else let block = take chunk_size (drop offset contents) in
        let (ok', c') = send_n c block in
        (ok' && length block == chunk_size, record w { conn = c' })

-- The test of `copy_string_payload` on the copied buffer.
unfoldable pub keep : Bool → Option Bytes → Option Bytes
keep allow_empty none = none
keep allow_empty (some []) = if allow_empty then some [] else none
keep allow_empty (some (c ∷ s)) = some (c ∷ s)

-- `copy_string_payload`: the buffer is cleared, the payload copied, and the last byte set to NUL.
unfoldable pub copy_string_payload : Packet → ℕ → Bool → Option Bytes
copy_string_payload p buf_sz allow_empty =
    if p.header.data_len == 0
    then (if allow_empty then some [] else none)
    else if length p.payload == 0 || ltb buf_sz p.header.data_len
    then none
    else keep allow_empty (c_string (take (buf_sz - 1) p.payload ++ 0 ∷ []))

-- The results of `extract_file_info`. `past_end`: the name has no NUL up to the end of the payload,
-- and `snprintf` reads on behind the block that `recv_packet` allocated.
pub data FileInfo : Type 0 where
  refused : FileInfo
  past_end : FileInfo
  info : Bytes → ℕ → FileInfo

-- `sizeof(file_info_payload_t)` and `sizeof(resume_payload_t)`.
abbrev pub file_info_size : ℕ
file_info_size = 4104

abbrev pub resume_size : ℕ
resume_size = 8

unfoldable pub extract_file_info : Host → Packet → ℕ → FileInfo
extract_file_info host p file_name_sz =
    if length p.payload == 0 || not (p.header.data_len == file_info_size)
    then refused
    else elim (c_string p.payload) [
      | none ↦ past_end
      | some name ↦
          info (snprintf file_name_sz name)
            (net_to_host_u64 host.endian (load64 host.endian (drop path_max p.payload)))
    ]

unfoldable pub extract_resume_offset : Host → Packet → Option ℕ
extract_resume_offset host p =
    if length p.payload == 0 || not (p.header.data_len == resume_size)
    then none
    else some (net_to_host_u64 host.endian (load64 host.endian p.payload))
