-- ===== src/Wire/Packet.antt =====
-- `send_packet` and `recv_packet` of src/common/protocol.c.
pub mod Framing
pub mod Blocks
pub mod Cut
use wind_cloud_v.Base.{
  ℕ, ◌+◌, Bool, true, false, ◌||◌, not, Option, none, some, [], ◌∷◌, ◌++◌, Bytes, length, take,
  drop, ltb, ◌==◌, if◌then◌else◌,
}
use wind_cloud_v.Wire.Endian.{Endian, htonl, ntohl, store32, load32}
use wind_cloud_v.Wire.Stream.{Conn, recv_n, send_n}
use wind_cloud_v.Wire.Types.{
  tlv_magic, tlv_version, max_packet_payload, CmdType, cmd_code, Status, status_code, Header,
  Packet, Host,
}

-- The header as `send_packet` fills it in, and its 20 bytes in memory.
abbrev pub header_of : CmdType → Status → ℕ → Header
header_of type status payload_len = record {
  magic = tlv_magic;
  version = tlv_version;
  cmd_type = cmd_code type;
  status = status_code status;
  data_len = payload_len;
}

unfoldable pub header_bytes : Endian → Header → Bytes
header_bytes e h =
    store32 e (htonl e h.magic)
    ++ (store32 e (htonl e h.version)
        ++ (store32 e (htonl e h.cmd_type)
            ++ (store32 e (htonl e h.status) ++ store32 e (htonl e h.data_len))))

-- The header that 20 received bytes are, back in host byte order.
unfoldable pub read_header : Endian → Bytes → Header
read_header e wire = record {
  magic = ntohl e (load32 e wire);
  version = ntohl e (load32 e (drop 4 wire));
  cmd_type = ntohl e (load32 e (drop 8 wire));
  status = ntohl e (load32 e (drop 12 wire));
  data_len = ntohl e (load32 e (drop 16 wire));
}

unfoldable pub send_payload : Conn → Bytes → Bool × Conn
send_payload c [] = (true, c)
send_payload c (b ∷ bs) = send_n c (b ∷ bs)

-- `payload` holds `payload_len` bytes, so NULL is the empty payload. `true` is the return value 0.
unfoldable pub send_packet : Host → Conn → CmdType → Status → Bytes → Bool × Conn
send_packet host c type status payload =
    if ltb max_packet_payload (length payload)
    then (false, c)
    else let (sent, c') =
        send_n c (header_bytes host.endian (header_of type status (length payload))) in
      if not sent then (false, c') else send_payload c' payload

-- The checks on a header, then `calloc` and the payload.
unfoldable pub recv_payload : Host → Header → Conn → Option Packet × Conn
recv_payload host h c =
    if not (h.magic == tlv_magic) || not (h.version == tlv_version)
    then (none, c)
    else if ltb max_packet_payload h.data_len
    then (none, c)
    else if h.data_len == 0
    then (some (record { header = h; payload = [] }), c)
    else if not (host.calloc h.data_len)
    then (none, c)
    else let (r, c') = recv_n c h.data_len in
      elim r [ none ↦ (none, c') | some bs ↦ (some (record { header = h; payload = bs }), c') ]

unfoldable pub recv_packet : Host → Conn → Option Packet × Conn
recv_packet host c =
    let (r, c') = recv_n c 20 in
    elim r [ none ↦ (none, c') | some wire ↦ recv_payload host (read_header host.endian wire) c' ]
