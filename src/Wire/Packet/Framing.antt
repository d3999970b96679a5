-- ===== src/Wire/Packet/Framing.antt =====
-- The format of a packet on the wire, against `send_packet` and `recv_packet`.
use wind_cloud_v.Base.{
  ℕ, ◌+◌, ◌^◌, ◌≤◌, ◌<◌, ◌≡◌, refl, sym, ap, subst, ◌∙◌, inl, inr, true, false, Option, none, some,
  Bool-cases, Option-cases, ltb, lt→ltb, ◌==◌, [], ◌∷◌, ◌++◌, append_assoc, append-nil, Bytes,
  length, take, drop, take-append_length, drop-append_length, length-append, length-take, arith,
}
use native.Mathlib.Decide.{dec_le}
use wind_cloud_v.Wire.Endian.{Endian}
use wind_cloud_v.Wire.Endian.Laws.{be32, store32-htonl, ntohl-load32}
use wind_cloud_v.Wire.Stream.{Conn, pending, recv_n, send_n}
use wind_cloud_v.Wire.Stream.Laws.{
  deliverable, recv_n-whole, recv_n-short, recv_n-sent, recv_n-pending, taken, IsWilling,
  send_n-IsWilling, send_n-incoming,
}
use wind_cloud_v.Wire.Types.{
  tlv_magic, tlv_version, max_packet_payload, CmdType, cmd_code, Status, status_code, Header,
  Packet, Host,
}
use wind_cloud_v.Wire.Packet.{
  header_of, header_bytes, read_header, send_payload, send_packet, recv_payload, recv_packet,
}

-- A packet on the wire, with no host in sight: five words in network byte order and the payload.
abbrev pub packet_bytes : CmdType → Status → Bytes → Bytes
packet_bytes type status payload =
    (be32 tlv_magic
      ++ (be32 tlv_version
          ++ (be32 (cmd_code type) ++ (be32 (status_code status) ++ be32 (length payload)))))
    ++ payload

cmd_code-lt : (t : CmdType) → cmd_code t < 2 ^ 32
unfolding cmd_code
cmd_code-lt CmdType.invalid = omega arith
cmd_code-lt _ = omega arith

status_code-lt : (s : Status) → status_code s < 2 ^ 32
unfolding status_code
status_code-lt Status.status_ok = omega arith
status_code-lt _ = omega arith

pub header_bytes_lem :
    (e : Endian) (t : CmdType) (s : Status) (n : ℕ)
    → header_bytes e (header_of t s n)
      ≡ be32 tlv_magic
        ++ (be32 tlv_version ++ (be32 (cmd_code t) ++ (be32 (status_code s) ++ be32 n)))
unfolding header_bytes
header_bytes_lem e t s n = rw (
  store32-htonl e tlv_magic,
  store32-htonl e tlv_version,
  store32-htonl e (cmd_code t),
  store32-htonl e (status_code s),
  store32-htonl e n,
)

-- The words behind the first, for `read_header` at each of them.
abbrev pub after4 : CmdType → Status → ℕ → Bytes
after4 t s n = be32 tlv_version ++ (be32 (cmd_code t) ++ (be32 (status_code s) ++ be32 n))

pub read_header_lem :
    (e : Endian) (t : CmdType) (s : Status) (n : ℕ)
    → n < 2 ^ 32
    → read_header e (be32 tlv_magic ++ after4 t s n) ≡ header_of t s n
unfolding read_header
read_header_lem e t s n h = λ i. record {
  magic = ntohl-load32 e tlv_magic (after4 t s n) (omega arith) i;
  version =
      ntohl-load32 e tlv_version (be32 (cmd_code t) ++ (be32 (status_code s) ++ be32 n))
        (omega arith) i;
  cmd_type = ntohl-load32 e (cmd_code t) (be32 (status_code s) ++ be32 n) (cmd_code-lt t) i;
  status = ntohl-load32 e (status_code s) (be32 n) (status_code-lt s) i;
  data_len = ntohl-load32 e n [] h i;
}

send_payload-IsWilling :
    (c : Conn) (payload : Bytes)
    → IsWilling c.room
    → ((send_payload c payload).0 ≡ true)
      × ((send_payload c payload).1.sent ≡ c.sent ++ payload)
      × IsWilling (send_payload c payload).1.room
unfolding send_payload
send_payload-IsWilling c [] h = (refl, sym (append-nil _), h)
send_payload-IsWilling c (b ∷ bs) h = send_n-IsWilling c (b ∷ bs) h

send_payload-incoming : (c : Conn) (p : Bytes) → (send_payload c p).1.incoming ≡ c.incoming
unfolding send_payload
send_payload-incoming c [] = refl
send_payload-incoming c (b ∷ bs) = send_n-incoming c (b ∷ bs)

module _ (host : Host) (c : Conn) (t : CmdType) (s : Status) (payload : Bytes) where
  abbrev head : Bytes
  head = header_bytes host.endian (header_of t s (length payload))

  -- Under a kernel that keeps taking bytes, a packet within the limit is sent: exactly the bytes
  -- of the format, on a host of either byte order.
  pub send_packet-packet_bytes :
      length payload ≤ max_packet_payload
      → IsWilling c.room
      → ((send_packet host c t s payload).0 ≡ true)
        × ((send_packet host c t s payload).1.sent ≡ c.sent ++ packet_bytes t s payload)
        × IsWilling (send_packet host c t s payload).1.room
  unfolding send_packet
  send_packet-packet_bytes fits h =
      let (ok, out, room) = send_n-IsWilling c head h in
      let (ok', out', room') = send_payload-IsWilling (send_n c head).1 payload room in
      let small : ltb max_packet_payload (length payload) ≡ false = ground arith in
      rw (small, ok) (ok', out' ∙ rw (out, header_bytes_lem) (append_assoc c.sent _ payload), room')

  -- A payload over the limit is refused, and nothing is sent.
  pub send_packet-refuses :
      max_packet_payload < length payload → send_packet host c t s payload ≡ (false, c)
  unfolding send_packet
  send_packet-refuses h = rw (lt→ltb _ _ h)

  pub send_packet-incoming : (send_packet host c t s payload).1.incoming ≡ c.incoming
  unfolding send_packet
  send_packet-incoming = elim (Bool-cases (ltb max_packet_payload (length payload))) [
    | inl big ↦ rw big
    | inr small ↦ elim (Bool-cases (send_n c head).0) [
      | inl ok ↦ rw (small, ok) (send_payload-incoming _ payload ∙ send_n-incoming c head)
      | inr bad ↦ rw (small, bad) (send_n-incoming c head)
    ]
  ]

recv_payload_lem :
    (host : Host) (c : Conn) (t : CmdType) (s : Status) (payload rest : Bytes)
    → length payload ≤ max_packet_payload
    → host.calloc (length payload) ≡ true
    → deliverable c.incoming ≡ payload ++ rest
    → ((recv_payload host (header_of t s (length payload)) c).0
        ≡ some (record { header = header_of t s (length payload); payload = payload }))
      × (deliverable (recv_payload host (header_of t s (length payload)) c).1.incoming ≡ rest)
unfolding recv_payload
recv_payload_lem host c t s [] rest fits room e = (refl, e)
recv_payload_lem host c t s (b ∷ bs) rest fits room e =
    let n = length (b ∷ bs) in
    let small : ltb max_packet_payload n ≡ false = ground arith in
    let long : n ≤ length (deliverable c.incoming) =
      omega (arith, ap length e, length-append (b ∷ bs) rest) in
    let (got, left) = recv_n-whole c n long in
    let got' : (recv_n c n).0 ≡ some (b ∷ bs) =
      got ∙ ap some (rw e (take-append_length n (b ∷ bs) rest refl)) in
    let pos : (n == 0) ≡ false = ground arith in
    rw (small, pos, room, got') (refl, left ∙ rw e (drop-append_length n (b ∷ bs) rest refl))

module _ (host : Host) (c : Conn) (t : CmdType) (s : Status) (payload rest : Bytes)
    (fits : length payload ≤ max_packet_payload) (room : host.calloc (length payload) ≡ true) where
  abbrev words : Bytes
  words = be32 tlv_magic ++ after4 t s (length payload)

  -- From a stream that begins with the bytes of a packet, cut in any way, `recv_packet` reads that
  -- packet and leaves the rest of the stream.
  pub recv_packet-packet_bytes :
      deliverable c.incoming ≡ packet_bytes t s payload ++ rest
      → ((recv_packet host c).0
          ≡ some (record { header = header_of t s (length payload); payload = payload }))
        × (deliverable (recv_packet host c).1.incoming ≡ rest)
  unfolding recv_packet
  recv_packet-packet_bytes e =
      let e' : deliverable c.incoming ≡ words ++ (payload ++ rest) =
        e ∙ append_assoc words payload rest in
      let long : 20 ≤ length (deliverable c.incoming) =
        omega (arith, ap length e', length-append words (payload ++ rest)) in
      let (got, left) = recv_n-whole c 20 long in
      let got' : (recv_n c 20).0 ≡ some words =
        got ∙ ap some (rw e' (take-append_length 20 words (payload ++ rest) refl)) in
      let left' : deliverable (recv_n c 20).1.incoming ≡ payload ++ rest =
        left ∙ rw e' (drop-append_length 20 words (payload ++ rest) refl) in
      rw (got', recv_packet, read_header_lem host.endian t s (length payload) (omega arith))
        (recv_payload_lem host (recv_n c 20).1 t s payload rest fits room left')

-- What `recv_packet` returns is well formed: the magic, the version, a length within the limit, and
-- a payload of just that length.
pub record IsValid (p : Packet) : Type 0 where
  pub magic : p.header.magic ≡ tlv_magic
  pub version : p.header.version ≡ tlv_version
  pub fits : p.header.data_len ≤ max_packet_payload
  pub filled : length p.payload ≡ p.header.data_len

-- A buffer that `recv_n` filled holds just the bytes asked for.
recv_n-length : (c : Conn) (n : ℕ) (bs : Bytes) → (recv_n c n).0 ≡ some bs → length bs ≡ n
recv_n-length c n bs e = elim (dec_le n (length (deliverable c.incoming))) [
  | yes long ↦
      let f : some (take n (deliverable c.incoming)) ≡ some bs =
        sym (recv_n-whole c n long).0 ∙ e in
      let g : take n (deliverable c.incoming) ≡ bs = cc in
      rw (← g) (omega (arith, length-take n (deliverable c.incoming)))
  | no short ↦ let f : none ≡ some bs = sym (recv_n-short c n (omega arith)) ∙ e in cc
]

recv_payload-IsValid :
    (host : Host) (h : Header) (c : Conn) (p : Packet)
    → (recv_payload host h c).0 ≡ some p
    → IsValid p
unfolding recv_payload
recv_payload-IsValid host h c p e = elim (Option-cases (recv_n c h.data_len).0) [
  | inl short ↦ ground (arith, short)
  | inr (bs, got) ↦ ground (arith, got, recv_n-length c h.data_len bs got)
]

-- Whatever the peer sends, a packet that `recv_packet` returns is well formed.
pub recv_packet-IsValid :
    (host : Host) (c : Conn) (p : Packet) → (recv_packet host c).0 ≡ some p → IsValid p
unfolding recv_packet
recv_packet-IsValid host c p e = elim (Option-cases (recv_n c 20).0) [
  | inl short ↦ let f : none ≡ some p = rw (short, recv_packet) at e in cc
  | inr (wire, got) ↦ recv_payload-IsValid host _ _ p (rw (got, recv_packet) at e)
]

-- End to end, for a payload within the limit, a sending kernel that keeps taking bytes and a
-- receiver with memory for the payload: the bytes that `send_packet` put on the wire of one host, cut
-- in any way on their way to another, of the same byte order or not, are received as the packet
-- that was sent, and the stream goes on behind them.
pub recv_packet-send_packet :
    (a b : Host) (c d : Conn) (t : CmdType) (s : Status) (payload rest : Bytes)
    → length payload ≤ max_packet_payload
    → IsWilling c.room
    → b.calloc (length payload) ≡ true
    → deliverable d.incoming ≡ drop (length c.sent) (send_packet a c t s payload).1.sent ++ rest
    → ((recv_packet b d).0
        ≡ some (record { header = header_of t s (length payload); payload = payload }))
      × (deliverable (recv_packet b d).1.incoming ≡ rest)
recv_packet-send_packet a b c d t s payload rest fits open_ room e =
    let out = (send_packet-packet_bytes a c t s payload fits open_).1 in
    recv_packet-packet_bytes b d t s payload rest fits room (
      e
      ∙ ap (λ (x : Bytes). drop (length c.sent) x ++ rest) out
      ∙ ap (λ (x : Bytes). x ++ rest) (drop-append_length _ c.sent _ refl))

abbrev pub taken_packet : Option Packet → ℕ
taken_packet none = 0
taken_packet (some p) = 20

recv_payload-pending :
    (host : Host) (h : Header) (c : Conn)
    → pending (recv_payload host h c).1.incoming ≤ pending c.incoming
unfolding recv_payload
recv_payload-pending host h c = elim (Option-cases (recv_n c h.data_len).0) [
  | inl short ↦ ground (arith, short, recv_n-pending c h.data_len)
  | inr (bs, got) ↦ ground (arith, got, recv_n-pending c h.data_len)
]

taken_packet-le : (r : Option Packet) → taken_packet r ≤ 20
taken_packet-le none = omega arith
taken_packet-le (some p) = omega arith

-- A packet takes its header's 20 bytes, at least, from what is still to come; a failure adds none.
pub recv_packet-pending :
    (host : Host) (c : Conn)
    → pending (recv_packet host c).1.incoming + taken_packet (recv_packet host c).0
      ≤ pending c.incoming
unfolding recv_packet
recv_packet-pending host c = elim (Option-cases (recv_n c 20).0) [
  | inl short ↦ rw (short, recv_packet) (omega (arith, recv_n-pending c 20))
  | inr (wire, got) ↦
      let h = read_header host.endian wire in
      let c' = (recv_n c 20).1 in
      let spent : pending c'.incoming + 20 ≤ pending c.incoming =
        subst (λ r. pending c'.incoming + taken r 20 ≤ pending c.incoming) got
          (recv_n-pending c 20) in
      rw (got, recv_packet)
        (omega (
          arith,
          spent,
          recv_payload-pending host h c',
          taken_packet-le (recv_payload host h c').0,
        ))
]

recv_payload-frame :
    (host : Host) (h : Header) (c : Conn)
    → ((recv_payload host h c).1.sent ≡ c.sent) × ((recv_payload host h c).1.room ≡ c.room)
unfolding recv_payload
recv_payload-frame host h c = elim (Option-cases (recv_n c h.data_len).0) [
  | inl short ↦ ground (arith, short, recv_n-sent c h.data_len)
  | inr (bs, got) ↦ ground (arith, got, recv_n-sent c h.data_len)
]

-- Receiving sends nothing.
pub recv_packet-frame :
    (host : Host) (c : Conn)
    → ((recv_packet host c).1.sent ≡ c.sent) × ((recv_packet host c).1.room ≡ c.room)
unfolding recv_packet
recv_packet-frame host c = elim (Option-cases (recv_n c 20).0) [
  | inl short ↦ rw (short, recv_packet) (recv_n-sent c 20)
  | inr (wire, got) ↦
      let f = recv_payload-frame host (read_header host.endian wire) (recv_n c 20).1 in
      rw (got, recv_packet) (f.0 ∙ (recv_n-sent c 20).0, f.1 ∙ (recv_n-sent c 20).1)
]
