-- ===== src/Wire/Packet/Cut.antt =====
-- `recv_packet` of src/common/protocol.c on a stream that ends too soon.
use wind_cloud_v.Base.{
  ℕ, ◌+◌, ◌≤◌, ◌<◌, ◌≡◌, refl, sym, ap, ◌∙◌, ◌⊎◌, inl, inr, none, some, ◌++◌, Bytes, length, take,
  drop, length-append, length-drop, take-append-drop, take-append_length, drop-append_length,
  take_all, take-append_le, drop-append_le, arith, ltb, ◌==◌, false,
}
use native.Mathlib.Decide.{dec_lt}
use wind_cloud_v.Wire.Stream.{Conn, recv_n}
use wind_cloud_v.Wire.Stream.Laws.{deliverable, recv_n-whole, recv_n-short}
use wind_cloud_v.Wire.Endian.Laws.{be32}
use wind_cloud_v.Wire.Types.{max_packet_payload, CmdType, Status, Host, tlv_magic}
use wind_cloud_v.Wire.Packet.{header_of, recv_payload, recv_packet}
use wind_cloud_v.Wire.Packet.Framing.{
  packet_bytes, after4, read_header_lem, recv_packet-packet_bytes,
}
use wind_cloud_v.Wire.Packet.Blocks.{HasMemory}

-- The first bytes of a stream that is only the front of another.
take_front :
    (n : ℕ) (s lost whole rest : Bytes)
    → s ++ lost ≡ whole ++ rest
    → n ≤ length s
    → n ≤ length whole
    → take n s ≡ take n whole
take_front n s lost whole rest e h k =
    sym (take-append_le n s lost h) ∙ ap (take n) e ∙ take-append_le n whole rest k

-- A stream that begins with all of a packet.
front :
    (s lost whole rest : Bytes)
    → s ++ lost ≡ whole ++ rest
    → length whole ≤ length s
    → (s ≡ whole ++ drop (length whole) s) × (drop (length whole) s ++ lost ≡ rest)
front s lost whole rest e h = (
  sym (take-append-drop (length whole) s)
      ∙ ap (λ (x : Bytes). x ++ drop (length whole) s)
          (take_front (length whole) s lost whole rest e h (omega arith)
            ∙ take_all (length whole) whole (omega arith)),
  sym (drop-append_le (length whole) s lost h)
      ∙ ap (drop (length whole)) e
      ∙ drop-append_length (length whole) whole rest refl,
)

module _ (host : Host) (mem : HasMemory host) (c : Conn) (t : CmdType) (status : Status)
    (payload : Bytes) (fits : length payload ≤ max_packet_payload) where
  abbrev words : Bytes
  words = be32 tlv_magic ++ after4 t status (length payload)

  -- A payload that does not come whole.
  recv_payload-short :
      (d : Conn)
      → length (deliverable d.incoming) < length payload
      → (recv_payload host (header_of t status (length payload)) d).0 ≡ none
  unfolding recv_payload
  recv_payload-short d h =
      let small : ltb max_packet_payload (length payload) ≡ false = ground arith in
      let some_byte : (length payload == 0) ≡ false = ground arith in
      rw (small, some_byte, mem (length payload), recv_n-short d (length payload) h, recv_payload)
        refl

  recv_packet-short :
      (lost rest : Bytes)
      → deliverable c.incoming ++ lost ≡ packet_bytes t status payload ++ rest
      → length (deliverable c.incoming) < 20 + length payload
      → (recv_packet host c).0 ≡ none
  unfolding recv_packet
  recv_packet-short lost rest e h = elim (dec_lt (length (deliverable c.incoming)) 20) [
    | yes few ↦ rw (recv_n-short c 20 few, recv_packet) refl
    | no many ↦
        let (got, left) = recv_n-whole c 20 (omega arith) in
        let got' : (recv_n c 20).0 ≡ some words =
          got
          ∙ ap some (
              take_front 20 (deliverable c.incoming) lost (packet_bytes t status payload) rest e
                (omega arith) (omega (arith, length-append words payload))
              ∙ take-append_length 20 words payload refl) in
        rw (got', recv_packet, read_header_lem host.endian t status (length payload) (omega arith))
          (recv_payload-short (recv_n c 20).1
            (omega (arith, ap length left, length-drop 20 (deliverable c.incoming), h)))
  ]

  -- Of a stream that is the front of one that begins with a packet: the packet is received, or
  -- nothing is.
  pub recv_packet-cut :
      (lost rest : Bytes)
      → deliverable c.incoming ++ lost ≡ packet_bytes t status payload ++ rest
      → ((recv_packet host c).0 ≡ none)
        ⊎ (((recv_packet host c).0
              ≡ some (record { header = header_of t status (length payload); payload = payload }))
            × (deliverable (recv_packet host c).1.incoming ++ lost ≡ rest))
  recv_packet-cut lost rest e =
      elim (dec_lt (length (deliverable c.incoming)) (20 + length payload)) [
        | yes few ↦ inl (recv_packet-short lost rest e few)
        | no many ↦
            let (all, left) =
              front (deliverable c.incoming) lost (packet_bytes t status payload) rest e
                (omega arith) in
            let (got, next) =
              recv_packet-packet_bytes host c t status payload
                (drop (length (packet_bytes t status payload)) (deliverable c.incoming)) fits
                (mem _) all in
            inr (got, ap (λ (x : Bytes). x ++ lost) next ∙ left)
      ]
