-- ===== src/EndToEnd/Arrival.antt =====
-- A file in data packets, from the loop that sends it to the loop that stores it.
use wind_cloud_v.Base.{
  ℕ, zero, suc, ◌+◌, ◌≤◌, ◌<◌, ◌≡◌, refl, ap, ◌∙◌, true, false, List, [], ◌∷◌, ◌++◌, append_assoc,
  Bytes, length, take, drop, length-append, drop-append_length, take-append-drop, leb, arith,
}
use wind_cloud_v.Wire.Stream.{interrupted, failed, moved, Incoming, Conn, pending}
use wind_cloud_v.Wire.Stream.Laws.{deliverable, IsWilling}
use wind_cloud_v.Wire.Types.{CmdType, cmd_code, is_cmd, Status, Host}
use wind_cloud_v.Wire.Packet.{send_packet, recv_packet}
use wind_cloud_v.Wire.Packet.Framing.{packet_bytes, send_packet-packet_bytes}
use wind_cloud_v.Wire.Packet.Blocks.{
  frames, concat, AllBlocks, HasMemory, recv_packet-frames, recv_packet-end,
}
use wind_cloud_v.Server.Upload.Arriving.{arriving}

pub deliverable_le : (es : Incoming) → length (deliverable es) ≤ pending es
deliverable_le [] = omega arith
deliverable_le (interrupted ∷ es) = deliverable_le es
deliverable_le (failed ∷ es) = omega arith
deliverable_le (moved [] ∷ es) = omega arith
deliverable_le (moved (b ∷ bs) ∷ es) =
    omega (arith, length-append (b ∷ bs) (deliverable es), deliverable_le es)

-- Each data packet takes bytes on the wire.
pub frames_long : (blocks : List Bytes) → length blocks ≤ length (frames blocks)
unfolding frames
frames_long [] = omega arith
frames_long (block ∷ blocks) = omega (
  arith,
  length-append (packet_bytes CmdType.file_data Status.status_ok block) (frames blocks),
  frames_long blocks,
)

abbrev pub end_bytes : Bytes
end_bytes = packet_bytes CmdType.file_end Status.status_ok []

pub data_is_data :
    (is_cmd (cmd_code CmdType.file_data) CmdType.file_data ≡ true)
    × (is_cmd (cmd_code CmdType.file_end) CmdType.file_data ≡ false)
unfolding is_cmd cmd_code
data_is_data = (refl, refl)

-- What the server takes from a stream of blocks is the file that was cut into them.
pub arriving-frames :
    (host : Host) (fuel total offset : ℕ) (blocks : List Bytes) (c : Conn) (rest : Bytes)
    → HasMemory host
    → length blocks < fuel
    → AllBlocks blocks
    → offset + length (concat blocks) ≤ total
    → deliverable c.incoming ≡ frames blocks ++ (end_bytes ++ rest)
    → arriving host fuel total offset c ≡ concat blocks
unfolding arriving concat
arriving-frames host zero total offset blocks c rest mem f all fits e = absurd (omega arith)
arriving-frames host (suc fuel) total offset [] c rest mem f all fits e =
    rw ((recv_packet-end host mem c rest e).0, arriving, data_is_data.1) refl
arriving-frames host (suc fuel) total offset (block ∷ blocks) c rest mem f all fits e =
    let (got, left) = recv_packet-frames host mem c block blocks (end_bytes ++ rest) all.1 e in
    let long = length-append block (concat blocks) in
    let fit : leb (offset + length block) total ≡ true = ground (arith, long, fits) in
    rw (got, arriving, data_is_data.0, fit)
      (ap (λ (x : Bytes). block ++ x)
        (arriving-frames host fuel total (offset + length block) blocks (recv_packet host c).1 rest
          mem (omega arith) all.2 (omega (arith, long, fits)) left))

-- The end packet behind the blocks, as the receiver finds them.
pub blocks_then_end :
    (host : Host) (before : Bytes) (c : Conn) (blocks : List Bytes) (rest : Bytes)
    → c.sent ≡ before ++ frames blocks
    → IsWilling c.room
    → drop (length before) (send_packet host c CmdType.file_end Status.status_ok []).1.sent ++ rest
      ≡ frames blocks ++ (end_bytes ++ rest)
blocks_then_end host before c blocks rest sent room =
    let out =
      (send_packet-packet_bytes host c CmdType.file_end Status.status_ok [] (omega arith) room).1 in
    ap (λ (x : Bytes). drop (length before) x ++ rest)
      (out
        ∙ ap (λ (x : Bytes). x ++ end_bytes) sent
        ∙ append_assoc before (frames blocks) end_bytes)
    ∙ ap (λ (x : Bytes). x ++ rest)
        (drop-append_length (length before) before (frames blocks ++ end_bytes) refl)
    ∙ append_assoc (frames blocks) end_bytes rest

-- The bytes at and behind an offset, put behind the bytes in front of it.
pub joined :
    (offset : ℕ) (old contents : Bytes) (blocks : List Bytes)
    → take offset old ≡ take offset contents
    → concat blocks ≡ drop offset contents
    → take offset old ++ concat blocks ≡ contents
joined offset old contents blocks same whole =
    ap (λ (x : Bytes). x ++ concat blocks) same
    ∙ ap (λ (x : Bytes). take offset contents ++ x) whole
    ∙ take-append-drop offset contents

pub few_blocks :
    (blocks : List Bytes) (rest : Bytes) (c : Conn) (fuel : ℕ)
    → deliverable c.incoming ≡ frames blocks ++ (end_bytes ++ rest)
    → pending c.incoming < fuel
    → length blocks < fuel
few_blocks blocks rest c fuel e f = omega (
  arith,
  frames_long blocks,
  ap length e,
  length-append (frames blocks) (end_bytes ++ rest),
  deliverable_le c.incoming,
  f,
)
