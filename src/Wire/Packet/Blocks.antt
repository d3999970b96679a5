-- ===== src/Wire/Packet/Blocks.antt =====
-- A file in data packets, as both sides send it: `send_file_data_packet` of src/server/handle.c and
-- `handle_puts` of src/client/client_command_handle.c.
use wind_cloud_v.Base.{
  ℕ, ◌≤◌, ◌<◌, ◌≡◌, ◌∙◌, true, some, List, [], ◌∷◌, ◌++◌, append_assoc, Bytes, length, arith,
}
use wind_cloud_v.Wire.Stream.{Conn}
use wind_cloud_v.Wire.Stream.Laws.{deliverable}
use wind_cloud_v.Wire.Types.{file_block_size, CmdType, Status, Packet, Host}
use wind_cloud_v.Wire.Packet.{header_of, recv_packet}
use wind_cloud_v.Wire.Packet.Framing.{packet_bytes, recv_packet-packet_bytes}

-- The data packets of a list of blocks, one behind the other.
unfoldable pub frames : List Bytes → Bytes
frames [] = []
frames (block ∷ blocks) = packet_bytes CmdType.file_data Status.status_ok block ++ frames blocks

unfoldable pub concat : List Bytes → Bytes
concat [] = []
concat (block ∷ blocks) = block ++ concat blocks

-- No block is empty, and each fits one packet of the file stream.
abbrev pub AllBlocks : List Bytes → Type 0
AllBlocks [] = Unit
AllBlocks (block ∷ blocks) =
    (0 < length block) × (length block ≤ file_block_size) × AllBlocks blocks

-- A data packet with a given payload.
abbrev pub data_packet : Bytes → Packet
data_packet block = record {
  header = header_of CmdType.file_data Status.status_ok (length block);
  payload = block;
}

abbrev pub end_packet : Packet
end_packet = record { header = header_of CmdType.file_end Status.status_ok 0; payload = [] }

-- A host that never runs out of memory.
abbrev pub HasMemory : Host → Type 0
HasMemory host = (n : ℕ) → host.calloc n ≡ true

module _ (host : Host) (mem : HasMemory host) (c : Conn) where
  -- The first block of a stream of them.
  pub recv_packet-frames :
      (block : Bytes) (blocks : List Bytes) (rest : Bytes)
      → length block ≤ file_block_size
      → deliverable c.incoming ≡ frames (block ∷ blocks) ++ rest
      → ((recv_packet host c).0 ≡ some (data_packet block))
        × (deliverable (recv_packet host c).1.incoming ≡ frames blocks ++ rest)
  unfolding frames
  recv_packet-frames block blocks rest small e =
      recv_packet-packet_bytes host c CmdType.file_data Status.status_ok block
        (frames blocks ++ rest) (omega arith) (mem (length block))
        (e
          ∙ append_assoc (packet_bytes CmdType.file_data Status.status_ok block) (frames blocks)
              rest)

  -- And the packet behind the last.
  pub recv_packet-end :
      (rest : Bytes)
      → deliverable c.incoming
        ≡ frames [] ++ (packet_bytes CmdType.file_end Status.status_ok [] ++ rest)
      → ((recv_packet host c).0 ≡ some end_packet)
        × (deliverable (recv_packet host c).1.incoming ≡ rest)
  unfolding frames
  recv_packet-end rest e =
      recv_packet-packet_bytes host c CmdType.file_end Status.status_ok [] rest (omega arith)
        (mem 0) e
