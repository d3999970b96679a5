-- ===== src/Wire/Tests.antt =====
-- The wire format of include/protocol.h at concrete packets, hosts and streams.
use wind_cloud_v.Base.{
  false, ℕ, ◌^◌, ◌/◌, ◌%◌, ◌≡◌, ◌↔◌, refl, true, some, [], ◌∷◌, ◌++◌, Bytes, take, drop, codes,
  equal, arith,
}
use wind_cloud_v.Wire.Endian.{little, big, store64, load64, host_to_net_u64, net_to_host_u64}
use wind_cloud_v.Wire.Endian.Laws.{be64, store64-host_to_net_u64_big_iff, net_to_host_u64-load64}
use wind_cloud_v.Wire.Stream.{failed, interrupted, moved, Conn, recv_n, send_n}
use wind_cloud_v.Wire.Stream.Laws.{deliverable, recv_n-whole}
use wind_cloud_v.Wire.Command.Accepted.{Reads, build_command_request-Reads}
use wind_cloud_v.Wire.Stream.Capacity.{send_n-capacity}
use wind_cloud_v.Wire.Types.{CmdType, cmd_code, Status, status_code, Packet, Host}
use wind_cloud_v.Wire.Packet.{header_of, send_packet, recv_packet}
use wind_cloud_v.Wire.Packet.Framing.{
  packet_bytes, send_packet-packet_bytes, recv_packet-send_packet, IsValid, recv_packet-IsValid,
}
use wind_cloud_v.Wire.Command.{is_space, parse_command_type, build_command_request}
use wind_cloud_v.Wire.Command.Parsing.{IsArg, IsWord, build_command_request_lem}

abbrev intel : Host
intel = record { endian = little; calloc = λ n. true }

abbrev sparc : Host
sparc = record { endian = big; calloc = λ n. true }

-- A sender whose kernel takes three bytes, is interrupted, and then takes all.
abbrev sender : Conn
sender = record { incoming = []; room = moved 3 ∷ interrupted ∷ []; sent = codes "x" }

-- The request `cd docs` on the wire.
abbrev cd_docs : Bytes
cd_docs = packet_bytes CmdType.cd Status.status_ok (codes "docs")

-- A receiver that gets it in two cuts, with an interruption and another byte behind.
abbrev receiver : Conn
receiver = record {
  incoming = moved (take 7 cd_docs) ∷ interrupted ∷ moved (drop 7 cd_docs ++ codes "y") ∷ [];
  room = [];
  sent = [];
}

abbrev received : Packet
received = record { header = header_of CmdType.cd Status.status_ok 4; payload = codes "docs" }

on_the_wire :
    deliverable receiver.incoming
    ≡ drop 1 (send_packet intel sender CmdType.cd Status.status_ok (codes "docs")).1.sent
      ++ codes "y"
unfolding cmd_code status_code
on_the_wire =
    rw
      ((send_packet-packet_bytes intel sender CmdType.cd Status.status_ok (codes "docs")
        (omega arith) tt).1)
      refl

arrives :
    ((recv_packet sparc receiver).0 ≡ some received)
    × (deliverable (recv_packet sparc receiver).1.incoming ≡ codes "y")
arrives =
    recv_packet-send_packet intel sparc sender receiver CmdType.cd Status.status_ok (codes "docs")
      (codes "y") (omega arith) tt refl on_the_wire

recv_packet-send_packet_example :
    ((recv_packet sparc receiver).0 ≡ some received)
    × (deliverable (recv_packet sparc receiver).1.incoming ≡ codes "y")
recv_packet-send_packet_example =
    recv_packet-send_packet intel sparc sender receiver CmdType.cd Status.status_ok (codes "docs")
      (codes "y") (omega arith) tt refl on_the_wire

recv_packet-IsValid_example : IsValid received
recv_packet-IsValid_example = recv_packet-IsValid sparc receiver received arrives.0

recv_n-whole_example :
    ((recv_n receiver 20).0 ≡ some (take 20 cd_docs))
    × (deliverable (recv_n receiver 20).1.incoming ≡ codes "docsy")
recv_n-whole_example = recv_n-whole receiver 20 (omega arith)

-- The kernel is interrupted, takes three bytes, then one, and then fails.
abbrev narrow : Conn
narrow = record {
  incoming = [];
  room = interrupted ∷ moved 3 ∷ interrupted ∷ moved 1 ∷ failed ∷ moved 9 ∷ [];
  sent = codes "x";
}

send_n-capacity_example :
    ((send_n narrow (codes "abcde")).1.sent ≡ codes "xabcd")
    × ((send_n narrow (codes "abcde")).0 ≡ false)
send_n-capacity_example = send_n-capacity narrow (codes "abcde")

-- A size whose two halves differ.
abbrev size : ℕ
size = 4294967303

store64-host_to_net_u64_big_iff_example :
    (store64 big (host_to_net_u64 big size) ≡ be64 size) ↔ (size / 2 ^ 32 ≡ size % 2 ^ 32)
store64-host_to_net_u64_big_iff_example = store64-host_to_net_u64_big_iff size (omega arith)

net_to_host_u64-load64_example :
    net_to_host_u64 big (load64 big (store64 big (host_to_net_u64 big size) ++ codes "z")) ≡ size
net_to_host_u64-load64_example = net_to_host_u64-load64 big size (codes "z") (omega arith)

puts-IsWord : IsWord (codes "puts")
unfolding is_space
puts-IsWord = record {
  some_byte = λ e. cc;
  free = (refl, (refl, (refl, (refl, tt))));
  short = omega arith;
}

two_words-IsArg : IsArg (codes "my file")
unfolding is_space
two_words-IsArg = record {
  starts = refl;
  free = (refl, (refl, (refl, (refl, (refl, (refl, (refl, tt)))))));
  short = omega arith;
}

build_command_request_lem_example :
    build_command_request (codes "puts my file")
    ≡ some (record { type = CmdType.puts_req; arg = codes "my file" })
unfolding parse_command_type equal
build_command_request_lem_example =
    build_command_request_lem (codes "puts") (codes "my file") CmdType.puts_req puts-IsWord
      two_words-IsArg tt refl

accepted :
    build_command_request (codes "puts my file")
    ≡ some (record { type = CmdType.puts_req; arg = codes "my file" })
unfolding parse_command_type equal
accepted =
    build_command_request_lem (codes "puts") (codes "my file") CmdType.puts_req puts-IsWord
      two_words-IsArg tt refl

build_command_request-Reads_example :
    Reads (codes "puts my file") (record { type = CmdType.puts_req; arg = codes "my file" })
build_command_request-Reads_example = build_command_request-Reads (codes "puts my file") _ accepted
