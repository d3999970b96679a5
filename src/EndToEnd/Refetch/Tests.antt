-- ===== src/EndToEnd/Refetch/Tests.antt =====
-- A download whose answer breaks off in its header, and the one behind it, over disks in memory.
use wind_cloud_v.Base.{
  ◌≤◌, ◌≡◌, refl, ap, Bool, some, [], ◌∷◌, ◌++◌, Bytes, arith, length, drop, equal, codes,
}
use wind_cloud_v.Wire.Stream.{moved, write_loop, send_n, recv_loop, recv_n}
use wind_cloud_v.Wire.Stream.Laws.{deliverable}
use wind_cloud_v.Wire.Types.{CmdType, Status}
use wind_cloud_v.Wire.Packet.{header_bytes, send_payload, send_packet, recv_packet}
use wind_cloud_v.Wire.Endian.{store32}
use wind_cloud_v.Wire.Packet.Framing.{packet_bytes}
use wind_cloud_v.Wire.Packet.Blocks.{frames, concat}
use wind_cloud_v.Server.World.{returns, left_by}
use wind_cloud_v.Server.Memory.{
  host, host_memory, Files, put_file, created, memory, memory_documented, put_file-same,
}
use wind_cloud_v.Server.Reply.{file_info_bytes}
use wind_cloud_v.Client.World.{Client}
use wind_cloud_v.Client.Download.{handle_gets}
use wind_cloud_v.Client.Memory.{file_calls, file_calls-Written}
use wind_cloud_v.EndToEnd.Arrival.{end_bytes}
use wind_cloud_v.EndToEnd.Retrieval.{asks, Fetched}
use wind_cloud_v.EndToEnd.Refetch.{handle_gets-Refetched}
use wind_cloud_v.EndToEnd.Tests.{fetching, serving, file_bytes, one_piece, resolved, a-NoNul}

abbrev answer : Bytes
answer =
    packet_bytes CmdType.gets_resp Status.status_ok (file_info_bytes host (codes "a") 5)
    ++ (frames (codes "llo" ∷ []) ++ (end_bytes ++ []))

-- The magic number arrives, and no more.
abbrev cut_off : Client Files
cut_off = record fetching {
  conn = record { incoming = moved (codes "TLV1") ∷ []; room = moved 7 ∷ []; sent = [] };
}

abbrev asking_again : Client Files
asking_again = record fetching {
  disk = (left_by cut_off (handle_gets host memory file_calls cut_off (codes "a"))).disk;
}

two_bytes : asking_again.disk (codes "a") ≡ some (codes "he")
unfolding handle_gets send_packet send_n send_payload write_loop header_bytes store32 recv_packet
    recv_n recv_loop equal
two_bytes = refl

cut_bytes : deliverable cut_off.conn.incoming ++ drop 4 answer ≡ answer
cut_bytes = refl

made_again :
    memory.open_create asking_again.disk (codes "a")
    ≡ some (put_file asking_again.disk (codes "a") (some (codes "he")))
made_again = ap (λ f. some (put_file asking_again.disk (codes "a") (some (created f)))) two_bytes

handle_gets-Refetched_example :
    (ok : Bool) × (handle_gets host memory file_calls cut_off (codes "a")
      ≡ returns (ok, left_by cut_off (handle_gets host memory file_calls cut_off (codes "a"))))
    × (codes "he" ≡ codes "he")
    × (length (codes "he") ≤ length (codes "he"))
    × Fetched host host memory memory
        (codes "a")
        (codes "hello")
        []
        asking_again
        serving
        2
        (handle_gets host memory file_calls asking_again (codes "a"))
unfolding equal concat
handle_gets-Refetched_example =
    handle_gets-Refetched host host refl host_memory host_memory memory memory file_calls
      file_calls-Written memory_documented memory_documented (codes "a") (codes "hello") (λ e. cc)
      a-NoNul (omega arith) (omega arith) (codes "/a") (codes "../tests/a") (codes "he")
      (codes "he") [] [] (drop 4 answer) [] (codes "llo" ∷ []) cut_off
      (put_file cut_off.disk (codes "a") (some (codes "he"))) asking_again
      (put_file asking_again.disk (codes "a") (some (codes "he"))) serving refl
      (put_file-same cut_off.disk (codes "a") _) (omega arith) refl (omega arith, omega arith, tt)
      refl tt cut_bytes refl two_bytes made_again refl tt tt resolved refl refl tt
      (one_piece (asks host (codes "a") 2)) (one_piece file_bytes)
