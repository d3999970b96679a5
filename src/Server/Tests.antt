-- ===== src/Server/Tests.antt =====
-- The server over a disk in memory, at concrete requests.
use wind_cloud_v.Base.{
  ◌<◌, refl, arith, ◌≡◌, Bool, true, false, none, some, [], ◌∷◌, ◌++◌, Bytes, length, codes, equal,
}
use wind_cloud_v.Wire.Stream.{interrupted, moved}
use wind_cloud_v.Wire.Types.{max_text_payload, CmdType, cmd_code, status_code, Status, Packet}
use wind_cloud_v.Wire.Packet.{header_of}
use wind_cloud_v.Wire.Packet.Framing.{packet_bytes}
use wind_cloud_v.Server.World.{returns, ◌>>=◌, World}
use wind_cloud_v.Server.Commands.{
  ls_loop, handle_pwd, handle_ls, handle_cd, handle_rm, handle_mkdir,
}
use wind_cloud_v.Server.Commands.Answer.{Answered, commands-Answered}
use wind_cloud_v.Server.Commands.Listing.{ls_loop-bound}
use wind_cloud_v.Server.Upload.Arriving.{arriving}
use wind_cloud_v.Server.Upload.Contents.{puts_loop-puts_finish}
use wind_cloud_v.Server.Upload.{puts_loop, puts_finish}
use wind_cloud_v.Server.Download.Stream.{Streams, gets_loop-Streams}
use wind_cloud_v.Server.Download.{gets_loop}
use wind_cloud_v.Server.Request.{handle_request}
use wind_cloud_v.Server.Request.Laws.{Serves, handle_request-Serves}
use wind_cloud_v.Server.Memory.{host, Files, put_file, memory, memory_documented}

-- A packet as a client sends it.
abbrev packet : CmdType → Bytes → Packet
packet t payload = record {
  header = header_of t Status.status_ok (length payload);
  payload = payload;
}

abbrev bytes : CmdType → Bytes → Bytes
bytes t payload = packet_bytes t Status.status_ok payload

-- A session at the root, with a file, and a client that asks for three things.
abbrev here : World Files
here = record {
  disk = put_file (λ p. none) (codes "../tests/a") (some (codes "hello"));
  conn = record {
    incoming =
        moved (
          bytes CmdType.mkdir (codes "docs" ++ 0 ∷ [])
          ++ (bytes CmdType.cd (codes "../docs" ++ 0 ∷ []) ++ bytes CmdType.pwd []))
        ∷ [];
    room = [];
    sent = [];
  };
  session = record { current_path = codes "/"; user_id = none; should_close = false };
}

handle_request-Serves_example : Serves host memory here (handle_request host memory here)
handle_request-Serves_example = handle_request-Serves host memory here

-- The file `b` in the middle of an upload: two bytes are old, and three come in two packets.
abbrev uploading : World Files
uploading = record {
  disk = put_file (λ p. none) (codes "b") (some (codes "he" ++ 0 ∷ 0 ∷ 0 ∷ []));
  conn = record {
    incoming =
        moved (
          bytes CmdType.file_data (codes "l")
          ++ (bytes CmdType.file_data (codes "lo") ++ bytes CmdType.file_end []))
        ∷ [];
    room = [];
    sent = [];
  };
  session = record { current_path = codes "/"; user_id = none; should_close = false };
}

puts_loop-puts_finish_example :
    (ok : Bool) × (after : World Files) × ((puts_loop host memory 100 (codes "b") 5 true 2 uploading
        >>= (λ r. returns (puts_finish host memory (codes "b") r)))
      ≡ returns (ok, after))
    × (after.disk (codes "b") ≡ some (codes "he" ++ arriving host 100 5 2 (uploading.conn)))
unfolding cmd_code status_code equal
puts_loop-puts_finish_example =
    puts_loop-puts_finish host memory memory_documented (codes "b") 5 (λ d n e. cc) (omega arith)
      100 2 uploading (codes "he" ++ 0 ∷ 0 ∷ 0 ∷ []) (omega arith) refl refl (omega arith)

-- A client whose kernel takes the download in small parts.
abbrev downloading : World Files
downloading = record here {
  conn = record { incoming = []; room = moved 7 ∷ interrupted ∷ []; sent = [] };
}

gets_loop-Streams_example :
    Streams memory downloading
      (codes "llo")
      (gets_loop host memory 6 (codes "hello") 5 2 downloading)
gets_loop-Streams_example =
    gets_loop-Streams host memory (codes "hello") 5 6 2 downloading (omega arith) refl (omega arith)
      tt

listed : ls_loop (codes "." ∷ codes "a" ∷ codes "bc" ∷ []) [] ≡ some (codes "a\nbc\n")
unfolding ls_loop equal
listed = refl

ls_loop-bound_example : length (codes "a\nbc\n") < max_text_payload
ls_loop-bound_example =
    ls_loop-bound (codes "." ∷ codes "a" ∷ codes "bc" ∷ []) [] (codes "a\nbc\n") (omega arith)
      listed

commands-Answered_example :
    Answered downloading (handle_pwd host memory downloading)
    × Answered downloading (handle_ls host memory downloading)
    × ((arg : Bytes)
        → Answered downloading (handle_cd host memory downloading arg)
          × Answered downloading (handle_rm host memory downloading arg)
          × Answered downloading (handle_mkdir host memory downloading arg))
commands-Answered_example = commands-Answered host memory downloading tt (omega arith)
