-- ===== src/EndToEnd/Tests.antt =====
-- A client and a server over disks in memory, each on what the other sent.
use wind_cloud_v.Base.{
  ◌≡◌, ◌≢◌, refl, sym, ap, subst, ◌∙◌, false, none, some, [], ◌∷◌, ◌++◌, Bytes, arith, length,
  equal, codes,
}
use wind_cloud_v.Wire.Stream.{interrupted, moved, write_loop, send_n}
use wind_cloud_v.Wire.Endian.{store32}
use wind_cloud_v.Wire.Stream.Laws.{deliverable}
use wind_cloud_v.Wire.Types.{path_max, CmdType, Status}
use wind_cloud_v.Wire.Packet.{header_bytes, send_payload, send_packet, recv_packet}
use wind_cloud_v.Server.World.{World, left_by}
use wind_cloud_v.Server.Memory.{
  host, host_memory, Files, put_file, memory, memory_documented, put_file-same,
}
use wind_cloud_v.Server.Reply.Laws.{NoNul}
use wind_cloud_v.Client.World.{Client}
use wind_cloud_v.Client.Upload.{puts_blocks, safe_basename}
use wind_cloud_v.Client.Upload
use wind_cloud_v.Client.Download
use wind_cloud_v.Client.Simple.{simple_payload}
use wind_cloud_v.Client.Download.{gets_blocks}
use wind_cloud_v.Client.Memory.{file_calls, file_calls-Written}
use wind_cloud_v.EndToEnd.Retrieval.{asks, serves, Fetched, handle_gets-handle_gets}
use wind_cloud_v.EndToEnd.Session.{answers, Copied, handle_puts-handle_puts}
use wind_cloud_v.Server.Path.{
  resolve_target_path, normalize_virtual_path, normalize_merged, merge, walk, tokens_from, extend,
  build_real_path,
}
use wind_cloud_v.Libc.{basename, strip, last_part}
use wind_cloud_v.EndToEnd.Command.{asked, Exchanged, handle_simple_command-asked}

-- What a peer reads when the other's bytes come in one piece.
pub one_piece : (bs : Bytes) → deliverable (moved bs ∷ []) ≡ bs ++ []
one_piece [] = refl
one_piece (b ∷ bs) = refl

-- A client whose file is `hello`, and whose kernel reads and writes in parts.
abbrev pub client : Client Files
client = record {
  disk = put_file (λ p. none) (codes "a") (some (codes "hello"));
  conn = record { incoming = []; room = moved 7 ∷ interrupted ∷ []; sent = [] };
  reads = interrupted ∷ moved 2 ∷ [];
  writes = [];
  printed = [];
}

-- The server sends what the client lacks, over a kernel that takes the bytes in parts.
abbrev pub giving : World Files
giving = record {
  disk = put_file (λ p. none) (codes "b") (some (codes "hello"));
  conn = record { incoming = []; room = moved 7 ∷ interrupted ∷ []; sent = [] };
  session = record { current_path = codes "/"; user_id = none; should_close = false };
}

-- A client that asks for a directory, and a server that made it.
abbrev order : Bytes
order =
    (send_packet host client.conn CmdType.mkdir Status.status_ok
      (simple_payload (codes "docs"))).1.sent

abbrev asked_of : World Files
asked_of = record giving { conn = record { incoming = moved order ∷ []; room = []; sent = [] } }

abbrev carried_out : World Files
carried_out =
    (asked host memory (record asked_of { conn = (recv_packet host asked_of.conn).1 }) CmdType.mkdir
      (codes "docs")).1

abbrev asking : Client Files
asking = record client {
  conn = record { incoming = moved carried_out.conn.sent ∷ []; room = client.conn.room; sent = [] };
}

docs-NoNul : NoNul (codes "docs")
docs-NoNul = (λ e. omega arith, (λ e. omega arith, (λ e. omega arith, (λ e. omega arith, tt))))

handle_simple_command-asked_example :
    Exchanged host host memory CmdType.mkdir (codes "docs") asking asked_of carried_out
unfolding send_packet send_n send_payload write_loop header_bytes store32
handle_simple_command-asked_example =
    handle_simple_command-asked host host memory host_memory host_memory CmdType.mkdir
      (codes "docs") tt docs-NoNul (omega arith) [] [] asking asked_of tt tt (omega arith)
      (one_piece order) (one_piece carried_out.conn.sent)

-- A whole upload: the server holds two bytes of the file.
abbrev pub hearing : Client Files
hearing = record client {
  conn = record {
    incoming = moved (answers host 2) ∷ [];
    room = moved 7 ∷ interrupted ∷ [];
    sent = [];
  };
}

abbrev session_bytes : Bytes
session_bytes =
    (left_by hearing (Upload.handle_puts host memory file_calls hearing (codes "a"))).conn.sent

abbrev holding : World Files
holding = record giving {
  disk = put_file (λ p. none) (codes "../tests/a") (some (codes "he"));
  conn = record { incoming = moved session_bytes ∷ []; room = moved 3 ∷ []; sent = [] };
}

pub base_a : safe_basename (codes "a") path_max ≡ codes "a"
unfolding safe_basename basename strip last_part
base_a = refl

pub resolved : resolve_target_path (codes "/") (codes "a") ≡ some (codes "/a", codes "../tests/a")
unfolding resolve_target_path normalize_virtual_path normalize_merged merge equal walk tokens_from
    extend build_real_path
resolved = refl

pub a-NoNul : NoNul (codes "a")
a-NoNul = (λ e. omega arith, tt)

pub named_a : safe_basename (codes "a") path_max ≢ []
named_a e = omega (arith, ap length (sym base_a ∙ e))

handle_puts-handle_puts_example :
    Copied host host memory memory
      (codes "hello")
      []
      (safe_basename (codes "a") path_max)
      (codes "../tests/a")
      hearing
      holding
      2
      (Upload.handle_puts host memory file_calls hearing (codes "a"))
unfolding equal
handle_puts-handle_puts_example =
    handle_puts-handle_puts host host refl host_memory host_memory memory memory file_calls
      memory_documented memory_documented (codes "hello") (omega arith) (omega arith) (codes "a")
      (codes "/a") (codes "../tests/a") (codes "he") [] [] hearing holding
      (put_file holding.disk (codes "../tests/a") (some (codes "he"))) refl refl refl tt tt named_a
      (subst NoNul (sym base_a) a-NoNul) (ap (resolve_target_path (codes "/")) base_a ∙ resolved)
      refl (put_file-same holding.disk (codes "../tests/a") _) (omega arith) refl (λ e n. cc)
      (λ e n. refl) tt (one_piece (answers host 2)) (one_piece session_bytes)

-- A whole download of a file of which the client holds two bytes.
abbrev pub serving : World Files
serving = record giving {
  disk = put_file (λ p. none) (codes "../tests/a") (some (codes "hello"));
  conn = record { incoming = moved (asks host (codes "a") 2) ∷ []; room = moved 3 ∷ []; sent = [] };
}

abbrev pub file_bytes : Bytes
file_bytes = (left_by serving (serves host memory serving (codes "a"))).conn.sent

abbrev pub fetching : Client Files
fetching = record client {
  disk = put_file (λ p. none) (codes "a") (some (codes "he"));
  conn = record { incoming = moved file_bytes ∷ []; room = moved 7 ∷ interrupted ∷ []; sent = [] };
  writes = moved 1 ∷ [];
}

handle_gets-handle_gets_example :
    Fetched host host memory memory
      (codes "a")
      (codes "hello")
      []
      fetching
      serving
      2
      (Download.handle_gets host memory file_calls fetching (codes "a"))
unfolding equal
handle_gets-handle_gets_example =
    handle_gets-handle_gets host host refl host_memory host_memory memory memory file_calls
      file_calls-Written memory_documented memory_documented (codes "a") (codes "hello") (λ e. cc)
      a-NoNul (omega arith) (omega arith) (codes "/a") (codes "../tests/a") (codes "he") [] []
      fetching (put_file fetching.disk (codes "a") (some (codes "he"))) serving refl refl
      (omega arith) refl refl tt tt resolved refl refl tt (one_piece (asks host (codes "a") 2))
      (one_piece file_bytes)
