-- ===== src/EndToEnd/Resume/Tests.antt =====
-- Uploads that are broken off or cannot be mapped, over disks in memory.
use wind_cloud_v.Base.{
  ◌≤◌, ◌≡◌, refl, sym, ap, subst, ◌∙◌, Bool, false, none, some, [], ◌∷◌, ◌++◌, Bytes, arith, length,
  replicate, equal, codes,
}
use wind_cloud_v.Wire.Stream.{moved, write_loop, send_n, recv_loop, recv_n}
use wind_cloud_v.Wire.Endian.{store32, store64, load32, load64, host_to_net_u64, htonl, ntohl}
use wind_cloud_v.Wire.Stream.Laws.{deliverable}
use wind_cloud_v.Wire.Types.{path_max, Packet, cmd_code, is_cmd, status_code}
use wind_cloud_v.Wire.Packet.{
  header_bytes, send_payload, send_packet, recv_packet, read_header, recv_payload,
}
use wind_cloud_v.Server.World.{World, Run, returns, left_by}
use wind_cloud_v.Server.Memory.{
  host, host_memory, Files, put_file, created, memory, memory_documented, put_file-same,
}
use wind_cloud_v.Server.Reply.{
  send_resume_packet, send_text_reply, recv_follow_packet, text, extract_file_info, info,
}
use wind_cloud_v.Server.Reply.Laws.{NoNul, extract_file_info_lem}
use wind_cloud_v.Server.Upload.{puts_loop, puts_finish}
use wind_cloud_v.Client.World.{Client}
use wind_cloud_v.Client.Upload.{puts_blocks, safe_basename}
use wind_cloud_v.Client.Upload
use wind_cloud_v.Client.Upload.Whole.{safe_basename-lt}
use wind_cloud_v.EndToEnd.Store.{handle_puts-puts_open}
use wind_cloud_v.Server.Upload as Taking
use wind_cloud_v.Wire.Packet.Blocks.{frames, concat}
use wind_cloud_v.EndToEnd.Arrival.{end_bytes}
use wind_cloud_v.Client.Memory.{file_calls}
use wind_cloud_v.EndToEnd.Session.{answers, request, Copied}
use wind_cloud_v.EndToEnd.Resume.{handle_puts-Resumed}
use wind_cloud_v.Server.Path.{resolve_target_path}
use wind_cloud_v.EndToEnd.Tests.{giving, hearing, one_piece, base_a, resolved, a-NoNul, named_a}
use wind_cloud_v.EndToEnd.Unmapped.{handle_puts-unmapped}
use wind_cloud_v.Server.World.{Posix, Documented, resize}

-- An upload of which one byte arrives, and then the rest in a second session.
abbrev cut_off : World Files
cut_off = record giving {
  disk = put_file (λ p. none) (codes "../tests/a") (some (codes "he"));
  conn = record { incoming = moved (frames (codes "l" ∷ [])) ∷ []; room = moved 3 ∷ []; sent = [] };
}

abbrev first_attempt : Run (Bool × World Files)
first_attempt =
    Taking.handle_puts host memory cut_off
      (request host (safe_basename (codes "a") path_max) (codes "hello"))

abbrev hearing_again : Client Files
hearing_again = record hearing {
  conn = record { incoming = moved (answers host 3) ∷ []; room = moved 7 ∷ []; sent = [] };
}

abbrev session_again : Bytes
session_again =
    (left_by hearing_again
      (Upload.handle_puts host memory file_calls hearing_again (codes "a"))).conn.sent

abbrev returning : World Files
returning = record giving {
  disk = (left_by cut_off first_attempt).disk;
  conn = record { incoming = moved session_again ∷ []; room = moved 3 ∷ []; sent = [] };
}

abbrev opened_again : World Files
opened_again = record cut_off {
  disk = put_file cut_off.disk (codes "../tests/a") (some (codes "he"));
}

one_byte_stored :
    (left_by cut_off (Taking.puts_open host memory opened_again (codes "../tests/a") 5)).disk
      (codes "../tests/a")
    ≡ some (codes "hel")
unfolding equal frames Taking.puts_open Taking.puts_receive Taking.puts_loop Taking.puts_finish
    Taking.puts_store Taking.truncate_to send_resume_packet send_text_reply recv_follow_packet text
    send_packet store64 load32 load64 host_to_net_u64 store32 htonl ntohl send_n write_loop
    header_bytes send_payload recv_packet recv_n recv_loop read_header recv_payload cmd_code is_cmd
    status_code replicate
one_byte_stored = refl

created_again : memory.open_create cut_off.disk (codes "../tests/a") ≡ some opened_again.disk
unfolding equal
created_again = refl

asks_a :
    extract_file_info host
      (request host (safe_basename (codes "a") path_max) (codes "hello"))
      path_max
    ≡ info (safe_basename (codes "a") path_max) 5
asks_a =
    extract_file_info_lem host host
      (request host (safe_basename (codes "a") path_max) (codes "hello"))
      (safe_basename (codes "a") path_max) 5 refl (subst NoNul (sym base_a) a-NoNul)
      (safe_basename-lt (codes "a")) (omega arith) (refl, refl)

one_byte_more : returning.disk (codes "../tests/a") ≡ some (codes "hel")
one_byte_more =
    ap (λ r. (left_by cut_off r).disk (codes "../tests/a"))
      (handle_puts-puts_open host memory cut_off
        (request host (safe_basename (codes "a") path_max) (codes "hello"))
        (safe_basename (codes "a") path_max) (codes "/a") (codes "../tests/a") 5 opened_again.disk
        asks_a named_a (ap (resolve_target_path (codes "/")) base_a ∙ resolved) created_again)
    ∙ one_byte_stored

cut_bytes :
    deliverable cut_off.conn.incoming ++ (frames (codes "lo" ∷ []) ++ end_bytes)
    ≡ frames (codes "l" ∷ codes "lo" ∷ []) ++ (end_bytes ++ [])
unfolding frames
cut_bytes = refl

open_again :
    memory.open_create returning.disk (codes "../tests/a")
    ≡ some (put_file returning.disk (codes "../tests/a") (some (codes "hel")))
open_again =
    ap (λ f. some (put_file returning.disk (codes "../tests/a") (some (created f)))) one_byte_more

handle_puts-Resumed_example :
    (ok : Bool) × (first_attempt ≡ returns (ok, left_by cut_off first_attempt))
    × (codes "hel" ≡ codes "hel")
    × (length (codes "he") ≤ length (codes "hel"))
    × Copied host host memory memory
        (codes "hello")
        []
        (safe_basename (codes "a") path_max)
        (codes "../tests/a")
        hearing_again
        returning
        3
        (Upload.handle_puts host memory file_calls hearing_again (codes "a"))
unfolding equal concat
handle_puts-Resumed_example =
    handle_puts-Resumed host host refl host_memory host_memory memory memory file_calls
      memory_documented memory_documented (codes "hello") (omega arith) (omega arith) (codes "a")
      (codes "/a") (codes "/a") (codes "../tests/a") (codes "he") (codes "hel") [] []
      (frames (codes "lo" ∷ []) ++ end_bytes) [] (codes "l" ∷ codes "lo" ∷ []) cut_off
      (put_file cut_off.disk (codes "../tests/a") (some (codes "he"))) hearing_again returning
      (put_file returning.disk (codes "../tests/a") (some (codes "hel"))) named_a
      (subst NoNul (sym base_a) a-NoNul) (ap (resolve_target_path (codes "/")) base_a ∙ resolved)
      refl (put_file-same cut_off.disk (codes "../tests/a") _) (omega arith) refl (λ e n. cc)
      (λ e n. refl) (omega arith, omega arith, (omega arith, omega arith, tt)) refl cut_bytes refl
      one_byte_more (ap (resolve_target_path (codes "/")) base_a ∙ resolved) open_again refl refl
      refl tt tt tt (one_piece (answers host 3)) (one_piece session_again)

-- A disk whose files cannot be mapped.
abbrev unmapping : Posix
unmapping = record memory { mmap = λ d p n. false }

unmapping_documented : Documented unmapping
unmapping_documented = record {
  open_create-file = memory_documented.open_create-file;
  fstat-file = memory_documented.fstat-file;
  ftruncate-file = memory_documented.ftruncate-file;
  store-file = memory_documented.store-file;
}

abbrev request_a : Packet
request_a = request host (safe_basename (codes "a") path_max) (codes "hello")

abbrev sent_again : World Files
sent_again = record cut_off {
  disk = (left_by cut_off (Taking.handle_puts host unmapping cut_off request_a)).disk;
}

grown_a :
    unmapping.ftruncate opened_again.disk (codes "../tests/a") 5
    ≡ some (put_file opened_again.disk (codes "../tests/a") (some (resize 5 (codes "he"))))
grown_a =
    ap (λ f. some (put_file opened_again.disk (codes "../tests/a") (some (resize 5 (created f)))))
      (put_file-same cut_off.disk (codes "../tests/a") _)

handle_puts-unmapped_example :
    (ok : Bool) × (after : World Files) × (Taking.handle_puts host unmapping cut_off request_a
      ≡ returns (ok, after))
    × (after.disk (codes "../tests/a") ≡ some (resize 5 (codes "he")))
    × (Taking.puts_open host unmapping sent_again (codes "../tests/a") 5
        ≡ Taking.puts_receive host unmapping sent_again (codes "../tests/a") 5 5)
handle_puts-unmapped_example =
    handle_puts-unmapped host unmapping unmapping_documented (codes "../tests/a") (codes "he") 5
      (omega arith) (omega arith) (omega arith) cut_off sent_again request_a
      (safe_basename (codes "a") path_max) (codes "/a") opened_again.disk
      (put_file opened_again.disk (codes "../tests/a") (some (resize 5 (codes "he")))) asks_a
      named_a (ap (resolve_target_path (codes "/")) base_a ∙ resolved) created_again
      (put_file-same cut_off.disk (codes "../tests/a") _) tt grown_a refl refl
