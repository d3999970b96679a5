-- ===== src/EndToEnd/Unmapped.antt =====
-- `handle_puts` of src/server/handle.c where the file cannot be mapped, and the upload behind it.
use wind_cloud_v.Base.{
  ℕ, ◌^◌, ◌≤◌, ◌<◌, ◌≡◌, ◌≢◌, refl, ap, ◌∙◌, Bool, false, some, [], Bytes, length, ltb, leb, ◌==◌,
  arith,
}
use wind_cloud_v.Wire.Endian.{host_to_net_u64}
use wind_cloud_v.Wire.Stream.Laws.{IsWilling}
use wind_cloud_v.Wire.Types.{path_max, CmdType, Status, Packet, Host}
use wind_cloud_v.Wire.Packet.Framing.{send_packet-packet_bytes}
use wind_cloud_v.Server.Path.{resolve_target_path}
use wind_cloud_v.Server.World.{Posix, Documented, Here, Run, returns, left_by, resize}
use wind_cloud_v.Server.Reply.{info, extract_file_info, send_text_reply, send_resume_packet}
use wind_cloud_v.Server.Reply.Laws.{length-store64}
use wind_cloud_v.Server.Upload.{truncate_to, puts_receive, puts_open, handle_puts}
use wind_cloud_v.EndToEnd.Store.{resume_bytes, handle_puts-puts_open, length-resize}

-- The upload ended with a file of its full length.
record Zeroed (os : Posix) (path held : Bytes) (total : ℕ) (r : Run (Bool × Here os)) : Type 0 where
  ok : Bool
  after : Here os
  result : r ≡ returns (ok, after)
  file : os.file after.disk path ≡ some (resize total held)

module _ (host : Host) (os : Posix) (doc : Documented os) (path held : Bytes) (total : ℕ)
    (some_byte : 0 < total) (range : total < 2 ^ 63) (fits : length held ≤ total) where
  puts_open-unmapped :
      (w : Here os) (d : os.Disk)
      → os.file w.disk path ≡ some held
      → IsWilling w.conn.room
      → os.ftruncate w.disk path total ≡ some d
      → os.mmap d path total ≡ false
      → Zeroed os path held total (puts_open host os w path total)
  unfolding puts_open puts_receive send_resume_packet truncate_to send_text_reply
  puts_open-unmapped w d there room cut bad =
      let (ok, out, room') =
        send_packet-packet_bytes host w.conn CmdType.puts_resp Status.status_ok
          (resume_bytes host (length held))
          (omega (arith, length-store64 host.endian (host_to_net_u64 host.endian (length held))))
          room in
      let within : ltb total (length held) ≡ false = ground arith in
      let some_total : (total == 0) ≡ false = ground arith in
      let in_range : leb (2 ^ 63) total ≡ false = ground arith in
      rw
        (
          doc.fstat-file w.disk path held there,
          puts_open,
          within,
          ok,
          some_total,
          in_range,
          cut,
          bad,
        )
        (record {
          ok = _;
          after = _;
          result = refl;
          file = doc.ftruncate-file w.disk d path total held there cut;
        })

  resumes :
      (v : Here os)
      → os.file v.disk path ≡ some (resize total held)
      → puts_open host os v path total ≡ puts_receive host os v path total total
  unfolding puts_open
  resumes v left =
      let size : os.fstat v.disk path ≡ some total =
        doc.fstat-file v.disk path (resize total held) left
        ∙ ap some (length-resize total held fits) in
      let within : ltb total total ≡ false = ground arith in rw (size, puts_open, within) refl

  -- An upload whose file opens, is not longer than the upload, and grows to its length, but is then
  -- not mapped, where the upload is not empty and below 2 ^ 63 bytes, the file system does what its
  -- manual says, and each `write` to the socket takes bytes. The server's `handle_puts` returns and
  -- leaves a file of the full length, with zeros behind what was there. Another upload of that
  -- length to that path, on the disk as it was left, is then received from its very end on.
  pub handle_puts-unmapped :
      (w v : Here os) (p : Packet) (name target : Bytes) (d e : os.Disk)
      → extract_file_info host p path_max ≡ info name total
      → name ≢ []
      → resolve_target_path w.session.current_path name ≡ some (target, path)
      → os.open_create w.disk path ≡ some d
      → os.file d path ≡ some held
      → IsWilling w.conn.room
      → os.ftruncate d path total ≡ some e
      → os.mmap e path total ≡ false
      → v.disk ≡ (left_by w (handle_puts host os w p)).disk
      → (ok : Bool) × (after : Here os) × (handle_puts host os w p ≡ returns (ok, after))
        × (os.file after.disk path ≡ some (resize total held))
        × (puts_open host os v path total ≡ puts_receive host os v path total total)
  handle_puts-unmapped w v p name target d e asks n at made there room cut bad same =
      let u = puts_open-unmapped (record w { disk = d }) e there room cut bad in
      let whole =
        handle_puts-puts_open host os w p name target path total d asks n at made ∙ u.result in
      let left =
        ap (λ (x : os.Disk). os.file x path) (same ∙ ap (λ r. (left_by w r).disk) whole) ∙ u.file in
      (u.ok, u.after, whole, u.file, resumes v left)
