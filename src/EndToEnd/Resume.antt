-- ===== src/EndToEnd/Resume.antt =====
-- An upload that is broken off and sent again: `handle_puts` of the server twice, and of the client.
pub mod Tests
use wind_cloud_v.Base.{
  ℕ, ◌^◌, ◌≤◌, ◌<◌, ◌≡◌, ◌≢◌, refl, sym, ap, ◌∙◌, Bool, true, none, some, List, [], ◌++◌, Bytes,
  length, take, drop, length-take, arith,
}
use wind_cloud_v.Wire.Stream.Laws.{deliverable, IsWilling}
use wind_cloud_v.Wire.Types.{path_max, Host}
use wind_cloud_v.Wire.Packet.Blocks.{frames, concat, AllBlocks, HasMemory}
use wind_cloud_v.Server.Path.{resolve_target_path}
use wind_cloud_v.Server.World.{Posix, Documented, Here, Run, returns, left_by}
use wind_cloud_v.Server.Reply.Laws.{NoNul, extract_file_info_lem}
use wind_cloud_v.Server.Upload as Taking
use wind_cloud_v.Client.World.{Calls, Mine}
use wind_cloud_v.Client.Upload.{safe_basename, handle_puts}
use wind_cloud_v.Client.Upload.Stream.{IsReading}
use wind_cloud_v.Client.Upload.Whole.{safe_basename-lt}
use wind_cloud_v.EndToEnd.Arrival.{end_bytes}
use wind_cloud_v.EndToEnd.Broken.{handle_puts-Breaks}
use wind_cloud_v.EndToEnd.Session.{answers, request, Copied, handle_puts-handle_puts}

module _ (a b : Host) (same : a.endian ≡ b.endian) (mem : HasMemory a) (mem' : HasMemory b)
    (os os' : Posix) (calls : Calls os') (doc : Documented os) (doc' : Documented os')
    (contents : Bytes) (some_byte : 0 < length contents) (range : length contents < 2 ^ 63) where
  -- An upload that was broken off and is sent again, where both hosts have memory and the same byte
  -- order, and both file systems do what their manual says, with `ftruncate` and `mmap` on the
  -- server's never failing. Of a first attempt the server has taken the request; of the data
  -- packets behind it, none empty and none longer than a block, and of the end packet, any first
  -- part arrives, and then nothing more. At its start the file at the resolved path opens and holds
  -- the first bytes of the client's, which is not empty and has less than 2 ^ 63 bytes, and whose
  -- base name is not empty and has no NUL. A second attempt finds the server's disk as the first
  -- one left it; its name resolves to the same path, which opens; its client can open its file and
  -- position it, no `read` of it fails or comes up empty before the end, each `write` to a socket
  -- takes bytes, and both sides hear what the other sends, the client with the length of the file
  -- there as the offset. Then the server's `handle_puts` returned from the first attempt, what it
  -- left at the path are the first bytes of the client's file, as many as before or more, and the
  -- second attempt sends what is missing: both sides return 0, and the file at the path is the
  -- client's.
  pub handle_puts-Resumed :
      (local target target' path old held left rest lost rest' : Bytes) (blocks : List Bytes)
      (w : Here os) (d : os.Disk) (c : Mine os') (v : Here os) (e : os.Disk)
      → safe_basename local path_max ≢ []
      → NoNul (safe_basename local path_max)
      → resolve_target_path w.session.current_path (safe_basename local path_max)
        ≡ some (target, path)
      → os.open_create w.disk path ≡ some d
      → os.file d path ≡ some old
      → length old ≤ length contents
      → old ≡ take (length old) contents
      → ((f : os.Disk) (n : ℕ) → os.ftruncate f path n ≢ none)
      → ((f : os.Disk) (n : ℕ) → os.mmap f path n ≡ true)
      → AllBlocks blocks
      → concat blocks ≡ drop (length old) contents
      → deliverable w.conn.incoming ++ lost ≡ frames blocks ++ (end_bytes ++ rest')
      → v.disk
        ≡ (left_by w
            (Taking.handle_puts b os w (request a (safe_basename local path_max) contents))).disk
      → os.file v.disk path ≡ some held
      → resolve_target_path v.session.current_path (safe_basename local path_max)
        ≡ some (target', path)
      → os.open_create v.disk path ≡ some e
      → os'.open_read c.disk local ≡ true
      → os'.file c.disk local ≡ some contents
      → calls.lseek c.disk local (length held) ≡ true
      → IsReading c.reads
      → IsWilling c.conn.room
      → IsWilling v.conn.room
      → deliverable c.conn.incoming ≡ answers b (length held) ++ left
      → deliverable v.conn.incoming
        ≡ drop (length c.conn.sent) (left_by c (handle_puts a os' calls c local)).conn.sent ++ rest
      → (ok : Bool) × (Taking.handle_puts b os w (request a (safe_basename local path_max) contents)
          ≡ returns (
            ok,
            left_by w
                (Taking.handle_puts b os w (request a (safe_basename local path_max) contents)),
          ))
        × (held ≡ take (length held) contents)
        × (length old ≤ length held)
        × Copied a b os os' contents rest
            (safe_basename local path_max)
            path
            c
            v
            (length held)
            (handle_puts a os' calls c local)
  handle_puts-Resumed local target target' path old held left rest lost rest' blocks w d c v e named
        clean at made stored bound prefix sized maps small whole arrives kept has at' made' opens
        there set rd room ready hears arrives' =
      let base = safe_basename local path_max in
      let p = request a base contents in
      let u =
        handle_puts-Breaks b os doc mem' path contents lost rest' blocks small range sized maps
          some_byte old bound prefix whole w p base target d
          (extract_file_info_lem a b p base (length contents) same clean (safe_basename-lt local)
            (omega arith) (refl, refl))
          named at made stored arrives in
      let it : ◌≡◌ {A = _} (some held) (some (take u.n contents)) =
        sym has
        ∙ ap (λ (x : os.Disk). os.file x path) (kept ∙ ap (λ r. (left_by w r).disk) u.result)
        ∙ u.file in
      let front : held ≡ take u.n contents = cc in
      let long : length held ≡ u.n =
        omega (arith, ap length front, length-take u.n contents, u.bound) in
      let (bs, at_e, stays) = doc.open_create-file v.disk e path made' in
      let prefix' : held ≡ take (length held) contents =
        front ∙ ap (λ n. take n contents) (sym long) in
      (
        u.ok,
        u.result ∙ ap (λ x. returns (u.ok, x)) (sym (ap (left_by w) u.result)),
        prefix',
        omega (arith, long, u.longer),
        handle_puts-handle_puts a b same mem mem' os os' calls doc doc' contents some_byte range
            local target' path held left rest c v e opens there set rd room named clean at' made'
            (at_e ∙ ap some (stays held has)) (omega (arith, long, u.bound)) prefix' sized maps
            ready hears arrives',
      )
