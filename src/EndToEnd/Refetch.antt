-- ===== src/EndToEnd/Refetch.antt =====
-- A download that is broken off and asked for again: `handle_gets` of the client twice, and of the
-- server.
pub mod Tests
use wind_cloud_v.Base.{
  ℕ, ◌^◌, ◌≤◌, ◌<◌, ◌≡◌, ◌≢◌, sym, ap, ◌∙◌, inl, inr, Bool, true, Option, some, List, [], ◌++◌,
  Bytes, length, take, drop, length-take, arith,
}
use wind_cloud_v.Wire.Stream.Laws.{deliverable, IsWilling}
use wind_cloud_v.Wire.Types.{path_max, CmdType, Status, Host}
use wind_cloud_v.Wire.Packet.Framing.{packet_bytes}
use wind_cloud_v.Wire.Packet.Blocks.{frames, concat, AllBlocks, HasMemory}
use wind_cloud_v.Server.Path.{resolve_target_path}
use wind_cloud_v.Server.World.{Posix, Documented, Here, Run, returns, left_by}
use wind_cloud_v.Server.Reply.{file_info_bytes}
use wind_cloud_v.Server.Reply.Laws.{NoNul, length-file_info_bytes, file_info_bytes-size}
use wind_cloud_v.Client.World.{Calls, Written, Mine}
use wind_cloud_v.Client.Download.{handle_gets}
use wind_cloud_v.EndToEnd.Arrival.{end_bytes}
use wind_cloud_v.EndToEnd.Lost.{handle_gets-Loses}
use wind_cloud_v.EndToEnd.Retrieval.{asks, serves, Fetched, handle_gets-handle_gets}

one_file : (x y : Bytes) → some x ≡ some y → x ≡ y
one_file x y e = cc

-- The first bytes of a file are as many of them as they are long.
front_of :
    (n : ℕ) (old held contents : Bytes)
    → n ≤ length contents
    → length old ≤ n
    → held ≡ take n contents
    → (held ≡ take (length held) contents)
      × (length old ≤ length held)
      × (length held ≤ length contents)
front_of n old held contents bound longer front =
    let long : length held ≡ n = omega (arith, ap length front, length-take n contents, bound) in
    (
      front ∙ ap (λ k. take k contents) (sym long),
      omega (arith, long, longer),
      omega (arith, long, bound),
    )

module _ (a b : Host) (same : a.endian ≡ b.endian) (mem : HasMemory a) (mem' : HasMemory b)
    (os os' : Posix) (calls : Calls os') (written : Written os' calls) (doc : Documented os)
    (doc' : Documented os') (arg contents : Bytes) (named : arg ≢ []) (clean : NoNul arg)
    (short : length arg < path_max) (range : length contents < 2 ^ 63) where
  -- A download that was broken off and is asked for again, where both hosts have memory and the
  -- same byte order, and both file systems do what their manual says. The name is not empty, has
  -- no NUL and is shorter than 4096 bytes, and the server's file has less than 2 ^ 63 bytes. Of a
  -- first attempt any first part of the server's answer, of the data packets behind it, none empty
  -- and none longer than a block, and of the end packet arrives, and then nothing more; at its
  -- start the client can create the file, which then holds the first bytes of the server's. A
  -- second attempt finds the client's disk as the first one left it, where the file is there and
  -- can be opened and positioned; the server resolves the name to its file, which opens; each
  -- `write` takes bytes, and both sides hear what the other sends. Then the client's `handle_gets`
  -- returned from the first attempt, what it left are the first bytes of the server's file, as
  -- many as before or more, and the second attempt asks for what is missing: both sides return 0,
  -- and the client's file is the server's.
  pub handle_gets-Refetched :
      (target path old held left rest lost rest' : Bytes) (blocks : List Bytes) (c : Mine os')
      (d : os'.Disk) (v : Mine os') (e : os'.Disk) (w : Here os)
      → os'.open_create c.disk arg ≡ some d
      → os'.file d arg ≡ some old
      → length old ≤ length contents
      → old ≡ take (length old) contents
      → AllBlocks blocks
      → concat blocks ≡ drop (length old) contents
      → IsWilling c.writes
      → deliverable c.conn.incoming ++ lost
        ≡ packet_bytes CmdType.gets_resp Status.status_ok (file_info_bytes b arg (length contents))
          ++ (frames blocks ++ (end_bytes ++ rest'))
      → v.disk ≡ (left_by c (handle_gets a os' calls c arg)).disk
      → os'.file v.disk arg ≡ some held
      → os'.open_create v.disk arg ≡ some e
      → calls.lseek e arg (length held) ≡ true
      → IsWilling v.conn.room
      → IsWilling v.writes
      → resolve_target_path w.session.current_path arg ≡ some (target, path)
      → os.open_read w.disk path ≡ true
      → os.file w.disk path ≡ some contents
      → IsWilling w.conn.room
      → deliverable w.conn.incoming ≡ asks a arg (length held) ++ rest
      → deliverable v.conn.incoming
        ≡ drop (length w.conn.sent) (left_by w (serves b os w arg)).conn.sent ++ left
      → (ok : Bool) × (handle_gets a os' calls c arg
          ≡ returns (ok, left_by c (handle_gets a os' calls c arg)))
        × (held ≡ take (length held) contents)
        × (length old ≤ length held)
        × Fetched a b os os' arg contents left v w (length held) (handle_gets a os' calls v arg)
  handle_gets-Refetched target path old held left rest lost rest' blocks c d v e w made stored bound
        prefix small whole writes arrives kept has made' set room writes' at opens there ready hears
        arrives' =
      let u =
        handle_gets-Loses a os' calls doc' written mem arg contents lost rest' blocks small range
          old bound prefix whole (file_info_bytes b arg (length contents)) Status.status_ok c d
          (length-file_info_bytes b arg (length contents) short)
          (file_info_bytes-size a b arg (length contents) same short (omega (arith, range))) made
          stored writes arrives in
      let left_disk : v.disk ≡ u.after.disk = kept ∙ ap (λ r. (left_by c r).disk) u.result in
      let known : (held ≡ take (length held) contents)
          × (length old ≤ length held)
          × (length held ≤ length contents) =
        elim u.file [
          | inl same_disk ↦
              let (bs, at_d, stays) = doc'.open_create-file c.disk d arg made in
              let there =
                sym (ap (λ (x : os'.Disk). os'.file x arg) (left_disk ∙ same_disk)) ∙ has in
              let is_old = one_file bs old (sym at_d ∙ stored) in
              front_of (length old) old held contents bound (omega arith)
                (sym (stays held there) ∙ is_old ∙ prefix)
          | inr file ↦ front_of u.n old held contents u.bound u.longer (
              one_file held (take u.n contents)
                (sym has ∙ ap (λ (x : os'.Disk). os'.file x arg) left_disk ∙ file))
        ] in
      let (prefix', grown, bound') = known in
      let (bs, at_e, stays) = doc'.open_create-file v.disk e arg made' in
      (
        u.ok,
        u.result ∙ ap (λ x. returns (u.ok, x)) (sym (ap (left_by c) u.result)),
        prefix',
        grown,
        handle_gets-handle_gets a b same mem mem' os os' calls written doc doc' arg contents named
            clean short range target path held left rest v e w made'
            (at_e ∙ ap some (stays held has)) bound' prefix' set room writes' at opens there ready
            hears arrives',
      )
