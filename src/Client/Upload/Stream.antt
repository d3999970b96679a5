-- ===== src/Client/Upload/Stream.antt =====
-- What the client's `handle_puts` puts on the wire, against the file.
use wind_cloud_v.Base.{
  ℕ, zero, suc, ◌+◌, ◌%◌, ◌^◌, ◌≤◌, ◌<◌, ◌≡◌, refl, sym, ap, ◌∙◌, subst, ◌⊎◌, inl, inr, Bool, true,
  false, List, [], ◌∷◌, ◌++◌, append-nil, append_assoc, Bytes, length, take, drop, length-append,
  length-take, min, ltb, arith,
}
use wind_cloud_v.Wire.Stream.{Outcome, interrupted, failed, moved}
use wind_cloud_v.Wire.Stream.Laws.{IsWilling}
use wind_cloud_v.Wire.Types.{file_block_size, CmdType, Status, Host}
use wind_cloud_v.Wire.Packet.{send_packet}
use wind_cloud_v.Wire.Packet.Framing.{packet_bytes, send_packet-packet_bytes, send_packet-incoming}
use wind_cloud_v.Wire.Packet.Blocks.{frames, concat, AllBlocks}
use wind_cloud_v.Server.World.{Run, returns}
use wind_cloud_v.Client.World.{Client}
use wind_cloud_v.Client.Upload.{read, puts_blocks}

-- No `read` fails, and none gives 0 bytes before the end of the file.
abbrev pub IsReading : List (Outcome ℕ) → Type 0
IsReading [] = Unit
IsReading (interrupted ∷ rs) = IsReading rs
IsReading (failed ∷ rs) = ⊥
IsReading (moved zero ∷ rs) = ⊥
IsReading (moved (suc k) ∷ rs) = IsReading rs

-- A loop that sends the bytes `rest` in blocks.
pub record Sends {Disk : Type 0} (c : Client Disk) (rest : Bytes) (r : Run (Bool × Client Disk))
    : Type 0 where
  pub after : Client Disk
  pub result : r ≡ returns (true, after)
  pub blocks : List Bytes
  pub whole : concat blocks ≡ rest
  pub small : AllBlocks blocks
  pub sent : after.conn.sent ≡ c.conn.sent ++ frames blocks
  pub incoming : after.conn.incoming ≡ c.conn.incoming
  pub room : IsWilling after.conn.room
  pub printed : after.printed ≡ c.printed

take-drop_taken : (n : ℕ) (s : Bytes) → take n s ++ drop (length (take n s)) s ≡ s
take-drop_taken zero s = refl
take-drop_taken (suc n) [] = refl
take-drop_taken (suc n) (b ∷ s) = ap (◌∷◌ b) (take-drop_taken n s)

-- What a `read` gives while bytes are left: another try, or a block.
record Again (rest : Bytes) (reads : List (Outcome ℕ)) : Type 0 where
  answer : (read rest reads).0 ≡ interrupted
  fewer : suc (length (read rest reads).1) ≤ length reads
  reading : IsReading (read rest reads).1

record Block (rest : Bytes) (reads : List (Outcome ℕ)) : Type 0 where
  first : ℕ
  others : Bytes
  answer : (read rest reads).0 ≡ moved (first ∷ others)
  small : length (first ∷ others) ≤ file_block_size
  split : (first ∷ others) ++ drop (length (first ∷ others)) rest ≡ rest
  fewer : length (read rest reads).1 ≤ length reads
  reading : IsReading (read rest reads).1

read-Block :
    (n : ℕ) (x : ℕ) (xs : Bytes) (reads rs : List (Outcome ℕ))
    → n ≤ file_block_size
    → 0 < n
    → read (x ∷ xs) reads ≡ (moved (take n (x ∷ xs)), rs)
    → length rs ≤ length reads
    → IsReading rs
    → Block (x ∷ xs) reads
read-Block zero x xs reads rs small pos e fewer h = absurd (omega arith)
read-Block (suc n) x xs reads rs small pos e fewer h = record {
  first = x;
  others = take n xs;
  answer = ap (λ r. r.0) e;
  small = omega (arith, length-take n xs);
  split = take-drop_taken (suc n) (x ∷ xs);
  fewer = omega (arith, fewer, ap (λ r. length r.1) e);
  reading = subst IsReading (sym (ap (λ r. r.1) e)) h;
}

read-cases :
    (rest : Bytes) (reads : List (Outcome ℕ))
    → 0 < length rest
    → IsReading reads
    → Again rest reads ⊎ Block rest reads
unfolding read
read-cases [] reads some_byte h = absurd (omega arith)
read-cases (x ∷ xs) [] some_byte h =
    inr (read-Block file_block_size x xs [] [] (omega arith) (omega arith) refl (omega arith) tt)
read-cases (x ∷ xs) (interrupted ∷ rs) some_byte h =
    inl (record { answer = refl; fewer = omega arith; reading = h })
read-cases (x ∷ xs) (failed ∷ rs) some_byte h = absurd h
read-cases (x ∷ xs) (moved zero ∷ rs) some_byte h = absurd h
read-cases (x ∷ xs) (moved (suc k) ∷ rs) some_byte h = inr (
    read-Block (min (suc k) file_block_size) x xs (moved (suc k) ∷ rs) rs (omega arith)
      (omega arith) refl (omega arith) h)

module _ {Disk : Type 0} (host : Host) where
  -- One block more in front of the rest of the loop.
  send_block :
      (c : Client Disk) (reads : List (Outcome ℕ)) (block rest : Bytes)
      (r : Run (Bool × Client Disk))
      → 0 < length block
      → length block ≤ file_block_size
      → block ++ drop (length block) rest ≡ rest
      → IsWilling c.conn.room
      → Sends
          (record c {
            reads = reads;
            conn = (send_packet host c.conn CmdType.file_data Status.status_ok block).1;
          })
          (drop (length block) rest)
          r
      → Sends c rest r
  unfolding concat frames
  send_block c reads block rest r some_byte small split room u =
      let sent =
        (send_packet-packet_bytes host c.conn CmdType.file_data Status.status_ok block (omega arith)
          room).1 in
      record {
        after = u.after;
        result = u.result;
        blocks = block ∷ u.blocks;
        whole = ap (λ (x : Bytes). block ++ x) u.whole ∙ split;
        small = (some_byte, small, u.small);
        sent =
            u.sent
            ∙ ap (λ (x : Bytes). x ++ frames u.blocks) sent
            ∙ append_assoc c.conn.sent (packet_bytes CmdType.file_data Status.status_ok block)
                (frames u.blocks);
        incoming =
            u.incoming ∙ send_packet-incoming host c.conn CmdType.file_data Status.status_ok block;
        room = u.room;
        printed = u.printed;
      }

  again :
      (c : Client Disk) (reads : List (Outcome ℕ)) (rest : Bytes) (r : Run (Bool × Client Disk))
      → Sends (record c { reads = reads }) rest r
      → Sends c rest r
  again c reads rest r u = record {
    after = u.after;
    result = u.result;
    blocks = u.blocks;
    whole = u.whole;
    small = u.small;
    sent = u.sent;
    incoming = u.incoming;
    room = u.room;
    printed = u.printed;
  }

  -- The client's block loop, on a file of less than 2 ^ 63 bytes from an offset on, over a kernel that
  -- gives some bytes at each `read` in front of the end and takes some at each `write`: it ends, and it
  -- has sent data packets of at most 4096 bytes and none empty, whose payloads make up the rest of
  -- the file.
  pub puts_blocks-Sends :
      (fuel file_size offset : ℕ) (rest : Bytes) (c : Client Disk)
      → length c.reads + length rest < fuel
      → offset + length rest ≡ file_size
      → file_size < 2 ^ 63
      → IsReading c.reads
      → IsWilling c.conn.room
      → Sends c rest (puts_blocks host fuel file_size offset rest c)
  unfolding puts_blocks concat frames
  puts_blocks-Sends zero file_size offset rest c f size range rd room = absurd (omega arith)
  puts_blocks-Sends (suc fuel) file_size offset [] c f size range rd room =
      let over : ltb offset file_size ≡ false = ground (arith, size) in
      rw (over, puts_blocks)
        (record {
          after = c;
          result = refl;
          blocks = [];
          whole = refl;
          small = tt;
          sent = sym (append-nil c.conn.sent);
          incoming = refl;
          room = room;
          printed = refl;
        })
  puts_blocks-Sends (suc fuel) file_size offset (x ∷ xs) c f size range rd room =
      let more : ltb offset file_size ≡ true = ground (arith, size) in
      elim (read-cases (x ∷ xs) c.reads (omega arith) rd) [
        | inl a ↦
            rw (more, a.answer, puts_blocks)
              (again c (read (x ∷ xs) c.reads).1 (x ∷ xs) _ (
                puts_blocks-Sends fuel file_size offset (x ∷ xs)
                  (record c { reads = (read (x ∷ xs) c.reads).1 }) (omega (arith, f, a.fewer)) size
                  range a.reading room))
        | inr a ↦
            let b = a.first ∷ a.others in
            let (ok, out, room') =
              send_packet-packet_bytes host c.conn CmdType.file_data Status.status_ok b
                (omega (arith, a.small)) room in
            let left : length b + length (drop (length b) (x ∷ xs)) ≡ length (x ∷ xs) =
              omega (arith, ap length a.split, length-append b (drop (length b) (x ∷ xs))) in
            let next : (offset + length b) % 2 ^ 64 ≡ offset + length b =
              omega (arith, size, range, left) in
            rw (more, a.answer, ok, next, puts_blocks)
              (send_block c (read (x ∷ xs) c.reads).1 b (x ∷ xs) _ (omega arith) a.small a.split
                room
                (puts_blocks-Sends fuel file_size (offset + length b) (drop (length b) (x ∷ xs))
                  (record c {
                    reads = (read (x ∷ xs) c.reads).1;
                    conn = (send_packet host c.conn CmdType.file_data Status.status_ok b).1;
                  })
                  (omega (arith, f, a.fewer, left)) (omega (arith, size, left)) range a.reading
                  room'))
      ]
