-- ===== src/Server/Upload/Contents.antt =====
-- What `handle_puts` stores, against the data packets that arrive.
use wind_cloud_v.Base.{
  ℕ, zero, suc, ◌+◌, ◌-◌, ◌%◌, ◌^◌, ◌≤◌, ◌<◌, ◌≡◌, ◌≢◌, refl, sym, ap, subst, ◌∙◌, inl, inr, Bool,
  true, false, none, some, Option-cases, Bool-cases, [], ◌++◌, append-nil, append_assoc, Bytes,
  length, take, length-append, take_all, ltb, leb, ◌==◌, replicate, arith,
}
use wind_cloud_v.Wire.Stream.{Conn, pending}
use wind_cloud_v.Wire.Types.{CmdType, cmd_code, is_cmd, Status, Packet, Host}
use wind_cloud_v.Wire.Packet.{recv_packet}
use wind_cloud_v.Wire.Packet.Framing.{recv_packet-IsValid, taken_packet, recv_packet-pending}
use wind_cloud_v.Server.World.{
  resize, overwrite, Posix, Documented, Here, closing, Run, returns, ◌>>=◌,
}
use wind_cloud_v.Server.Reply.{send_text_reply, recv_follow_packet}
use wind_cloud_v.Server.Upload.{truncate_to, puts_store, puts_loop, puts_finish}
use wind_cloud_v.Server.Upload.Arriving.{
  arriving, empty_lem, overwrite-nil, length-overwrite, take-overwrite, Settled, Uploaded,
}

module _ (host : Host) (os : Posix) (doc : Documented os) (path : Bytes) (total : ℕ) where
  -- Nothing more is stored.
  stop :
      (offset : ℕ) (w : Here os) (old : Bytes) (ok : Bool)
      → os.file w.disk path ≡ some old
      → length old ≡ total
      → offset ≤ total
      → (ok ≡ true → offset ≡ total)
      → Uploaded os path total offset old [] (returns (ok, offset, w))
  stop offset w old ok there size bound all = record {
    ok = ok;
    off = offset;
    after = w;
    result = refl;
    file = record {
      contents = old;
      there = there;
      size = size;
      front = sym (append-nil (take offset old));
      reached = omega arith;
      bound = bound;
    };
    complete = all;
  }

  puts_store-conn :
      (offset : ℕ) (p : Packet) (w : Here os)
      → (puts_store host os path true offset p w).conn ≡ w.conn
  unfolding puts_store
  puts_store-conn offset p w = elim (Bool-cases (ltb 0 p.header.data_len)) [
    | inl write ↦ rw write
    | inr skip ↦ rw skip
  ]

  -- A data packet that fits is written behind what is there.
  puts_store-file :
      (offset : ℕ) (p : Packet) (w : Here os) (old : Bytes)
      → os.file w.disk path ≡ some old
      → length p.payload ≡ p.header.data_len
      → offset + length p.payload ≤ length old
      → os.file (puts_store host os path true offset p w).disk path
        ≡ some (overwrite offset p.payload old)
  unfolding puts_store
  puts_store-file offset p w old there filled fits = elim (Bool-cases (ltb 0 p.header.data_len)) [
    | inl write ↦ rw write (doc.store-file w.disk path offset p.payload old there (omega arith))
    | inr skip ↦
        let e : p.payload ≡ [] = empty_lem p.payload (ground arith) in
        rw (skip, e) (there ∙ ap some (sym (overwrite-nil offset old (omega arith))))
  ]

  -- One more packet in front of the rest of the loop.
  follow :
      (offset : ℕ) (old new came : Bytes) (r : Run (Bool × ℕ × Here os))
      → offset + length new ≤ total
      → length old ≡ total
      → Uploaded os path total (offset + length new) (overwrite offset new old) came r
      → Uploaded os path total offset old (new ++ came) r
  follow offset old new came r fits size u = record {
    ok = u.ok;
    off = u.off;
    after = u.after;
    result = u.result;
    file = record {
      contents = u.file.contents;
      there = u.file.there;
      size = u.file.size;
      front =
          u.file.front
          ∙ ap (λ (x : Bytes). x ++ came) (take-overwrite offset new old (omega arith))
          ∙ append_assoc (take offset old) new came;
      reached = omega (arith, u.file.reached, length-append new came);
      bound = u.file.bound;
    };
    complete = u.complete;
  }

  -- The kinds of a packet, read off its code.
  end_is_no_block : (n : ℕ) → is_cmd n CmdType.file_end ≡ true → is_cmd n CmdType.file_data ≡ false
  unfolding is_cmd cmd_code
  end_is_no_block n h = ground arith

  follow_none :
      (w : Here os)
      → (recv_packet host w.conn).0 ≡ none
      → recv_follow_packet host w
        ≡ (none, closing (record w { conn = (recv_packet host w.conn).1 }))
  unfolding recv_follow_packet
  follow_none w e = rw (e, recv_follow_packet) refl

  follow_some :
      (w : Here os) (p : Packet)
      → (recv_packet host w.conn).0 ≡ some p
      → recv_follow_packet host w ≡ (some p, record w { conn = (recv_packet host w.conn).1 })
  unfolding recv_follow_packet
  follow_some w p e = rw (e, recv_follow_packet) refl

  puts_loop-Uploaded :
      (fuel offset : ℕ) (w : Here os) (old : Bytes)
      → pending w.conn.incoming < fuel
      → total < 2 ^ 63
      → os.file w.disk path ≡ some old
      → length old ≡ total
      → offset ≤ total
      → Uploaded os path total offset old
          (arriving host fuel total offset w.conn)
          (puts_loop host os fuel path total true offset w)
  unfolding puts_loop arriving
  puts_loop-Uploaded zero offset w old h range there size bound = absurd (omega arith)
  puts_loop-Uploaded (suc fuel) offset w old h range there size bound =
      let c = (recv_packet host w.conn).1 in
      let w' = record w { conn = c } in
      elim (Option-cases (recv_packet host w.conn).0) [
        | inl bad ↦
            rw
              (
                bad,
                ap (λ x. x.0) (follow_none w bad),
                ap (λ x. x.1) (follow_none w bad),
                puts_loop,
                arriving,
              )
              (stop offset (closing w') old false there size bound (λ e. cc))
        | inr (p, got) ↦
            let spent : pending c.incoming + 20 ≤ pending w.conn.incoming =
              subst (λ r. pending c.incoming + taken_packet r ≤ pending w.conn.incoming) got
                (recv_packet-pending host w.conn) in
            let valid = recv_packet-IsValid host w.conn p got in
            let next : (offset + p.header.data_len) % 2 ^ 64 ≡ offset + length p.payload =
              omega (arith, valid.filled, valid.fits) in
            elim (Bool-cases (is_cmd p.header.cmd_type CmdType.file_end)) [
              | inl end ↦
                  rw
                    (
                      got,
                      ap (λ x. x.0) (follow_some w p got),
                      ap (λ x. x.1) (follow_some w p got),
                      puts_loop,
                      arriving,
                      end,
                      end_is_no_block _ end,
                    )
                    (stop offset w' old (offset == total) there size bound (λ e. ground arith))
              | inr more ↦ elim (Bool-cases (is_cmd p.header.cmd_type CmdType.file_data)) [
                | inr other ↦
                    rw
                      (
                        got,
                        ap (λ x. x.0) (follow_some w p got),
                        ap (λ x. x.1) (follow_some w p got),
                        puts_loop,
                        arriving,
                        more,
                        other,
                      )
                      (stop offset (closing w') old false there size bound (λ e. cc))
                | inl block ↦ elim (Bool-cases (leb (offset + length p.payload) total)) [
                  | inr over ↦
                      let long : ltb total (offset + length p.payload) ≡ true = ground arith in
                      rw
                        (
                          got,
                          ap (λ x. x.0) (follow_some w p got),
                          ap (λ x. x.1) (follow_some w p got),
                          puts_loop,
                          arriving,
                          more,
                          block,
                          next,
                          over,
                          long,
                        )
                        (stop offset (closing w') old false there size bound (λ e. cc))
                  | inl fits ↦
                      let short : ltb total (offset + length p.payload) ≡ false = ground arith in
                      let room : offset + length p.payload ≤ total = ground arith in
                      rw
                        (
                          got,
                          ap (λ x. x.0) (follow_some w p got),
                          ap (λ x. x.1) (follow_some w p got),
                          puts_loop,
                          arriving,
                          more,
                          block,
                          next,
                          fits,
                          short,
                        )
                        (follow offset old p.payload _ _ room size (
                          subst
                            (λ (x : Conn).
                              Uploaded os path total (offset + length p.payload)
                                (overwrite offset p.payload old)
                                (arriving host fuel total (offset + length p.payload) x)
                                (puts_loop host os fuel path total true (offset + length p.payload)
                                  (puts_store host os path true offset p w')))
                            (puts_store-conn offset p w')
                            (puts_loop-Uploaded fuel (offset + length p.payload)
                              (puts_store host os path true offset p w')
                              (overwrite offset p.payload old)
                              (omega (
                                arith,
                                spent,
                                ap (λ (x : Conn). pending x.incoming) (puts_store-conn offset p w'),
                              ))
                              range
                              (puts_store-file offset p w' old there valid.filled (omega arith))
                              (length-overwrite offset p.payload old (omega arith) ∙ size) room)))
                ]
              ]
            ]
      ]

  -- The reply at the end leaves the disk alone.
  send_text_reply-disk :
      (w : Here os) (t : CmdType) (s : Status) (msg : Bytes)
      → (send_text_reply host w t s msg).1.disk ≡ w.disk
  unfolding send_text_reply
  send_text_reply-disk w t s msg = refl

  resize_shorter : (n : ℕ) (bs : Bytes) → n ≤ length bs → resize n bs ≡ take n bs
  unfolding replicate
  resize_shorter n bs h = let e : n - length bs ≡ 0 = omega arith in rw e (append-nil (take n bs))

  module _ (sized : (d : os.Disk) (n : ℕ) → os.ftruncate d path n ≢ none)
      (range : total < 2 ^ 63) where
    puts_finish-file :
        (ok : Bool) (offset off : ℕ) (old came : Bytes) (w : Here os)
        → Settled (os.file w.disk path) total offset off old came
        → (ok ≡ true → off ≡ total)
        → os.file (puts_finish host os path (ok, off, w)).1.disk path
          ≡ some (take offset old ++ came)
    unfolding puts_finish truncate_to send_text_reply
    puts_finish-file true offset off old came w s all =
        s.there
        ∙ ap some (sym (take_all off s.contents (omega (arith, s.size, all refl))) ∙ s.front)
    puts_finish-file false offset off old came w s all =
        let small : leb (2 ^ 63) off ≡ false = ground (arith, s.bound) in
        elim (Option-cases (os.ftruncate w.disk path off)) [
          | inl bad ↦ absurd (sized w.disk off bad)
          | inr (d, cut) ↦
              rw (small, cut, puts_finish)
                (doc.ftruncate-file w.disk d path off s.contents s.there cut
                  ∙ ap some
                      (resize_shorter off s.contents (omega (arith, s.size, s.bound)) ∙ s.front))
        ]

    -- Once an upload's file has its full length and is mapped, with `offset` old bytes to keep: the
    -- receive loop and what follows it return, and whether the upload was completed or broken off,
    -- the file holds the old bytes and behind them exactly the payloads of the data packets that
    -- came, one behind the other, up to the first packet that is no data or does not fit. This
    -- supposes that `ftruncate` does what its manual says, and does not fail, and that the length
    -- is an `off_t`.
    pub puts_loop-puts_finish :
        (fuel offset : ℕ) (w : Here os) (old : Bytes)
        → pending w.conn.incoming < fuel
        → os.file w.disk path ≡ some old
        → length old ≡ total
        → offset ≤ total
        → (ok : Bool) × (after : Here os) × ((puts_loop host os fuel path total true offset w
              >>= (λ r. returns (puts_finish host os path r)))
            ≡ returns (ok, after))
          × (os.file after.disk path
              ≡ some (take offset old ++ arriving host fuel total offset w.conn))
    puts_loop-puts_finish fuel offset w old h there size bound =
        let u = puts_loop-Uploaded fuel offset w old h range there size bound in
        let end = puts_finish host os path (u.ok, u.off, u.after) in
        (
          end.0,
          end.1,
          ap (λ r. r >>= (λ x. returns (puts_finish host os path x))) u.result,
          puts_finish-file u.ok offset u.off old _ u.after u.file u.complete,
        )
