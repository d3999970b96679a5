-- ===== src/Wire/Stream/Laws.antt =====
-- The byte streams that `recv_n` and `send_n` implement.
use wind_cloud_v.Base.{
  ℕ, zero, suc, ◌+◌, ◌-◌, ◌≤◌, ◌<◌, ◌≡◌, refl, sym, ap, ◌∙◌, ◌↔◌, Bool, true, Option, none, some,
  [], ◌∷◌, ◌++◌, append_assoc, append-nil, Bytes, length, take, drop, ltb, Bool-cases, inl, inr,
  take-append_le, drop-append_le, take-append_add, drop-append_add, take-append-drop, length-append,
  length-drop, ltb→lt, arith,
}
use wind_cloud_v.Wire.Stream.{
  interrupted, failed, moved, Incoming, Room, Conn, recv_loop, recv_n, write_loop, send_n, pending,
}

-- The bytes that arrive before the first error or the end, however they are cut.
abbrev pub deliverable : Incoming → Bytes
deliverable [] = []
deliverable (interrupted ∷ es) = deliverable es
deliverable (failed ∷ es) = []
deliverable (moved [] ∷ es) = []
deliverable (moved (b ∷ bs) ∷ es) = (b ∷ bs) ++ deliverable es

deliverable_cut :
    (xs : Bytes) (es : Incoming)
    → 0 < length xs
    → deliverable (moved xs ∷ es) ≡ xs ++ deliverable es
deliverable_cut [] es h = absurd (omega arith)
deliverable_cut (x ∷ xs) es h = refl

-- What a loop that still needs `n` bytes makes of the stream.
record Receives (n : ℕ) (got : Bytes) (es : Incoming) (r : Option Bytes × Incoming) : Type 0 where
  whole :
      n ≤ length (deliverable es)
      → (r.0 ≡ some (got ++ take n (deliverable es))) × (deliverable r.1 ≡ drop n (deliverable es))
  short : length (deliverable es) < n → r.0 ≡ none

-- A cut that holds more than is needed.
part-Receives :
    (n : ℕ) (got xs : Bytes) (es : Incoming)
    → n < length xs
    → Receives n got (moved xs ∷ es) (some (got ++ take n xs), moved (drop n xs) ∷ es)
part-Receives n got xs es h =
    let e = deliverable_cut xs es (omega arith) in
    record {
      whole = λ _. (
        rw (e, take-append_le n xs (deliverable es) (omega arith)),
        rw (e, drop-append_le n xs (deliverable es) (omega arith))
            (deliverable_cut (drop n xs) es (omega (arith, length-drop n xs))),
      );
      short = λ p. absurd (omega (arith, ap length e, length-append xs (deliverable es)));
    }

-- A cut that is used up, before the rest of the loop.
whole-Receives :
    (n : ℕ) (got xs : Bytes) (es : Incoming) (r : Option Bytes × Incoming)
    → 0 < length xs
    → length xs ≤ n
    → Receives (n - length xs) (got ++ xs) es r
    → Receives n got (moved xs ∷ es) r
whole-Receives n got xs es r pos h rest =
    let e = deliverable_cut xs es pos in
    let k = n - length xs in
    let whole : n ≡ length xs + k = omega arith in
    let len = length-append xs (deliverable es) in
    record {
      whole = λ p.
          let (a, b) = rest.whole (omega (arith, len, ap length e)) in
          (
            a
                ∙ ap some (append_assoc got xs _)
                ∙ rw (e, take-append_add n k xs (deliverable es) whole),
            b ∙ rw (e, drop-append_add n k xs (deliverable es) whole),
          );
      short = λ p. rest.short (omega (arith, len, ap length e));
    }

recv_loop-Receives : (n : ℕ) (got : Bytes) (es : Incoming) → Receives n got es (recv_loop n got es)
unfolding recv_loop
recv_loop-Receives zero got es = record {
  whole = λ _. (ap some (sym (append-nil got)), refl);
  short = λ p. elim p [ ];
}
recv_loop-Receives (suc n) got [] = record { whole = λ p. absurd (omega arith); short = λ _. refl }
recv_loop-Receives (suc n) got (interrupted ∷ es) =
    let ih = recv_loop-Receives (suc n) got es in record { whole = ih.whole; short = ih.short }
recv_loop-Receives (suc n) got (failed ∷ es) = record {
  whole = λ p. absurd (omega arith);
  short = λ _. refl;
}
recv_loop-Receives (suc n) got (moved [] ∷ es) = record {
  whole = λ p. absurd (omega arith);
  short = λ _. refl;
}
recv_loop-Receives (suc n) got (moved (b ∷ bs) ∷ es) =
    elim (Bool-cases (ltb (suc n) (length (b ∷ bs)))) [
      | inl less ↦ rw less (part-Receives (suc n) got (b ∷ bs) es (ltb→lt _ _ less))
      | inr more ↦ rw more (
          whole-Receives (suc n) got (b ∷ bs) es _ (omega arith) (ground arith)
            (recv_loop-Receives (suc n - length (b ∷ bs)) (got ++ (b ∷ bs)) es))
    ]

module _ (c : Conn) (n : ℕ) where
  -- `recv_n` does not depend on how the bytes are cut or on `EINTR`: if `n` bytes come before the
  -- first error or the end, it returns those, and the stream goes on behind them.
  pub recv_n-whole :
      n ≤ length (deliverable c.incoming)
      → ((recv_n c n).0 ≡ some (take n (deliverable c.incoming)))
        × (deliverable (recv_n c n).1.incoming ≡ drop n (deliverable c.incoming))
  unfolding recv_n
  recv_n-whole h = (recv_loop-Receives n [] c.incoming).whole h

  -- If fewer than `n` bytes come before the first error or the end, `recv_n` fails.
  pub recv_n-short : length (deliverable c.incoming) < n → (recv_n c n).0 ≡ none
  unfolding recv_n
  recv_n-short h = (recv_loop-Receives n [] c.incoming).short h

  -- It never writes.
  pub recv_n-sent : ((recv_n c n).1.sent ≡ c.sent) × ((recv_n c n).1.room ≡ c.room)
  unfolding recv_n
  recv_n-sent = (refl, refl)

-- The bytes a receive took, if it succeeded.
abbrev pub taken : Option Bytes → ℕ → ℕ
taken none n = 0
taken (some bs) n = n

recv_loop-pending :
    (n : ℕ) (got : Bytes) (es : Incoming)
    → pending (recv_loop n got es).1 + taken (recv_loop n got es).0 n ≤ pending es
unfolding recv_loop
recv_loop-pending zero got es = omega arith
recv_loop-pending (suc n) got [] = omega arith
recv_loop-pending (suc n) got (interrupted ∷ es) = recv_loop-pending (suc n) got es
recv_loop-pending (suc n) got (failed ∷ es) = omega arith
recv_loop-pending (suc n) got (moved [] ∷ es) = omega arith
recv_loop-pending (suc n) got (moved (b ∷ bs) ∷ es) =
    elim (Bool-cases (ltb (suc n) (length (b ∷ bs)))) [
      | inl less ↦
          rw less
            (omega (arith, length-drop (suc n) (b ∷ bs), ltb→lt (suc n) (length (b ∷ bs)) less))
      | inr more ↦ rw more (
          grow (suc n) (length (b ∷ bs)) _ _ _ (ground arith)
            (recv_loop-pending (suc n - length (b ∷ bs)) (got ++ (b ∷ bs)) es))
    ]
  where
    grow :
        (n k before : ℕ) (r : Option Bytes) (after : ℕ)
        → k ≤ n
        → after + taken r (n - k) ≤ before
        → after + taken r n ≤ k + before
    grow n k before none after h e = omega arith
    grow n k before (some bs) after h e = omega arith

pub recv_n-pending :
    (c : Conn) (n : ℕ)
    → pending (recv_n c n).1.incoming + taken (recv_n c n).0 n ≤ pending c.incoming
unfolding recv_n
recv_n-pending c n = recv_loop-pending n [] c.incoming

-- What reached the wire, against the buffer it came from.
record Writes (buf : Bytes) (r : Bool × Room × Bytes) : Type 0 where
  unsent : Bytes
  split : r.2 ++ unsent ≡ buf
  done : (r.0 ≡ true) ↔ (unsent ≡ [])

write_loop-Writes : (buf : Bytes) (room : Room) → Writes buf (write_loop buf room)
unfolding write_loop
write_loop-Writes [] room = record { unsent = []; split = refl; done = ((λ _. refl), (λ _. refl)) }
write_loop-Writes (b ∷ bs) [] = record {
  unsent = [];
  split = append-nil _;
  done = ((λ _. refl), (λ _. refl));
}
write_loop-Writes (b ∷ bs) (interrupted ∷ room) =
    let ih = write_loop-Writes (b ∷ bs) room in
    record { unsent = ih.unsent; split = ih.split; done = ih.done }
write_loop-Writes (b ∷ bs) (failed ∷ room) = record {
  unsent = b ∷ bs;
  split = refl;
  done = ((λ p. cc), (λ p. cc));
}
write_loop-Writes (b ∷ bs) (moved zero ∷ room) = record {
  unsent = b ∷ bs;
  split = refl;
  done = ((λ p. cc), (λ p. cc));
}
write_loop-Writes (b ∷ bs) (moved (suc k) ∷ room) =
    let ih = write_loop-Writes (drop (suc k) (b ∷ bs)) room in
    record {
      unsent = ih.unsent;
      split =
          append_assoc (take (suc k) (b ∷ bs)) _ _
          ∙ rw ih.split (take-append-drop (suc k) (b ∷ bs));
      done = ih.done;
    }

-- `send_n` puts a prefix of the buffer on the wire, and it reports success exactly when that is
-- the whole buffer, whatever short writes and `EINTR` the kernel answers with.
pub send_n-prefix :
    (c : Conn) (buf : Bytes)
    → (out : Bytes) × (unsent : Bytes) × ((send_n c buf).1.sent ≡ c.sent ++ out)
      × (out ++ unsent ≡ buf)
      × (((send_n c buf).0 ≡ true) ↔ (unsent ≡ []))
unfolding send_n
send_n-prefix c buf =
    let w = write_loop-Writes buf c.room in
    ((write_loop buf c.room).2, w.unsent, refl, w.split, w.done)

pub send_n-incoming : (c : Conn) (buf : Bytes) → (send_n c buf).1.incoming ≡ c.incoming
unfolding send_n
send_n-incoming c buf = refl

-- The kernel answers with no error and takes at least a byte at each `write`.
abbrev pub IsWilling : Room → Type 0
IsWilling [] = Unit
IsWilling (interrupted ∷ room) = IsWilling room
IsWilling (failed ∷ room) = ⊥
IsWilling (moved zero ∷ room) = ⊥
IsWilling (moved (suc k) ∷ room) = IsWilling room

write_loop-IsWilling :
    (buf : Bytes) (room : Room)
    → IsWilling room
    → ((write_loop buf room).0 ≡ true) × IsWilling (write_loop buf room).1
unfolding write_loop
write_loop-IsWilling [] room h = (refl, h)
write_loop-IsWilling (b ∷ bs) [] h = (refl, h)
write_loop-IsWilling (b ∷ bs) (interrupted ∷ room) h = write_loop-IsWilling (b ∷ bs) room h
write_loop-IsWilling (b ∷ bs) (failed ∷ room) h = absurd h
write_loop-IsWilling (b ∷ bs) (moved zero ∷ room) h = absurd h
write_loop-IsWilling (b ∷ bs) (moved (suc k) ∷ room) h =
    write_loop-IsWilling (drop (suc k) (b ∷ bs)) room h

-- Under such a kernel the loop writes the whole buffer, and the kernel stays willing.
pub write_loop-whole :
    (buf : Bytes) (room : Room)
    → IsWilling room
    → ((write_loop buf room).0 ≡ true)
      × ((write_loop buf room).2 ≡ buf)
      × IsWilling (write_loop buf room).1
write_loop-whole buf room h =
    let w = write_loop-Writes buf room in
    let (ok, room') = write_loop-IsWilling buf room h in
    let none_left = (w.done).0 ok in
    (
      ok,
      sym (append-nil (write_loop buf room).2)
          ∙ ap (λ (x : Bytes). (write_loop buf room).2 ++ x) (sym none_left)
          ∙ w.split,
      room',
    )

-- Under such a kernel `send_n` sends the whole buffer, and the kernel stays willing.
pub send_n-IsWilling :
    (c : Conn) (buf : Bytes)
    → IsWilling c.room
    → ((send_n c buf).0 ≡ true)
      × ((send_n c buf).1.sent ≡ c.sent ++ buf)
      × IsWilling (send_n c buf).1.room
unfolding send_n
send_n-IsWilling c buf h =
    let (ok, out, room) = write_loop-whole buf c.room h in (ok, ap (◌++◌ c.sent) out, room)

pub send_n-length :
    (c : Conn) (buf : Bytes) → length (send_n c buf).1.sent ≤ length c.sent + length buf
send_n-length c buf =
    let (out, unsent, e, f, _) = send_n-prefix c buf in
    omega (arith, ap length e, ap length f, length-append c.sent out, length-append out unsent)
