-- ===== src/Wire/Stream/Capacity.antt =====
-- What `send_n` of src/common/protocol.c sends, from how much the kernel takes.
use wind_cloud_v.Base.{
  ℕ, zero, suc, ◌+◌, ◌≡◌, refl, sym, ap, ◌∙◌, Bool, true, Option, none, some, [], ◌∷◌, ◌++◌, Bytes,
  length, take, drop, leb, length-drop, take-append-drop, arith,
}
use wind_cloud_v.Wire.Stream.{interrupted, failed, moved, Room, Conn, write_loop, send_n}

abbrev more_by : ℕ → Option ℕ → Option ℕ
more_by k none = none
more_by k (some n) = some (k + n)

-- How many bytes the kernel takes before it answers with an error or takes none; `none` where it
-- never does. `EINTR` does not count.
abbrev pub capacity : Room → Option ℕ
capacity [] = none
capacity (interrupted ∷ room) = capacity room
capacity (failed ∷ room) = some 0
capacity (moved zero ∷ room) = some 0
capacity (moved (suc k) ∷ room) = more_by (suc k) (capacity room)

abbrev pub within : Option ℕ → Bytes → Bytes
within none buf = buf
within (some n) buf = take n buf

abbrev pub fits : Option ℕ → Bytes → Bool
fits none buf = true
fits (some n) buf = leb (length buf) n

take_none : (n : ℕ) → take {A = ℕ} n [] ≡ []
take_none zero = refl
take_none (suc n) = refl

take_more : (k n : ℕ) (buf : Bytes) → take k buf ++ take n (drop k buf) ≡ take (k + n) buf
take_more zero n buf = let e : n ≡ 0 + n = omega arith in ap (λ m. take m buf) e
take_more (suc k) n buf =
    let e : suc (k + n) ≡ suc k + n = omega arith in rw (← e) (by_list buf (λ bs. take_more k n bs))
  where
    by_list :
        (xs : Bytes)
        → ((bs : Bytes) → take k bs ++ take n (drop k bs) ≡ take (k + n) bs)
        → take (suc k) xs ++ take n (drop (suc k) xs) ≡ take (suc (k + n)) xs
    by_list [] ih = take_none n
    by_list (b ∷ bs) ih = ap (◌∷◌ b) (ih bs)

within-more_by :
    (k : ℕ) (c : Option ℕ) (buf : Bytes)
    → take k buf ++ within c (drop k buf) ≡ within (more_by k c) buf
within-more_by k none buf = take-append-drop k buf
within-more_by k (some n) buf = take_more k n buf

fits-more_by : (k : ℕ) (c : Option ℕ) (buf : Bytes) → fits c (drop k buf) ≡ fits (more_by k c) buf
fits-more_by k none buf = refl
fits-more_by k (some n) buf = ground (arith, length-drop k buf)

within_none : (c : Option ℕ) → within c [] ≡ []
within_none none = refl
within_none (some n) = take_none n

fits_none : (c : Option ℕ) → fits c [] ≡ true
fits_none none = refl
fits_none (some n) = ground arith

write_loop-capacity :
    (buf : Bytes) (room : Room)
    → ((write_loop buf room).2 ≡ within (capacity room) buf)
      × ((write_loop buf room).0 ≡ fits (capacity room) buf)
unfolding write_loop
write_loop-capacity [] room = (sym (within_none (capacity room)), sym (fits_none (capacity room)))
write_loop-capacity (b ∷ bs) [] = (refl, refl)
write_loop-capacity (b ∷ bs) (interrupted ∷ room) = write_loop-capacity (b ∷ bs) room
write_loop-capacity (b ∷ bs) (failed ∷ room) = (refl, ground arith)
write_loop-capacity (b ∷ bs) (moved zero ∷ room) = (refl, ground arith)
write_loop-capacity (b ∷ bs) (moved (suc k) ∷ room) =
    let (out, ok) = write_loop-capacity (drop (suc k) (b ∷ bs)) room in
    (
      ap (◌++◌ (take (suc k) (b ∷ bs))) out ∙ within-more_by (suc k) (capacity room) (b ∷ bs),
      ok ∙ fits-more_by (suc k) (capacity room) (b ∷ bs),
    )

-- For any buffer and any answers of the kernel, cut into short writes and interrupted by `EINTR` in any
-- way: `send_n` puts on the wire, behind what was sent before, just as much of the front of the buffer
-- as the kernel takes before its first answer that is another error or takes nothing, which is the
-- whole buffer where that is enough, and it reports success exactly where that is enough.
pub send_n-capacity :
    (c : Conn) (buf : Bytes)
    → ((send_n c buf).1.sent ≡ c.sent ++ within (capacity c.room) buf)
      × ((send_n c buf).0 ≡ fits (capacity c.room) buf)
unfolding send_n
send_n-capacity c buf = let (out, ok) = write_loop-capacity buf c.room in (ap (◌++◌ c.sent) out, ok)
