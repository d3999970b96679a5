-- ===== src/Wire/Stream.antt =====
-- `send_n` and `recv_n` of src/common/protocol.c over a connected socket. What the kernel answers
-- to each `recv` and `write` is data: the peer's side and the kernel's buffers are not the
-- program's.
pub mod Laws
pub mod Capacity
use wind_cloud_v.Base.{
  ℕ, zero, suc, ◌+◌, ◌-◌, Bool, true, false, Option, none, some, List, [], ◌∷◌, ◌++◌, Bytes, length,
  take, drop, ltb, if◌then◌else◌,
}

-- One answer of the kernel: -1 with `EINTR`, -1 with another error, or what it moved.
pub data Outcome {ℓ} (A : Type ℓ) : Type ℓ where
  interrupted : Outcome A
  failed : Outcome A
  moved : A → Outcome A

-- The bytes still to come from the peer, cut as the kernel will hand them over. After the last
-- the peer has closed: `recv` returns 0, as it does at an empty cut.
abbrev pub Incoming : Type 0
Incoming = List (Outcome Bytes)

-- The bytes still to come, those behind an error too.
abbrev pub pending : Incoming → ℕ
pending [] = 0
pending (interrupted ∷ es) = pending es
pending (failed ∷ es) = pending es
pending (moved bs ∷ es) = length bs + pending es

-- How much the kernel will take at each `write`; after the last it takes all it is given.
abbrev pub Room : Type 0
Room = List (Outcome ℕ)

pub record Conn : Type 0 where
  pub incoming : Incoming
  pub room : Room
  pub sent : Bytes

-- `while (total < len)`: `need` is `len - total`, and `got` is the buffer up to `total`. A cut that
-- is longer than asked for stays in the kernel from there on.
unfoldable pub recv_loop : ℕ → Bytes → Incoming → Option Bytes × Incoming
recv_loop zero got es = (some got, es)
recv_loop (suc need) got [] = (none, [])
recv_loop (suc need) got (interrupted ∷ es) = recv_loop (suc need) got es
recv_loop (suc need) got (failed ∷ es) = (none, es)
recv_loop (suc need) got (moved [] ∷ es) = (none, es)
recv_loop (suc need) got (moved (b ∷ bs) ∷ es) =
    let whole = recv_loop (suc need - length (b ∷ bs)) (got ++ (b ∷ bs)) es in
    if ltb (suc need) (length (b ∷ bs))
    then (some (got ++ take (suc need) (b ∷ bs)), moved (drop (suc need) (b ∷ bs)) ∷ es)
    else whole

unfoldable pub recv_n : Conn → ℕ → Option Bytes × Conn
recv_n c len = let (r, es) = recv_loop len [] c.incoming in (r, record c { incoming = es })

-- The same loop for `write`: `rest` is the buffer from `total` on. The last component is what
-- reached the wire.
unfoldable pub write_loop : Bytes → Room → Bool × Room × Bytes
write_loop [] room = (true, room, [])
write_loop (b ∷ bs) [] = (true, [], b ∷ bs)
write_loop (b ∷ bs) (interrupted ∷ room) = write_loop (b ∷ bs) room
write_loop (b ∷ bs) (failed ∷ room) = (false, room, [])
write_loop (b ∷ bs) (moved zero ∷ room) = (false, room, [])
write_loop (b ∷ bs) (moved (suc k) ∷ room) =
    let (done, left, more) = write_loop (drop (suc k) (b ∷ bs)) room in
    (done, left, take (suc k) (b ∷ bs) ++ more)

unfoldable pub send_n : Conn → Bytes → Bool × Conn
send_n c buf =
    let (done, room, more) = write_loop buf c.room in
    (done, record c { room = room; sent = c.sent ++ more })
