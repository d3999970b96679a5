-- ===== src/Wire/Endian.antt =====
-- Byte order: `htonl` and `ntohl` on a host of either kind, integers as they lie in memory, and
-- `host_to_net_u64`/`net_to_host_u64` of src/common/protocol.c.
pub mod Laws
use wind_cloud_v.Base.{ℕ, ◌+◌, ◌*◌, ◌/◌, ◌%◌, ◌^◌, List, [], ◌∷◌, ◌++◌, Bytes, take, drop}

pub data Endian : Type 0 where
  little big : Endian

abbrev swap32 : ℕ → ℕ
swap32 x = x % 256 * 2 ^ 24 + x / 2 ^ 8 % 256 * 2 ^ 16 + x / 2 ^ 16 % 256 * 2 ^ 8 + x / 2 ^ 24 % 256

unfoldable pub htonl : Endian → ℕ → ℕ
htonl little x = swap32 x
htonl big x = x

unfoldable pub ntohl : Endian → ℕ → ℕ
ntohl little x = swap32 x
ntohl big x = x

-- `htons`, of the low 16 bits of its argument.
unfoldable pub htons : Endian → ℕ → ℕ
htons little x = x % 256 * 2 ^ 8 + x / 2 ^ 8 % 256
htons big x = x % 2 ^ 16

-- The two bytes of a `uint16_t` at rising addresses.
unfoldable pub store16 : Endian → ℕ → Bytes
store16 little x = x % 256 ∷ x / 2 ^ 8 % 256 ∷ []
store16 big x = x / 2 ^ 8 % 256 ∷ x % 256 ∷ []

-- The four bytes of a `uint32_t` at rising addresses.
unfoldable pub store32 : Endian → ℕ → Bytes
store32 little x = x % 256 ∷ x / 2 ^ 8 % 256 ∷ x / 2 ^ 16 % 256 ∷ x / 2 ^ 24 % 256 ∷ []
store32 big x = x / 2 ^ 24 % 256 ∷ x / 2 ^ 16 % 256 ∷ x / 2 ^ 8 % 256 ∷ x % 256 ∷ []

-- The `uint32_t` that lies in the first four bytes; shorter memory is never read.
unfoldable pub load32 : Endian → Bytes → ℕ
load32 little (a ∷ b ∷ c ∷ d ∷ _) = a + b * 2 ^ 8 + c * 2 ^ 16 + d * 2 ^ 24
load32 big (a ∷ b ∷ c ∷ d ∷ _) = a * 2 ^ 24 + b * 2 ^ 16 + c * 2 ^ 8 + d
load32 e _ = 0

-- A `uint64_t` in memory.
unfoldable pub store64 : Endian → ℕ → Bytes
store64 little v = store32 little (v % 2 ^ 32) ++ store32 little (v / 2 ^ 32)
store64 big v = store32 big (v / 2 ^ 32) ++ store32 big (v % 2 ^ 32)

unfoldable pub load64 : Endian → Bytes → ℕ
load64 little bs = load32 little bs + load32 little (drop 4 bs) * 2 ^ 32
load64 big bs = load32 big bs * 2 ^ 32 + load32 big (drop 4 bs)

-- The two halves lie in disjoint bits, so the source's `|` is a sum.
unfoldable pub host_to_net_u64 : Endian → ℕ → ℕ
host_to_net_u64 e value =
    let high = htonl e (value / 2 ^ 32 % 2 ^ 32) in
    let low = htonl e (value % 2 ^ 32) in low * 2 ^ 32 + high

unfoldable pub net_to_host_u64 : Endian → ℕ → ℕ
net_to_host_u64 e value =
    let high = ntohl e (value / 2 ^ 32 % 2 ^ 32) in
    let low = ntohl e (value % 2 ^ 32) in low * 2 ^ 32 + high
