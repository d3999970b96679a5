-- ===== src/Wire/Endian/Laws.antt =====
-- Network byte order on every host, and where the 64-bit conversion leaves it.
use wind_cloud_v.Base.{
  ℕ, ◌+◌, ◌*◌, ◌/◌, ◌%◌, ◌^◌, ◌<◌, ◌≡◌, refl, [], ◌∷◌, ◌++◌, Bytes, sym, ap, ◌∙◌, ◌↔◌, take, drop,
  append_assoc, arith,
}
use wind_cloud_v.Wire.Endian.{
  Endian, little, big, htonl, ntohl, store32, load32, store64, load64, host_to_net_u64,
  net_to_host_u64,
}

-- Most significant byte first.
abbrev pub be32 : ℕ → Bytes
be32 x = x / 2 ^ 24 % 256 ∷ x / 2 ^ 16 % 256 ∷ x / 2 ^ 8 % 256 ∷ x % 256 ∷ []

abbrev pub be64 : ℕ → Bytes
be64 v = be32 (v / 2 ^ 32) ++ be32 (v % 2 ^ 32)

pub store32-htonl : (e : Endian) (x : ℕ) → store32 e (htonl e x) ≡ be32 x
unfolding store32 htonl
store32-htonl little x = ground arith
store32-htonl big x = refl

pub ntohl-load32 :
    (e : Endian) (x : ℕ) (rest : Bytes) → x < 2 ^ 32 → ntohl e (load32 e (be32 x ++ rest)) ≡ x
unfolding ntohl load32
ntohl-load32 little x rest h = omega arith
ntohl-load32 big x rest h = omega arith

htonl-lt : (e : Endian) (x : ℕ) → x < 2 ^ 32 → htonl e x < 2 ^ 32
unfolding htonl
htonl-lt little x h = omega arith
htonl-lt big x h = h

ntohl-htonl : (e : Endian) (x : ℕ) → x < 2 ^ 32 → ntohl e (htonl e x) ≡ x
unfolding htonl ntohl
ntohl-htonl little x h = omega arith
ntohl-htonl big x h = refl

high_half : (l h : ℕ) → l < 2 ^ 32 → h < 2 ^ 32 → (l * 2 ^ 32 + h) / 2 ^ 32 % 2 ^ 32 ≡ l
high_half l h p q = omega arith

low_half : (l h : ℕ) → l < 2 ^ 32 → h < 2 ^ 32 → (l * 2 ^ 32 + h) % 2 ^ 32 ≡ h
low_half l h p q = omega arith

high_part : (l h : ℕ) → h < 2 ^ 32 → (l * 2 ^ 32 + h) / 2 ^ 32 ≡ l
high_part l h q = omega arith

module _ (e : Endian) (v : ℕ) (range : v < 2 ^ 64) where
  low_lt : htonl e (v % 2 ^ 32) < 2 ^ 32
  low_lt = htonl-lt e _ (omega arith)

  high_lt : htonl e (v / 2 ^ 32 % 2 ^ 32) < 2 ^ 32
  high_lt = htonl-lt e _ (omega arith)

  -- On a host of either byte order `net_to_host_u64` undoes `host_to_net_u64` on every
  -- `uint64_t`.
  pub net_to_host_u64-host_to_net_u64 : net_to_host_u64 e (host_to_net_u64 e v) ≡ v
  unfolding host_to_net_u64 net_to_host_u64
  net_to_host_u64-host_to_net_u64 =
      rw
        (
          high_half _ _ low_lt high_lt,
          low_half _ _ low_lt high_lt,
          ntohl-htonl e (v % 2 ^ 32) (omega arith),
          ntohl-htonl e (v / 2 ^ 32 % 2 ^ 32) (omega arith),
        )
        (omega arith)

high_mod : (v : ℕ) → v < 2 ^ 64 → v / 2 ^ 32 % 2 ^ 32 ≡ v / 2 ^ 32
high_mod v h = omega arith

-- On a little-endian host the bytes of the converted number are its network byte order.
pub store64-host_to_net_u64_little :
    (v : ℕ) → v < 2 ^ 64 → store64 little (host_to_net_u64 little v) ≡ be64 v
unfolding host_to_net_u64 store64
store64-host_to_net_u64_little v h = rw (
  high_part _ _ (high_lt little v h),
  low_half _ _ (low_lt little v h) (high_lt little v h),
  store32-htonl little (v % 2 ^ 32),
  store32-htonl little (v / 2 ^ 32 % 2 ^ 32),
  high_mod v h,
)

-- On a big-endian host they are the two halves in the wrong order.
pub store64-host_to_net_u64_big :
    (v : ℕ)
    → v < 2 ^ 64
    → store64 big (host_to_net_u64 big v) ≡ be32 (v % 2 ^ 32) ++ be32 (v / 2 ^ 32)
unfolding host_to_net_u64 store64
store64-host_to_net_u64_big v h = rw (
  high_part _ _ (high_lt big v h),
  low_half _ _ (low_lt big v h) (high_lt big v h),
  store32-htonl big (v % 2 ^ 32),
  store32-htonl big (v / 2 ^ 32 % 2 ^ 32),
  high_mod v h,
)

be32-injective : (x y : ℕ) → x < 2 ^ 32 → y < 2 ^ 32 → be32 x ≡ be32 y → x ≡ y
be32-injective x y hx hy e =
    sym (ntohl-load32 big x [] hx)
    ∙ ap (λ bs. ntohl big (load32 big bs)) (ap (λ bs. bs ++ []) e)
    ∙ ntohl-load32 big y [] hy

-- A `uint64_t` crosses a big-endian host in network byte order exactly when its halves are equal.
pub store64-host_to_net_u64_big_iff :
    (v : ℕ)
    → v < 2 ^ 64
    → (store64 big (host_to_net_u64 big v) ≡ be64 v) ↔ (v / 2 ^ 32 ≡ v % 2 ^ 32)
store64-host_to_net_u64_big_iff v h = (
  (λ p.
      be32-injective _ _ (omega arith) (omega arith)
        (sym (ap (take 4) (sym (store64-host_to_net_u64_big v h) ∙ p)))),
  (λ q. store64-host_to_net_u64_big v h ∙ rw q),
)

load32-store32 :
    (e : Endian) (x : ℕ) (rest : Bytes) → x < 2 ^ 32 → load32 e (store32 e x ++ rest) ≡ x
unfolding load32 store32
load32-store32 little x rest h = omega arith
load32-store32 big x rest h = omega arith

drop-store32 : (e : Endian) (x : ℕ) (rest : Bytes) → drop 4 (store32 e x ++ rest) ≡ rest
unfolding store32
drop-store32 little x rest = refl
drop-store32 big x rest = refl

-- Two words in a row, loaded one after the other.
load_pair :
    (e : Endian) (x y : ℕ) (rest : Bytes)
    → x < 2 ^ 32
    → y < 2 ^ 32
    → (load32 e ((store32 e x ++ store32 e y) ++ rest) ≡ x)
      × (load32 e (drop 4 ((store32 e x ++ store32 e y) ++ rest)) ≡ y)
load_pair e x y rest hx hy = (
  rw (append_assoc (store32 e x) (store32 e y) rest) (load32-store32 e x _ hx),
  rw (append_assoc (store32 e x) (store32 e y) rest, drop-store32 e x) (load32-store32 e y rest hy),
)

load64-store64 :
    (e : Endian) (v : ℕ) (rest : Bytes) → v < 2 ^ 64 → load64 e (store64 e v ++ rest) ≡ v
unfolding load64 store64
load64-store64 little v rest h =
    let (a, b) = load_pair little (v % 2 ^ 32) (v / 2 ^ 32) rest (omega arith) (omega arith) in
    rw (a, b) (omega arith)
load64-store64 big v rest h =
    let (a, b) = load_pair big (v / 2 ^ 32) (v % 2 ^ 32) rest (omega arith) (omega arith) in
    rw (a, b) (omega arith)

host_to_net_u64-lt : (e : Endian) (v : ℕ) → v < 2 ^ 64 → host_to_net_u64 e v < 2 ^ 64
unfolding host_to_net_u64
host_to_net_u64-lt e v h = omega (arith, low_lt e v h, high_lt e v h)

-- Between two hosts of one byte order: a `uint64_t` that is converted, stored, loaded and
-- converted back is unchanged.
pub net_to_host_u64-load64 :
    (e : Endian) (v : ℕ) (rest : Bytes)
    → v < 2 ^ 64
    → net_to_host_u64 e (load64 e (store64 e (host_to_net_u64 e v) ++ rest)) ≡ v
net_to_host_u64-load64 e v rest h =
    rw (load64-store64 e _ rest (host_to_net_u64-lt e v h)) (net_to_host_u64-host_to_net_u64 e v h)
