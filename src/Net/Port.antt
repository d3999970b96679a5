-- ===== src/Net/Port.antt =====
-- The port of src/server/server_socket.c and src/client/client_socket.c: `htons(atoi(port))`.
use wind_cloud_v.Base.{
  ℕ, zero, suc, ◌+◌, ◌-◌, ◌*◌, ◌/◌, ◌%◌, ◌^◌, ◌<◌, ◌≡◌, refl, sym, ap, ◌∙◌, inl, inr, true, false,
  some, [], ◌∷◌, Bytes, Bool-cases, ltb, leb, ◌==◌, if◌then◌else◌, arith,
}
use wind_cloud_v.Libc.{is_digit, is_space, read_digits, atoi}
use wind_cloud_v.Wire.Endian.{Endian, little, big, htons, store16}
use wind_cloud_v.Net.{Sockaddr, af_inet, went, sockaddr}

-- The decimal digits of a number, in front of what is there.
digits : ℕ → ℕ → Bytes → Bytes
digits zero n out = out
digits (suc fuel) n out =
    let more = digits fuel (n / 10) ((b'0' + n % 10) ∷ out) in
    if ltb n 10 then (b'0' + n) ∷ out else more

-- A number in decimal, without a leading zero.
pub decimal : ℕ → Bytes
decimal n = digits (suc n) n []

-- The two bytes of a 16-bit number, the most significant one first.
abbrev pub be16 : ℕ → Bytes
be16 x = x / 2 ^ 8 % 256 ∷ x % 256 ∷ []

pub store16-htons : (e : Endian) (x : ℕ) → store16 e (htons e x) ≡ be16 (x % 2 ^ 16)
unfolding store16 htons
store16-htons little x = ground arith
store16-htons big x = refl

read_digit :
    (n d : ℕ) (out : Bytes)
    → d < 10
    → read_digits n ((b'0' + d) ∷ out) ≡ read_digits (n * 10 + d) out
unfolding read_digits
read_digit n d out h =
    let digit : is_digit (b'0' + d) ≡ true = ground arith in
    let value : b'0' + d - b'0' ≡ d = omega arith in rw (digit, value, read_digits) refl

read_digits-digits :
    (fuel n : ℕ) (out : Bytes) → n < fuel → read_digits 0 (digits fuel n out) ≡ read_digits n out
unfolding digits
read_digits-digits zero n out h = absurd (omega arith)
read_digits-digits (suc fuel) n out h = elim (Bool-cases (ltb n 10)) [
  | inl small ↦
      rw (small, digits)
        (read_digit 0 n out (ground arith) ∙ ap (λ x. read_digits x out) (omega arith))
  | inr large ↦
      rw (large, digits)
        (read_digits-digits fuel (n / 10) ((b'0' + n % 10) ∷ out) (ground arith)
          ∙ read_digit (n / 10) (n % 10) out (omega arith)
          ∙ ap (λ x. read_digits x out) (omega arith))
]

-- A digit stands in front.
record Leading (bs : Bytes) : Type 0 where
  d : ℕ
  rest : Bytes
  shape : bs ≡ (b'0' + d) ∷ rest
  bound : d < 10

digits-Leading : (fuel n : ℕ) (out : Bytes) → n < fuel → Leading (digits fuel n out)
unfolding digits
digits-Leading zero n out h = absurd (omega arith)
digits-Leading (suc fuel) n out h = elim (Bool-cases (ltb n 10)) [
  | inl small ↦
      rw (small, digits) (record { d = n; rest = out; shape = refl; bound = ground arith })
  | inr large ↦
      rw (large, digits) (digits-Leading fuel (n / 10) ((b'0' + n % 10) ∷ out) (ground arith))
]

-- A string that begins with a digit has no space and no sign in front of its number.
atoi_digit :
    (d : ℕ) (rest : Bytes) (n : ℕ)
    → d < 10
    → read_digits 0 ((b'0' + d) ∷ rest) ≡ n
    → n < 2 ^ 31
    → atoi ((b'0' + d) ∷ rest) ≡ some n
unfolding atoi
atoi_digit d rest n h e fits =
    let space : is_space (b'0' + d) ≡ false = ground arith in
    let minus : (b'0' + d == b'-') ≡ false = ground arith in
    let plus : (b'0' + d == b'+') ≡ false = ground arith in
    let small : leb (2 ^ 31) n ≡ false = ground arith in
    rw (space, minus, plus, e, small, atoi) refl

pub atoi-decimal : (n : ℕ) → n < 2 ^ 31 → atoi (decimal n) ≡ some n
unfolding decimal read_digits
atoi-decimal n fits =
    let u = digits-Leading (suc n) n [] (omega arith) in
    let value : read_digits 0 (digits (suc n) n []) ≡ n =
      read_digits-digits (suc n) n [] (omega arith) in
    ap atoi u.shape
    ∙ atoi_digit u.d u.rest n u.bound (ap (read_digits 0) (sym u.shape) ∙ value) fits

-- The address with a given port, in network byte order.
abbrev pub address : (Bytes → Bytes) → Bytes → ℕ → Sockaddr
address inet_addr ip n = record {
  sin_family = af_inet;
  sin_port = be16 (n % 2 ^ 16);
  sin_addr = inet_addr ip;
}

pub sockaddr-address :
    (e : Endian) (inet_addr : Bytes → Bytes) (ip port : Bytes) (n : ℕ)
    → atoi port ≡ some n
    → sockaddr e inet_addr ip port ≡ went (address inet_addr ip n)
unfolding sockaddr
sockaddr-address e inet_addr ip port n read =
    rw (read, sockaddr)
      (ap
        (λ (x : Bytes).
          went (record { sin_family = af_inet; sin_port = x; sin_addr = inet_addr ip }))
        (store16-htons e n))

-- Where the port of the configuration is a number below 2 ^ 31 in decimal: the port in the address
-- that both `init_socket`s build is that number modulo 2 ^ 16, with its most significant byte first
-- whatever the byte order of the host. So a number of more than 65535 is no error, but another
-- port.
pub sockaddr-decimal :
    (e : Endian) (inet_addr : Bytes → Bytes) (ip : Bytes) (n : ℕ)
    → n < 2 ^ 31
    → sockaddr e inet_addr ip (decimal n)
      ≡ went
          (record { sin_family = af_inet; sin_port = be16 (n % 2 ^ 16); sin_addr = inet_addr ip })
sockaddr-decimal e inet_addr ip n fits =
    sockaddr-address e inet_addr ip (decimal n) n (atoi-decimal n fits)
