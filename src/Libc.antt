-- ===== src/Libc.antt =====
-- Functions of the C library that src/common/config.c, src/client/client.c,
-- src/client/client_command_handle.c and both `init_socket`s call, on bytes before the NUL.
pub mod Laws
use wind_cloud_v.Base.{
  ℕ, zero, suc, ◌+◌, ◌-◌, ◌*◌, ◌%◌, ◌^◌, Bool, true, false, ◌&&◌, ◌||◌, Option, none, some, [], ◌∷◌,
  ◌++◌, Bytes, ◌==◌, ltb, leb, if◌then◌else◌, codes,
}

-- The bytes in front of the first one that stops, and the rest from that one on.
unfoldable pub span : (ℕ → Bool) → Bytes → Bytes × Bytes
span stop [] = ([], [])
span stop (c ∷ s) = let (w, rest) = span stop s in if stop c then ([], c ∷ s) else (c ∷ w, rest)

-- At most `n` bytes of a stream, up to a newline and with it, and the rest of the stream.
unfoldable pub read_line : ℕ → Bytes → Bytes × Bytes
read_line zero s = ([], s)
read_line (suc n) [] = ([], [])
read_line (suc n) (c ∷ s) =
    let (w, rest) = read_line n s in if c == b'\n' then (c ∷ [], s) else (c ∷ w, rest)

-- `fgets(buf, size, f)` on what is left of a stream without NUL bytes; `none` at its end.
unfoldable pub fgets : ℕ → Bytes → Option (Bytes × Bytes)
fgets size [] = none
fgets size (c ∷ s) = some (read_line (size - 1) (c ∷ s))

-- `line[strcspn(line, stops)] = '\0'`.
unfoldable pub chop : (ℕ → Bool) → Bytes → Bytes
chop stop s = (span stop s).0

unfoldable pub skip : ℕ → Bytes → Bytes
skip d [] = []
skip d (c ∷ s) = let rest = skip d s in if c == d then rest else c ∷ s

abbrev pub behind : Bytes → Bytes
behind [] = []
behind (c ∷ r) = r

abbrev pub token : ℕ → Bytes → Option (Bytes × Bytes)
token d [] = none
token d (c ∷ t) = let (w, rest) = span (λ x. x == d) (c ∷ t) in some (w, behind rest)

-- `strtok` with one delimiter, on what is left of its string: the token and what is left behind its
-- delimiter; `none` is NULL.
unfoldable pub strtok : ℕ → Bytes → Option (Bytes × Bytes)
strtok d s = token d (skip d s)

abbrev kept : ℕ → Bytes → Bytes
kept c [] = if c == b'/' then [] else c ∷ []
kept c (d ∷ t) = c ∷ d ∷ t

-- The path without the slashes at its end.
unfoldable pub strip : Bytes → Bytes
strip [] = []
strip (c ∷ s) = kept c (strip s)

-- What stands behind the last slash.
unfoldable pub last_part : Bytes → Bytes → Bytes
last_part acc [] = acc
last_part acc (c ∷ s) = last_part (if c == b'/' then [] else acc ++ c ∷ []) s

abbrev part : Bytes → Bytes
part [] = codes "/"
part (d ∷ t) = last_part [] (d ∷ t)

-- `basename` of POSIX.
unfoldable pub basename : Bytes → Bytes
basename [] = codes "."
basename (c ∷ s) = part (strip (c ∷ s))

abbrev pub is_digit : ℕ → Bool
is_digit c = leb b'0' c && leb c b'9'

abbrev pub is_space : ℕ → Bool
is_space c = c == b' ' || leb 9 c && leb c 13

-- The number that the digits in front make, behind those read before.
unfoldable pub read_digits : ℕ → Bytes → ℕ
read_digits n [] = n
read_digits n (c ∷ s) =
    let more = read_digits (n * 10 + (c - b'0')) s in if is_digit c then more else n

-- A number of type `int` with its sign, as its remainder modulo 2 ^ 32; `none` where it does not fit.
abbrev signed : Bool → ℕ → Option ℕ
signed negative n =
    if negative
    then (if ltb (2 ^ 31) n then none else some ((2 ^ 32 - n) % 2 ^ 32))
    else if leb (2 ^ 31) n
    then none
    else some n

-- `atoi`: spaces, a sign, digits. The result is an `int`, by its bits; where the number does not
-- fit, the behaviour is undefined.
unfoldable pub atoi : Bytes → Option ℕ
atoi [] = some 0
atoi (c ∷ s) =
    let rest = atoi s in
    if is_space c
    then rest
    else if c == b'-'
    then signed true (read_digits 0 s)
    else if c == b'+'
    then signed false (read_digits 0 s)
    else signed false (read_digits 0 (c ∷ s))
