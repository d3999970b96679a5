-- ===== src/Wire/Command/Parsing.antt =====
-- What the command parser accepts.
use wind_cloud_v.Base.{
  ℕ, zero, suc, ◌≤◌, ◌≡◌, ◌≢◌, refl, sym, ap, ◌∙◌, Bool, true, false, not, some, [], ◌∷◌, ◌++◌,
  append-nil, Bytes, length, take_all, ◌==◌, equal, arith,
}
use wind_cloud_v.Wire.Types.{CmdType}
use wind_cloud_v.Wire.Command.{
  fill_request, parse_command_type, command_type_to_string, is_space, skip_space, scan, scan_line,
  request_of, parse_command_request, build_command_request,
}

-- The seven commands a user can type.
abbrev pub IsTyped : CmdType → Type 0
IsTyped CmdType.pwd = Unit
IsTyped CmdType.cd = Unit
IsTyped CmdType.ls = Unit
IsTyped CmdType.rm = Unit
IsTyped CmdType.mkdir = Unit
IsTyped CmdType.puts_req = Unit
IsTyped CmdType.gets_req = Unit
IsTyped _ = ⊥

pub parse_command_type-to_string :
    (t : CmdType) → IsTyped t → parse_command_type (command_type_to_string t) ≡ t
unfolding parse_command_type command_type_to_string equal
parse_command_type-to_string CmdType.pwd h = refl
parse_command_type-to_string CmdType.cd h = refl
parse_command_type-to_string CmdType.ls h = refl
parse_command_type-to_string CmdType.rm h = refl
parse_command_type-to_string CmdType.mkdir h = refl
parse_command_type-to_string CmdType.puts_req h = refl
parse_command_type-to_string CmdType.gets_req h = refl
parse_command_type-to_string _ h = absurd h

-- No byte of the list stops a conversion.
abbrev pub Free : (ℕ → Bool) → Bytes → Type 0
Free stop [] = Unit
Free stop (c ∷ s) = (stop c ≡ false) × Free stop s

-- Nothing is left, or what is left begins with a byte that stops.
abbrev pub Stops : (ℕ → Bool) → Bytes → Type 0
Stops stop [] = Unit
Stops stop (c ∷ s) = stop c ≡ true

scan_lem :
    (stop : ℕ → Bool) (n : ℕ) (w rest : Bytes)
    → Free stop w
    → length w ≤ n
    → Stops stop rest
    → scan stop n (w ++ rest) ≡ (w, rest)
unfolding scan
scan_lem stop zero [] rest f h s = refl
scan_lem stop zero (c ∷ w) rest f h s = absurd (omega arith)
scan_lem stop (suc n) [] [] f h s = refl
scan_lem stop (suc n) [] (c ∷ rest) f h s = rw s
scan_lem stop (suc n) (c ∷ w) rest f h s = rw (f.0, scan_lem stop n w rest f.1 (omega arith) s)

-- A leading space is skipped, and so are those between the command and its argument.
skip_space_lem : (s : Bytes) → Stops (λ c. not (is_space c)) s → skip_space s ≡ s
unfolding skip_space
skip_space_lem [] h = refl
skip_space_lem (c ∷ s) h = ground arith

skip_space_blank : (s : Bytes) → Stops (λ c. not (is_space c)) s → skip_space (32 ∷ s) ≡ s
unfolding skip_space is_space
skip_space_blank s h = skip_space_lem s h

-- A word the parser can take as a command, and an argument that reaches the request whole.
pub record IsWord (w : Bytes) : Type 0 where
  pub some_byte : w ≢ []
  pub free : Free is_space w
  pub short : length w ≤ 63

pub record IsArg (a : Bytes) : Type 0 where
  pub starts : Stops (λ c. not (is_space c)) a
  pub free : Free (λ c. c == b'\n') a
  pub short : length a ≤ 4095

scan_line_cons :
    (c : ℕ) (w a : Bytes)
    → Free is_space (c ∷ w)
    → length (c ∷ w) ≤ 63
    → IsArg a
    → scan_line ((c ∷ w) ++ 32 ∷ a) ≡ some (c ∷ w, a)
unfolding scan_line
scan_line_cons c w a free short arg =
    let head : scan is_space 63 (skip_space ((c ∷ w) ++ 32 ∷ a)) ≡ (c ∷ w, 32 ∷ a) =
      ap (scan is_space 63) (skip_space_lem ((c ∷ w) ++ 32 ∷ a) (rw free.0))
      ∙ scan_lem is_space 63 (c ∷ w) (32 ∷ a) free short (unfold is_space in refl) in
    let tail : scan (λ x. x == b'\n') 4095 (skip_space (32 ∷ a)) ≡ (a, []) =
      ap (scan (λ x. x == b'\n') 4095) (skip_space_blank a arg.starts ∙ sym (append-nil a))
      ∙ scan_lem (λ x. x == b'\n') 4095 a [] arg.free arg.short tt in
    rw (head, scan_line, head, tail)

scan_line_lem : (w a : Bytes) → IsWord w → IsArg a → scan_line (w ++ 32 ∷ a) ≡ some (w, a)
scan_line_lem [] a word arg = absurd (word.some_byte refl)
scan_line_lem (c ∷ w) a word arg = scan_line_cons c w a word.free word.short arg

request_of_lem :
    (t : CmdType) (a : Bytes)
    → IsTyped t
    → length a ≤ 4095
    → request_of t a ≡ some (record { type = t; arg = a })
unfolding request_of fill_request
request_of_lem CmdType.invalid a h short = absurd h
request_of_lem CmdType.pwd a h short = rw (take_all 4095 a short)
request_of_lem CmdType.cd a h short = rw (take_all 4095 a short)
request_of_lem CmdType.ls a h short = rw (take_all 4095 a short)
request_of_lem CmdType.rm a h short = rw (take_all 4095 a short)
request_of_lem CmdType.mkdir a h short = rw (take_all 4095 a short)
request_of_lem CmdType.puts_req a h short = rw (take_all 4095 a short)
request_of_lem CmdType.gets_req a h short = rw (take_all 4095 a short)
request_of_lem _ a h short = absurd h

-- A typed command of at most 63 bytes, a space, and an argument of at most 4095 bytes that has no
-- newline and starts with no space: the request has that command and the whole argument.
pub build_command_request_lem :
    (w a : Bytes) (t : CmdType)
    → IsWord w
    → IsArg a
    → IsTyped t
    → parse_command_type w ≡ t
    → build_command_request (w ++ 32 ∷ a) ≡ some (record { type = t; arg = a })
unfolding build_command_request parse_command_request
build_command_request_lem w a t word arg typed e =
    rw (scan_line_lem w a word arg, parse_command_request, e) (request_of_lem t a typed arg.short)
