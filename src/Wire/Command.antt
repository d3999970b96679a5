-- ===== src/Wire/Command.antt =====
-- Command lines: `parse_command_type`, `command_type_to_string`, `fill_request`,
-- `parse_command_request` and `build_command_request` of src/common/protocol.c.
pub mod Parsing
pub mod Accepted
use wind_cloud_v.Base.{
  ℕ, zero, suc, ◌-◌, Bool, true, false, ◌&&◌, ◌||◌, Option, none, some, [], ◌∷◌, Bytes, take, leb,
  ◌==◌, if◌then◌else◌, codes, equal,
}
use wind_cloud_v.Wire.Types.{CmdType, path_max}

-- `command_request_t`.
pub record Request : Type 0 where
  pub type : CmdType
  pub arg : Bytes

-- `snprintf(buf, size, "%s", s)`: what `buf` holds then, as a string. The program never passes
-- size 0.
abbrev pub snprintf : ℕ → Bytes → Bytes
snprintf size s = take (size - 1) s

unfoldable pub fill_request : CmdType → Bytes → Request
fill_request type arg = record { type = type; arg = snprintf path_max arg }

unfoldable pub parse_command_type : Bytes → CmdType
parse_command_type cmd =
    if equal cmd []
    then CmdType.invalid
    else if equal cmd (codes "pwd")
    then CmdType.pwd
    else if equal cmd (codes "cd")
    then CmdType.cd
    else if equal cmd (codes "ls")
    then CmdType.ls
    else if equal cmd (codes "rm") || equal cmd (codes "remove")
    then CmdType.rm
    else if equal cmd (codes "mkdir")
    then CmdType.mkdir
    else if equal cmd (codes "puts")
    then CmdType.puts_req
    else if equal cmd (codes "gets")
    then CmdType.gets_req
    else CmdType.invalid

unfoldable pub command_type_to_string : CmdType → Bytes
command_type_to_string CmdType.pwd = codes "pwd"
command_type_to_string CmdType.cd = codes "cd"
command_type_to_string CmdType.ls = codes "ls"
command_type_to_string CmdType.rm = codes "rm"
command_type_to_string CmdType.mkdir = codes "mkdir"
command_type_to_string CmdType.puts_req = codes "puts"
command_type_to_string CmdType.gets_req = codes "gets"
command_type_to_string CmdType.puts_resp = codes "puts_resp"
command_type_to_string CmdType.gets_resp = codes "gets_resp"
command_type_to_string CmdType.resume_pos = codes "resume_pos"
command_type_to_string CmdType.file_data = codes "file_data"
command_type_to_string CmdType.file_end = codes "file_end"
command_type_to_string CmdType.ack = codes "ack"
command_type_to_string CmdType.error = codes "error"
command_type_to_string CmdType.invalid = codes "invalid"

-- `isspace` in the C locale.
unfoldable pub is_space : ℕ → Bool
is_space c = c == 32 || (leb 9 c && leb c 13)

unfoldable pub skip_space : Bytes → Bytes
skip_space [] = []
skip_space (c ∷ s) = let rest = skip_space s in if is_space c then rest else c ∷ s

-- What a conversion of width `n` reads while `stop` does not hold, and what it leaves.
unfoldable pub scan : (ℕ → Bool) → ℕ → Bytes → Bytes × Bytes
scan stop zero s = ([], s)
scan stop (suc n) [] = ([], [])
scan stop (suc n) (c ∷ s) =
    let (w, rest) = scan stop n s in if stop c then ([], c ∷ s) else (c ∷ w, rest)

-- `sscanf(input, "%63s %4095[^\n]", cmd, arg)`: `none` where no conversion succeeds; an argument
-- that is not there leaves `arg` empty.
unfoldable pub scan_line : Bytes → Option (Bytes × Bytes)
scan_line input =
    let (cmd, rest) = scan is_space 63 (skip_space input) in
    let (arg, left) = scan (λ c. c == b'\n') 4095 (skip_space rest) in
    elim cmd [ [] ↦ none | c ∷ cs ↦ some (c ∷ cs, arg) ]

-- `none` is the return value -1.
unfoldable pub request_of : CmdType → Bytes → Option Request
request_of CmdType.invalid arg = none
request_of type arg = some (fill_request type arg)

unfoldable pub parse_command_request : Bytes → Option Request
parse_command_request input = elim (scan_line input) [
  | none ↦ none
  | some (cmd, arg) ↦ request_of (parse_command_type cmd) arg
]

unfoldable pub build_command_request : Bytes → Option Request
build_command_request input = parse_command_request input
