-- ===== src/Log.antt =====
-- src/common/log.c: the level, the stream the log goes to, and what has been written. `fopen` may
-- fail; of the mutex there is whether it is still usable. The clock and the padding of the format are
-- not modelled: a line is kept as the values that are printed.
pub mod Levels
pub mod Handles
pub mod Tests
use wind_cloud_v.Base.{
  ℕ, ◌+◌, ◌-◌, Bool, true, false, ◌&&◌, Option, none, some, List, [], ◌∷◌, ◌++◌, Bytes, take, ltb,
  leb, ◌==◌, if◌then◌else◌, codes, equal,
}

-- `LOG_LEVEL_DEBUG` and the other three.
abbrev pub debug : ℕ
debug = 0

abbrev pub info : ℕ
info = 1

abbrev pub warn : ℕ
warn = 2

abbrev pub error : ℕ
error = 3

-- `tolower` in the C locale, and `strcasecmp(a, b) == 0`.
abbrev pub lower : ℕ → ℕ
lower c = if leb b'A' c && leb c b'Z' then c + 32 else c

unfoldable pub lowered : Bytes → Bytes
lowered [] = []
lowered (c ∷ s) = lower c ∷ lowered s

abbrev pub same_name : Bytes → Bytes → Bool
same_name a b = equal (lowered a) (lowered b)

unfoldable pub level_to_int : Bytes → ℕ
level_to_int level_str =
    if same_name level_str (codes "DEBUG")
    then debug
    else if same_name level_str (codes "INFO")
    then info
    else if same_name level_str (codes "WARN")
    then warn
    else if same_name level_str (codes "ERROR")
    then error
    else info

unfoldable pub level_to_name : ℕ → Bytes
level_to_name level =
    if level == debug
    then codes "DEBUG"
    else if level == info
    then codes "INFO"
    else if level == warn
    then codes "WARN"
    else if level == error
    then codes "ERROR"
    else codes "UNKNOWN"

-- `g_log_fp`: NULL, `stdout`, or the stream of an open file.
pub data Target : Type 0 where
  unset : Target
  console : Target
  file : Bytes → Target

-- A line of the log.
pub record Entry : Type 0 where
  pub target : Target
  pub level_name : Bytes
  pub source_file : Bytes
  pub line : ℕ
  pub func : Bytes
  pub message : Bytes

-- `g_log_level`, `g_log_fp` and whether `g_log_mutex` can be locked, with the streams of `fopen` that
-- are open, by their paths, and the lines written.
pub record Log : Type 0 where
  pub level : ℕ
  pub target : Target
  pub mutex : Bool
  pub handles : List Bytes
  pub entries : List Entry

-- At the start of the program.
abbrev pub start : Log
start = record { level = info; target = unset; mutex = true; handles = []; entries = [] }

-- `fclose` of one stream of a path.
unfoldable pub fclose : Bytes → List Bytes → List Bytes
fclose path [] = []
fclose path (p ∷ ps) = let rest = fclose path ps in if equal path p then ps else p ∷ rest

-- The stream behind `g_log_fp` closed, where it is that of a file.
unfoldable pub close_file : Target → List Bytes → List Bytes
close_file (file path) handles = fclose path handles
close_file _ handles = handles

abbrev pub set_level : Option Bytes → ℕ → ℕ
set_level none level = level
set_level (some level_str) level = level_to_int level_str

-- `init_log`, where `opens` is whether `fopen` gives a stream; `true` is the return value 0.
unfoldable pub init_log : (Bytes → Bool) → Option Bytes → Option Bytes → Log → Bool × Log
init_log opens level_str none s =
    (true, record s { level = set_level level_str s.level; target = console })
init_log opens level_str (some path) s =
    let handles = close_file s.target s.handles in
    let leveled = record s { level = set_level level_str s.level } in
    if opens path
    then (true, record leveled { target = file path; handles = path ∷ handles })
    else (false, record leveled { target = console; handles = handles })

-- The mutex is destroyed at the end.
unfoldable pub close_log : Log → Log
close_log s = record s { target = console; mutex = false; handles = close_file s.target s.handles }

abbrev pub or_console : Target → Target
or_console unset = console
or_console console = console
or_console (file path) = file path

-- `log_write`, with the text that `vsnprintf` makes of the format and its arguments.
unfoldable pub log_write : ℕ → Bytes → ℕ → Bytes → Bytes → Log → Log
log_write level source_file line func text s = if ltb level s.level then s else record s {
  entries =
      s.entries
      ++ record {
        target = or_console s.target;
        level_name = level_to_name level;
        source_file = source_file;
        line = line;
        func = func;
        message = take 1023 text;
      }
        ∷ [];
}
