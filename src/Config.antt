-- ===== src/Config.antt =====
-- `get_target` of src/common/config.c, and `load_value_or_default` with the settings that `main` of
-- src/server/server.c and of src/client/client.c read. The file is what it holds, `none` where it
-- cannot be opened; its bytes are no NUL.
pub mod Line
pub mod Lookup
pub mod Bounds
pub mod Tests
use wind_cloud_v.Base.{
  ℕ, zero, suc, ◌-◌, Bool, ◌||◌, Option, none, some, [], ◌∷◌, Bytes, length, take, ◌==◌,
  if◌then◌else◌, codes, equal,
}
use wind_cloud_v.Libc.{fgets, chop, strtok}
use wind_cloud_v.Wire.Command.{snprintf}
use wind_cloud_v.Server.World.{Run, returns, out_of_fuel, ◌>>=◌}

abbrev pub is_line_end : ℕ → Bool
is_line_end c = c == b'\r' || c == b'\n'

-- The value on a line without its end, where the line has the key.
unfoldable pub line_value : Bytes → Bytes → Option Bytes
line_value key [] = none
line_value key (c ∷ line) = if c == b'#' || c == b';' then none else elim (strtok b'=' (c ∷ line)) [
  | none ↦ none
  | some (line_key, behind_key) ↦
      if equal key line_key
      then elim (strtok b'=' behind_key) [ none ↦ none | some (value, left) ↦ some value ]
      else none
]

-- The loop over the lines of the file.
unfoldable pub target_loop : ℕ → Bytes → Bytes → Run (Option Bytes)
target_loop zero key file = out_of_fuel
target_loop (suc fuel) key file = elim (fgets 100 file) [
  | none ↦ returns none
  | some (line, rest) ↦ elim (line_value key (chop is_line_end line)) [
    | none ↦ target_loop fuel key rest
    | some value ↦ returns (some value)
  ]
]

unfoldable pub get_target : Bytes → Option Bytes → Run (Option Bytes)
get_target key none = returns none
get_target key (some file) = target_loop (suc (length file)) key file

-- What the buffer of `value_sz` bytes holds then.
unfoldable pub load_value_or_default : Option Bytes → Bytes → ℕ → Bytes → Run Bytes
load_value_or_default file key value_sz default_value = get_target key file >>= (λ r. elim r [
  | some tmp ↦ returns (snprintf value_sz tmp)
  | none ↦ returns (snprintf value_sz default_value)
])

pub record Settings : Type 0 where
  pub ip : Bytes
  pub port : Bytes
  pub log_level : Bytes
  pub log_file : Bytes

-- The settings that both programs read, with the key and the default of the log file.
abbrev pub load_settings : Option Bytes → Bytes → Bytes → Run Settings
load_settings file log_key log_default =
    load_value_or_default file (codes "ip") 64 (codes "127.0.0.1") >>= (λ ip.
      load_value_or_default file (codes "port") 64 (codes "9090") >>= (λ port.
        load_value_or_default file (codes "log") 32 (codes "INFO") >>= (λ log_level.
          load_value_or_default file log_key 256 log_default >>= (λ log_file.
            returns
              (record { ip = ip; port = port; log_level = log_level; log_file = log_file })))))

unfoldable pub server_settings : Option Bytes → Run Settings
server_settings file = load_settings file (codes "server_log") (codes "../log/server.log")

unfoldable pub client_settings : Option Bytes → Run Settings
client_settings file = load_settings file (codes "client_log") (codes "../log/client.log")
