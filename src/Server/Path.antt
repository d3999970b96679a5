-- ===== src/Server/Path.antt =====
-- Virtual paths of src/server/handle.c: `pop_one_level`, `normalize_virtual_path`,
-- `build_real_path` and the path half of `resolve_target_path`. A path is the bytes before its NUL.
pub mod Canonical
pub mod Walk
pub mod Sandbox
pub mod Tests
use wind_cloud_v.Base.{
  ℕ, zero, suc, ◌-◌, Bool, true, false, ◌||◌, Option, none, some, List, [], ◌∷◌, ◌++◌, Bytes,
  length, take, drop, leb, ◌==◌, if◌then◌else◌, codes, equal,
}
use wind_cloud_v.Wire.Types.{path_max}
use wind_cloud_v.Wire.Command.{snprintf}

-- `SERVER_BASE_DIR`.
abbrev pub server_base_dir : Bytes
server_base_dir = codes "../tests"

-- The index of the last `d` in `s`, as `strrchr` finds it.
unfoldable pub last_index : ℕ → Bytes → Option ℕ
last_index d [] = none
last_index d (c ∷ s) = elim (last_index d s) [
  | some i ↦ some (suc i)
  | none ↦ if c == d then some 0 else none
]

unfoldable pub pop_one_level : Bytes → Option Bytes
pop_one_level path = if equal path (codes "/") then some path else elim (last_index b'/' path) [
  | none ↦ none
  | some slash ↦ if slash == 0 then some (take 1 path) else some (take slash path)
]

abbrev emit : Bytes → List Bytes → List Bytes
emit [] ts = ts
emit (c ∷ cs) ts = (c ∷ cs) ∷ ts

-- The tokens that successive calls of `strtok_r(s, "/")` return; `acc` is the token being read.
unfoldable pub tokens_from : Bytes → Bytes → List Bytes
tokens_from acc [] = emit acc []
tokens_from acc (c ∷ s) =
    let cut = emit acc (tokens_from [] s) in
    let longer = tokens_from (acc ++ c ∷ []) s in if c == b'/' then cut else longer

-- The `candidate` buffer for one more name.
unfoldable pub extend : Bytes → Bytes → Bytes
extend normalized token =
    if equal normalized (codes "/") then b'/' ∷ token else normalized ++ b'/' ∷ token

-- The loop over the tokens; `none` is the return value -1. A candidate that fits is copied whole.
unfoldable pub walk : List Bytes → Bytes → Option Bytes
walk [] normalized = some normalized
walk (token ∷ ts) normalized =
    let skip = walk ts normalized in
    let up : Option Bytes = elim (pop_one_level normalized) [
      | none ↦ none
      | some path ↦ walk ts path
    ] in
    let down = walk ts (extend normalized token) in
    if equal token (codes ".") || equal token []
    then skip
    else if equal token (codes "..")
    then up
    else if leb path_max (length (extend normalized token))
    then none
    else down

-- `merged`: the argument behind the current path, without the first slash.
unfoldable pub merge : Bytes → Bytes → Bytes
merge current_path arg =
    if equal current_path (codes "/") then arg else drop 1 current_path ++ b'/' ∷ arg

unfoldable pub normalize_merged : Bytes → ℕ → Option Bytes
normalize_merged merged out_sz =
    if leb path_max (length merged) then none else elim (walk (tokens_from [] merged) (codes "/")) [
      | none ↦ none
      | some normalized ↦ some (snprintf out_sz normalized)
    ]

unfoldable pub normalize_virtual_path : Bytes → Bytes → ℕ → Option Bytes
normalize_virtual_path current_path [] out_sz = none
normalize_virtual_path current_path (c ∷ arg) out_sz =
    if c == b'/' then none else normalize_merged (merge current_path (c ∷ arg)) out_sz

unfoldable pub build_real_path : Bytes → ℕ → Option Bytes
build_real_path virtual_path real_sz =
    let real =
      if equal virtual_path (codes "/") then server_base_dir else server_base_dir ++ virtual_path in
    if leb real_sz (length real) then none else some real

-- The virtual path and the real path of an argument; every caller's buffers have `PATH_MAX` bytes.
unfoldable pub resolve_target_path : Bytes → Bytes → Option (Bytes × Bytes)
resolve_target_path current_path arg = elim (normalize_virtual_path current_path arg path_max) [
  | none ↦ none
  | some virtual ↦ elim (build_real_path virtual path_max) [
    | none ↦ none
    | some real ↦ some (virtual, real)
  ]
]
