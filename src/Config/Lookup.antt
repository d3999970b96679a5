-- ===== src/Config/Lookup.antt =====
-- `get_target` of src/common/config.c against the lookup in a list of settings, and on any file.
use wind_cloud_v.Base.{
  ◌+◌, ℕ, zero, suc, ◌<◌, ◌≡◌, refl, inl, inr, Bool, true, false, Option, Option-cases, none, some,
  List, [], ◌∷◌, ◌++◌, Bytes, length, length-append, if◌then◌else◌, equal, arith,
}
use wind_cloud_v.Libc.{fgets}
use wind_cloud_v.Server.World.{returns}
use wind_cloud_v.Config.{is_line_end, line_value, target_loop, get_target}
use wind_cloud_v.Config.Line.{
  Free, IsKey, IsValue, is_remark, line_value-setting, line_value-remark, line_end, chop-line_end,
  fgets-end,
}

-- A line of a configuration file.
pub data Row : Type 0 where
  setting : Bytes → Bytes → Row
  remark : ℕ → Bytes → Row
  blank : Row

abbrev pub row_text : Row → Bytes
row_text (setting k v) = k ++ b'=' ∷ v
row_text (remark c s) = c ∷ s
row_text blank = []

abbrev IsSound : Row → Type 0
IsSound (setting k v) = IsKey k × IsValue v
IsSound (remark c s) = is_remark c ≡ true
IsSound blank = Unit

-- A line in the form that the program's documents give, and that fits its buffer with its end.
abbrev pub IsRow : Bool → Row → Type 0
IsRow crlf row =
    IsSound row
    × Free is_line_end (row_text row)
    × (length (row_text row) + length (line_end crlf) < 100)

abbrev pub AllRows : Bool → List Row → Type 0
AllRows crlf [] = Unit
AllRows crlf (row ∷ rows) = IsRow crlf row × AllRows crlf rows

-- The file with these lines, with either kind of line end.
unfoldable pub print_rows : Bool → List Row → Bytes
print_rows crlf [] = []
print_rows crlf (row ∷ rows) = row_text row ++ (line_end crlf ++ print_rows crlf rows)

-- The value of the first line with the key.
unfoldable pub lookup : Bytes → List Row → Option Bytes
lookup key [] = none
lookup key (setting k v ∷ rows) = if equal key k then some v else lookup key rows
lookup key (remark c s ∷ rows) = lookup key rows
lookup key (blank ∷ rows) = lookup key rows

-- What a line gives, and then the lines behind it.
abbrev first : Option Bytes → Option Bytes → Option Bytes
first none rest = rest
first (some v) rest = some v

lookup-row :
    (key : Bytes) (row : Row) (rows : List Row)
    → IsSound row
    → lookup key (row ∷ rows) ≡ first (line_value key (row_text row)) (lookup key rows)
unfolding lookup line_value
lookup-row key (setting k v) rows sound =
    rw (line_value-setting key k v sound.0 sound.1) (by_test (equal key k))
  where
    by_test :
        (b : Bool)
        → (if b then some v else lookup key rows)
          ≡ first (if b then some v else none) (lookup key rows)
    by_test true = refl
    by_test false = refl
lookup-row key (remark c s) rows sound = rw (line_value-remark key c s sound) refl
lookup-row key blank rows sound = refl

target_loop-empty :
    (fuel : ℕ) (key : Bytes) → target_loop (suc fuel) key [] ≡ returns (lookup key [])
unfolding target_loop lookup fgets
target_loop-empty fuel key = refl

target_loop-lookup :
    (fuel : ℕ) (key : Bytes) (crlf : Bool) (rows : List Row)
    → AllRows crlf rows
    → length (print_rows crlf rows) < fuel
    → target_loop fuel key (print_rows crlf rows) ≡ returns (lookup key rows)
unfolding target_loop print_rows
target_loop-lookup zero key crlf rows all f = absurd (omega arith)
target_loop-lookup (suc fuel) key crlf [] all f = target_loop-empty fuel key
target_loop-lookup (suc fuel) key crlf (row ∷ rows) ((sound, free, small), all) f =
    let line = row_text row in
    let rest = print_rows crlf rows in
    let less : length rest < fuel =
      omega (arith, f, length-append line (line_end crlf ++ rest), end_long crlf rest) in
    let on = target_loop-lookup fuel key crlf rows all less in
    rw
      (
        fgets-end crlf line rest free small,
        target_loop,
        chop-line_end crlf line free,
        lookup-row key row rows sound,
      )
      (elim (Option-cases (line_value key line)) [
        | inl other ↦ rw other on
        | inr (v, e) ↦ rw e refl
      ])
  where
    end_long : (crlf : Bool) (rest : Bytes) → length rest < length (line_end crlf ++ rest)
    end_long true rest = omega arith
    end_long false rest = omega arith

-- In a file whose lines all end in a newline, or all in a carriage return and a newline, each with its
-- end at most 99 bytes, as the buffer holds, and each empty, a remark that begins with `#` or `;`, or
-- a setting `key=value`, `get_target` gives the value of the first setting with the key, and fails
-- where there is none. Of a setting, the key is not empty, does not begin with `#` or `;` and holds
-- no `=`, and the value is not empty and holds no `=`; no line holds a carriage return or a newline
-- but at its end.
pub get_target-print_rows :
    (key : Bytes) (crlf : Bool) (rows : List Row)
    → AllRows crlf rows
    → get_target key (some (print_rows crlf rows)) ≡ returns (lookup key rows)
unfolding get_target
get_target-print_rows key crlf rows all =
    target_loop-lookup (suc (length (print_rows crlf rows))) key crlf rows all (omega arith)
