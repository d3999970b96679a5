-- ===== src/Server/Path/Tests.antt =====
-- The paths of src/server/handle.c at concrete arguments.
use wind_cloud_v.Base.{◌≡◌, refl, ap, some, List, [], ◌∷◌, Bytes, length, codes, equal, arith}
use wind_cloud_v.Wire.Types.{path_max}
use wind_cloud_v.Server.Path.{
  normalize_virtual_path, resolve_target_path, normalize_merged, merge, walk, tokens_from, extend,
  pop_one_level, last_index, build_real_path,
}
use wind_cloud_v.Server.Path.Canonical.{IsName, AllNames, below_root, path_of}
use wind_cloud_v.Server.Path.Walk.{resolve}
use wind_cloud_v.Server.Path.Sandbox.{
  tokens, normalize_virtual_path-resolve, IsInside, resolve_target_path-IsInside,
}

-- `/docs`, and `/docs/old`.
abbrev docs : List Bytes
docs = codes "docs" ∷ []

abbrev old : List Bytes
old = codes "old" ∷ codes "docs" ∷ []

docs-IsName : IsName (codes "docs")
docs-IsName = record {
  some_byte = λ e. cc;
  flat = (λ e. omega arith, (λ e. omega arith, (λ e. omega arith, (λ e. omega arith, tt))));
  not_dot = λ e. omega (arith, ap length e);
  not_dots = λ e. omega (arith, ap length e);
}

old-IsName : IsName (codes "old")
old-IsName = record {
  some_byte = λ e. cc;
  flat = (λ e. omega arith, (λ e. omega arith, (λ e. omega arith, tt)));
  not_dot = λ e. omega (arith, ap length e);
  not_dots = λ e. omega (arith, ap length e);
}

old-AllNames : AllNames old
old-AllNames = (old-IsName, (docs-IsName, tt))

-- `cd ../../../x` from there ends below the root.
up_and_away : normalize_virtual_path (path_of old) (codes "../../../x") path_max ≡ some (codes "/x")
unfolding normalize_virtual_path normalize_merged merge equal below_root walk tokens_from extend
    pop_one_level last_index
up_and_away = refl

normalize_virtual_path-resolve_example :
    codes "/x" ≡ path_of (resolve (tokens (codes "../../../x")) old)
normalize_virtual_path-resolve_example =
    normalize_virtual_path-resolve old (codes "../../../x") (codes "/x") old-AllNames up_and_away

target :
    resolve_target_path (codes "/docs/old") (codes "../../../x")
    ≡ some (codes "/x", codes "../tests/x")
unfolding resolve_target_path normalize_virtual_path normalize_merged merge equal walk tokens_from
    extend pop_one_level last_index build_real_path
target = refl

resolve_target_path-IsInside_example : IsInside (codes "/x") (codes "../tests/x")
resolve_target_path-IsInside_example =
    resolve_target_path-IsInside (codes "/docs/old") (codes "../../../x") (codes "/x")
      (codes "../tests/x") target
