-- ===== src/Config/Tests.antt =====
-- A configuration file as the repository has it, with remarks.
use wind_cloud_v.Base.{◌≡◌, true, some, List, [], ◌∷◌, arith, codes, equal}
use wind_cloud_v.Server.World.{returns}
use wind_cloud_v.Config.{get_target}
use wind_cloud_v.Config.Lookup.{
  Row, setting, remark, blank, AllRows, print_rows, lookup, get_target-print_rows,
}
use wind_cloud_v.Config.Bounds.{Fits, get_target-Fits}

abbrev rows : List Row
rows =
    remark b'#' (codes " server")
    ∷ setting (codes "ip") (codes "127.0.0.1")
    ∷ blank
    ∷ setting (codes "port") (codes "9090")
    ∷ setting (codes "port") (codes "80")
    ∷ []

rows-AllRows : AllRows true rows
rows-AllRows = ground arith

get_target-print_rows_example :
    get_target (codes "port") (some (print_rows true rows)) ≡ returns (some (codes "9090"))
unfolding lookup equal
get_target-print_rows_example = get_target-print_rows (codes "port") true rows rows-AllRows

get_target-Fits_example : Fits (get_target (codes "ip") (some (codes "ip=1=2\nlog=INFO")))
get_target-Fits_example = get_target-Fits (codes "ip") (some (codes "ip=1=2\nlog=INFO"))
