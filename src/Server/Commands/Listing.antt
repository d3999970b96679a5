-- ===== src/Server/Commands/Listing.antt =====
-- The buffer of `handle_ls` in src/server/handle.c.
use wind_cloud_v.Base.{
  ◌+◌, ◌-◌, ◌<◌, ◌≡◌, ap, inl, inr, ◌||◌, none, some, Bool-cases, List, [], ◌∷◌, ◌++◌, Bytes,
  length, length-append, ltb, leb, codes, equal, arith,
}
use wind_cloud_v.Wire.Types.{max_text_payload}
use wind_cloud_v.Server.Commands.{ls_loop}

-- If the buffer of a listing holds fewer than 4096 bytes before the `readdir` loop, and the loop does
-- not refuse the listing as too long, it holds fewer than 4096 behind it, whatever the names are.
pub ls_loop-bound :
    (names : List Bytes) (result r : Bytes)
    → length result < max_text_payload
    → ls_loop names result ≡ some r
    → length r < max_text_payload
unfolding ls_loop
ls_loop-bound [] result r h e = let f : result ≡ r = cc in omega (arith, h, ap length f)
ls_loop-bound (name ∷ names) result r h e =
    elim (Bool-cases (equal name (codes ".") || equal name (codes ".."))) [
      | inl skip ↦ ls_loop-bound names result r h (rw (skip, ls_loop) at e)
      | inr keep ↦ elim (Bool-cases (leb (max_text_payload - length result) (length name))) [
        | inl long ↦ let f : none ≡ some r = rw (keep, long, ls_loop) at e in cc
        | inr short ↦ elim (Bool-cases (ltb (length result + length name + 2) max_text_payload)) [
          | inl line ↦
              ls_loop-bound names (result ++ (name ++ b'\n' ∷ [])) r
                (ground (
                  arith,
                  length-append result (name ++ b'\n' ∷ []),
                  length-append name (b'\n' ∷ []),
                ))
                (rw (keep, short, line, ls_loop) at e)
          | inr bare ↦
              ls_loop-bound names (result ++ name) r (ground (arith, length-append result name))
                (rw (keep, short, bare, ls_loop) at e)
        ]
      ]
    ]
