-- ===== src/Server/Path/Sandbox.antt =====
-- The path functions of src/server/handle.c against walks on stacks of names.
use wind_cloud_v.Base.{
  ℕ, suc, ◌+◌, ◌≤◌, ◌<◌, ◌≡◌, ◌≢◌, refl, Option, sym, ap, ◌∙◌, false, none, some, Option-cases,
  Bool-cases, inl, inr, List, [], ◌∷◌, ◌++◌, Bytes, length, length-append, length-drop, drop,
  take_all, leb, ◌==◌, codes, equal, arith,
}
use wind_cloud_v.Wire.Types.{path_max}
use wind_cloud_v.Wire.Command.{snprintf}
use wind_cloud_v.Server.Path.{
  server_base_dir, tokens_from, walk, merge, normalize_merged, normalize_virtual_path,
  build_real_path, resolve_target_path,
}
use wind_cloud_v.Server.Path.Canonical.{AllNames, below_root, path_of, path_of_ne_root}
use wind_cloud_v.Server.Path.Walk.{
  resolve, weight, Fits, Resolved, walk-Resolved, walk-resolve, tokens_from-AllTokens,
  weight-tokens_from, tokens_from-below_root, resolve-names_then,
}

-- The tokens of a text from its start.
abbrev pub tokens : Bytes → List Bytes
tokens s = tokens_from [] s

normalize_merged-Resolved :
    (m p : Bytes) → normalize_merged m path_max ≡ some p → Resolved (resolve (tokens m) []) p
unfolding normalize_merged
normalize_merged-Resolved m p e = elim (Bool-cases (leb path_max (length m))) [
  | inl long ↦ let f : none ≡ some p = rw (long, normalize_merged) at e in cc
  | inr short ↦ elim (Option-cases (walk (tokens m) (codes "/"))) [
    | inl bad ↦ let f : none ≡ some p = rw (short, bad, normalize_merged) at e in cc
    | inr (n, got) ↦
        let r =
          walk-Resolved (tokens m) [] n (tokens_from-AllTokens [] m tt) tt (omega arith) got in
        let whole : snprintf path_max n ≡ n =
          take_all 4095 n (omega (arith, ap length r.path, r.fits)) in
        let f : some (snprintf path_max n) ≡ some p = rw (short, got, normalize_merged) at e in
        let g : n ≡ p = cc (whole) in
        record { path = sym g ∙ r.path; names = r.names; fits = r.fits }
  ]
]

normalize_merged-resolve :
    (m : Bytes)
    → suc (length m) < path_max
    → normalize_merged m path_max ≡ some (path_of (resolve (tokens m) []))
unfolding normalize_merged
normalize_merged-resolve m h =
    let short : leb path_max (length m) ≡ false = ground arith in
    let tok = tokens_from-AllTokens [] m tt in
    let room : length (below_root []) + weight (tokens m) < path_max =
      unfold below_root in omega (arith, weight-tokens_from [] m) in
    let got = walk-resolve (tokens m) [] tt room tok in
    let r = walk-Resolved (tokens m) [] _ tok tt (omega arith) got in
    rw (short, got) (ap some (take_all 4095 _ (omega (arith, r.fits))))

-- Whatever the current path and the argument are, a path that is returned is "/" or a chain of
-- names below it, none of them empty, ".", ".." or with a slash in it, and it fits its buffer.
pub normalize_virtual_path-Resolved :
    (current arg p : Bytes)
    → normalize_virtual_path current arg path_max ≡ some p
    → (st : List Bytes) × (p ≡ path_of st) × AllNames st × Fits st
unfolding normalize_virtual_path
normalize_virtual_path-Resolved current [] p e = cc
normalize_virtual_path-Resolved current (c ∷ arg) p e = elim (Bool-cases (c == b'/')) [
  | inl slash ↦ let f : none ≡ some p = rw (slash, normalize_virtual_path) at e in cc
  | inr other ↦
      let r =
        normalize_merged-Resolved (merge current (c ∷ arg)) p
          (rw (other, normalize_virtual_path) at e) in
      (resolve (tokens (merge current (c ∷ arg))) [], r.path, r.names, r.fits)
]

starts_with_slash : (t : Bytes) (ts : List Bytes) → (s : Bytes) × (below_root (t ∷ ts) ≡ b'/' ∷ s)
unfolding below_root
starts_with_slash t [] = (t, refl)
starts_with_slash t (u ∷ ts) =
    let (s, e) = starts_with_slash u ts in (s ++ b'/' ∷ t, ap (λ (x : Bytes). x ++ b'/' ∷ t) e)

tokens-drop_slash : (x s y : Bytes) → x ≡ b'/' ∷ s → tokens (drop 1 x ++ y) ≡ tokens (x ++ y)
tokens-drop_slash x s y e = rw e (unfold tokens_from in refl)

tokens-merge :
    (st : List Bytes) (arg : Bytes)
    → AllNames st
    → resolve (tokens (merge (path_of st) arg)) [] ≡ resolve (tokens arg) st
unfolding merge
tokens-merge [] arg h = unfold equal in refl
tokens-merge (t ∷ st) arg h =
    let (s, e) = starts_with_slash t st in
    rw
      (
        path_of_ne_root t st h.0.some_byte,
        tokens-drop_slash (below_root (t ∷ st)) s (b'/' ∷ arg) e,
        tokens_from-below_root (t ∷ st) arg h,
      )
      (resolve-names_then (t ∷ st) (tokens arg) h)

length-merge :
    (st : List Bytes) (arg : Bytes)
    → length (merge (path_of st) arg) ≤ length (path_of st) + length arg
unfolding merge
length-merge [] arg = unfold equal in omega arith
length-merge (t ∷ st) arg = elim (Bool-cases (equal (below_root (t ∷ st)) (codes "/"))) [
  | inl root ↦ rw root (omega arith)
  | inr other ↦
      let (s, e) = starts_with_slash t st in
      rw other (
        omega (
          arith,
          length-append (drop 1 (below_root (t ∷ st))) (b'/' ∷ arg),
          length-drop 1 (below_root (t ∷ st)),
          ap length e,
        ))
]

-- From a current path of the server, a path that is returned is what the tokens of the argument
-- lead to from there: "." stays, ".." goes up and stays at the root, a name goes down.
pub normalize_virtual_path-resolve :
    (st : List Bytes) (arg p : Bytes)
    → AllNames st
    → normalize_virtual_path (path_of st) arg path_max ≡ some p
    → p ≡ path_of (resolve (tokens arg) st)
unfolding normalize_virtual_path
normalize_virtual_path-resolve st [] p h e = cc
normalize_virtual_path-resolve st (c ∷ arg) p h e = elim (Bool-cases (c == b'/')) [
  | inl slash ↦ let f : none ≡ some p = rw (slash, normalize_virtual_path) at e in cc
  | inr other ↦
      let r =
        normalize_merged-Resolved (merge (path_of st) (c ∷ arg)) p
          (rw (other, normalize_virtual_path) at e) in
      r.path ∙ ap path_of (tokens-merge st (c ∷ arg) h)
]

-- A relative argument is accepted whenever it fits behind the current path.
pub normalize_virtual_path_total :
    (st : List Bytes) (c : ℕ) (arg : Bytes)
    → AllNames st
    → c ≢ b'/'
    → suc (length (path_of st) + length (c ∷ arg)) < path_max
    → normalize_virtual_path (path_of st) (c ∷ arg) path_max
      ≡ some (path_of (resolve (tokens (c ∷ arg)) st))
unfolding normalize_virtual_path
normalize_virtual_path_total st c arg h n fits =
    let other : (c == b'/') ≡ false = ground arith in
    rw other (
      normalize_merged-resolve (merge (path_of st) (c ∷ arg))
        (omega (arith, length-merge st (c ∷ arg)))
      ∙ ap (λ x. some (path_of x)) (tokens-merge st (c ∷ arg) h))

-- An absolute argument and an empty one are refused.
pub normalize_virtual_path_refuses :
    (current arg : Bytes) (sz : ℕ)
    → (normalize_virtual_path current [] sz ≡ none)
      × (normalize_virtual_path current (b'/' ∷ arg) sz ≡ none)
unfolding normalize_virtual_path
normalize_virtual_path_refuses current arg sz = (refl, refl)

build_real_path_lem :
    (st : List Bytes) (r : Bytes)
    → AllNames st
    → build_real_path (path_of st) path_max ≡ some r
    → (r ≡ server_base_dir ++ below_root st) × (length r < path_max)
unfolding build_real_path
build_real_path_lem [] r h e = unfold equal below_root in ground arith
build_real_path_lem (t ∷ st) r h e =
    let other = path_of_ne_root t st h.0.some_byte in
    elim (Bool-cases (leb path_max (length (server_base_dir ++ below_root (t ∷ st))))) [
      | inl long ↦ let f : none ≡ some r = rw (other, long, build_real_path) at e in cc
      | inr short ↦
          let f : some (server_base_dir ++ below_root (t ∷ st)) ≡ some r =
            rw (other, short, build_real_path) at e in
          let g : server_base_dir ++ below_root (t ∷ st) ≡ r = cc in
          (sym g, rw (← g) (ground arith))
    ]

-- Where a target lies: below the served directory, by names only.
pub record IsInside (v r : Bytes) : Type 0 where
  pub stack : List Bytes
  pub names : AllNames stack
  pub virtual : v ≡ path_of stack
  pub real : r ≡ server_base_dir ++ below_root stack
  pub fits : length r < path_max

-- Whatever a client asks for, the path that the server opens, removes or creates is the served
-- directory or lies below it, with no "." or ".." on the way.
pub resolve_target_path-IsInside :
    (current arg v r : Bytes) → resolve_target_path current arg ≡ some (v, r) → IsInside v r
unfolding resolve_target_path
resolve_target_path-IsInside current arg v r e =
    elim (Option-cases (normalize_virtual_path current arg path_max)) [
      | inl bad ↦
          let f : ◌≡◌ {A = Option (Bytes × Bytes)} none (some (v, r)) =
            rw (bad, resolve_target_path) at e in
          cc
      | inr (p, got) ↦ elim (Option-cases (build_real_path p path_max)) [
        | inl bad ↦
            let f : ◌≡◌ {A = Option (Bytes × Bytes)} none (some (v, r)) =
              rw (got, bad, resolve_target_path) at e in
            cc
        | inr (q, real) ↦
            let (st, path, names, fits) = normalize_virtual_path-Resolved current arg p got in
            let f : ◌≡◌ {A = Option (Bytes × Bytes)} (some (p, q)) (some (v, r)) =
              rw (got, real, resolve_target_path) at e in
            let same : (p ≡ v) × (q ≡ r) = (cc, cc) in
            let (at, short) = build_real_path_lem st q names (rw (← path) real) in
            record {
              stack = st;
              names = names;
              virtual = sym same.0 ∙ path;
              real = sym same.1 ∙ at;
              fits = rw (← same.1) short;
            }
      ]
    ]
