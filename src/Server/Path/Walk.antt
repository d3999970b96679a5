-- ===== src/Server/Path/Walk.antt =====
-- The token loop of `normalize_virtual_path` against resolution on a stack of names.
use wind_cloud_v.Base.{
  ℕ, suc, ◌+◌, ◌≤◌, ◌<◌, ◌≡◌, ◌≢◌, refl, sym, ap, ◌∙◌, Bool, true, false, ◌||◌, none, some,
  Bool-cases, inl, inr, List, [], ◌∷◌, ◌++◌, append-nil, append_assoc, Bytes, length, length-append,
  leb, ◌==◌, if◌then◌else◌, codes, equal, equal_iff, arith,
}
use wind_cloud_v.Wire.Types.{path_max}
use wind_cloud_v.Server.Path.{pop_one_level, emit, tokens_from, walk}
use wind_cloud_v.Server.Path.Canonical.{
  NoSlash, IsName, AllNames, below_root, path_of, length-below_root, pop_one_level_lem,
  pop_one_level-root, extend_lem,
}

abbrev pub is_dot : Bytes → Bool
is_dot t = equal t (codes ".") || equal t []

abbrev pub is_dots : Bytes → Bool
is_dots t = equal t (codes "..")

abbrev parent : List Bytes → List Bytes
parent [] = []
parent (t ∷ ts) = ts

-- One step of a walk on the stack: stay, go up, or go down.
unfoldable pub visit : Bytes → List Bytes → List Bytes
visit t st = if is_dot t then st else if is_dots t then parent st else t ∷ st

-- The stack at the end of a walk.
unfoldable pub resolve : List Bytes → List Bytes → List Bytes
resolve [] st = st
resolve (t ∷ ts) st = resolve ts (visit t st)

-- What `strtok_r` returns: not empty, and no slash in it.
abbrev pub AllTokens : List Bytes → Type 0
AllTokens [] = Unit
AllTokens (t ∷ ts) = (t ≢ []) × NoSlash t × AllTokens ts

-- The bytes the tokens take with a slash before each.
abbrev pub weight : List Bytes → ℕ
weight [] = 0
weight (t ∷ ts) = suc (length t) + weight ts

IsName-of_token : (t : Bytes) → t ≢ [] → NoSlash t → is_dot t ≡ false → is_dots t ≡ false → IsName t
IsName-of_token t n f d u = record {
  some_byte = n;
  flat = f;
  not_dot = λ e. ground (arith, equal_iff t (codes "."));
  not_dots = λ e. ground (arith, equal_iff t (codes ".."));
}

parent-AllNames : (st : List Bytes) → AllNames st → AllNames (parent st)
parent-AllNames [] h = tt
parent-AllNames (t ∷ st) h = h.1

visit-AllNames :
    (t : Bytes) (st : List Bytes) → t ≢ [] → NoSlash t → AllNames st → AllNames (visit t st)
unfolding visit
visit-AllNames t st n f h = elim (Bool-cases (is_dot t)) [
  | inl d ↦ rw d h
  | inr d ↦ elim (Bool-cases (is_dots t)) [
    | inl u ↦ rw (d, u) (parent-AllNames st h)
    | inr u ↦ rw (d, u) (IsName-of_token t n f d u, h)
  ]
]

pop_one_level-parent :
    (st : List Bytes) → AllNames st → pop_one_level (path_of st) ≡ some (path_of (parent st))
pop_one_level-parent [] h = pop_one_level-root
pop_one_level-parent (t ∷ st) h = pop_one_level_lem t st h

-- The tests on one token, read off the loop.
module _ (t : Bytes) (ts st : List Bytes) (h : AllNames st) where
  walk_dot : is_dot t ≡ true → walk (t ∷ ts) (path_of st) ≡ walk ts (path_of st)
  unfolding walk
  walk_dot d = rw d

  walk_dots :
      is_dot t ≡ false
      → is_dots t ≡ true
      → walk (t ∷ ts) (path_of st) ≡ walk ts (path_of (parent st))
  unfolding walk
  walk_dots d u = rw (d, u, pop_one_level-parent st h)

  walk_name :
      is_dot t ≡ false
      → is_dots t ≡ false
      → walk (t ∷ ts) (path_of st) ≡ (
          if leb path_max (length (below_root (t ∷ st)))
          then none
          else walk ts (below_root (t ∷ st)))
  unfolding walk
  walk_name d u = rw (d, u, extend_lem t st h)

-- The path still has room for its NUL.
abbrev pub Fits : List Bytes → Type 0
Fits st = length (path_of st) < path_max

parent-Fits : (st : List Bytes) → Fits st → Fits (parent st)
parent-Fits [] h = h
parent-Fits (t ∷ []) h = omega arith
parent-Fits (t ∷ u ∷ st) h = omega (arith, length-below_root t (u ∷ st))

-- What the loop returns, if it returns: the resolved path, a stack of names that fits.
pub record Resolved (st : List Bytes) (p : Bytes) : Type 0 where
  pub path : p ≡ path_of st
  pub names : AllNames st
  pub fits : Fits st

pub walk-Resolved :
    (ts st : List Bytes) (p : Bytes)
    → AllTokens ts
    → AllNames st
    → Fits st
    → walk ts (path_of st) ≡ some p
    → Resolved (resolve ts st) p
unfolding resolve visit
walk-Resolved [] st p k h f e = record { path = unfold walk in cc; names = h; fits = f }
walk-Resolved (t ∷ ts) st p k h f e = elim (Bool-cases (is_dot t)) [
  | inl d ↦ rw d (walk-Resolved ts st p k.2 h f (rw (walk_dot t ts st h d) at e))
  | inr d ↦ elim (Bool-cases (is_dots t)) [
    | inl u ↦
        rw (d, u)
          (walk-Resolved ts (parent st) p k.2 (parent-AllNames st h) (parent-Fits st f)
            (rw (walk_dots t ts st h d u) at e))
    | inr u ↦ elim (Bool-cases (leb path_max (length (below_root (t ∷ st))))) [
      | inl long ↦ let stop : none ≡ some p = rw (walk_name t ts st h d u, long) at e in cc
      | inr short ↦
          rw (d, u)
            (walk-Resolved ts (t ∷ st) p k.2 (IsName-of_token t k.0 k.1 d u, h) (ground arith)
              (rw (walk_name t ts st h d u, short) at e))
    ]
  ]
]

length-parent : (st : List Bytes) → length (below_root (parent st)) ≤ length (below_root st)
length-parent [] = omega arith
length-parent (t ∷ st) = omega (arith, length-below_root t st)

-- A walk whose names would all fit one behind the other does return.
pub walk-resolve :
    (ts st : List Bytes)
    → AllNames st
    → length (below_root st) + weight ts < path_max
    → AllTokens ts
    → walk ts (path_of st) ≡ some (path_of (resolve ts st))
unfolding resolve visit
walk-resolve [] st h f k = unfold walk in refl
walk-resolve (t ∷ ts) st h f k = elim (Bool-cases (is_dot t)) [
  | inl d ↦ rw (walk_dot t ts st h d, d) (walk-resolve ts st h (omega arith) k.2)
  | inr d ↦ elim (Bool-cases (is_dots t)) [
    | inl u ↦
        rw (walk_dots t ts st h d u, d, u)
          (walk-resolve ts (parent st) (parent-AllNames st h) (omega (arith, length-parent st)) k.2)
    | inr u ↦
        let len = length-below_root t st in
        let short : leb path_max (length (below_root (t ∷ st))) ≡ false = ground (arith, len) in
        rw (walk_name t ts st h d u, short, d, u)
          (walk-resolve ts (t ∷ st) (IsName-of_token t k.0 k.1 d u, h) (omega (arith, len)) k.2)
  ]
]

NoSlash-snoc : (s : Bytes) (c : ℕ) → NoSlash s → c ≢ b'/' → NoSlash (s ++ c ∷ [])
NoSlash-snoc [] c h n = (n, tt)
NoSlash-snoc (x ∷ s) c h n = (h.0, NoSlash-snoc s c h.1 n)

emit-AllTokens :
    (acc : Bytes) (ts : List Bytes) → NoSlash acc → AllTokens ts → AllTokens (emit acc ts)
emit-AllTokens [] ts h k = k
emit-AllTokens (c ∷ acc) ts h k = ((λ e. cc), h, k)

pub tokens_from-AllTokens : (acc s : Bytes) → NoSlash acc → AllTokens (tokens_from acc s)
unfolding tokens_from
tokens_from-AllTokens acc [] h = emit-AllTokens acc [] h tt
tokens_from-AllTokens acc (c ∷ s) h = elim (Bool-cases (c == b'/')) [
  | inl cut ↦ rw cut (emit-AllTokens acc _ h (tokens_from-AllTokens [] s tt))
  | inr more ↦
      rw more (tokens_from-AllTokens (acc ++ c ∷ []) s (NoSlash-snoc acc c h (ground arith)))
]

weight-emit : (acc : Bytes) (ts : List Bytes) → weight (emit acc ts) ≤ suc (length acc) + weight ts
weight-emit [] ts = omega arith
weight-emit (c ∷ acc) ts = omega arith

pub weight-tokens_from : (acc s : Bytes) → weight (tokens_from acc s) ≤ suc (length acc + length s)
unfolding tokens_from
weight-tokens_from acc [] = omega (arith, weight-emit acc [])
weight-tokens_from acc (c ∷ s) = elim (Bool-cases (c == b'/')) [
  | inl cut ↦ rw cut (omega (arith, weight-emit acc (tokens_from [] s), weight-tokens_from [] s))
  | inr more ↦
      rw more (omega (arith, weight-tokens_from (acc ++ c ∷ []) s, length-append acc (c ∷ [])))
]

-- The names of a stack, the highest first, before the tokens `k`.
abbrev names_then : List Bytes → List Bytes → List Bytes
names_then [] k = k
names_then (t ∷ ts) k = names_then ts (t ∷ k)

tokens_from_name :
    (acc t s : Bytes)
    → acc ++ t ≢ []
    → NoSlash t
    → tokens_from acc (t ++ b'/' ∷ s) ≡ (acc ++ t) ∷ tokens_from [] s
unfolding tokens_from
tokens_from_name [] [] s n h = absurd (n refl)
tokens_from_name (a ∷ acc) [] s n h = ap (λ x. (a ∷ x) ∷ tokens_from [] s) (sym (append-nil acc))
tokens_from_name acc (c ∷ t) s n h =
    let other : (c == b'/') ≡ false = ground arith in
    rw other (
      tokens_from_name (acc ++ c ∷ []) t s (rw (append_assoc acc (c ∷ []) t) n) h.1
      ∙ ap (λ x. x ∷ tokens_from [] s) (append_assoc acc (c ∷ []) t))

-- The tokens of a path and a relative path behind it: the path's names, then the others.
pub tokens_from-below_root :
    (st : List Bytes) (s : Bytes)
    → AllNames st
    → tokens_from [] (below_root st ++ b'/' ∷ s) ≡ names_then st (tokens_from [] s)
unfolding below_root
tokens_from-below_root [] s h = unfold tokens_from in refl
tokens_from-below_root (t ∷ st) s h =
    ap (tokens_from []) (append_assoc (below_root st) (b'/' ∷ t) (b'/' ∷ s))
    ∙ tokens_from-below_root st (t ++ b'/' ∷ s) h.1
    ∙ ap (names_then st) (tokens_from_name [] t s h.0.some_byte h.0.flat)

resolve_name :
    (t : Bytes) (ts st : List Bytes) → IsName t → resolve (t ∷ ts) st ≡ resolve ts (t ∷ st)
unfolding resolve visit
resolve_name t ts st n =
    let d : is_dot t ≡ false =
      ground (arith, n.not_dot, n.some_byte, equal_iff t (codes "."), equal_iff t []) in
    let u : is_dots t ≡ false = ground (arith, n.not_dots, equal_iff t (codes "..")) in rw (d, u)

-- Walking down the names of a stack arrives at that stack.
pub resolve-names_then :
    (st k : List Bytes) → AllNames st → resolve (names_then st k) [] ≡ resolve k st
resolve-names_then [] k h = refl
resolve-names_then (t ∷ st) k h = resolve-names_then st (t ∷ k) h.1 ∙ resolve_name t k st h.0
