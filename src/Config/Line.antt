-- ===== src/Config/Line.antt =====
-- A line of the configuration file, as src/common/config.c takes it apart.
use wind_cloud_v.Base.{
  ◌+◌, ℕ, zero, suc, ◌<◌, ◌≡◌, ◌≢◌, refl, sym, ap, ◌∙◌, inl, inr, Bool, true, false, Bool-cases,
  none, some, [], ◌∷◌, ◌++◌, append_assoc, Bytes, length, length-append, ◌==◌, ◌||◌, if◌then◌else◌,
  equal, arith,
}
use wind_cloud_v.Libc.{span, read_line, fgets, chop, skip, token, strtok}
use wind_cloud_v.Config.{is_line_end, line_value}

-- None of the bytes stops.
abbrev pub Free : (ℕ → Bool) → Bytes → Type 0
Free stop [] = Unit
Free stop (c ∷ s) = (stop c ≡ false) × Free stop s

pub span-Free :
    (stop : ℕ → Bool) (w : Bytes) (d : ℕ) (rest : Bytes)
    → Free stop w
    → stop d ≡ true
    → span stop (w ++ d ∷ rest) ≡ (w, d ∷ rest)
unfolding span
span-Free stop [] d rest free at = rw at refl
span-Free stop (c ∷ w) d rest (first, free) at =
    rw (first, span, span-Free stop w d rest free at) refl

pub span-Free_end : (stop : ℕ → Bool) (w : Bytes) → Free stop w → span stop w ≡ (w, [])
unfolding span
span-Free_end stop [] free = refl
span-Free_end stop (c ∷ w) (first, free) = rw (first, span, span-Free_end stop w free) refl

-- `strtok` up to a delimiter, and up to the end.
strtok-Free :
    (d c : ℕ) (w rest : Bytes)
    → Free (λ x. x == d) (c ∷ w)
    → strtok d ((c ∷ w) ++ d ∷ rest) ≡ some (c ∷ w, rest)
unfolding strtok skip
strtok-Free d c w rest free =
    let same : (d == d) ≡ true = ground arith in
    rw (free.0, token, span-Free (λ x. x == d) (c ∷ w) d rest free same) refl

strtok-Free_end :
    (d c : ℕ) (w : Bytes) → Free (λ x. x == d) (c ∷ w) → strtok d (c ∷ w) ≡ some (c ∷ w, [])
unfolding strtok skip
strtok-Free_end d c w free = rw (free.0, token, span-Free_end (λ x. x == d) (c ∷ w) free) refl

abbrev pub is_remark : ℕ → Bool
is_remark c = c == b'#' || c == b';'

-- A key is not empty, does not begin a remark, and holds no `=`.
abbrev pub IsKey : Bytes → Type 0
IsKey [] = ⊥
IsKey (c ∷ k) = (is_remark c ≡ false) × Free (λ x. x == b'=') (c ∷ k)

-- A value is not empty and holds no `=`.
abbrev pub IsValue : Bytes → Type 0
IsValue [] = ⊥
IsValue (c ∷ v) = Free (λ x. x == b'=') (c ∷ v)

pub line_value-setting :
    (key k v : Bytes)
    → IsKey k
    → IsValue v
    → line_value key (k ++ b'=' ∷ v) ≡ (if equal key k then some v else none)
unfolding line_value
line_value-setting key [] v is_key is_value = absurd is_key
line_value-setting key (c ∷ k) [] is_key is_value = absurd is_value
line_value-setting key (c ∷ k) (d ∷ v) is_key is_value =
    rw
      (
        is_key.0,
        line_value,
        strtok-Free b'=' c k (d ∷ v) is_key.1,
        strtok-Free_end b'=' d v is_value,
      )
      refl

pub line_value-remark :
    (key : Bytes) (c : ℕ) (s : Bytes) → is_remark c ≡ true → line_value key (c ∷ s) ≡ none
unfolding line_value
line_value-remark key c s e = rw e refl

-- The end of a line.
abbrev pub line_end : Bool → Bytes
line_end crlf = if crlf then b'\r' ∷ b'\n' ∷ [] else b'\n' ∷ []

pub chop-line_end :
    (crlf : Bool) (line : Bytes)
    → Free is_line_end line
    → chop is_line_end (line ++ line_end crlf) ≡ line
unfolding chop
chop-line_end true line free =
    ap (λ r. r.0) (span-Free is_line_end line b'\r' (b'\n' ∷ []) free refl)
chop-line_end false line free = ap (λ r. r.0) (span-Free is_line_end line b'\n' [] free refl)

abbrev is_newline : ℕ → Bool
is_newline c = c == b'\n'

read_line-Free :
    (n : ℕ) (w rest : Bytes)
    → Free is_newline w
    → length w < n
    → read_line n (w ++ b'\n' ∷ rest) ≡ (w ++ b'\n' ∷ [], rest)
unfolding read_line
read_line-Free zero w rest free fits = absurd (omega arith)
read_line-Free (suc n) [] rest free fits = refl
read_line-Free (suc n) (c ∷ w) rest free fits =
    rw (free.0, read_line, read_line-Free n w rest free.1 (omega arith)) refl

no_newline : (w : Bytes) → Free is_line_end w → Free is_newline w
no_newline [] free = tt
no_newline (c ∷ w) free = (
  elim (Bool-cases (c == b'\r')) [
    | inl e ↦ ground (arith, e, free.0)
    | inr e ↦ ground (arith, e, free.0)
  ],
  no_newline w free.1,
)

with_return : (w : Bytes) → Free is_newline w → Free is_newline (w ++ b'\r' ∷ [])
with_return [] free = (refl, tt)
with_return (c ∷ w) free = (free.0, with_return w free.1)

read_line-end :
    (crlf : Bool) (line rest : Bytes)
    → Free is_line_end line
    → length line + length (line_end crlf) < 100
    → read_line 99 (line ++ (line_end crlf ++ rest)) ≡ (line ++ line_end crlf, rest)
read_line-end false line rest free fits =
    read_line-Free 99 line rest (no_newline line free) (omega arith)
read_line-end true line rest free fits =
    let w = line ++ b'\r' ∷ [] in
    let e =
      read_line-Free 99 w rest (with_return line (no_newline line free))
        (omega (arith, length-append line (b'\r' ∷ []))) in
    ap (read_line 99) (sym (append_assoc line (b'\r' ∷ []) (b'\n' ∷ rest)))
    ∙ e
    ∙ ap (λ (x : Bytes). (x, rest)) (append_assoc line (b'\r' ∷ []) (b'\n' ∷ []))

fgets-whole : (s : Bytes) (r : Bytes × Bytes) → s ≢ [] → read_line 99 s ≡ r → fgets 100 s ≡ some r
unfolding fgets
fgets-whole [] r n e = absurd (n refl)
fgets-whole (c ∷ s) r n e = ap some e

-- A line of the file that fits the buffer with its end is read whole.
pub fgets-end :
    (crlf : Bool) (line rest : Bytes)
    → Free is_line_end line
    → length line + length (line_end crlf) < 100
    → fgets 100 (line ++ (line_end crlf ++ rest)) ≡ some (line ++ line_end crlf, rest)
fgets-end crlf line rest free fits =
    fgets-whole (line ++ (line_end crlf ++ rest)) _ (λ e. not_empty crlf (ap length e))
      (read_line-end crlf line rest free fits)
  where
    not_empty : (crlf : Bool) → length (line ++ (line_end crlf ++ rest)) ≡ 0 → ⊥
    not_empty true e = omega (arith, e, length-append line (b'\r' ∷ b'\n' ∷ rest))
    not_empty false e = omega (arith, e, length-append line (b'\n' ∷ rest))
