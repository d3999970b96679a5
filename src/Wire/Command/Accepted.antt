-- ===== src/Wire/Command/Accepted.antt =====
-- The lines that the command parser of src/common/protocol.c accepts, taken apart.
use wind_cloud_v.Base.{
  ℕ, zero, suc, ◌≤◌, ◌≡◌, ◌≢◌, refl, sym, ap, subst, ◌∙◌, ◌⊎◌, inl, inr, Bool, true, false, not,
  Bool-cases, Option, none, some, Option-cases, [], ◌∷◌, ◌++◌, Bytes, length, take, take_all, ◌==◌,
  equal, equal_iff, codes, arith, if◌then◌else◌, ◌||◌,
}
use wind_cloud_v.Wire.Types.{CmdType}
use wind_cloud_v.Wire.Command.{
  Request, fill_request, parse_command_type, command_type_to_string, is_space, skip_space, scan,
  scan_line, request_of, parse_command_request, build_command_request,
}
use wind_cloud_v.Wire.Command.Parsing.{IsTyped, Free, Stops}

-- The words for a command: its name, and `remove` for `rm`.
abbrev pub Names : Bytes → CmdType → Type 0
Names w t = (w ≡ command_type_to_string t) ⊎ ((w ≡ codes "remove") × (t ≡ CmdType.rm))

-- A byte that is not white space.
abbrev pub is_ink : ℕ → Bool
is_ink c = not (is_space c)

-- A line that is white space, a word, white space, an argument, and a rest, with the request that is
-- made of it. The word goes up to white space, to the end, or to 63 bytes; the argument goes up to a
-- newline, to the end, or to 4095 bytes.
pub record Reads (input : Bytes) (r : Request) : Type 0 where
  pub indent : Bytes
  pub word : Bytes
  pub gap : Bytes
  pub rest : Bytes
  pub line : input ≡ indent ++ (word ++ (gap ++ (r.arg ++ rest)))
  pub indent_blank : Free is_ink indent
  pub gap_blank : Free is_ink gap
  pub word_free : Free is_space word
  pub word_ends : (length word ≡ 63) ⊎ Stops is_space (gap ++ (r.arg ++ rest))
  pub arg_starts : Stops is_ink (r.arg ++ rest)
  pub arg_free : Free (λ c. c == b'\n') r.arg
  pub arg_ends : (length r.arg ≡ 4095) ⊎ Stops (λ c. c == b'\n') rest
  pub word_short : length word ≤ 63
  pub arg_short : length r.arg ≤ 4095
  pub typed : IsTyped r.type
  pub named : Names word r.type

-- What a conversion reads and what it leaves.
record Scanned (stop : ℕ → Bool) (n : ℕ) (s : Bytes) (r : Bytes × Bytes) : Type 0 where
  split : s ≡ r.0 ++ r.1
  free : Free stop r.0
  short : length r.0 ≤ n
  ends : (length r.0 ≡ n) ⊎ Stops stop r.1

scan-Scanned : (stop : ℕ → Bool) (n : ℕ) (s : Bytes) → Scanned stop n s (scan stop n s)
unfolding scan
scan-Scanned stop zero s = record { split = refl; free = tt; short = omega arith; ends = inl refl }
scan-Scanned stop (suc n) [] = record {
  split = refl;
  free = tt;
  short = omega arith;
  ends = inr tt;
}
scan-Scanned stop (suc n) (c ∷ s) =
    let ih = scan-Scanned stop n s in
    elim (Bool-cases (stop c)) [
      | inl at ↦ rw at (record { split = refl; free = tt; short = omega arith; ends = inr at })
      | inr on ↦ rw on (record {
        split = ap (◌∷◌ c) ih.split;
        free = (on, ih.free);
        short = omega (arith, ih.short);
        ends = elim ih.ends [ inl full ↦ inl (ap suc full) | inr e ↦ inr e ];
      })
    ]

record Skipped (s r : Bytes) : Type 0 where
  blank : Bytes
  split : s ≡ blank ++ r
  free : Free is_ink blank
  starts : Stops is_ink r

skip_space-Skipped : (s : Bytes) → Skipped s (skip_space s)
unfolding skip_space
skip_space-Skipped [] = record { blank = []; split = refl; free = tt; starts = tt }
skip_space-Skipped (c ∷ s) =
    let ih = skip_space-Skipped s in
    elim (Bool-cases (is_space c)) [
      | inl white ↦ rw white (record {
        blank = c ∷ ih.blank;
        split = ap (◌∷◌ c) ih.split;
        free = (ap not white, ih.free);
        starts = ih.starts;
      })
      | inr ink ↦ rw ink (record { blank = []; split = refl; free = tt; starts = ap not ink })
    ]

-- A word is a name of the command that it is read as, if it is one.
abbrev IsRead : Bytes → CmdType → Type 0
IsRead w t = (t ≡ CmdType.invalid) ⊎ (IsTyped t × Names w t)

if-IsRead :
    (w : Bytes) (b : Bool) (t u : CmdType)
    → (b ≡ true → IsRead w t)
    → IsRead w u
    → IsRead w (if b then t else u)
if-IsRead w true t u h k = h refl
if-IsRead w false t u h k = k

-- A test for one more name.
name-IsRead :
    (w : Bytes) (t u : CmdType)
    → IsTyped t
    → IsRead w u
    → IsRead w (if equal w (command_type_to_string t) then t else u)
name-IsRead w t u typed k =
    if-IsRead w (equal w (command_type_to_string t)) t u
      (λ e. inr (typed, inl ((equal_iff w (command_type_to_string t)).0 e))) k

rm-IsRead :
    (w : Bytes) → equal w (codes "rm") || equal w (codes "remove") ≡ true → IsRead w CmdType.rm
unfolding command_type_to_string
rm-IsRead w e = elim (Bool-cases (equal w (codes "rm"))) [
  | inl same ↦ inr (tt, inl ((equal_iff w (codes "rm")).0 same))
  | inr other ↦ inr (tt, inr ((equal_iff w (codes "remove")).0 (ground (arith, e, other)), refl))
]

parse_command_type-IsRead : (w : Bytes) → IsRead w (parse_command_type w)
unfolding parse_command_type command_type_to_string
parse_command_type-IsRead w =
    if-IsRead w (equal w []) CmdType.invalid _ (λ e. inl refl)
      (name-IsRead w CmdType.pwd _ tt (
        name-IsRead w CmdType.cd _ tt (
          name-IsRead w CmdType.ls _ tt (
            if-IsRead w _ CmdType.rm _ (rm-IsRead w) (
              name-IsRead w CmdType.mkdir _ tt (
                name-IsRead w CmdType.puts_req _ tt
                  (name-IsRead w CmdType.gets_req _ tt (inl refl))))))))

request_of-some :
    (t : CmdType) (a : Bytes) (r : Request)
    → length a ≤ 4095
    → request_of t a ≡ some r
    → (record { type = t; arg = a } ≡ r) × (t ≢ CmdType.invalid)
unfolding request_of fill_request
request_of-some CmdType.invalid a r short e = cc
request_of-some t a r short e =
    let whole = ap (λ (x : Bytes). record { type = t; arg = x }) (sym (take_all 4095 a short)) in
    let made : some (record { type = t; arg = take 4095 a }) ≡ some r = e in
    (whole ∙ (cc), λ same. cc)

-- What `sscanf` hands back are its two conversions.
picked :
    (cmd arg w a : Bytes)
    → ◌≡◌ {A = Option (Bytes × Bytes)}
        (elim cmd [ [] ↦ none | c ∷ cs ↦ some (c ∷ cs, arg) ])
        (some (w, a))
    → (cmd ≡ w) × (arg ≡ a)
picked [] arg w a e = cc
picked (c ∷ cs) arg w a e =
    let f : ◌≡◌ {A = Bytes × Bytes} (c ∷ cs, arg) (w, a) = cc in
    (ap (λ (x : Bytes × Bytes). x.0) f, ap (λ (x : Bytes × Bytes). x.1) f)

Scanned-Reads :
    (input : Bytes) (r : Request) (s t : Bytes) (u v : Bytes × Bytes)
    → Skipped input s
    → Scanned is_space 63 s u
    → Skipped (u.1) t
    → Scanned (λ c. c == b'\n') 4095 t v
    → request_of (parse_command_type (u.0)) (v.0) ≡ some r
    → Reads input r
Scanned-Reads input r s t u v a b c d e =
    let (same, valid) = request_of-some (parse_command_type (u.0)) (v.0) r d.short e in
    let (typed, named) : IsTyped (parse_command_type (u.0))
        × Names (u.0) (parse_command_type (u.0)) =
      elim (parse_command_type-IsRead (u.0)) [ inl bad ↦ absurd (valid bad) | inr good ↦ good ] in
    let behind : u.1 ≡ c.blank ++ (v.0 ++ v.1) = c.split ∙ ap (◌++◌ c.blank) d.split in
    subst (Reads input) same (record {
      indent = a.blank;
      word = u.0;
      gap = c.blank;
      rest = v.1;
      line = a.split ∙ ap (◌++◌ a.blank) (b.split ∙ ap (◌++◌ (u.0)) behind);
      indent_blank = a.free;
      gap_blank = c.free;
      word_free = b.free;
      word_ends = subst (λ x. (length (u.0) ≡ 63) ⊎ Stops is_space x) behind b.ends;
      arg_starts = subst (Stops is_ink) d.split c.starts;
      arg_free = d.free;
      arg_ends = d.ends;
      word_short = b.short;
      arg_short = d.short;
      typed = typed;
      named = named;
    })

-- A line that is accepted is white space, a word, white space, an argument and a rest: the word is the
-- name of a command or `remove`, has at most 63 bytes and no white space, and ends where white space
-- begins, at the end, or at 63 bytes; the argument begins with no white space, has at most 4095 bytes
-- and no newline, and ends at a newline, at the end, or at 4095 bytes. The request is the command
-- of that name, `rm` for `remove`, with the whole of that argument.
pub build_command_request-Reads :
    (input : Bytes) (r : Request) → build_command_request input ≡ some r → Reads input r
unfolding build_command_request parse_command_request scan_line
build_command_request-Reads input r e = elim (Option-cases (scan_line input)) [
  | inl bad ↦ let f : none ≡ some r = rw (bad, parse_command_request) at e in cc
  | inr ((w, a), got) ↦
      let u = scan is_space 63 (skip_space input) in
      let v = scan (λ c. c == b'\n') 4095 (skip_space (u.1)) in
      let (same_w, same_a) = picked (u.0) (v.0) w a got in
      let f : request_of (parse_command_type w) a ≡ some r = rw (got, parse_command_request) at e in
      let g : request_of (parse_command_type (u.0)) (v.0) ≡ some r =
        ap (λ (x : Bytes). request_of (parse_command_type x) (v.0)) same_w
        ∙ ap (λ (x : Bytes). request_of (parse_command_type w) x) same_a
        ∙ f in
      Scanned-Reads input r (skip_space input) (skip_space (u.1)) u v (skip_space-Skipped input)
        (scan-Scanned is_space 63 (skip_space input)) (skip_space-Skipped (u.1))
        (scan-Scanned (λ c. c == b'\n') 4095 (skip_space (u.1))) g
]
