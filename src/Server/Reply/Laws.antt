-- ===== src/Server/Reply/Laws.antt =====
-- What a reply leaves alone and what it puts on the wire, and what is read back from payloads.
use wind_cloud_v.Base.{
  ◌↔◌, not, ℕ, zero, suc, ◌-◌, ◌^◌, ◌≤◌, ◌<◌, ◌≡◌, ◌≢◌, refl, sym, ap, ◌∙◌, inl, inr, true, false,
  Option, none, some, Option-cases, Bool-cases, append-nil, length-take, ◌||◌, [], ◌∷◌, ◌++◌,
  append_assoc, Bytes, length, length-append, length-replicate, replicate, take, drop, take_all,
  drop-append_length, ltb, ◌==◌, arith,
}
use wind_cloud_v.Wire.Endian.{Endian, store32, store64, load64, host_to_net_u64, net_to_host_u64}
use wind_cloud_v.Wire.Endian.Laws.{net_to_host_u64-load64}
use wind_cloud_v.Wire.Types.{path_max, CmdType, Status, Packet, Host}
use wind_cloud_v.Wire.Packet.Framing.{send_packet-incoming}
use wind_cloud_v.Server.World.{World}
use wind_cloud_v.Server.Reply.{
  c_string, send_text_reply, file_info_bytes, keep, copy_string_payload, past_end, info,
  file_info_size, resume_size, extract_file_info, extract_resume_offset,
}

abbrev pub NoNul : Bytes → Type 0
NoNul [] = Unit
NoNul (c ∷ s) = (c ≢ 0) × NoNul s

-- The string ends at the first NUL.
pub c_string-append : (s rest : Bytes) → NoNul s → c_string (s ++ 0 ∷ rest) ≡ some s
unfolding c_string
c_string-append [] rest h = refl
c_string-append (c ∷ s) rest h =
    let other : (c == 0) ≡ false = ground arith in rw (other, c_string-append s rest h.1)

pub c_string-NoNul : (bs s : Bytes) → c_string bs ≡ some s → NoNul s × (length s < length bs)
unfolding c_string
c_string-NoNul [] s e = cc
c_string-NoNul (c ∷ bs) s e = elim (Option-cases (c_string bs)) [
  | inl none_there ↦ ground (arith, none_there)
  | inr (t, got) ↦ ground (arith, got, c_string-NoNul bs t got)
]

pub c_string-none : (bs : Bytes) → NoNul bs → c_string bs ≡ none
unfolding c_string
c_string-none [] h = refl
c_string-none (c ∷ bs) h =
    let other : (c == 0) ≡ false = ground arith in rw (other, c_string-none bs h.1)

NoNul-c_string : (bs : Bytes) → c_string bs ≡ none → NoNul bs
unfolding c_string
NoNul-c_string [] e = tt
NoNul-c_string (c ∷ bs) e = elim (Bool-cases (c == 0)) [
  | inl nul ↦ let f : ◌≡◌ {A = Option Bytes} (some []) none = rw (nul, c_string) at e in absurd (cc)
  | inr other ↦ elim (Option-cases (c_string bs)) [
    | inl bad ↦ (ground arith, NoNul-c_string bs bad)
    | inr (s, got) ↦
        let f : ◌≡◌ {A = Option Bytes} (some (c ∷ s)) none = rw (other, got, c_string) at e in
        absurd (cc)
  ]
]

-- A packet of any header with a given payload of the length that the header states.
abbrev pub Holds : Packet → Bytes → Type 0
Holds p bs = (p.payload ≡ bs) × (p.header.data_len ≡ length bs)

keep_lem : (s : Bytes) → s ≢ [] → keep false (some s) ≡ some s
unfolding keep
keep_lem [] n = absurd (n refl)
keep_lem (c ∷ s) n = refl

keep-eq-some : (r : Option Bytes) (s : Bytes) → keep false r ≡ some s → (r ≡ some s) × (s ≢ [])
unfolding keep
keep-eq-some none s e = cc
keep-eq-some (some []) s e = cc
keep-eq-some (some (c ∷ t)) s e = (e, λ (q : s ≡ []). cc)

-- A buffer of `suc k` bytes, the last of them NUL.
buffer_lem :
    (k : ℕ) (s : Bytes)
    → length s ≤ k
    → NoNul s
    → c_string (take k (s ++ 0 ∷ []) ++ 0 ∷ []) ≡ some s
unfolding c_string
buffer_lem zero [] short h = refl
buffer_lem zero (c ∷ s) short h = absurd (omega arith)
buffer_lem (suc k) [] short h = refl
buffer_lem (suc k) (c ∷ s) short h =
    let other : (c == 0) ≡ false = ground arith in rw (other, buffer_lem k s (omega arith) h.1)

buffer_bound :
    (k : ℕ) (bs s : Bytes) → c_string (take k bs ++ 0 ∷ []) ≡ some s → NoNul s × (length s ≤ k)
buffer_bound k bs s e =
    let (h, short) = c_string-NoNul (take k bs ++ 0 ∷ []) s e in
    (h, omega (arith, short, length-append (take k bs) (0 ∷ []), length-take k bs))

-- An argument that is not empty, has no NUL in it and is shorter than `PATH_MAX`, and that the client
-- puts into a payload with its NUL, is the one the server reads.
pub copy_string_payload_lem :
    (p : Packet) (arg : Bytes)
    → arg ≢ []
    → NoNul arg
    → length arg < path_max
    → Holds p (arg ++ 0 ∷ [])
    → copy_string_payload p path_max false ≡ some arg
unfolding copy_string_payload
copy_string_payload_lem p arg n h short (bytes, len) =
    let l = length-append arg (0 ∷ []) in
    let some_len : (p.header.data_len == 0) ≡ false = ground (arith, len, l) in
    let there : (length p.payload == 0) ≡ false = ground (arith, ap length bytes, l) in
    let fits : ltb path_max p.header.data_len ≡ false = ground (arith, len, l) in
    let read : c_string (take (path_max - 1) p.payload ++ 0 ∷ []) ≡ some arg =
      ap (λ (x : Bytes). c_string (take (path_max - 1) x ++ 0 ∷ [])) bytes
      ∙ buffer_lem (path_max - 1) arg (omega arith) h in
    rw (some_len, there, fits, read) (keep_lem arg n)

-- What the server takes as an argument is a string that fits its buffer and is not empty.
pub copy_string_payload-NoNul :
    (p : Packet) (arg : Bytes)
    → copy_string_payload p path_max false ≡ some arg
    → NoNul arg × (length arg < path_max) × (arg ≢ [])
unfolding copy_string_payload
copy_string_payload-NoNul p arg e = elim (Bool-cases (p.header.data_len == 0)) [
  | inl empty ↦ let f : none ≡ some arg = rw (empty, copy_string_payload) at e in cc
  | inr len ↦ elim (Bool-cases (length p.payload == 0 || ltb path_max p.header.data_len)) [
    | inl bad ↦ let f : none ≡ some arg = rw (len, bad, copy_string_payload) at e in cc
    | inr good ↦
        let f : keep false (c_string (take (path_max - 1) p.payload ++ 0 ∷ [])) ≡ some arg =
          rw (len, good, copy_string_payload) at e in
        let (g, n) = keep-eq-some _ arg f in
        let (h, short) = buffer_bound (path_max - 1) p.payload arg g in (h, omega arith, n)
  ]
]

pub length-store64 : (e : Endian) (v : ℕ) → length (store64 e v) ≡ 8
unfolding store64 store32
length-store64 Endian.little v = refl
length-store64 Endian.big v = refl

-- The name field of the structure, at full width.
abbrev name_field : Bytes → Bytes
name_field name = name ++ replicate (path_max - length name) 0

file_info_bytes_lem :
    (host : Host) (name : Bytes) (size : ℕ)
    → length name < path_max
    → file_info_bytes host name size
      ≡ name_field name ++ store64 host.endian (host_to_net_u64 host.endian size)
unfolding file_info_bytes
file_info_bytes_lem host name size short =
    ap (λ (x : Bytes). name_field x ++ store64 host.endian (host_to_net_u64 host.endian size))
      (take_all 4095 name (omega arith))

length-name_field : (name : Bytes) → length name < path_max → length (name_field name) ≡ path_max
length-name_field name short = omega (
  arith,
  length-append name (replicate (path_max - length name) 0),
  length-replicate {A = ℕ} (path_max - length name) 0,
)

pub length-file_info_bytes :
    (host : Host) (name : Bytes) (size : ℕ)
    → length name < path_max
    → length (file_info_bytes host name size) ≡ file_info_size
length-file_info_bytes host name size short =
    let tail = store64 host.endian (host_to_net_u64 host.endian size) in
    omega (
      arith,
      ap length (file_info_bytes_lem host name size short),
      length-append (name_field name) tail,
      length-name_field name short,
      length-store64 host.endian (host_to_net_u64 host.endian size),
    )

c_string-name_field :
    (k : ℕ) (name rest : Bytes)
    → NoNul name
    → 0 < k
    → c_string ((name ++ replicate k 0) ++ rest) ≡ some name
c_string-name_field zero name rest h p = absurd (omega arith)
c_string-name_field (suc k) name rest h p =
    unfold replicate in
    (ap c_string (append_assoc name (0 ∷ replicate k 0) rest)
      ∙ c_string-append name (replicate k 0 ++ rest) h)

-- The size that one side puts into a `file_info_payload_t` is the one that the other side reads.
pub file_info_bytes-size :
    (a b : Host) (name : Bytes) (size : ℕ)
    → a.endian ≡ b.endian
    → length name < path_max
    → size < 2 ^ 64
    → net_to_host_u64 a.endian (load64 a.endian (drop path_max (file_info_bytes b name size)))
      ≡ size
file_info_bytes-size a b name size same short range =
    let tail = store64 b.endian (host_to_net_u64 b.endian size) in
    ap (λ (x : Bytes). net_to_host_u64 a.endian (load64 a.endian x))
      (ap (drop path_max) (file_info_bytes_lem b name size short)
        ∙ drop-append_length path_max (name_field name) tail (length-name_field name short)
        ∙ sym (append-nil tail))
    ∙ ap (λ e. net_to_host_u64 e (load64 e (tail ++ []))) same
    ∙ net_to_host_u64-load64 b.endian size [] range

-- Between hosts of one byte order, for a name without a NUL that is shorter than `PATH_MAX` and a size
-- in 64 bits: the file name and the size that one side puts into a
-- `file_info_payload_t` are the ones that the other side takes out.
pub extract_file_info_lem :
    (a b : Host) (p : Packet) (name : Bytes) (size : ℕ)
    → a.endian ≡ b.endian
    → NoNul name
    → length name < path_max
    → size < 2 ^ 64
    → Holds p (file_info_bytes a name size)
    → extract_file_info b p path_max ≡ info name size
unfolding extract_file_info
extract_file_info_lem a b p name size same h short range (bytes, len) =
    let l = length-file_info_bytes a name size short in
    let tail = store64 a.endian (host_to_net_u64 a.endian size) in
    let there : (length p.payload == 0) ≡ false = ground (arith, ap length bytes, l) in
    let sized : (p.header.data_len == file_info_size) ≡ true = ground (arith, len, l) in
    let all : p.payload ≡ name_field name ++ tail = bytes ∙ file_info_bytes_lem a name size short in
    let read : c_string p.payload ≡ some name =
      ap c_string all ∙ c_string-name_field (path_max - length name) name tail h (omega arith) in
    let back : net_to_host_u64 b.endian (load64 b.endian (drop path_max p.payload)) ≡ size =
      ap (λ (x : Bytes). net_to_host_u64 b.endian (load64 b.endian x))
        (ap (drop path_max) all
          ∙ drop-append_length path_max (name_field name) tail (length-name_field name short)
          ∙ sym (append-nil tail))
      ∙ rw same (net_to_host_u64-load64 b.endian size [] range) in
    rw (there, sized, read) (λ i. info (take_all 4095 name (omega arith) i) (back i))

-- For a packet whose payload has the length that its header states, as `recv_packet` returns it:
-- `extract_file_info` reads past the end of the payload exactly when the payload has the size of a
-- `file_info_payload_t` and holds no NUL.
pub extract_file_info-past_end :
    (host : Host) (p : Packet) (sz : ℕ)
    → length p.payload ≡ p.header.data_len
    → (extract_file_info host p sz ≡ past_end)
      ↔ ((p.header.data_len ≡ file_info_size) × NoNul p.payload)
unfolding extract_file_info
extract_file_info-past_end host p sz filled =
    elim (Bool-cases (p.header.data_len == file_info_size)) [
      | inr other ↦
          let short : (length p.payload == 0 || not (p.header.data_len == file_info_size)) ≡ true =
            rw other (ground arith) in
          rw (short, extract_file_info) (λ e. cc, λ (len, h). absurd (ground (arith, len)))
      | inl sized ↦
          let len : p.header.data_len ≡ file_info_size = ground arith in
          let there : (length p.payload == 0) ≡ false = ground (arith, filled, len) in
          elim (Option-cases (c_string p.payload)) [
            | inl bad ↦
                rw (there, sized, bad, extract_file_info)
                  (λ e. (len, NoNul-c_string p.payload bad), λ h. refl)
            | inr (name, got) ↦
                rw (there, sized, got, extract_file_info)
                  (λ e. cc, λ (l, h). let f = c_string-none p.payload h in absurd (cc))
          ]
    ]

-- Between hosts of one byte order, an offset in 64 bits that one side puts into a `resume_payload_t` is the
-- one that the other side takes out.
pub extract_resume_offset_lem :
    (a b : Host) (p : Packet) (offset : ℕ)
    → a.endian ≡ b.endian
    → offset < 2 ^ 64
    → Holds p (store64 a.endian (host_to_net_u64 a.endian offset))
    → extract_resume_offset b p ≡ some offset
unfolding extract_resume_offset
extract_resume_offset_lem a b p offset same range (bytes, len) =
    let l = length-store64 a.endian (host_to_net_u64 a.endian offset) in
    let there : (length p.payload == 0) ≡ false = ground (arith, ap length bytes, l) in
    let sized : (p.header.data_len == resume_size) ≡ true = ground (arith, len, l) in
    rw (there, sized, bytes, same)
      (ap some (
        ap (λ (x : Bytes). net_to_host_u64 b.endian (load64 b.endian x)) (sym (append-nil _))
        ∙ net_to_host_u64-load64 b.endian offset [] range))

module _ {Disk : Type 0} (host : Host) (w : World Disk) where
  pub send_text_reply-frame :
      (t : CmdType) (s : Status) (msg : Bytes)
      → ((send_text_reply host w t s msg).1.disk ≡ w.disk)
        × ((send_text_reply host w t s msg).1.session ≡ w.session)
        × ((send_text_reply host w t s msg).1.conn.incoming ≡ w.conn.incoming)
  unfolding send_text_reply
  send_text_reply-frame t s msg = (refl, refl, send_packet-incoming host w.conn t s (msg ++ 0 ∷ []))
