-- ===== src/Server/Memory.antt =====
-- A disk in memory: it does what the manual says of the system calls.
use wind_cloud_v.Base.{
  refl, ℕ, ◌≡◌, ◌≢◌, sym, ap, ◌∙◌, inl, inr, Bool, true, false, Bool-cases, Option, none, some, [],
  Bytes, length, equal, equal_iff, if◌then◌else◌,
}
use wind_cloud_v.Wire.Endian.{little}
use wind_cloud_v.Wire.Types.{Host}
use wind_cloud_v.Wire.Packet.Blocks.{HasMemory}
use wind_cloud_v.Server.World.{resize, overwrite, Documented, Posix, Local}

abbrev pub host : Host
host = record { endian = little; calloc = λ n. true }

-- The regular files of a disk whose directories all exist.
abbrev pub Files : Type 0
Files = Bytes → Option Bytes

abbrev pub put_file : Files → Bytes → Option Bytes → Files
put_file d p f q = if equal p q then f else d q

abbrev pub created : Option Bytes → Bytes
created none = []
created (some bs) = bs

abbrev pub size_of : Option Bytes → Option ℕ
size_of none = none
size_of (some bs) = some (length bs)

abbrev pub exists : Option Bytes → Bool
exists none = false
exists (some bs) = true

abbrev pub memory : Posix
memory = record {
  Disk = Files;
  file = λ d p. d p;
  opendir = λ d p. some [];
  remove = λ d p. some (put_file d p none);
  mkdir = λ d p. some d;
  open_create = λ d p. some (put_file d p (some (created (d p))));
  open_read = λ d p. exists (d p);
  fstat = λ d p. size_of (d p);
  ftruncate = λ d p n. some (put_file d p (some (resize n (created (d p)))));
  mmap = λ d p n. true;
  store = λ d p off new. put_file d p (some (overwrite off new (created (d p))));
}

pub put_file-other : (d : Files) (p q : Bytes) (f : Option Bytes) → q ≢ p → put_file d p f q ≡ d q
put_file-other d p q f n = elim (Bool-cases (equal p q)) [
  | inl same ↦ absurd (n (sym ((equal_iff p q).0 same)))
  | inr other ↦ rw other
]

memory_lem :
    (d d' : Files) (p q : Bytes) (f : Option Bytes)
    → some (put_file d p f) ≡ some d'
    → q ≢ p
    → d' q ≡ d q
memory_lem d d' p q f e n =
    let g : put_file d p f ≡ d' = cc in ap (λ (x : Files). x q) (sym g) ∙ put_file-other d p q f n

pub memory_local : Local memory
memory_local = record {
  remove-other = λ d d' p q e n. memory_lem d d' p q none e n;
  mkdir-other = λ d d' p q e n. let g : d ≡ d' = cc in ap (λ (x : Files). x q) (sym g);
  open_create-other = λ d d' p q e n. memory_lem d d' p q (some (created (d p))) e n;
  ftruncate-other = λ d d' p q k e n. memory_lem d d' p q (some (resize k (created (d p)))) e n;
  store-other =
      λ d p q off new n. put_file-other d p q (some (overwrite off new (created (d p)))) n;
}

pub put_file-same : (d : Files) (p : Bytes) (f : Option Bytes) → put_file d p f p ≡ f
put_file-same d p f = let e = (equal_iff p p).1 refl in rw e

memory_at :
    (d d' : Files) (p : Bytes) (f : Option Bytes) → some (put_file d p f) ≡ some d' → d' p ≡ f
memory_at d d' p f e =
    let g : put_file d p f ≡ d' = cc in ap (λ (x : Files). x p) (sym g) ∙ put_file-same d p f

pub memory_documented : Documented memory
memory_documented = record {
  open_create-file =
      λ d d' p e. (created (d p), memory_at d d' p _ e, λ old there. ap created there);
  fstat-file = λ d p bs there. ap size_of there;
  ftruncate-file = λ d d' p n bs there e.
      memory_at d d' p _ e ∙ ap (λ (x : Option Bytes). some (resize n (created x))) there;
  store-file = λ d p off new bs there fits.
      put_file-same d p _ ∙ ap (λ (x : Option Bytes). some (overwrite off new (created x))) there;
}

pub host_memory : HasMemory host
host_memory n = refl
