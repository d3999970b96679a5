-- ===== src/Server/World.antt =====
-- What a handler of src/server/handle.c works on: the session, the client's socket and the disk.
use wind_cloud_v.Base.{
  ℕ, suc, ◌+◌, ◌-◌, ◌<◌, ◌≡◌, ◌≢◌, Bool, true, Option, some, List, ◌++◌, Bytes, length, take, drop,
  replicate,
}
use wind_cloud_v.Wire.Stream.{Conn, pending}

-- `session_t` of include/protocol.h; the descriptor is the socket of the world below.
pub record Session : Type 0 where
  pub current_path : Bytes
  pub user_id : Option ℕ
  pub should_close : Bool

-- The content of a file after `ftruncate` to `n` bytes.
abbrev pub resize : ℕ → Bytes → Bytes
resize n bs = take n bs ++ replicate (n - length bs) 0

-- The content after `new` is written at `off`.
abbrev pub overwrite : ℕ → Bytes → Bytes → Bytes
overwrite off new bs = take off bs ++ (new ++ drop (off + length new) bs)

-- The system calls on files, by the path that was opened. `none` is the result -1 or NULL.
pub record Posix : Type 1 where
  pub Disk : Type 0
  -- the bytes of the regular file at a path
  pub file : Disk → Bytes → Option Bytes
  -- `opendir` and the names that `readdir` gives
  pub opendir : Disk → Bytes → Option (List Bytes)
  pub remove : Disk → Bytes → Option Disk
  pub mkdir : Disk → Bytes → Option Disk
  -- `open` with `O_RDWR | O_CREAT`, and with `O_RDONLY`
  pub open_create : Disk → Bytes → Option Disk
  pub open_read : Disk → Bytes → Bool
  -- the `st_size` of `fstat`
  pub fstat : Disk → Bytes → Option ℕ
  pub ftruncate : Disk → Bytes → ℕ → Option Disk
  -- whether a shared mapping of so many bytes is given
  pub mmap : Disk → Bytes → ℕ → Bool
  -- a write through the mapping, at an offset
  pub store : Disk → Bytes → ℕ → Bytes → Disk

-- What the system's manual says of these calls, as far as the server relies on it.
pub record Documented (os : Posix) : Type 0 where
  pub open_create-file :
      (d d' : os.Disk) (p : Bytes)
      → os.open_create d p ≡ some d'
      → (bs : Bytes) × (os.file d' p ≡ some bs)
        × ((old : Bytes) → os.file d p ≡ some old → bs ≡ old)
  pub fstat-file :
      (d : os.Disk) (p bs : Bytes) → os.file d p ≡ some bs → os.fstat d p ≡ some (length bs)
  pub ftruncate-file :
      (d d' : os.Disk) (p : Bytes) (n : ℕ) (bs : Bytes)
      → os.file d p ≡ some bs
      → os.ftruncate d p n ≡ some d'
      → os.file d' p ≡ some (resize n bs)
  pub store-file :
      (d : os.Disk) (p : Bytes) (off : ℕ) (new bs : Bytes)
      → os.file d p ≡ some bs
      → off + length new < suc (length bs)
      → os.file (os.store d p off new) p ≡ some (overwrite off new bs)

-- Each call touches only the path it is given.
pub record Local (os : Posix) : Type 0 where
  pub remove-other :
      (d d' : os.Disk) (p q : Bytes) → os.remove d p ≡ some d' → q ≢ p → os.file d' q ≡ os.file d q
  pub mkdir-other :
      (d d' : os.Disk) (p q : Bytes) → os.mkdir d p ≡ some d' → q ≢ p → os.file d' q ≡ os.file d q
  pub open_create-other :
      (d d' : os.Disk) (p q : Bytes)
      → os.open_create d p ≡ some d'
      → q ≢ p
      → os.file d' q ≡ os.file d q
  pub ftruncate-other :
      (d d' : os.Disk) (p q : Bytes) (n : ℕ)
      → os.ftruncate d p n ≡ some d'
      → q ≢ p
      → os.file d' q ≡ os.file d q
  pub store-other :
      (d : os.Disk) (p q : Bytes) (off : ℕ) (new : Bytes)
      → q ≢ p
      → os.file (os.store d p off new) q ≡ os.file d q

pub record World (Disk : Type 0) : Type 0 where
  pub disk : Disk
  pub conn : Conn
  pub session : Session

-- The world over a given system.
abbrev pub Here : Posix → Type 0
Here os = World os.Disk

-- `session->should_close = 1`.
abbrev pub closing : {Disk : Type 0} → World Disk → World Disk
closing w = record w { session = record (w.session) { should_close = true } }

-- How a handler ends. `overread`: it reads past the end of an allocated block. `out_of_fuel` is the
-- model's own.
pub data Run {ℓ} (A : Type ℓ) : Type ℓ where
  returns : A → Run A
  overread : Run A
  out_of_fuel : Run A

infixl 5 ◌>>=◌
abbrev pub ◌>>=◌ {ℓ κ} : {A : Type ℓ} {B : Type κ} → Run A → (A → Run B) → Run B
returns a >>= f = f a
overread >>= f = overread
out_of_fuel >>= f = out_of_fuel

-- The state that a handler leaves, or the one it began with where it does not return.
abbrev pub left_by {ℓ} : {A : Type ℓ} → A → Run (Bool × A) → A
left_by a (returns r) = r.1
left_by a overread = a
left_by a out_of_fuel = a

-- A bound on the rounds of a loop that receives a packet in each: the bytes that can arrive.
abbrev pub rounds : Conn → ℕ
rounds c = suc (pending c.incoming)
