-- ===== src/Client/World.antt =====
-- What a command of src/client/client_command_handle.c works on: the client's disk, its socket, and
-- what it prints.
use wind_cloud_v.Base.{ℕ, ◌≤◌, ◌≡◌, ◌≢◌, Bool, none, some, List, [], ◌∷◌, ◌++◌, Bytes, length}
use wind_cloud_v.Wire.Stream.{Outcome, Conn, Room}
use wind_cloud_v.Wire.Types.{Packet}
use wind_cloud_v.Server.World.{overwrite, Posix, Run, returns, overread}
use wind_cloud_v.Server.Reply.{c_string}

-- The calls on an open file that only the client makes, by the path that was opened.
pub record Calls (os : Posix) : Type 0 where
  -- whether the position can be set
  pub lseek : os.Disk → Bytes → ℕ → Bool
  -- bytes that a `write` took, at the position
  pub write : os.Disk → Bytes → ℕ → Bytes → os.Disk

-- What the manual says of them.
pub record Written (os : Posix) (calls : Calls os) : Type 0 where
  pub write-file :
      (d : os.Disk) (p : Bytes) (pos : ℕ) (new bs : Bytes)
      → os.file d p ≡ some bs
      → pos ≤ length bs
      → os.file (calls.write d p pos new) p ≡ some (overwrite pos new bs)
  pub write-other :
      (d : os.Disk) (p q : Bytes) (pos : ℕ) (new : Bytes)
      → q ≢ p
      → os.file (calls.write d p pos new) q ≡ os.file d q

-- What a command prints on the standard output.
pub data Line : Type 0 where
  text : Bytes → Line
  uploaded : Bytes → Line
  downloaded : Bytes → ℕ → Line

-- `reads` is how much the kernel gives at each `read` of a file, and then all that was asked for;
-- `writes` is the same for `write` to a file.
pub record Client (Disk : Type 0) : Type 0 where
  pub disk : Disk
  pub conn : Conn
  pub reads : List (Outcome ℕ)
  pub writes : Room
  pub printed : List Line

-- The client over a given system.
abbrev pub Mine : Posix → Type 0
Mine os = Client os.Disk

abbrev pub say : {Disk : Type 0} → Line → Client Disk → Client Disk
say line c = record c { printed = c.printed ++ line ∷ [] }

-- `print_text_from_packet`: the payload is printed up to a NUL, which need not be in it.
abbrev pub print_text : {Disk : Type 0} → Bytes → Client Disk → Run (Client Disk)
print_text [] c = returns c
print_text (b ∷ bs) c = elim (c_string (b ∷ bs)) [
  | none ↦ overread
  | some s ↦ returns (say (text s) c)
]

unfoldable pub print_text_from_packet : {Disk : Type 0} → Packet → Client Disk → Run (Client Disk)
print_text_from_packet p c = print_text p.payload c
