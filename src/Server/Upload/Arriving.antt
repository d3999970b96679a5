-- ===== src/Server/Upload/Arriving.antt =====
-- What an upload in src/server/handle.c brings: the payloads that arrive, and a file that takes them.
use wind_cloud_v.Base.{
  ℕ, zero, suc, ◌+◌, ◌≤◌, ◌≡◌, refl, Bool, true, ◌&&◌, Option, none, some, [], ◌∷◌, ◌++◌,
  append_assoc, Bytes, length, take, drop, length-append, length-take, length-drop,
  take-append_length, take-append-drop, leb, if◌then◌else◌, arith,
}
use wind_cloud_v.Wire.Stream.{Conn}
use wind_cloud_v.Wire.Types.{CmdType, is_cmd, Host}
use wind_cloud_v.Wire.Packet.{recv_packet}
use wind_cloud_v.Server.World.{overwrite, Posix, Here, Run, returns}

-- The payloads of the data packets that arrive one behind the other, up to the first packet of
-- another kind or one that does not fit below `total`.
unfoldable pub arriving : Host → ℕ → ℕ → ℕ → Conn → Bytes
arriving host zero total offset c = []
arriving host (suc fuel) total offset c =
    let (r, c') = recv_packet host c in
    elim r [
      | none ↦ []
      | some p ↦
          let next = offset + length p.payload in
          let more = arriving host fuel total next c' in
          if is_cmd p.header.cmd_type CmdType.file_data && leb next total
          then p.payload ++ more
          else []
    ]

pub empty_lem : (bs : Bytes) → length bs ≡ 0 → bs ≡ []
empty_lem [] h = refl
empty_lem (b ∷ bs) h = absurd (omega arith)

pub overwrite-nil : (off : ℕ) (bs : Bytes) → off ≤ length bs → overwrite off [] bs ≡ bs
overwrite-nil off bs h = let e : off + 0 ≡ off = omega arith in rw e (take-append-drop off bs)

module _ (off : ℕ) (new bs : Bytes) (fits : off + length new ≤ length bs) where
  pub length-overwrite : length (overwrite off new bs) ≡ length bs
  length-overwrite = omega (
    arith,
    length-append (take off bs) (new ++ drop (off + length new) bs),
    length-append new (drop (off + length new) bs),
    length-take off bs,
    length-drop (off + length new) bs,
  )

  -- Up to the end of what was written: the old bytes, then the new ones.
  pub take-overwrite : take (off + length new) (overwrite off new bs) ≡ take off bs ++ new
  take-overwrite = rw (← append_assoc (take off bs) new (drop (off + length new) bs)) (
      take-append_length (off + length new) (take off bs ++ new) (drop (off + length new) bs)
        (omega (arith, length-append (take off bs) new, length-take off bs)))

-- A file of `total` bytes of which those before `off` are settled: the old ones before `offset`, and
-- what came since.
pub record Settled (file : Option Bytes) (total offset off : ℕ) (old came : Bytes) : Type 0 where
  pub contents : Bytes
  pub there : file ≡ some contents
  pub size : length contents ≡ total
  pub front : take off contents ≡ take offset old ++ came
  pub reached : off ≡ offset + length came
  pub bound : off ≤ total

-- The loop ends; it reports success only when all bytes came.
pub record Uploaded (os : Posix) (path : Bytes) (total offset : ℕ) (old came : Bytes)
    (r : Run (Bool × ℕ × Here os)) : Type 0 where
  pub ok : Bool
  pub off : ℕ
  pub after : Here os
  pub result : r ≡ returns (ok, off, after)
  pub file : Settled (os.file after.disk path) total offset off old came
  pub complete : ok ≡ true → off ≡ total
