-- ===== src/EndToEnd/Interrupted.antt =====
-- The receive loop of `handle_puts` in src/server/handle.c on an upload that is cut off.
use wind_cloud_v.Base.{
  ℕ, zero, suc, ◌+◌, ◌≤◌, ◌≡◌, refl, sym, ap, ◌∙◌, inl, inr, true, List, [], ◌∷◌, ◌++◌,
  append_assoc, Bytes, length, take, length-append, take-append_add, leb, arith,
}
use wind_cloud_v.Wire.Stream.{Conn}
use wind_cloud_v.Wire.Stream.Laws.{deliverable}
use wind_cloud_v.Wire.Types.{CmdType, Status, Host}
use wind_cloud_v.Wire.Packet.{recv_packet}
use wind_cloud_v.Wire.Packet.Framing.{packet_bytes}
use wind_cloud_v.Wire.Packet.Cut.{recv_packet-cut}
use wind_cloud_v.Wire.Packet.Blocks.{frames, concat, AllBlocks, HasMemory}
use wind_cloud_v.Server.Upload.Arriving.{arriving}
use wind_cloud_v.EndToEnd.Arrival.{end_bytes, data_is_data}

-- Bytes that are the first ones of others.
pub record Front (part whole : Bytes) : Type 0 where
  pub n : ℕ
  pub bound : n ≤ length whole
  pub same : part ≡ take n whole

pub none_of : (whole : Bytes) → Front [] whole
none_of whole = record { n = 0; bound = omega arith; same = refl }

-- What is taken of a stream of blocks that ends anywhere are the first bytes of the file.
pub arriving-cut :
    (host : Host) (fuel total offset : ℕ) (blocks : List Bytes) (c : Conn) (lost rest : Bytes)
    → HasMemory host
    → AllBlocks blocks
    → offset + length (concat blocks) ≤ total
    → deliverable c.incoming ++ lost ≡ frames blocks ++ (end_bytes ++ rest)
    → Front (arriving host fuel total offset c) (concat blocks)
unfolding arriving concat frames
arriving-cut host zero total offset blocks c lost rest mem all fits e = none_of (concat blocks)
arriving-cut host (suc fuel) total offset [] c lost rest mem all fits e =
    elim (recv_packet-cut host mem c CmdType.file_end Status.status_ok [] (omega arith) lost rest
      e) [
        | inl lack ↦ rw (lack, arriving) (none_of [])
        | inr (got, left) ↦ rw (got, arriving, data_is_data.1) (none_of [])
      ]
arriving-cut host (suc fuel) total offset (block ∷ blocks) c lost rest mem (some_byte, short, small)
      fits e =
    let long = length-append block (concat blocks) in
    let fit : leb (offset + length block) total ≡ true = ground (arith, long, fits) in
    elim (recv_packet-cut host mem c CmdType.file_data Status.status_ok block (omega arith) lost
      (frames blocks ++ (end_bytes ++ rest))
      (e
        ∙ append_assoc (packet_bytes CmdType.file_data Status.status_ok block) (frames blocks)
            (end_bytes ++ rest))) [
              | inl lack ↦ rw (lack, arriving) (none_of (block ++ concat blocks))
              | inr (got, left) ↦
                  let u =
                    arriving-cut host fuel total (offset + length block) blocks
                      (recv_packet host c).1 lost rest mem small (omega (arith, long, fits)) left in
                  rw (got, arriving, data_is_data.0, fit)
                    (record {
                      n = length block + u.n;
                      bound = omega (arith, long, u.bound);
                      same =
                          ap (λ (x : Bytes). block ++ x) u.same
                          ∙ sym
                              (take-append_add (length block + u.n) u.n block (concat blocks) refl);
                    })
            ]
