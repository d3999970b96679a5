-- ===== src/Server/Reply/Tests.antt =====
-- Payloads as a client fills them in, taken apart by the server.
use wind_cloud_v.Base.{
  ◌↔◌, zero, suc, length-replicate, replicate, ℕ, ◌≡◌, ◌≢◌, refl, true, false, some, [], ◌∷◌, ◌++◌,
  Bytes, length, replicate, codes, arith,
}
use wind_cloud_v.Wire.Endian.{little, store64, host_to_net_u64}
use wind_cloud_v.Wire.Types.{path_max, CmdType, Status, Packet, Host}
use wind_cloud_v.Wire.Packet.{header_of}
use wind_cloud_v.Server.Reply.{
  file_info_bytes, past_end, copy_string_payload, extract_file_info, file_info_size,
}
use wind_cloud_v.Server.Reply.Laws.{NoNul, copy_string_payload_lem, extract_file_info-past_end}

abbrev host : Host
host = record { endian = little; calloc = λ n. true }

abbrev packet : CmdType → Bytes → Packet
packet t payload = record {
  header = header_of t Status.status_ok (length payload);
  payload = payload;
}

-- `rm a`.
abbrev rm_a : Packet
rm_a = packet CmdType.rm (codes "a" ++ 0 ∷ [])

a_NoNul : NoNul (codes "a")
a_NoNul = (λ e. omega arith, tt)

copied : copy_string_payload rm_a path_max false ≡ some (codes "a")
copied = copy_string_payload_lem rm_a (codes "a") (λ e. cc) a_NoNul (omega arith) (refl, refl)

-- `puts a` of 5000000000 bytes.
abbrev puts_a : Packet
puts_a = packet CmdType.puts_req (file_info_bytes host (codes "a") 5000000000)

abbrev resume : Packet
resume = packet CmdType.resume_pos (store64 little (host_to_net_u64 little 5000000000))

replicate-NoNul : (n c : ℕ) → c ≢ 0 → NoNul (replicate n c)
unfolding replicate
replicate-NoNul zero c h = tt
replicate-NoNul (suc n) c h = (h, replicate-NoNul n c h)

-- A name that fills the whole structure.
abbrev endless : Packet
endless = record {
  header = header_of CmdType.puts_req Status.status_ok file_info_size;
  payload = replicate file_info_size b'a';
}

-- Its payload is read past its end.
endless-past_end : extract_file_info host endless path_max ≡ past_end
endless-past_end =
    (extract_file_info-past_end host endless path_max (length-replicate file_info_size b'a')).1
      (refl, replicate-NoNul file_info_size b'a' (λ e. omega arith))

extract_file_info-past_end_example :
    (extract_file_info host endless path_max ≡ past_end)
    ↔ ((endless.header.data_len ≡ file_info_size) × NoNul (endless.payload))
extract_file_info-past_end_example =
    extract_file_info-past_end host endless path_max (length-replicate file_info_size b'a')
