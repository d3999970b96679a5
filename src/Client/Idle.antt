-- ===== src/Client/Idle.antt =====
-- The commands of src/client/client_command_handle.c that leave the client's disk alone: all but a
-- download.
use wind_cloud_v.Base.{
  ℕ, zero, suc, ◌+◌, ◌%◌, ◌^◌, ◌≤◌, ◌<◌, ◌≡◌, refl, ap, ◌∙◌, inl, inr, Bool, true, false, not, ◌||◌,
  ◌==◌, Bool-cases, Option-cases, List, [], ◌∷◌, Bytes, length, take, drop, length-drop,
  length-take, min, ltb, if◌then◌else◌, arith,
}
use wind_cloud_v.Wire.Stream.{Outcome, interrupted, failed, moved}
use wind_cloud_v.Wire.Types.{file_block_size, CmdType, is_cmd, Status, Packet, Host}
use wind_cloud_v.Wire.Packet.{send_packet, recv_packet}
use wind_cloud_v.Wire.Command.{Request}
use wind_cloud_v.Server.World.{Posix, Run, returns, overread, out_of_fuel, ◌>>=◌}
use wind_cloud_v.Server.Reply.{c_string, file_info_bytes, resume_size}
use wind_cloud_v.Wire.Endian.{load64, net_to_host_u64}
use wind_cloud_v.Client.World.{
  Calls, uploaded, say, Client, Mine, print_text, print_text_from_packet,
}
use wind_cloud_v.Client.Simple.{
  text_response, recv_text_response, simple_payload, handle_simple_command,
}
use wind_cloud_v.Client.Upload.{
  read, puts_blocks, puts_end, puts_from, puts_answer, puts_request, handle_puts,
}

-- A command that ends, and leaves the disk alone.
abbrev pub Idle : {Disk : Type 0} → Client Disk → Run (Bool × Client Disk) → Type 0
Idle c (returns r) = r.1.disk ≡ c.disk
Idle c overread = Unit
Idle c out_of_fuel = ⊥

-- The outcomes of a `read`.
data Kind (r : Outcome Bytes) : Type 0 where
  again : r ≡ interrupted → Kind r
  broken : r ≡ failed → Kind r
  ended : r ≡ moved [] → Kind r
  block : (b : ℕ) (bs : Bytes) → r ≡ moved (b ∷ bs) → Kind r

Outcome-cases : (r : Outcome Bytes) → Kind r
Outcome-cases interrupted = again refl
Outcome-cases failed = broken refl
Outcome-cases (moved []) = ended refl
Outcome-cases (moved (b ∷ bs)) = block b bs refl

read-again :
    (rest : Bytes) (reads : List (Outcome ℕ))
    → (read rest reads).0 ≡ interrupted
    → suc (length (read rest reads).1) ≤ length reads
unfolding read
read-again rest [] e = cc
read-again rest (interrupted ∷ rs) e = omega arith
read-again rest (failed ∷ rs) e = cc
read-again rest (moved k ∷ rs) e = cc

-- A block is no longer than what is left.
read-block :
    (rest : Bytes) (reads : List (Outcome ℕ)) (b : ℕ) (bs : Bytes)
    → (read rest reads).0 ≡ moved (b ∷ bs)
    → (length (b ∷ bs) ≤ length rest) × (length (read rest reads).1 ≤ length reads)
unfolding read
read-block rest [] b bs e =
    let f : take file_block_size rest ≡ b ∷ bs = cc in
    (omega (arith, ap length f, length-take file_block_size rest), omega arith)
read-block rest (interrupted ∷ rs) b bs e = cc
read-block rest (failed ∷ rs) b bs e = cc
read-block rest (moved k ∷ rs) b bs e =
    let f : take (min k file_block_size) rest ≡ b ∷ bs = cc in
    (omega (arith, ap length f, length-take (min k file_block_size) rest), omega arith)

module _ {Disk : Type 0} where
  pub if-Idle :
      (c : Client Disk) (b : Bool) (r s : Run (Bool × Client Disk))
      → Idle c r
      → Idle c s
      → Idle c (if b then r else s)
  if-Idle c true r s h k = h
  if-Idle c false r s h k = k

  pub print-Idle :
      (ok : Bool) (p : Packet) (c : Client Disk)
      → Idle c (print_text_from_packet p c >>= (λ c'. returns (ok, c')))
  unfolding print_text_from_packet
  print-Idle ok p c = print_text-Idle p.payload
    where
      print_text-Idle : (bs : Bytes) → Idle c (print_text bs c >>= (λ c'. returns (ok, c')))
      print_text-Idle [] = refl
      print_text-Idle (b ∷ bs) = elim (Option-cases (c_string (b ∷ bs))) [
        | inl bad ↦ rw (bad, Idle) tt
        | inr (s, got) ↦ rw (got, Idle) refl
      ]

  module _ (host : Host) where
    recv_text_response-Idle : (c : Client Disk) → Idle c (recv_text_response host c)
    unfolding recv_text_response text_response
    recv_text_response-Idle c = elim (Option-cases (recv_packet host c.conn).0) [
      | inl bad ↦ rw (bad, recv_text_response) refl
      | inr (p, got) ↦
          let c' = record c { conn = (recv_packet host c.conn).1 } in
          rw (got, recv_text_response)
            (if-Idle c' _ (returns (false, c')) _ refl (print-Idle true p c'))
    ]

    pub handle_simple_command-Idle :
        (c : Client Disk) (r : Request) → Idle c (handle_simple_command host c r)
    unfolding handle_simple_command
    handle_simple_command-Idle c r =
        let conn = (send_packet host c.conn r.type Status.status_ok (simple_payload r.arg)).1 in
        if-Idle c _ (returns (false, record c { conn = conn })) _ refl
          (recv_text_response-Idle (record c { conn = conn }))

    puts_blocks-Idle :
        (fuel file_size offset : ℕ) (rest : Bytes) (c : Client Disk)
        → length c.reads + length rest < fuel
        → Idle c (puts_blocks host fuel file_size offset rest c)
    unfolding puts_blocks
    puts_blocks-Idle zero file_size offset rest c f = absurd (omega arith)
    puts_blocks-Idle (suc fuel) file_size offset rest c f =
        let c' = record c { reads = (read rest c.reads).1 } in
        if-Idle c (not (ltb offset file_size)) (returns (true, c)) _ refl
          (elim (Outcome-cases (read rest c.reads).0) [
            | again e ↦ rw e (
                puts_blocks-Idle fuel file_size offset rest c'
                  (omega (arith, f, read-again rest c.reads e)))
            | broken e ↦ rw e refl
            | ended e ↦ rw e refl
            | block b bs e ↦
                let n = length (b ∷ bs) in
                let conn =
                  (send_packet host c.conn CmdType.file_data Status.status_ok (b ∷ bs)).1 in
                rw e (
                  if-Idle c _ (returns (false, record c' { conn = conn })) _ refl (
                    puts_blocks-Idle fuel file_size ((offset + n) % 2 ^ 64) (drop n rest)
                      (record c' { conn = conn })
                      (omega (arith, f, read-block rest c.reads b bs e, length-drop n rest))))
          ])

    pub bind-Idle :
        (c : Client Disk) (r : Run (Bool × Client Disk))
        (next : Bool × Client Disk → Run (Bool × Client Disk))
        → Idle c r
        → ((x : Bool × Client Disk) → Idle x.1 (next x))
        → Idle c (r >>= next)
    bind-Idle c (returns x) next h k = Idle-trans c (next x) h (k x)
      where
        Idle-trans :
            (b : Client Disk) (r : Run (Bool × Client Disk))
            → x.1.disk ≡ b.disk
            → Idle x.1 r
            → Idle b r
        Idle-trans b (returns y) h k = k ∙ h
        Idle-trans b overread h k = tt
        Idle-trans b out_of_fuel h k = k
    bind-Idle c overread next h k = tt
    bind-Idle c out_of_fuel next h k = h

    puts_end-Idle : (base : Bytes) (x : Bool × Client Disk) → Idle x.1 (puts_end host base x)
    unfolding puts_end
    puts_end-Idle base (false, c) = refl
    puts_end-Idle base (true, c) =
        let c' = record c {
          conn = (send_packet host c.conn CmdType.file_end Status.status_ok []).1;
        } in
        if-Idle c _ (returns (false, c')) _ refl (
          bind-Idle c (recv_text_response host c') _ (recv_text_response-Idle c')
            (λ (done, d). said done d))
      where
        said :
            (done : Bool) (d : Client Disk)
            → (if done then say (uploaded base) d else d).disk ≡ d.disk
        said true d = refl
        said false d = refl

module _ (host : Host) (os : Posix) (calls : Calls os) (path : Bytes) where
  puts_from-Idle :
      (c : Mine os) (base : Bytes) (file_size offset : ℕ)
      → Idle c (puts_from host os calls c path base file_size offset)
  unfolding puts_from
  puts_from-Idle c base file_size offset = if-Idle c _ (returns (false, c)) _ refl (
      bind-Idle host c _ (puts_end host base)
        (puts_blocks-Idle host _ file_size _ _ c (omega arith)) (puts_end-Idle host base))

  puts_answer-Idle :
      (c : Mine os) (base : Bytes) (file_size : ℕ) (p : Packet)
      → Idle c (puts_answer host os calls c path base file_size p)
  unfolding puts_answer
  puts_answer-Idle c base file_size p = elim (Bool-cases (is_cmd p.header.cmd_type CmdType.error)) [
    | inl refused ↦ rw (refused, puts_answer) (print-Idle false p c)
    | inr other ↦
        rw (other, puts_answer)
          (if-Idle c
            (not (is_cmd p.header.cmd_type CmdType.puts_resp)
              || not (p.header.data_len == resume_size))
            (returns (false, c)) _ refl
            (puts_from-Idle c base file_size
              (net_to_host_u64 host.endian (load64 host.endian p.payload))))
  ]

  puts_request-Idle :
      (c : Mine os) (base : Bytes) (file_size : ℕ)
      → Idle c (puts_request host os calls c path base file_size)
  unfolding puts_request
  puts_request-Idle c base file_size =
      let (ok, conn) =
        send_packet host c.conn CmdType.puts_req Status.status_ok
          (file_info_bytes host base file_size) in
      elim (Bool-cases ok) [
        | inr bad ↦ rw (bad, puts_request) refl
        | inl sent ↦ elim (Option-cases (recv_packet host conn).0) [
          | inl bad ↦ rw (sent, bad, puts_request) refl
          | inr (p, got) ↦
              rw (sent, got, puts_request)
                (puts_answer-Idle (record c { conn = (recv_packet host conn).1 }) base file_size p)
        ]
      ]

  pub handle_puts-Idle : (c : Mine os) → Idle c (handle_puts host os calls c path)
  unfolding handle_puts
  handle_puts-Idle c = elim (Bool-cases (os.open_read c.disk path)) [
    | inr bad ↦ rw (bad, handle_puts) refl
    | inl ok ↦ elim (Option-cases (os.fstat c.disk path)) [
      | inl bad ↦ rw (ok, bad, handle_puts) refl
      | inr (n, got) ↦ rw (ok, got, handle_puts) (puts_request-Idle c _ n)
    ]
  ]
