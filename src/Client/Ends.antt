-- ===== src/Client/Ends.antt =====
-- The commands of src/client/client_command_handle.c against what they may change on the client's disk.
use wind_cloud_v.Base.{
  ℕ, zero, suc, ◌+◌, ◌≤◌, ◌<◌, ◌≡◌, ◌≢◌, refl, sym, ap, subst, ◌∙◌, inl, inr, Bool, true, false,
  not, ◌||◌, ◌==◌, Bool-cases, Option, none, some, Option-cases, [], ◌∷◌, ◌++◌, Bytes, ltb, arith,
}
use wind_cloud_v.Wire.Stream.{pending}
use wind_cloud_v.Wire.Types.{CmdType, is_cmd, Status, Packet, Host}
use wind_cloud_v.Wire.Packet.{send_packet, recv_packet}
use wind_cloud_v.Wire.Packet.Framing.{recv_packet-pending, taken_packet}
use wind_cloud_v.Wire.Command.{Request, build_command_request}
use wind_cloud_v.Server.World.{Posix, Local, Run, returns, overread, out_of_fuel, ◌>>=◌, rounds}
use wind_cloud_v.Server.Reply.{file_info_size}
use wind_cloud_v.Wire.Endian.{store64, host_to_net_u64}
use wind_cloud_v.Client.World.{Calls, Written, Mine}
use wind_cloud_v.Client.Simple.{handle_simple_command}
use wind_cloud_v.Client.Download.{
  size_or_zero, write_n, gets_blocks, gets_end, gets_from, gets_open, gets_answer, handle_gets,
}
use wind_cloud_v.Client.Process.{run_request, process_command}
use wind_cloud_v.Client.Idle.{Idle, print-Idle, handle_simple_command-Idle, handle_puts-Idle}

-- A command that ends, and leaves the file at a path as it was.
abbrev pub Ends : (os : Posix) → Bytes → Mine os → Run (Bool × Mine os) → Type 0
Ends os q c (returns r) = os.file r.1.disk q ≡ os.file c.disk q
Ends os q c overread = Unit
Ends os q c out_of_fuel = ⊥

-- The path at which a request may change the client's disk.
abbrev pub target : Option Request → Option Bytes
target none = none
target (some req) = by_type req.type
  where
    by_type : CmdType → Option Bytes
    by_type CmdType.gets_req = some req.arg
    by_type _ = none

Idle-Ends :
    (os : Posix) (q : Bytes) (c : Mine os) (r : Run (Bool × Mine os)) → Idle c r → Ends os q c r
Idle-Ends os q c (returns r) h = ap (λ d. os.file d q) h
Idle-Ends os q c overread h = tt
Idle-Ends os q c out_of_fuel h = h

Ends-trans :
    (os : Posix) (q : Bytes) (b c : Mine os) (r : Run (Bool × Mine os))
    → os.file c.disk q ≡ os.file b.disk q
    → Ends os q c r
    → Ends os q b r
Ends-trans os q b c (returns r) h k = k ∙ h
Ends-trans os q b c overread h k = tt
Ends-trans os q b c out_of_fuel h k = k

module _ (host : Host) (os : Posix) (calls : Calls os) (loc : Local os) (doc : Written os calls)
    (path q : Bytes) (n : q ≢ path) where
  gets_blocks-Ends :
      (fuel local_size : ℕ) (c : Mine os)
      → pending c.conn.incoming < fuel
      → Ends os q c (gets_blocks host os calls fuel path local_size c)
  unfolding gets_blocks write_n
  gets_blocks-Ends zero local_size c f = absurd (omega arith)
  gets_blocks-Ends (suc fuel) local_size c f =
      let conn = (recv_packet host c.conn).1 in
      let c' = record c { conn = conn } in
      elim (Option-cases (recv_packet host c.conn).0) [
        | inl bad ↦ rw (bad, gets_blocks) (refl)
        | inr (p, got) ↦
            let spent : pending conn.incoming + 20 ≤ pending c.conn.incoming =
              subst (λ r. pending conn.incoming + taken_packet r ≤ pending c.conn.incoming) got
                (recv_packet-pending host c.conn) in
            let w = (write_n host os calls c' path local_size p.payload).1 in
            let other = doc.write-other c'.disk path q local_size _ n in
            elim (Bool-cases (is_cmd p.header.cmd_type CmdType.file_end)) [
              | inl stop ↦ rw (got, gets_blocks, stop) (refl)
              | inr more ↦ elim (Bool-cases (is_cmd p.header.cmd_type CmdType.error)) [
                | inl bad ↦
                    rw (got, gets_blocks, more, bad) (Idle-Ends os q c _ (print-Idle false p c'))
                | inr good ↦ elim (Bool-cases (is_cmd p.header.cmd_type CmdType.file_data)) [
                  | inr strange ↦ rw (got, gets_blocks, more, good, strange) (refl)
                  | inl file ↦
                      rw (got, gets_blocks, more, good, file)
                        (elim (Bool-cases (write_n host os calls c' path local_size p.payload).0) [
                          | inr short ↦ rw short other
                          | inl ok ↦ rw ok (
                              Ends-trans os q c w _ other
                                (gets_blocks-Ends fuel _ w (omega (arith, f, spent))))
                        ])
                ]
              ]
            ]
      ]

  gets_from-Ends :
      (c : Mine os) (server_size local_size : ℕ)
      → Ends os q c (gets_from host os calls c path server_size local_size)
  unfolding gets_from gets_end
  gets_from-Ends c server_size local_size =
      let (ok, conn) =
        send_packet host c.conn CmdType.resume_pos Status.status_ok
          (store64 host.endian (host_to_net_u64 host.endian local_size)) in
      let c' = record c { conn = conn } in
      elim (Bool-cases (calls.lseek c.disk path local_size)) [
        | inr bad ↦ rw (bad, gets_from) refl
        | inl set ↦ elim (Bool-cases ok) [
          | inr bad ↦ rw (set, bad, gets_from) refl
          | inl sent ↦
              rw (set, sent, gets_from)
                (said c' (gets_blocks host os calls (rounds conn) path local_size c')
                  (gets_blocks-Ends (rounds conn) local_size c' (omega arith)))
        ]
      ]
    where
      said :
          (c' : Mine os) (r : Run (Bool × Mine os))
          → Ends os q c' r
          → Ends os q c' (r >>= (λ x. returns (gets_end host os calls path server_size x)))
      said c' (returns (true, d)) h = h
      said c' (returns (false, d)) h = h
      said c' overread h = tt
      said c' out_of_fuel h = h

  gets_open-Ends :
      (c : Mine os) (server_size : ℕ) → Ends os q c (gets_open host os calls c path server_size)
  unfolding gets_open
  gets_open-Ends c server_size =
      let local_size = size_or_zero (os.fstat c.disk path) in
      elim (Bool-cases (ltb server_size local_size)) [
        | inr fits ↦ rw (fits, gets_open) (gets_from-Ends c server_size local_size)
        | inl longer ↦ elim (Option-cases (os.ftruncate c.disk path 0)) [
          | inl bad ↦ rw (longer, bad, gets_open) refl
          | inr (d, cut) ↦
              let c' = record c { disk = d } in
              rw (longer, cut, gets_open)
                (Ends-trans os q c c' _ (loc.ftruncate-other c.disk d path q 0 cut n)
                  (gets_from-Ends c' server_size 0))
        ]
      ]

  gets_answer-Ends : (c : Mine os) (p : Packet) → Ends os q c (gets_answer host os calls c path p)
  unfolding gets_answer
  gets_answer-Ends c p = elim (Bool-cases (is_cmd p.header.cmd_type CmdType.error)) [
    | inl refused ↦ rw (refused, gets_answer) (Idle-Ends os q c _ (print-Idle false p c))
    | inr other ↦
        elim (Bool-cases (
          not (is_cmd p.header.cmd_type CmdType.gets_resp)
          || not (p.header.data_len == file_info_size))) [
            | inl strange ↦ rw (other, strange, gets_answer) refl
            | inr told ↦ elim (Option-cases (os.open_create c.disk path)) [
              | inl bad ↦ rw (other, told, bad, gets_answer) refl
              | inr (d, made) ↦
                  let c' = record c { disk = d } in
                  rw (other, told, made, gets_answer)
                    (Ends-trans os q c c' _ (loc.open_create-other c.disk d path q made n)
                      (gets_open-Ends c' _))
            ]
          ]
  ]

  handle_gets-Ends : (c : Mine os) → Ends os q c (handle_gets host os calls c path)
  unfolding handle_gets
  handle_gets-Ends c =
      let (ok, conn) = send_packet host c.conn CmdType.gets_req Status.status_ok (path ++ 0 ∷ []) in
      elim (Bool-cases ok) [
        | inr bad ↦ rw (bad, handle_gets) refl
        | inl sent ↦ elim (Option-cases (recv_packet host conn).0) [
          | inl bad ↦ rw (sent, bad, handle_gets) refl
          | inr (p, got) ↦
              rw (sent, got, handle_gets)
                (gets_answer-Ends (record c { conn = (recv_packet host conn).1 }) p)
        ]
      ]

module _ (host : Host) (os : Posix) (calls : Calls os) (loc : Local os) (doc : Written os calls)
    (q : Bytes) where
  simple-Ends : (c : Mine os) (r : Request) → Ends os q c (handle_simple_command host c r)
  simple-Ends c r = Idle-Ends os q c _ (handle_simple_command-Idle host c r)

  run_request-Ends :
      (c : Mine os) (type : CmdType) (arg : Bytes)
      → target (some (record { type = type; arg = arg })) ≢ some q
      → Ends os q c (run_request host os calls c type arg)
  unfolding run_request
  run_request-Ends c CmdType.pwd arg n = simple-Ends c _
  run_request-Ends c CmdType.cd arg n = simple-Ends c _
  run_request-Ends c CmdType.ls arg n = simple-Ends c _
  run_request-Ends c CmdType.rm arg n = simple-Ends c _
  run_request-Ends c CmdType.mkdir arg n = simple-Ends c _
  run_request-Ends c CmdType.puts_req [] n = refl
  run_request-Ends c CmdType.puts_req (b ∷ bs) n =
      Idle-Ends os q c _ (handle_puts-Idle host os calls (b ∷ bs) c)
  run_request-Ends c CmdType.gets_req [] n = refl
  run_request-Ends c CmdType.gets_req (b ∷ bs) n =
      handle_gets-Ends host os calls loc doc (b ∷ bs) q (λ e. n (ap some (sym e))) c
  run_request-Ends c _ arg n = refl

  -- Whatever the line and whatever the server sends, a command of the client comes to its end, if
  -- only at a read behind a buffer, and leaves every file of the client as it was but the one that
  -- a `gets` names, where the calls of the file system touch only the path they are given.
  pub process_command-Ends :
      (c : Mine os) (input : Bytes)
      → target (build_command_request input) ≢ some q
      → Ends os q c (process_command host os calls c input)
  unfolding process_command
  process_command-Ends c input n = elim (Option-cases (build_command_request input)) [
    | inl bad ↦ rw (bad, process_command) refl
    | inr (req, got) ↦
        rw (got, process_command)
          (run_request-Ends c req.type req.arg (subst (λ r. target r ≢ some q) got n))
  ]
