-- ===== src/Server/Request/Laws.antt =====
-- `dispatch_command` and `handle_request` against what a step may change.
use wind_cloud_v.Base.{
  ℕ, zero, suc, ◌+◌, ◌≤◌, ◌<◌, subst, inl, inr, Bool, true, false, not, ◌&&◌, Option, some,
  Option-cases, Bool-cases, Bytes, if◌then◌else◌, arith,
}
use wind_cloud_v.Wire.Stream.{pending}
use wind_cloud_v.Wire.Types.{path_max, CmdType, cmd_of, Packet, Host}
use wind_cloud_v.Wire.Packet.{recv_packet}
use wind_cloud_v.Wire.Packet.Framing.{taken_packet, recv_packet-pending}
use wind_cloud_v.Server.World.{
  Posix, Here, closing, Run, returns, overread, out_of_fuel, ◌>>=◌, rounds,
}
use wind_cloud_v.Server.Reply.{copy_string_payload}
use wind_cloud_v.Server.Effect.{
  Effect, Effect-refl, Effect-trans, Effect-closing, Keeps, send_text_reply-Effect,
  recv_packet-Effect,
}
use wind_cloud_v.Server.Commands.Laws.{
  handle_pwd-Effect, handle_ls-Effect, handle_cd-Effect, handle_rm-Effect, handle_mkdir-Effect,
}
use wind_cloud_v.Server.Upload.Laws.{handle_puts-Keeps}
use wind_cloud_v.Server.Download.Laws.{handle_gets-Keeps}
use wind_cloud_v.Server.Request.{with_arg, dispatch, dispatch_command, request_loop, handle_request}

module _ (host : Host) (os : Posix) where
  with_arg-Keeps :
      (w : Here os) (p : Packet) (missing : Bytes) (handle : Bytes → Run (Bool × Here os))
      → ((arg : Bytes) → Keeps os w (handle arg))
      → Keeps os w (with_arg host os w p missing handle)
  unfolding with_arg
  with_arg-Keeps w p missing handle k = elim (Option-cases (copy_string_payload p path_max false)) [
    | inl bad ↦ rw (bad, with_arg) (send_text_reply-Effect host w _ _ _)
    | inr (arg, got) ↦ rw (got, with_arg) (k arg)
  ]

  dispatch-Keeps :
      (t : Option CmdType) (w : Here os) (p : Packet) → Keeps os w (dispatch host os t w p)
  unfolding dispatch
  dispatch-Keeps (some CmdType.pwd) w p = handle_pwd-Effect host os w
  dispatch-Keeps (some CmdType.ls) w p = handle_ls-Effect host os w
  dispatch-Keeps (some CmdType.cd) w p = with_arg-Keeps w p _ _ (handle_cd-Effect host os w)
  dispatch-Keeps (some CmdType.rm) w p = with_arg-Keeps w p _ _ (handle_rm-Effect host os w)
  dispatch-Keeps (some CmdType.mkdir) w p = with_arg-Keeps w p _ _ (handle_mkdir-Effect host os w)
  dispatch-Keeps (some CmdType.puts_req) w p = handle_puts-Keeps host os w p
  dispatch-Keeps (some CmdType.gets_req) w p = with_arg-Keeps w p _ _ (handle_gets-Keeps host os w)
  dispatch-Keeps _ w p =
      Effect-trans (Effect-closing w) (send_text_reply-Effect host (closing w) _ _ _)

  -- For any packet, `dispatch_command` ends within the model's fuel. When it does not read past
  -- the packet's payload, the session's path stays a chain of names below the root that fits its
  -- buffer, the disk changes only by calls on paths in the served directory, and no input is made up.
  pub dispatch_command-Keeps :
      (w : Here os) (p : Packet) → Keeps os w (dispatch_command host os w p)
  unfolding dispatch_command
  dispatch_command-Keeps w p = dispatch-Keeps (cmd_of p.header.cmd_type) w p

  -- The same of a connection.
  abbrev pub Serves : Here os → Run (Here os) → Type 0
  Serves w (returns v) = Effect os w v
  Serves w overread = Unit
  Serves w out_of_fuel = ⊥

  Serves-trans : {u v : Here os} (r : Run (Here os)) → Effect os u v → Serves v r → Serves u r
  Serves-trans (returns r) a k = Effect-trans a k
  Serves-trans overread a k = tt
  Serves-trans out_of_fuel a k = k

  if-Serves :
      (w : Here os) (b : Bool) (r s : Run (Here os))
      → Serves w r
      → Serves w s
      → Serves w (if b then r else s)
  if-Serves w true r s h k = h
  if-Serves w false r s h k = k

  -- What `request_loop` does with the outcome of a request.
  abbrev proceed : (Here os → Run (Here os)) → Bool × Here os → Run (Here os)
  proceed next (ok, v) = if not ok && not v.session.should_close then returns v else next v

  proceed-Serves :
      (w : Here os) (r : Run (Bool × Here os)) (next : Here os → Run (Here os))
      → Keeps os w r
      → ((v : Here os) → Effect os w v → Serves v (next v))
      → Serves w (r >>= proceed next)
  proceed-Serves w (returns (ok, v)) next k go =
      elim (Bool-cases (not ok && not v.session.should_close)) [
        | inl stop ↦ rw stop k
        | inr on ↦ rw on (Serves-trans (next v) k (go v k))
      ]
  proceed-Serves w overread next k go = tt
  proceed-Serves w out_of_fuel next k go = k

  request_loop-Serves :
      (fuel : ℕ) (w : Here os)
      → pending w.conn.incoming < fuel
      → Serves w (request_loop host os fuel w)
  unfolding request_loop
  request_loop-Serves zero w h = absurd (omega arith)
  request_loop-Serves (suc fuel) w h =
      let c = (recv_packet host w.conn).1 in
      let w' = record w { conn = c } in
      let e : Effect os w w' = recv_packet-Effect host w in
      if-Serves w w.session.should_close (returns w) _ (Effect-refl w)
        (elim (Option-cases (recv_packet host w.conn).0) [
          | inl gone ↦ rw gone e
          | inr (p, got) ↦
              let spent : pending c.incoming + 20 ≤ pending w.conn.incoming =
                subst (λ r. pending c.incoming + taken_packet r ≤ pending w.conn.incoming) got
                  (recv_packet-pending host w.conn) in
              rw got (
                Serves-trans _ e (
                  proceed-Serves w' (dispatch_command host os w' p)
                    (λ v. request_loop host os fuel v) (dispatch_command-Keeps w' p)
                    (λ v f. request_loop-Serves fuel v (omega (arith, spent, f.input)))))
        ])

  -- Over any file system and for any input, `handle_request` ends within the model's fuel. When no
  -- request makes it read past a payload, the session's path stays a chain of names below the root that
  -- fits its buffer, no input is made up, and the disk it leaves comes from that before by calls of
  -- `remove`, `mkdir`, `open` with `O_CREAT`, `ftruncate` and stores into the mapping, each on a file
  -- whose path is the served directory's and below it names, none of them empty, `.` or `..`. Where the
  -- system follows symbolic links that stand in the directory is up to the system.
  pub handle_request-Serves : (w : Here os) → Serves w (handle_request host os w)
  unfolding handle_request
  handle_request-Serves w = request_loop-Serves (rounds w.conn) w (omega arith)
