-- ===== src/Server/Commands/Laws.antt =====
-- The handlers of pwd, cd, ls, rm and mkdir against what a step may change.
use wind_cloud_v.Base.{inl, inr, Option-cases, [], Bytes, arith}
use wind_cloud_v.Wire.Types.{path_max, CmdType, Status, Host}
use wind_cloud_v.Wire.Command.{snprintf}
use wind_cloud_v.Server.Path.{build_real_path, resolve_target_path}
use wind_cloud_v.Server.World.{Posix, Here}
use wind_cloud_v.Server.Reply.{send_text_reply}
use wind_cloud_v.Server.Effect.{
  Touched, Effect, Effect-trans, Effect-disk, send_text_reply-Effect, target-IsUnder,
  target-IsSession,
}
use wind_cloud_v.Server.Commands.{
  ls_loop, handle_pwd, handle_cd, handle_ls, handle_rm, handle_mkdir,
}

module _ (host : Host) (os : Posix) (w : Here os) where
  reply : (t : CmdType) (s : Status) (msg : Bytes) → Effect os w (send_text_reply host w t s msg).1
  reply t s msg = send_text_reply-Effect host w t s msg

  pub handle_pwd-Effect : Effect os w (handle_pwd host os w).1
  unfolding handle_pwd
  handle_pwd-Effect = reply _ _ _

  pub handle_ls-Effect : Effect os w (handle_ls host os w).1
  unfolding handle_ls
  handle_ls-Effect = elim (Option-cases (build_real_path w.session.current_path path_max)) [
    | inl bad ↦ rw (bad, handle_ls) (reply _ _ _)
    | inr (r, real) ↦ elim (Option-cases (os.opendir w.disk r)) [
      | inl bad ↦ rw (real, handle_ls, bad) (reply _ _ _)
      | inr (names, dir) ↦ elim (Option-cases (ls_loop names [])) [
        | inl bad ↦ rw (real, handle_ls, dir, bad) (reply _ _ _)
        | inr (result, all) ↦ rw (real, handle_ls, dir, all) (reply _ _ _)
      ]
    ]
  ]

  module _ (arg : Bytes) where
    pub handle_rm-Effect : Effect os w (handle_rm host os w arg).1
    unfolding handle_rm
    handle_rm-Effect = elim (Option-cases (resolve_target_path w.session.current_path arg)) [
      | inl bad ↦ rw (bad, handle_rm) (reply _ _ _)
      | inr ((v, r), at) ↦ elim (Option-cases (os.remove w.disk r)) [
        | inl bad ↦ rw (at, handle_rm, bad) (reply _ _ _)
        | inr (d, done) ↦
            rw (at, handle_rm, done)
              (Effect-trans
                (Effect-disk w d
                  (Touched.removed r Touched.untouched (target-IsUnder _ arg v r at) done))
                (send_text_reply-Effect host (record w { disk = d }) _ _ _))
      ]
    ]

    pub handle_mkdir-Effect : Effect os w (handle_mkdir host os w arg).1
    unfolding handle_mkdir
    handle_mkdir-Effect = elim (Option-cases (resolve_target_path w.session.current_path arg)) [
      | inl bad ↦ rw (bad, handle_mkdir) (reply _ _ _)
      | inr ((v, r), at) ↦ elim (Option-cases (os.mkdir w.disk r)) [
        | inl bad ↦ rw (at, handle_mkdir, bad) (reply _ _ _)
        | inr (d, done) ↦
            rw (at, handle_mkdir, done)
              (Effect-trans
                (Effect-disk w d
                  (Touched.made r Touched.untouched (target-IsUnder _ arg v r at) done))
                (send_text_reply-Effect host (record w { disk = d }) _ _ _))
      ]
    ]

    pub handle_cd-Effect : Effect os w (handle_cd host os w arg).1
    unfolding handle_cd
    handle_cd-Effect = elim (Option-cases (resolve_target_path w.session.current_path arg)) [
      | inl bad ↦ rw (bad, handle_cd) (reply _ _ _)
      | inr ((v, r), at) ↦ elim (Option-cases (os.opendir w.disk r)) [
        | inl bad ↦ rw (at, handle_cd, bad) (reply _ _ _)
        | inr (names, dir) ↦
            let s = record (w.session) { current_path = snprintf path_max v } in
            rw (at, handle_cd, dir)
              (Effect-trans
                (record {
                  session = λ old. target-IsSession w.session arg v r at;
                  files = Touched.untouched;
                  input = omega arith;
                })
                (send_text_reply-Effect host (record w { session = s }) _ _ _))
      ]
    ]
