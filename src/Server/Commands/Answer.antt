-- ===== src/Server/Commands/Answer.antt =====
-- The replies of the handlers in src/server/handle.c that answer a request with one packet.
use wind_cloud_v.Base.{
  ◌≤◌, ◌<◌, ◌≡◌, refl, inl, inr, Bool, true, Option-cases, [], ◌∷◌, ◌++◌, Bytes, length,
  length-append, arith,
}
use wind_cloud_v.Wire.Stream.Laws.{IsWilling}
use wind_cloud_v.Wire.Types.{path_max, max_text_payload, max_packet_payload, CmdType, Status, Host}
use wind_cloud_v.Wire.Packet.Framing.{packet_bytes, send_packet-packet_bytes}
use wind_cloud_v.Server.Path.{build_real_path, resolve_target_path}
use wind_cloud_v.Server.World.{Posix, World, Here}
use wind_cloud_v.Server.Reply.{text, send_text_reply}
use wind_cloud_v.Server.Commands.{
  ls_loop, listing, handle_pwd, handle_cd, handle_ls, handle_rm, handle_mkdir,
}
use wind_cloud_v.Server.Commands.Listing.{ls_loop-bound}

-- The two kinds of a reply in text.
abbrev pub IsReply : CmdType → Type 0
IsReply CmdType.ack = Unit
IsReply CmdType.error = Unit
IsReply _ = ⊥

-- One packet of text went out, an acknowledgement or an error, and it went out whole.
pub record Answered {Disk : Type 0} (w : World Disk) (r : Bool × World Disk) : Type 0 where
  pub type : CmdType
  pub status : Status
  pub message : Bytes
  pub plain : IsReply type
  pub ok : r.0 ≡ true
  pub short : length message < max_text_payload
  pub sent : r.1.conn.sent ≡ w.conn.sent ++ packet_bytes type status (message ++ 0 ∷ [])
  pub ready : IsWilling r.1.conn.room

module _ (host : Host) (os : Posix) (w : Here os) (room : IsWilling w.conn.room) where
  pub reply :
      (v : Here os) (t : CmdType) (s : Status) (msg : Bytes)
      → v.conn ≡ w.conn
      → IsReply t
      → length msg < max_text_payload
      → Answered w (send_text_reply host v t s msg)
  unfolding send_text_reply
  reply v t s msg same plain short =
      let fits : length (msg ++ 0 ∷ []) ≤ max_packet_payload =
        omega (arith, short, length-append msg (0 ∷ [])) in
      let out = send_packet-packet_bytes host w.conn t s (msg ++ 0 ∷ []) fits room in
      record {
        plain = plain;
        short = short;
        type = t;
        status = s;
        message = msg;
        ok = rw same (out.0);
        sent = rw same (out.1);
        ready = rw same (out.2);
      }

  module _ (arg : Bytes) where
    handle_cd-Answered : Answered w (handle_cd host os w arg)
    unfolding handle_cd text
    handle_cd-Answered = elim (Option-cases (resolve_target_path w.session.current_path arg)) [
      | inl bad ↦ rw (bad, handle_cd) (reply w _ _ _ refl tt (omega arith))
      | inr ((v, r), got) ↦ elim (Option-cases (os.opendir w.disk r)) [
        | inl bad ↦ rw (got, bad, handle_cd) (reply w _ _ _ refl tt (omega arith))
        | inr (names, there) ↦ rw (got, there, handle_cd) (reply _ _ _ _ refl tt (omega arith))
      ]
    ]

    handle_rm-Answered : Answered w (handle_rm host os w arg)
    unfolding handle_rm text
    handle_rm-Answered = elim (Option-cases (resolve_target_path w.session.current_path arg)) [
      | inl bad ↦ rw (bad, handle_rm) (reply w _ _ _ refl tt (omega arith))
      | inr ((v, r), got) ↦ elim (Option-cases (os.remove w.disk r)) [
        | inl bad ↦ rw (got, bad, handle_rm) (reply w _ _ _ refl tt (omega arith))
        | inr (d, done) ↦ rw (got, done, handle_rm) (reply _ _ _ _ refl tt (omega arith))
      ]
    ]

    handle_mkdir-Answered : Answered w (handle_mkdir host os w arg)
    unfolding handle_mkdir text
    handle_mkdir-Answered = elim (Option-cases (resolve_target_path w.session.current_path arg)) [
      | inl bad ↦ rw (bad, handle_mkdir) (reply w _ _ _ refl tt (omega arith))
      | inr ((v, r), got) ↦ elim (Option-cases (os.mkdir w.disk r)) [
        | inl bad ↦ rw (got, bad, handle_mkdir) (reply w _ _ _ refl tt (omega arith))
        | inr (d, done) ↦ rw (got, done, handle_mkdir) (reply _ _ _ _ refl tt (omega arith))
      ]
    ]

  listing_lt : (r : Bytes) → length r < max_text_payload → length (listing r) < max_text_payload
  listing_lt [] h = omega arith
  listing_lt (c ∷ s) h = h

  handle_ls-Answered : Answered w (handle_ls host os w)
  unfolding handle_ls text
  handle_ls-Answered = elim (Option-cases (build_real_path w.session.current_path path_max)) [
    | inl bad ↦ rw (bad, handle_ls) (reply w _ _ _ refl tt (omega arith))
    | inr (r, real) ↦ elim (Option-cases (os.opendir w.disk r)) [
      | inl bad ↦ rw (real, bad, handle_ls) (reply w _ _ _ refl tt (omega arith))
      | inr (names, dir) ↦ elim (Option-cases (ls_loop names [])) [
        | inl bad ↦ rw (real, dir, bad, handle_ls) (reply w _ _ _ refl tt (omega arith))
        | inr (result, all) ↦
            rw (real, dir, all, handle_ls)
              (reply w _ _ _ refl tt
                (listing_lt result (ls_loop-bound names [] result (omega arith) all)))
      ]
    ]
  ]

  -- Under a kernel that keeps taking bytes, and with a current path that fits its buffer: `pwd`, `ls`,
  -- and `cd`, `rm` and `mkdir` with any argument, send exactly one packet of text, whole, and return
  -- 0, on every branch.
  pub commands-Answered :
      length w.session.current_path < path_max
      → Answered w (handle_pwd host os w)
        × Answered w (handle_ls host os w)
        × ((arg : Bytes)
            → Answered w (handle_cd host os w arg)
              × Answered w (handle_rm host os w arg)
              × Answered w (handle_mkdir host os w arg))
  unfolding handle_pwd
  commands-Answered short = (
    reply w _ _ _ refl tt (omega (arith, short)),
    handle_ls-Answered,
    λ arg. (handle_cd-Answered arg, handle_rm-Answered arg, handle_mkdir-Answered arg),
  )
