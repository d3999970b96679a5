-- ===== src/Client/Simple/Reply.antt =====
-- `recv_text_response` of src/client/client_command_handle.c, and `handle_puts` at its end, on an
-- answer in text.
use wind_cloud_v.Base.{
  ◌<◌, ◌≡◌, refl, ap, not, ◌&&◌, length-append, if◌then◌else◌, ◌∙◌, Bool, true, false, some, [],
  ◌∷◌, ◌++◌, Bytes, length, arith, Bool-cases, inl, inr, ◌==◌,
}
use wind_cloud_v.Wire.Stream.Laws.{deliverable, IsWilling}
use wind_cloud_v.Wire.Types.{max_packet_payload, CmdType, cmd_code, is_cmd, Status, Host}
use wind_cloud_v.Wire.Packet.{send_packet, recv_packet}
use wind_cloud_v.Wire.Packet.Framing.{
  packet_bytes, recv_packet-packet_bytes, send_packet-packet_bytes, send_packet-incoming,
}
use wind_cloud_v.Wire.Packet.Blocks.{HasMemory}
use wind_cloud_v.Server.World.{returns}
use wind_cloud_v.Server.Reply.{c_string}
use wind_cloud_v.Client.World.{Client, print_text, text, uploaded, say, print_text_from_packet}
use wind_cloud_v.Client.Simple.{text_response, recv_text_response}
use wind_cloud_v.Client.Upload.{puts_end}

-- The type of a reply in text.
abbrev pub reply_type : Bool → CmdType
reply_type refused = if refused then CmdType.error else CmdType.ack

-- A text up to its first NUL.
unfoldable pub shown : Bytes → Bytes
shown [] = []
shown (c ∷ s) = let rest = shown s in if c == 0 then [] else c ∷ rest

pub c_string-shown : (s : Bytes) → c_string (s ++ 0 ∷ []) ≡ some (shown s)
unfolding c_string shown
c_string-shown [] = refl
c_string-shown (c ∷ s) = elim (Bool-cases (c == 0)) [
  | inl e ↦ rw (e, c_string, shown) refl
  | inr e ↦ rw (e, c_string, shown, c_string-shown s) refl
]

reply_type-reply :
    (refused : Bool)
    → (not (is_cmd (cmd_code (reply_type refused)) CmdType.ack)
        && not (is_cmd (cmd_code (reply_type refused)) CmdType.error))
      ≡ false
unfolding is_cmd cmd_code
reply_type-reply true = refl
reply_type-reply false = refl

module _ {Disk : Type 0} (host : Host) (mem : HasMemory host) where
  print_shown :
      (msg : Bytes) (c : Client Disk)
      → print_text (msg ++ 0 ∷ []) c ≡ returns (say (text (shown msg)) c)
  print_shown [] c = rw (print_text, c_string-shown []) refl
  print_shown (b ∷ s) c = rw (print_text, c_string-shown (b ∷ s)) refl

  -- A reply in text is taken, whichever of the two kinds it is.
  pub recv_text_response-reply :
      (refused : Bool) (status : Status) (msg rest : Bytes) (c : Client Disk)
      → length msg < max_packet_payload
      → deliverable c.conn.incoming
        ≡ packet_bytes (reply_type refused) status (msg ++ 0 ∷ []) ++ rest
      → recv_text_response host c
        ≡ returns (true, say (text (shown msg)) (record c { conn = (recv_packet host c.conn).1 }))
  unfolding recv_text_response text_response print_text_from_packet
  recv_text_response-reply refused status msg rest c fits e =
      let (got, left) =
        recv_packet-packet_bytes host c.conn (reply_type refused) status (msg ++ 0 ∷ []) rest
          (omega (arith, fits, length-append msg (0 ∷ []))) (mem _) e in
      rw
        (
          got,
          recv_text_response,
          reply_type-reply refused,
          print_shown msg (record c { conn = (recv_packet host c.conn).1 }),
        )
        refl

  -- Over a kernel that takes bytes at each `write`, on a host with memory, the end of an upload
  -- does not depend on what the server answers in text: whether its packet is an acknowledgement
  -- or an error, and whatever its status, the client prints the message, which fits a packet, up
  -- to the first NUL, says that the upload is done, and returns 0.
  pub puts_end-reply :
      (base : Bytes) (refused : Bool) (status : Status) (msg rest : Bytes) (c : Client Disk)
      → IsWilling c.conn.room
      → length msg < max_packet_payload
      → deliverable c.conn.incoming
        ≡ packet_bytes (reply_type refused) status (msg ++ 0 ∷ []) ++ rest
      → puts_end host base (true, c)
        ≡ returns (
          true,
          say (uploaded base) (
              say (text (shown msg)) (record c {
                conn =
                    (recv_packet host
                      (send_packet host c.conn CmdType.file_end Status.status_ok []).1).1;
              })),
        )
  unfolding puts_end
  puts_end-reply base refused status msg rest c open_ fits e =
      let out =
        send_packet-packet_bytes host c.conn CmdType.file_end Status.status_ok [] (omega arith)
          open_ in
      let conn = (send_packet host c.conn CmdType.file_end Status.status_ok []).1 in
      let same = send_packet-incoming host c.conn CmdType.file_end Status.status_ok [] in
      rw
        (
          out.0,
          puts_end,
          recv_text_response-reply refused status msg rest (record c { conn = conn }) fits
              (ap deliverable same ∙ e),
        )
        refl
