-- ===== src/Server/Upload/Laws.antt =====
-- `handle_puts` against what a step may change.
use wind_cloud_v.Base.{
  ℕ, zero, suc, ◌+◌, ◌%◌, ◌^◌, ◌≤◌, ◌<◌, ◌≡◌, refl, subst, inl, inr, Bool, true, false, ◌&&◌, some,
  Option-cases, Bool-cases, [], ◌∷◌, Bytes, ltb, ◌==◌, arith,
}
use wind_cloud_v.Wire.Stream.{pending}
use wind_cloud_v.Wire.Types.{path_max, CmdType, is_cmd, Status, Packet, Host}
use wind_cloud_v.Wire.Packet.Framing.{taken_packet}
use wind_cloud_v.Server.Path.{resolve_target_path}
use wind_cloud_v.Server.World.{Posix, Here, Run, returns, overread, out_of_fuel, ◌>>=◌, rounds}
use wind_cloud_v.Server.Reply.{
  send_text_reply, send_resume_packet, recv_follow_packet, FileInfo, refused, past_end, info,
  extract_file_info,
}
use wind_cloud_v.Server.Effect.{
  IsUnder, Touched, Effect, Effect-refl, Effect-trans, Effect-disk, Effect-closing, Keeps,
  Keeps-trans, send_packet-Effect, send_text_reply-Effect, recv_follow_packet-Effect,
  recv_follow_packet-pending, target-IsUnder,
}
use wind_cloud_v.Server.Upload.{
  truncate_to, puts_store, puts_loop, puts_finish, puts_receive, size_or_zero, puts_open,
  handle_puts,
}

-- A loop that ends, with an effect that every handler may have.
abbrev LoopKeeps : (os : Posix) → Here os → Run (Bool × ℕ × Here os) → Type 0
LoopKeeps os w (returns r) = Effect os w r.2
LoopKeeps os w overread = ⊥
LoopKeeps os w out_of_fuel = ⊥

LoopKeeps-trans :
    {os : Posix} {u v : Here os} (r : Run (Bool × ℕ × Here os))
    → Effect os u v
    → LoopKeeps os v r
    → LoopKeeps os u r
LoopKeeps-trans (returns r) a k = Effect-trans a k
LoopKeeps-trans overread a k = k
LoopKeeps-trans out_of_fuel a k = k

module _ (host : Host) (os : Posix) (path : Bytes) (under : IsUnder path) where
  puts_store-Effect :
      (mapped : Bool) (offset : ℕ) (p : Packet) (w : Here os)
      → Effect os w (puts_store host os path mapped offset p w)
  unfolding puts_store
  puts_store-Effect mapped offset p w = elim (Bool-cases (ltb 0 p.header.data_len && mapped)) [
    | inl write ↦
        rw write
          (Effect-disk w _ (Touched.stored path offset p.payload Touched.untouched under refl))
    | inr skip ↦ rw skip (Effect-refl w)
  ]

  truncate_to-Effect :
      (w : Here os) (n : ℕ) (d : os.Disk)
      → truncate_to host os w.disk path n ≡ some d
      → Effect os w (record w { disk = d })
  unfolding truncate_to
  truncate_to-Effect w n d e =
      Effect-disk w d (Touched.resized path n Touched.untouched under (ground arith))

  -- Every packet uses up input, so the loop ends within the fuel it is given.
  puts_loop-LoopKeeps :
      (fuel total : ℕ) (mapped : Bool) (offset : ℕ) (w : Here os)
      → pending w.conn.incoming < fuel
      → LoopKeeps os w (puts_loop host os fuel path total mapped offset w)
  unfolding puts_loop
  puts_loop-LoopKeeps zero total mapped offset w h = absurd (omega arith)
  puts_loop-LoopKeeps (suc fuel) total mapped offset w h =
      let w' = (recv_follow_packet host w).1 in
      let e = recv_follow_packet-Effect host w in
      elim (Option-cases (recv_follow_packet host w).0) [
        | inl bad ↦ rw (bad, puts_loop) e
        | inr (p, got) ↦
            let spent : pending w'.conn.incoming + 20 ≤ pending w.conn.incoming =
              subst (λ r. pending w'.conn.incoming + taken_packet r ≤ pending w.conn.incoming) got
                (recv_follow_packet-pending host w) in
            let next = (offset + p.header.data_len) % 2 ^ 64 in
            let stored = puts_store-Effect mapped offset p w' in
            elim (Bool-cases (is_cmd p.header.cmd_type CmdType.file_end)) [
              | inl end ↦ rw (got, puts_loop, end) e
              | inr more ↦ elim (Bool-cases (is_cmd p.header.cmd_type CmdType.file_data)) [
                | inr other ↦ rw (got, puts_loop, more, other) (Effect-trans e (Effect-closing w'))
                | inl block ↦ elim (Bool-cases (ltb total next)) [
                  | inl over ↦
                      rw (got, puts_loop, more, block, over) (Effect-trans e (Effect-closing w'))
                  | inr fits ↦
                      rw (got, puts_loop, more, block, fits)
                        (LoopKeeps-trans _ (Effect-trans e stored) (
                          puts_loop-LoopKeeps fuel total mapped next
                            (puts_store host os path mapped offset p w')
                            (omega (arith, spent, stored.input))))
                ]
              ]
            ]
      ]

  puts_finish-Effect :
      (done : Bool) (offset : ℕ) (w : Here os)
      → Effect os w (puts_finish host os path (done, offset, w)).1
  unfolding puts_finish
  puts_finish-Effect true offset w = send_text_reply-Effect host w _ _ _
  puts_finish-Effect false offset w = elim (Option-cases (truncate_to host os w.disk path offset)) [
    | inl bad ↦ rw (bad, puts_finish) (send_text_reply-Effect host w _ _ _)
    | inr (d, cut) ↦
        rw (cut, puts_finish)
          (Effect-trans (truncate_to-Effect w offset d cut) (send_text_reply-Effect host _ _ _ _))
  ]

  finished-Keeps :
      (w : Here os) (r : Run (Bool × ℕ × Here os))
      → LoopKeeps os w r
      → Keeps os w (r >>= (λ x. returns (puts_finish host os path x)))
  finished-Keeps w (returns (done, offset, v)) k = Effect-trans k (puts_finish-Effect done offset v)
  finished-Keeps w overread k = tt
  finished-Keeps w out_of_fuel k = k

  received-Keeps :
      (w : Here os) (total : ℕ) (mapped : Bool) (offset : ℕ)
      → Keeps os w (
          puts_loop host os (rounds w.conn) path total mapped offset w
          >>= (λ x. returns (puts_finish host os path x)))
  received-Keeps w total mapped offset =
      finished-Keeps w _ (puts_loop-LoopKeeps (rounds w.conn) total mapped offset w (omega arith))

  puts_receive-Keeps :
      (w : Here os) (total offset : ℕ) → Keeps os w (puts_receive host os w path total offset)
  unfolding puts_receive
  puts_receive-Keeps w total offset =
      let w' = (send_resume_packet host w CmdType.puts_resp Status.status_ok offset).1 in
      let e : Effect os w w' = unfold send_resume_packet in send_packet-Effect host w _ _ _ in
      elim (Bool-cases (send_resume_packet host w CmdType.puts_resp Status.status_ok offset).0) [
        | inr bad ↦ rw bad (Effect-trans e (Effect-closing w'))
        | inl ok ↦ elim (Bool-cases (total == 0)) [
          | inl zero_size ↦
              rw (ok, zero_size) (Keeps-trans _ e (received-Keeps w' total false offset))
          | inr size ↦ elim (Option-cases (truncate_to host os w'.disk path total)) [
            | inl bad ↦
                rw (ok, size, bad, puts_receive)
                  (Effect-trans e (send_text_reply-Effect host w' _ _ _))
            | inr (d, cut) ↦
                let v = record w' { disk = d } in
                let f = Effect-trans e (truncate_to-Effect w' total d cut) in
                elim (Bool-cases (os.mmap d path total)) [
                  | inr bad ↦
                      rw (ok, size, cut, puts_receive, bad)
                        (Effect-trans f (send_text_reply-Effect host v _ _ _))
                  | inl map ↦
                      rw (ok, size, cut, puts_receive, map)
                        (Keeps-trans _ f (received-Keeps v total true offset))
                ]
          ]
        ]
      ]

  puts_open-Keeps : (w : Here os) (total : ℕ) → Keeps os w (puts_open host os w path total)
  unfolding puts_open
  puts_open-Keeps w total =
      elim (Bool-cases (ltb total (size_or_zero host os (os.fstat w.disk path)))) [
        | inr fits ↦ rw fits (puts_receive-Keeps w total _)
        | inl longer ↦ elim (Option-cases (truncate_to host os w.disk path 0)) [
          | inl bad ↦ rw (longer, bad, puts_open) (send_text_reply-Effect host w _ _ _)
          | inr (d, cut) ↦
              rw (longer, cut, puts_open)
                (Keeps-trans _ (truncate_to-Effect w 0 d cut)
                  (puts_receive-Keeps (record w { disk = d }) total 0))
        ]
      ]

-- `handle_puts` ends within the model's fuel for any request and any input. When it does not read
-- past the request's payload, the session's path stays a chain of names below the root that fits
-- its buffer, the disk changes only by calls on paths in the served directory, and no input is made up.
pub handle_puts-Keeps :
    (host : Host) (os : Posix) (w : Here os) (p : Packet) → Keeps os w (handle_puts host os w p)
unfolding handle_puts
handle_puts-Keeps host os w p = go (extract_file_info host p path_max) refl
  where
    refuse : (s : Status) (msg : Bytes) → Effect os w (send_text_reply host w CmdType.error s msg).1
    refuse s msg = send_text_reply-Effect host w _ s msg

    go :
        (r : FileInfo)
        → extract_file_info host p path_max ≡ r
        → Keeps os w (handle_puts host os w p)
    go refused e = rw (e, handle_puts) (refuse _ _)
    go past_end e = rw (e, handle_puts) tt
    go (info [] total) e = rw (e, handle_puts) (refuse _ _)
    go (info (c ∷ name) total) e =
        elim (Option-cases (resolve_target_path w.session.current_path (c ∷ name))) [
          | inl bad ↦ rw (e, handle_puts, bad) (refuse _ _)
          | inr ((v, path), at) ↦ elim (Option-cases (os.open_create w.disk path)) [
            | inl bad ↦ rw (e, handle_puts, at, bad) (refuse _ _)
            | inr (d, made) ↦
                let under = target-IsUnder _ (c ∷ name) v path at in
                rw (e, handle_puts, at, made)
                  (Keeps-trans _
                    (Effect-disk w d (Touched.opened path Touched.untouched under made))
                    (puts_open-Keeps host os path under (record w { disk = d }) total))
          ]
        ]
