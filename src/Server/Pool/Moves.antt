-- ===== src/Server/Pool/Moves.antt =====
-- Each step of the pool against the owners of the client sockets.
use wind_cloud_v.Base.{
  ◌⊎◌, ℕ, ◌+◌, ◌<◌, ◌≡◌, refl, ap, ◌∙◌, inl, inr, true, false, Bool-cases, List, [], ◌∷◌, ◌++◌,
  ◌==◌, length, replicate, arith,
}
use wind_cloud_v.Server.Pool.{
  Worker, waiting, handling, leaving, exited, serving, accepted, flagged, shut_down, drained,
  joined, State, register, unregister_active_fd, set, shutdown_active_fds, drain_pending_fds,
}
use wind_cloud_v.Server.Pool.Counts.{
  one, sum, sum-append, held, served, busy, held_main, slot, full, unit, leaving_main,
  register-slot, register-full, length-register, unregister-slot, unregister-full,
  length-unregister, unit_le, drain-open,
}
use wind_cloud_v.Server.Pool.Crew.{
  running, is_joined, is_drained, moved, there_is, length-moved, free_slot, drained_leaves,
  joined_leaves, sum-replicate, held_one,
}

-- Every open client socket has one owner, and the slots are those of the workers that are busy.
pub record IsOwned (s : State) : Type 0 where
  pub owned :
      (x : ℕ)
      → unit (s.is_open x) ≡ sum (one x) s.queue + sum (held x) s.workers + held_main x s.main
  pub slots : (x : ℕ) → sum (slot x) s.active_fds ≡ sum (served x) s.workers
  pub used : sum full s.active_fds ≡ sum busy s.workers
  pub size : length s.active_fds ≡ length s.workers
  pub flag : s.exit_flag ≡ leaving_main s.main
  pub ended : is_drained s.main ≡ true → s.queue ≡ []
  pub gone : is_joined s.main ≡ true → sum running s.workers ≡ 0

module _ (s : State) (i : IsOwned s) where
  pub accept-IsOwned :
      (fd : ℕ)
      → s.main ≡ serving
      → s.is_open fd ≡ false
      → IsOwned (record s {
        main = accepted fd;
        is_open = set fd true (s.is_open);
        is_shut = set fd false (s.is_shut);
      })
  accept-IsOwned fd at fresh = record {
    owned = λ x. accepted_lem x (Bool-cases (x == fd));
    slots = i.slots;
    used = i.used;
    size = i.size;
    flag = i.flag ∙ ap leaving_main at;
    ended = λ e. cc;
    gone = λ e. cc;
  }
    where
      accepted_lem :
          (x : ℕ)
          → (x == fd ≡ true) ⊎ (x == fd ≡ false)
          → unit (set fd true (s.is_open) x)
            ≡ sum (one x) s.queue + sum (held x) s.workers + one x fd
      accepted_lem x (inl same) =
          let here : x ≡ fd = ground arith in
          let none_yet : unit (s.is_open x) ≡ 0 =
            ap (λ y. unit (s.is_open y)) here ∙ ap unit fresh in
          let mine : one x fd ≡ 1 = rw same in rw same (omega (arith, i.owned x, none_yet, mine))
      accepted_lem x (inr other) = rw other (omega (arith, i.owned x, ap (held_main x) at))

  pub hand_over-IsOwned :
      (fd : ℕ)
      → s.main ≡ accepted fd
      → IsOwned (record s { main = serving; queue = s.queue ++ fd ∷ [] })
  hand_over-IsOwned fd at = record {
    owned =
        λ x. omega (arith, i.owned x, ap (held_main x) at, sum-append (one x) s.queue (fd ∷ []));
    slots = i.slots;
    used = i.used;
    size = i.size;
    flag = i.flag ∙ ap leaving_main at;
    ended = λ e. cc;
    gone = λ e. cc;
  }

  pub take-IsOwned :
      (us vs : List Worker) (fd : ℕ) (queue : List ℕ)
      → s.workers ≡ us ++ waiting ∷ vs
      → s.exit_flag ≡ false
      → s.queue ≡ fd ∷ queue
      → IsOwned (record s {
        workers = us ++ handling fd ∷ vs;
        queue = queue;
        active_fds = register fd (s.active_fds);
      })
  take-IsOwned us vs fd queue at off q =
      let step : (f : Worker → ℕ)
          → sum f s.workers + f (handling fd) ≡ sum f (us ++ handling fd ∷ vs) + f waiting =
        λ f. moved f s.workers us vs waiting (handling fd) at in
      let free : sum full s.active_fds < length s.active_fds =
        omega (arith, i.used, i.size, free_slot s.workers us vs at) in
      record {
        owned = λ x. omega (arith, i.owned x, step (held x), ap (sum (one x)) q);
        slots =
            λ x. omega (arith, i.slots x, step (served x), register-slot x fd s.active_fds free);
        used = omega (arith, i.used, step busy, register-full fd s.active_fds free);
        size = length-register fd s.active_fds ∙ i.size ∙ length-moved s.workers us vs _ _ at;
        flag = i.flag;
        ended = λ e. let f = drained_leaves s.main e in let g = i.flag in cc;
        gone = λ e. let f = joined_leaves s.main e in let g = i.flag in cc;
      }

  pub unregister-IsOwned :
      (us vs : List Worker) (fd : ℕ)
      → s.workers ≡ us ++ handling fd ∷ vs
      → IsOwned (record s {
        workers = us ++ leaving fd ∷ vs;
        active_fds = unregister_active_fd fd (s.active_fds);
      })
  unregister-IsOwned us vs fd at =
      let step : (f : Worker → ℕ)
          → sum f s.workers + f (leaving fd) ≡ sum f (us ++ leaving fd ∷ vs) + f (handling fd) =
        λ f. moved f s.workers us vs (handling fd) (leaving fd) at in
      let mine : 0 < sum (slot fd) s.active_fds =
        omega
          (arith, i.slots fd, there_is (served fd) s.workers us vs (handling fd) at, held_one fd) in
      record {
        owned = λ x. omega (arith, i.owned x, step (held x));
        slots =
            λ x. omega (arith, i.slots x, step (served x), unregister-slot x fd s.active_fds mine);
        used = omega (arith, i.used, step busy, unregister-full fd s.active_fds mine);
        size = length-unregister fd s.active_fds ∙ i.size ∙ length-moved s.workers us vs _ _ at;
        flag = i.flag;
        ended = i.ended;
        gone = λ e. omega (arith, i.gone e, there_is running s.workers us vs (handling fd) at);
      }

  pub close-IsOwned :
      (us vs : List Worker) (fd : ℕ)
      → s.workers ≡ us ++ leaving fd ∷ vs
      → IsOwned (record s { workers = us ++ waiting ∷ vs; is_open = set fd false (s.is_open) })
  close-IsOwned us vs fd at =
      let step : (f : Worker → ℕ)
          → sum f s.workers + f waiting ≡ sum f (us ++ waiting ∷ vs) + f (leaving fd) =
        λ f. moved f s.workers us vs (leaving fd) waiting at in
      record {
        owned = λ x. closed_lem x (step (held x)) (Bool-cases (x == fd));
        slots = λ x. omega (arith, i.slots x, step (served x));
        used = omega (arith, i.used, step busy);
        size = i.size ∙ length-moved s.workers us vs _ _ at;
        flag = i.flag;
        ended = i.ended;
        gone = λ e. omega (arith, i.gone e, there_is running s.workers us vs (leaving fd) at);
      }
    where
      closed_lem :
          (x : ℕ)
          → sum (held x) s.workers + 0 ≡ sum (held x) (us ++ waiting ∷ vs) + one x fd
          → (x == fd ≡ true) ⊎ (x == fd ≡ false)
          → unit (set fd false (s.is_open) x)
            ≡ sum (one x) s.queue + sum (held x) (us ++ waiting ∷ vs) + held_main x s.main
      closed_lem x step (inl same) =
          let mine : one x fd ≡ 1 = rw same in
          rw same (omega (arith, i.owned x, step, mine, unit_le (s.is_open x)))
      closed_lem x step (inr other) =
          let mine : one x fd ≡ 0 = rw other in rw other (omega (arith, i.owned x, step, mine))

  pub exit-IsOwned :
      (us vs : List Worker)
      → s.workers ≡ us ++ waiting ∷ vs
      → IsOwned (record s { workers = us ++ exited ∷ vs })
  exit-IsOwned us vs at =
      let step : (f : Worker → ℕ)
          → sum f s.workers + f exited ≡ sum f (us ++ exited ∷ vs) + f waiting =
        λ f. moved f s.workers us vs waiting exited at in
      record {
        owned = λ x. omega (arith, i.owned x, step (held x));
        slots = λ x. omega (arith, i.slots x, step (served x));
        used = omega (arith, i.used, step busy);
        size = i.size ∙ length-moved s.workers us vs _ _ at;
        flag = i.flag;
        ended = i.ended;
        gone = λ e. omega (arith, i.gone e, there_is running s.workers us vs waiting at);
      }

  pub flag-IsOwned : s.main ≡ serving → IsOwned (record s { main = flagged; exit_flag = true })
  flag-IsOwned at = record {
    owned = λ x. omega (arith, i.owned x, ap (held_main x) at);
    slots = i.slots;
    used = i.used;
    size = i.size;
    flag = refl;
    ended = λ e. cc;
    gone = λ e. cc;
  }

  pub shutdown-IsOwned :
      s.main ≡ flagged
      → IsOwned
          (record s { main = shut_down; is_shut = shutdown_active_fds (s.active_fds) (s.is_shut) })
  shutdown-IsOwned at = record {
    owned = λ x. omega (arith, i.owned x, ap (held_main x) at);
    slots = i.slots;
    used = i.used;
    size = i.size;
    flag = i.flag ∙ ap leaving_main at;
    ended = λ e. cc;
    gone = λ e. cc;
  }

  pub drain-IsOwned :
      s.main ≡ shut_down
      → IsOwned (record s {
        main = drained;
        queue = [];
        is_open = drain_pending_fds (s.queue) (s.is_open);
      })
  drain-IsOwned at = record {
    owned = λ x. omega (
      arith,
      i.owned x,
      ap (held_main x) at,
      drain-open x s.queue s.is_open (omega (arith, i.owned x)),
    );
    slots = i.slots;
    used = i.used;
    size = i.size;
    flag = i.flag ∙ ap leaving_main at;
    ended = λ e. refl;
    gone = λ e. cc;
  }

  pub join-IsOwned :
      (num : ℕ)
      → s.main ≡ drained
      → s.workers ≡ replicate num exited
      → IsOwned (record s { main = joined })
  join-IsOwned num at all = record {
    owned = λ x. omega (arith, i.owned x, ap (held_main x) at);
    slots = i.slots;
    used = i.used;
    size = i.size;
    flag = i.flag ∙ ap leaving_main at;
    ended = λ e. i.ended (ap is_drained at);
    gone = λ e. ap (sum running) all ∙ sum-replicate running num exited refl;
  }
