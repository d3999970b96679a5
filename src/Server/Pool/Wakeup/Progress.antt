-- ===== src/Server/Pool/Wakeup/Progress.antt =====
-- No wake-up of the pool is lost: src/server/worker.c against src/server/server.c.
use wind_cloud_v.Base.{
  ℕ, zero, suc, ◌+◌, ◌≤◌, ◌<◌, ◌≡◌, ◌≢◌, refl, sym, ap, ◌∙◌, ◌⊎◌, inl, inr, true, false, List, [],
  ◌∷◌, ◌++◌, length, length-append, replicate, arith,
}
use wind_cloud_v.Server.Pool.{
  Worker, waiting, handling, leaving, exited, Main, serving, accepted, flagged, shut_down, drained,
  joined, State, init_thread_pool, Step, accept, hand_over, take, unregister, close, exit, flag,
  shutdown, drain, join, Reachable,
}
use wind_cloud_v.Server.Pool.Counts.{sum, served, leaving_main}
use wind_cloud_v.Server.Pool.Crew.{moved, there_is, held_one}
use wind_cloud_v.Server.Pool.Owners.{Reachable-IsOwned}
use wind_cloud_v.Server.Pool.Exit.{IsCut, Reachable-IsCut}
use wind_cloud_v.Server.Pool.Wakeup.{
  free, idle, sleepers, IsAwake, IsAlone, Woken, begin, move, doze, stir,
}

Woken-Reachable : (num : ℕ) (s : State) (asleep : ℕ) → Woken num s asleep → Reachable num s
Woken-Reachable num _ _ begin = Reachable.start
Woken-Reachable num _ _ (move w step a) = Reachable.next (Woken-Reachable num _ _ w) step
Woken-Reachable num _ _ (doze w few none_queued on) = Woken-Reachable num _ _ w
Woken-Reachable num _ _ (stir w) = Woken-Reachable num _ _ w

-- Behind the exit flag nobody sleeps, and while somebody sleeps there is a waiting worker that is
-- awake for every client in the queue.
record IsHeard (s : State) (asleep : ℕ) : Type 0 where
  told : s.exit_flag ≡ true → asleep ≡ 0
  awake : 0 < asleep → length s.queue + asleep ≤ idle s

Step-IsHeard : {s t : State} (n : ℕ) → IsHeard s n → (step : Step s t) → IsHeard t (sleepers step n)
unfolding sleepers
Step-IsHeard n i (accept fd at fresh) = record { told = i.told; awake = i.awake }
Step-IsHeard {s} n i (hand_over fd at) = record {
  told = λ e. omega (arith, i.told e);
  awake = λ h. omega (arith, i.awake (omega (arith, h)), length-append s.queue (fd ∷ []), h);
}
Step-IsHeard {s} n i (take us vs fd q at on e) = record {
  told = i.told;
  awake = λ h.
      omega (arith, i.awake h, ap length e, moved free s.workers us vs waiting (handling fd) at);
}
Step-IsHeard {s} n i (unregister us vs fd at) = record {
  told = i.told;
  awake = λ h. omega (arith, i.awake h, moved free s.workers us vs (handling fd) (leaving fd) at);
}
Step-IsHeard {s} n i (close us vs fd at) = record {
  told = i.told;
  awake = λ h. omega (arith, i.awake h, moved free s.workers us vs (leaving fd) waiting at);
}
Step-IsHeard n i (exit us vs at on) = record {
  told = i.told;
  awake = λ h. absurd (omega (arith, h, i.told on));
}
Step-IsHeard n i (flag at) = record { told = λ e. refl; awake = λ h. absurd (omega (arith, h)) }
Step-IsHeard n i (shutdown at) = record { told = i.told; awake = i.awake }
Step-IsHeard n i (drain at) = record { told = i.told; awake = λ h. omega (arith, i.awake h) }
Step-IsHeard n i (join num at all) = record { told = i.told; awake = i.awake }

Woken-IsHeard : (num : ℕ) (s : State) (n : ℕ) → Woken num s n → IsHeard s n
unfolding init_thread_pool
Woken-IsHeard num _ _ begin = record { told = λ e. refl; awake = λ h. absurd (omega (arith, h)) }
Woken-IsHeard num _ _ (move {asleep = n} w step a) = Step-IsHeard n (Woken-IsHeard num _ n w) step
Woken-IsHeard num _ _ (doze {asleep = n} w few none_queued on) = record {
  told = λ e. cc;
  awake = λ h. omega (arith, few, ap length none_queued);
}
Woken-IsHeard num s n (stir w) =
    let i = Woken-IsHeard num s (suc n) w in
    record {
      told = λ e. absurd (omega (arith, i.told e));
      awake = λ h. omega (arith, i.awake (omega arith));
    }

-- A step that a thread can take now, with no client's help.
pub record Goes (s : State) (asleep : ℕ) : Type 0 where
  pub to : State
  pub step : Step s to
  pub awake : IsAwake step asleep
  pub alone : IsAlone step

-- All workers have left, or one is found that has not.
data Crew (ws : List Worker) : Type 0 where
  all_gone : (n : ℕ) → ws ≡ replicate n exited → Crew ws
  here : (us vs : List Worker) (w : Worker) → ws ≡ us ++ w ∷ vs → w ≢ exited → Crew ws

Crew-cons : (w : Worker) (ws : List Worker) → Crew ws → Crew (w ∷ ws)
unfolding replicate
Crew-cons exited ws (all_gone n e) = all_gone (suc n) (ap (◌∷◌ exited) e)
Crew-cons w ws (here us vs v e n) = here (w ∷ us) vs v (ap (◌∷◌ w) e) n
Crew-cons waiting ws c = here [] ws waiting refl (λ e. cc)
Crew-cons (handling fd) ws c = here [] ws (handling fd) refl (λ e. cc)
Crew-cons (leaving fd) ws c = here [] ws (leaving fd) refl (λ e. cc)

crew : (ws : List Worker) → Crew ws
unfolding replicate
crew [] = all_gone zero refl
crew (w ∷ ws) = Crew-cons w ws (crew ws)

worker-Goes :
    (s : State) (us vs : List Worker) (w : Worker)
    → s.exit_flag ≡ true
    → s.main ≡ drained
    → IsCut s
    → s.workers ≡ us ++ w ∷ vs
    → w ≢ exited
    → Goes s 0
worker-Goes s us vs waiting on at cut e n = record {
  to = _;
  step = exit us vs e on;
  awake = there_is free s.workers us vs waiting e;
  alone = tt;
}
worker-Goes s us vs (handling fd) on at cut e n = record {
  to = _;
  step = unregister us vs fd e;
  awake = tt;
  alone =
      cut (rw at refl) fd
        (omega (arith, there_is (served fd) s.workers us vs (handling fd) e, held_one fd));
}
worker-Goes s us vs (leaving fd) on at cut e n = record {
  to = _;
  step = close us vs fd e;
  awake = tt;
  alone = tt;
}
worker-Goes s us vs exited on at cut e n = absurd (n refl)

drained-Goes :
    (s : State) → s.exit_flag ≡ true → s.main ≡ drained → IsCut s → Crew s.workers → Goes s 0
drained-Goes s on at cut (all_gone n e) = record {
  to = _;
  step = join n at e;
  awake = tt;
  alone = tt;
}
drained-Goes s on at cut (here us vs w e n) = worker-Goes s us vs w on at cut e n

leaving-Goes :
    (s : State) (m : Main)
    → s.exit_flag ≡ true
    → s.main ≡ m
    → leaving_main m ≡ true
    → IsCut s
    → (m ≡ joined) ⊎ Goes s 0
leaving-Goes s serving on at e cut = cc
leaving-Goes s (accepted fd) on at e cut = cc
leaving-Goes s flagged on at e cut =
    inr (record { to = _; step = shutdown at; awake = tt; alone = tt })
leaving-Goes s shut_down on at e cut =
    inr (record { to = _; step = drain at; awake = tt; alone = tt })
leaving-Goes s drained on at e cut = inr (drained-Goes s on at cut (crew s.workers))
leaving-Goes s joined on at e cut = inl refl

waiting_one :
    (ws : List Worker)
    → 0 < sum free ws
    → (us : List Worker) × (vs : List Worker) × (ws ≡ us ++ waiting ∷ vs)
waiting_one [] h = absurd (omega (arith, h))
waiting_one (waiting ∷ ws) h = ([], ws, refl)
waiting_one (handling fd ∷ ws) h =
    let (us, vs, e) = waiting_one ws (omega (arith, h)) in
    (handling fd ∷ us, vs, ap (◌∷◌ (handling fd)) e)
waiting_one (leaving fd ∷ ws) h =
    let (us, vs, e) = waiting_one ws (omega (arith, h)) in
    (leaving fd ∷ us, vs, ap (◌∷◌ (leaving fd)) e)
waiting_one (exited ∷ ws) h =
    let (us, vs, e) = waiting_one ws (omega (arith, h)) in (exited ∷ us, vs, ap (◌∷◌ exited) e)

rested : (queued n m : ℕ) → (0 < n → queued + n ≤ m) → 0 < m → 0 < queued → n < m
rested queued zero m h some_idle some_queued = some_idle
rested queued (suc n) m h some_idle some_queued = omega (arith, h (omega arith))

pub record IsLively (s : State) (asleep : ℕ) : Type 0 where
  pub ends : s.exit_flag ≡ true → (s.main ≡ joined) ⊎ Goes s asleep
  pub serves :
      (fd : ℕ) (queue : List ℕ)
      → s.exit_flag ≡ false
      → s.queue ≡ fd ∷ queue
      → 0 < idle s
      → (g : Goes s asleep) × (g.to.queue ≡ queue)

-- No wake-up is lost, in any order of the threads' steps, with the waits for the condition variable, its
-- signal, its broadcast and wake-ups for no reason. Once the exit flag is set, `main` has
-- joined its threads, or some thread that is awake has a step to take that needs nothing from a client: a
-- client's request ends then because its socket was shut down. Before that, whenever a client is in the
-- queue and some worker is not busy, a worker that is awake can take the first client.
pub Woken-IsLively : (num : ℕ) (s : State) (asleep : ℕ) → Woken num s asleep → IsLively s asleep
Woken-IsLively num s asleep w =
    let r = Woken-Reachable num s asleep w in
    let heard = Woken-IsHeard num s asleep w in
    record {
      ends = λ on. rw (heard.told on) (
          leaving-Goes s s.main on refl (sym (Reachable-IsOwned num s r).flag ∙ on)
            (Reachable-IsCut num s r));
      serves = λ fd queue off some_queued some_idle.
          let (us, vs, at) = waiting_one s.workers some_idle in
          (
            record {
              to = _;
              step = take us vs fd queue at off some_queued;
              awake =
                  rested (length s.queue) asleep (idle s) heard.awake some_idle
                    (omega (arith, ap length some_queued));
              alone = tt;
            },
            refl,
          );
    }
