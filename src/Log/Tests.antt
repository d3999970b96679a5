-- ===== src/Log/Tests.antt =====
-- The log of a program that names its file twice, and of one that says less.
use wind_cloud_v.Base.{ℕ, ◌≡◌, refl, true, none, some, [], ◌∷◌, Bytes, arith, codes, equal}
use wind_cloud_v.Log.{
  Log, start, file, error, lowered, level_to_name, init_log, close_log, warn, info,
}
use wind_cloud_v.Log.Handles.{count, one, begin, to_file, to_console, shut, Reachable-Owned}
use wind_cloud_v.Log.Levels.{Message, write_all, severe, entry, write_all-init_log}

abbrev opened : Log
opened = (init_log (λ p. true) (some (codes "warn")) (some (codes "server.log")) start).1

abbrev moved : Log
moved = (init_log (λ p. true) none none opened).1

abbrev again : Log
again = (init_log (λ p. true) none (some (codes "client.log")) moved).1

-- The first file was never closed: a stream of it is open at the end.
Reachable-Owned_example : count (codes "server.log") (close_log again).handles ≡ 1
unfolding count one equal init_log close_log
Reachable-Owned_example =
    Reachable-Owned (close_log again) (codes "server.log" ∷ [])
      (shut refl (
        to_file (λ p. true) none (codes "client.log") refl
          (to_console (λ p. true) none refl
            (to_file (λ p. true) (some (codes "warn")) (codes "server.log") refl begin))))
      (codes "server.log")

abbrev message : ℕ → Bytes → Message
message level body = record {
  level = level;
  source_file = codes "server.c";
  line = 7;
  func = codes "main";
  body = body;
}

write_all-init_log_example :
    (write_all (message info (codes "up") ∷ message error (codes "bind") ∷ []) opened).entries
    ≡ entry (file (codes "server.log")) (message error (codes "bind")) ∷ []
unfolding init_log lowered level_to_name severe
write_all-init_log_example =
    write_all-init_log (λ p. true) warn (codes "warn") (some (codes "server.log")) start
      (message info (codes "up") ∷ message error (codes "bind") ∷ []) (omega arith) refl
