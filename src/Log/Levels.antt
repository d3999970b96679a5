-- ===== src/Log/Levels.antt =====
-- The levels of src/common/log.c: their names, and which messages are written.
use wind_cloud_v.Base.{
  ℕ, zero, suc, ◌≤◌, ◌≡◌, refl, sym, ap, ◌∙◌, inl, inr, Bool, Bool-cases, Option, none, some, List,
  [], ◌∷◌, ◌++◌, append-nil, append_assoc, Bytes, take, arith, equal, ltb, if◌then◌else◌,
}
use wind_cloud_v.Log.{
  Target, Entry, Log, error, lowered, level_to_int, level_to_name, or_console, init_log, log_write,
}

-- A level's name, in any case, is read as that level.
level_to_int-level_to_name :
    (level : ℕ) (name : Bytes)
    → level ≤ error
    → lowered name ≡ lowered (level_to_name level)
    → level_to_int name ≡ level
unfolding level_to_int level_to_name lowered equal
level_to_int-level_to_name zero name h e = rw (e, level_to_int) refl
level_to_int-level_to_name (suc zero) name h e = rw (e, level_to_int) refl
level_to_int-level_to_name (suc (suc zero)) name h e = rw (e, level_to_int) refl
level_to_int-level_to_name (suc (suc (suc zero))) name h e = rw (e, level_to_int) refl
level_to_int-level_to_name (suc (suc (suc (suc n)))) name h e = absurd (omega arith)

-- The arguments of a call of `log_write`.
pub record Message : Type 0 where
  pub level : ℕ
  pub source_file : Bytes
  pub line : ℕ
  pub func : Bytes
  pub body : Bytes

unfoldable pub write_all : List Message → Log → Log
write_all [] s = s
write_all (m ∷ ms) s = write_all ms (log_write m.level m.source_file m.line m.func m.body s)

abbrev pub entry : Target → Message → Entry
entry target m = record {
  target = target;
  level_name = level_to_name m.level;
  source_file = m.source_file;
  line = m.line;
  func = m.func;
  message = take 1023 m.body;
}

-- The lines of the messages that are at least as severe as a level.
unfoldable pub severe : ℕ → Target → List Message → List Entry
severe level target [] = []
severe level target (m ∷ ms) =
    let rest = severe level target ms in if ltb m.level level then rest else entry target m ∷ rest

write_all-severe :
    (ms : List Message) (s : Log)
    → (write_all ms s).entries ≡ s.entries ++ severe s.level (or_console s.target) ms
unfolding write_all severe log_write
write_all-severe [] s = sym (append-nil s.entries)
write_all-severe (m ∷ ms) s = elim (Bool-cases (ltb m.level s.level)) [
  | inl below ↦ rw (below, write_all, log_write, severe) (write_all-severe ms s)
  | inr shown ↦
      let s' = record s { entries = s.entries ++ entry (or_console s.target) m ∷ [] } in
      rw (shown, write_all, log_write, severe)
        (write_all-severe ms s' ∙ append_assoc s.entries (entry (or_console s.target) m ∷ []) _)
]

init_log-level :
    (opens : Bytes → Bool) (name : Bytes) (path : Option Bytes) (s : Log)
    → ((init_log opens (some name) path s).1.level ≡ level_to_int name)
      × ((init_log opens (some name) path s).1.entries ≡ s.entries)
unfolding init_log
init_log-level opens name none s = (refl, refl)
init_log-level opens name (some path) s = elim (Bool-cases (opens path)) [
  | inl e ↦ rw (e, init_log) (refl, refl)
  | inr e ↦ rw (e, init_log) (refl, refl)
]

-- After `init_log` with the name of one of the four levels, in upper or lower case, and whatever the
-- log goes to, the messages written in a row add their lines in order, just those at least as severe
-- as that level, and each to the stream that `init_log` chose.
pub write_all-init_log :
    (opens : Bytes → Bool) (level : ℕ) (name : Bytes) (path : Option Bytes) (s : Log)
    (ms : List Message)
    → level ≤ error
    → lowered name ≡ lowered (level_to_name level)
    → (write_all ms (init_log opens (some name) path s).1).entries
      ≡ s.entries ++ severe level (or_console (init_log opens (some name) path s).1.target) ms
write_all-init_log opens level name path s ms h e =
    let s' = (init_log opens (some name) path s).1 in
    let (set, same) = init_log-level opens name path s in
    write_all-severe ms s'
    ∙ ap (λ (x : List Entry). x ++ severe s'.level (or_console s'.target) ms) same
    ∙ ap (λ n. s.entries ++ severe n (or_console s'.target) ms)
        (set ∙ level_to_int-level_to_name level name h e)
