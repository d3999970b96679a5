-- ===== src/Client/Loop.antt =====
-- The loop of `main` in src/client/client.c against the standard input it is given.
use wind_cloud_v.Base.{
  ℕ, zero, suc, ◌<◌, ◌≢◌, ap, inl, inr, Bool, true, false, ◌||◌, ◌==◌, some, Option-cases, [], ◌∷◌,
  Bytes, length, if◌then◌else◌, arith, codes, equal,
}
use wind_cloud_v.Libc.{fgets, chop}
use wind_cloud_v.Libc.Laws.{fgets-less}
use wind_cloud_v.Wire.Types.{Host}
use wind_cloud_v.Wire.Command.{build_command_request}
use wind_cloud_v.Server.World.{Posix, Local, Run, returns, overread, out_of_fuel, ◌>>=◌}
use wind_cloud_v.Client.World.{Calls, Written, Mine}
use wind_cloud_v.Client.Process.{process_command, command_loop, main_loop}
use wind_cloud_v.Client.Ends.{Ends, target, process_command-Ends}

-- A run that comes to its end, if only at a read behind a buffer.
abbrev pub Finishes : {A : Type 0} → Run A → Type 0
Finishes (returns a) = Unit
Finishes overread = Unit
Finishes out_of_fuel = ⊥

longer : (n : ℕ) (p : Bytes) → n ∷ p ≢ p
longer n p e = absurd (omega (arith, ap length e))

module _ (host : Host) (os : Posix) (calls : Calls os) (loc : Local os)
    (doc : Written os calls) where
  Ends-Finishes : (q : Bytes) (c : Mine os) (r : Run (Bool × Mine os)) → Ends os q c r → Finishes r
  Ends-Finishes q c (returns r) h = tt
  Ends-Finishes q c overread h = tt
  Ends-Finishes q c out_of_fuel h = h

  process_command-Finishes :
      (c : Mine os) (input : Bytes) → Finishes (process_command host os calls c input)
  process_command-Finishes c input = elim (Option-cases (target (build_command_request input))) [
    | inl e ↦ at [] (λ f. (cc))
    | inr (p, e) ↦ at (0 ∷ p) (λ f. longer 0 p cc)
  ]
    where
      at :
          (q : Bytes)
          → target (build_command_request input) ≢ some q
          → Finishes (process_command host os calls c input)
      at q n = Ends-Finishes q c _ (process_command-Ends host os calls loc doc q c input n)

  bind-Finishes :
      {A B : Type 0} (r : Run A) (next : A → Run B)
      → Finishes r
      → ((x : A) → Finishes (next x))
      → Finishes (r >>= next)
  bind-Finishes (returns a) next h k = k a
  bind-Finishes overread next h k = tt
  bind-Finishes out_of_fuel next h k = h

  if-Finishes :
      {A : Type 0} (b : Bool) (r s : Run A)
      → Finishes r
      → Finishes s
      → Finishes (if b then r else s)
  if-Finishes true r s h k = h
  if-Finishes false r s h k = k

  command_loop-Finishes :
      (fuel : ℕ) (stdin : Bytes) (c : Mine os)
      → length stdin < fuel
      → Finishes (command_loop host os calls fuel stdin c)
  unfolding command_loop
  command_loop-Finishes zero stdin c f = absurd (omega arith)
  command_loop-Finishes (suc fuel) stdin c f = elim (Option-cases (fgets 512 stdin)) [
    | inl end ↦ rw (end, command_loop) tt
    | inr ((line, rest), got) ↦
        let input = chop (λ x. x == b'\n') line in
        let on : (c' : Mine os) → Finishes (command_loop host os calls fuel rest c') = λ c'.
          command_loop-Finishes fuel rest c'
            (omega (arith, f, fgets-less 512 stdin line rest (omega arith) got)) in
        rw (got, command_loop)
          (if-Finishes (equal input (codes "quit") || equal input (codes "exit")) (returns c) _ tt (
            if-Finishes (length input == 0) _ _ (on c) (
              bind-Finishes (process_command host os calls c input) _
                (process_command-Finishes c input) (λ x. on x.1))))
  ]

  -- Whatever is typed and whatever the server sends, the loop of the client comes to its end, if
  -- only at a read behind a buffer. The calls of the file system touch only the path they are
  -- given.
  pub main_loop-Finishes :
      (stdin : Bytes) (c : Mine os) → Finishes (main_loop host os calls stdin c)
  unfolding main_loop
  main_loop-Finishes stdin c = command_loop-Finishes (suc (length stdin)) stdin c (omega arith)
