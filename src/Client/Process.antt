-- ===== src/Client/Process.antt =====
-- `process_command` of src/client/client_command_handle.c and the loop of `main` in
-- src/client/client.c.
use wind_cloud_v.Base.{
  ℕ, zero, suc, Bool, false, ◌||◌, none, some, [], ◌∷◌, Bytes, length, ◌==◌, if◌then◌else◌, codes,
  equal,
}
use wind_cloud_v.Libc.{fgets, chop}
use wind_cloud_v.Wire.Types.{CmdType, Host}
use wind_cloud_v.Wire.Command.{build_command_request}
use wind_cloud_v.Server.World.{Posix, Run, returns, out_of_fuel, ◌>>=◌}
use wind_cloud_v.Client.World.{Calls, Mine}
use wind_cloud_v.Client.Simple.{handle_simple_command}
use wind_cloud_v.Client.Upload.{handle_puts}
use wind_cloud_v.Client.Download.{handle_gets}

module _ (host : Host) (os : Posix) (calls : Calls os) where
  -- The `switch` on the command type; a transfer wants a file name.
  unfoldable pub run_request : Mine os → CmdType → Bytes → Run (Bool × Mine os)
  run_request c CmdType.pwd arg =
      handle_simple_command host c (record { type = CmdType.pwd; arg = arg })
  run_request c CmdType.cd arg =
      handle_simple_command host c (record { type = CmdType.cd; arg = arg })
  run_request c CmdType.ls arg =
      handle_simple_command host c (record { type = CmdType.ls; arg = arg })
  run_request c CmdType.rm arg =
      handle_simple_command host c (record { type = CmdType.rm; arg = arg })
  run_request c CmdType.mkdir arg =
      handle_simple_command host c (record { type = CmdType.mkdir; arg = arg })
  run_request c CmdType.puts_req [] = returns (false, c)
  run_request c CmdType.puts_req (b ∷ bs) = handle_puts host os calls c (b ∷ bs)
  run_request c CmdType.gets_req [] = returns (false, c)
  run_request c CmdType.gets_req (b ∷ bs) = handle_gets host os calls c (b ∷ bs)
  run_request c _ arg = returns (false, c)

  unfoldable pub process_command : Mine os → Bytes → Run (Bool × Mine os)
  process_command c input = elim (build_command_request input) [
    | none ↦ returns (false, c)
    | some req ↦ run_request c req.type req.arg
  ]

  -- The loop of `main` on what is left of the standard input. What a command returns is not looked
  -- at.
  unfoldable pub command_loop : ℕ → Bytes → Mine os → Run (Mine os)
  command_loop zero stdin c = out_of_fuel
  command_loop (suc fuel) stdin c = elim (fgets 512 stdin) [
    | none ↦ returns c
    | some (line, rest) ↦
        let input = chop (λ x. x == b'\n') line in
        let skipped = command_loop fuel rest c in
        if equal input (codes "quit") || equal input (codes "exit")
        then returns c
        else if length input == 0
        then skipped
        else process_command c input >>= (λ (ok, c'). command_loop fuel rest c')
  ]

  unfoldable pub main_loop : Bytes → Mine os → Run (Mine os)
  main_loop stdin c = command_loop (suc (length stdin)) stdin c
