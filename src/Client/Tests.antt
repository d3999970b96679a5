-- ===== src/Client/Tests.antt =====
-- The client over a disk in memory, at concrete commands.
use wind_cloud_v.Base.{
  ◌≡◌, ◌≢◌, refl, ap, sym, ◌∙◌, equal, Option, true, none, some, [], ◌∷◌, ◌++◌, Bytes, length,
  arith, codes,
}
use wind_cloud_v.Wire.Stream.{interrupted, moved}
use wind_cloud_v.Wire.Types.{CmdType, cmd_code, Status, status_code}
use wind_cloud_v.Wire.Packet.{send_packet, recv_packet}
use wind_cloud_v.Wire.Packet.Framing.{packet_bytes}
use wind_cloud_v.Wire.Command.{
  build_command_request, parse_command_request, scan_line, scan, skip_space, is_space, request_of,
  parse_command_type, fill_request,
}
use wind_cloud_v.Server.World.{returns}
use wind_cloud_v.Server.Memory.{host, host_memory, Files, put_file, created, memory, memory_local}
use wind_cloud_v.Client.World.{text, uploaded, Client, say}
use wind_cloud_v.Client.Simple.Reply.{shown, puts_end-reply}
use wind_cloud_v.Client.Upload.{puts_end}
use wind_cloud_v.Client.Process.{process_command}
use wind_cloud_v.Client.Ends.{Ends, target, process_command-Ends}
use wind_cloud_v.Client.Whole.{client_main, Leaves, client_main-Leaves}
use wind_cloud_v.Net.Tests.{kernel, kernel_manual, nothing, defaults, port_9090}
use wind_cloud_v.Client.Memory.{file_calls, file_calls-Written}

-- A client with a file, and a kernel that gives it two bytes first.
abbrev here : Client Files
here = record {
  disk = put_file (λ p. none) (codes "a") (some (codes "hello"));
  conn = record {
    incoming =
        moved (packet_bytes CmdType.error Status.io_error (codes "full" ++ 0 ∷ []) ++ []) ∷ [];
    room = moved 9 ∷ [];
    sent = [];
  };
  reads = interrupted ∷ moved 2 ∷ [];
  writes = [];
  printed = [];
}

puts_end-reply_example :
    puts_end host (codes "a") (true, here)
    ≡ returns (
      true,
      say (uploaded (codes "a")) (
          say (text (shown (codes "full"))) (record here {
            conn =
                (recv_packet host
                  (send_packet host here.conn CmdType.file_end Status.status_ok []).1).1;
          })),
    )
unfolding cmd_code status_code
puts_end-reply_example =
    puts_end-reply host host_memory (codes "a") true Status.io_error (codes "full") [] here tt
      (omega arith) refl

gets_b : target (build_command_request (codes "gets bb")) ≡ some (codes "bb")
unfolding build_command_request parse_command_request scan_line scan skip_space is_space request_of
    parse_command_type equal fill_request
gets_b = refl

a_kept : target (build_command_request (codes "gets bb")) ≢ some (codes "a")
a_kept e = omega (arith, ap (λ (x : Option Bytes). length (created x)) (sym gets_b ∙ e))

process_command-Ends_example :
    Ends memory (codes "a") here (process_command host memory file_calls here (codes "gets bb"))
process_command-Ends_example =
    process_command-Ends host memory file_calls memory_local file_calls-Written (codes "a") here
      (codes "gets bb") a_kept

client_main-Leaves_example : Leaves kernel memory kernel_manual nothing (
    client_main host memory file_calls
      (λ ip. ip)
      kernel
      (λ path. true)
      (codes "ls\nputs a\nquit\n")
      here
      nothing
      (defaults (codes "client.log")))
client_main-Leaves_example =
    client_main-Leaves host memory file_calls memory_local file_calls-Written (λ ip. ip) kernel
      kernel_manual (λ path. true) (codes "ls\nputs a\nquit\n") here nothing
      (defaults (codes "client.log")) 9090 port_9090
