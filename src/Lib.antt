-- ===== src/Lib.antt =====
-- WindCloud, a network drive over TCP: a user types commands at a client, and a server answers
-- them from a directory. This development models both programs, the protocol that they share,
-- and what they do together on the two ends of a connection.
--
-- Wire is the protocol, include/protocol.h and src/common/protocol.c. Wire.Endian has htonl,
-- ntohl, the layout of integers in memory, and host_to_net_u64 and net_to_host_u64. Wire.Stream
-- has send_n and recv_n over a socket (Conn), whose kernel answers each call from a list: a
-- short read or write, EINTR or an error. Wire.Types has the enums, the header, the packet, and
-- the host with its byte order and what calloc answers. Wire.Packet has send_packet and
-- recv_packet, and Wire.Command the parser of a line that the user types. Wire.Stream.Capacity
-- says what send_n sends, and Wire.Command.Accepted takes accepted lines apart.
--
-- Server is the program of src/server. Server.Path has pop_one_level, normalize_virtual_path,
-- build_real_path and resolve_target_path, and Server.Path.Walk the stack of names they are
-- compared with. Server.World has session_t and the interface to the file system (Posix), with
-- what its manual says as Documented, and as Local where no two paths name one file: the files
-- are not in the repository, so they are a parameter. Server.Reply has the helpers that build
-- and take apart packets, Server.Commands the handlers of pwd, cd, ls, rm and mkdir,
-- Server.Upload handle_puts, Server.Download handle_gets, and Server.Request dispatch_command
-- and handle_request. Server.Effect says what every step of a handler keeps. Server.Queue has
-- enQueue and deQueue on an explicit heap, and Server.Queue.Fifo sequences of them against a
-- list. Server.Pool has the threads, src/server/thread_pool.c, src/server/worker.c and the loop
-- of main in src/server/server.c, as a step relation: a step is a critical section under the
-- pool's lock or a system call, and the threads take steps in any order. Server.Pool.Owners
-- says who holds a client socket, and Server.Pool.Exit follows the exit. In these steps the
-- condition variable is a guard, and handle_request may return at any time; Server.Pool.Wakeup
-- adds which workers sleep, and which steps need nothing from a client. The pool hands a socket
-- to handle_request, which Server.Request models for one connection.
--
-- Client is the program of src/client. Client.World has what a command works on: the disk, the
-- socket, what the kernel gives at each read of a file, and what is printed. Client.Simple has
-- recv_text_response and handle_simple_command, Client.Upload handle_puts, Client.Download
-- handle_gets, and Client.Process process_command and the loop of main. Client.Idle and
-- Client.Ends say what a command may change on the client's disk, and Client.Loop that the loop
-- of main ends.
--
-- EndToEnd puts the two together: what one side sends arrives at the other, cut in any way.
-- EndToEnd.Session has a whole upload, from handle_puts of the client to handle_puts of the
-- server and back: EndToEnd.Receive and EndToEnd.Store have the server's half,
-- Client.Upload.Whole the client's. EndToEnd.Resume has an upload that is broken off and sent
-- again, over EndToEnd.Interrupted and EndToEnd.Broken, which follow a stream that ends
-- anywhere; EndToEnd.Unmapped has an upload whose file cannot be mapped. EndToEnd.Partly,
-- EndToEnd.Lost and EndToEnd.Refetch have a download that is broken off and asked for again.
-- EndToEnd.Retrieval has a whole download, with EndToEnd.Give for the server's half and
-- EndToEnd.Fetch for the client's. EndToEnd.Upload has the block loop of the client against
-- that of the server, EndToEnd.Download the other direction, and EndToEnd.Command a command
-- that is answered with one packet.
--
-- Config is src/common/config.c with the settings that both programs read, over the functions
-- of the C library in Libc; Config.Lookup compares it with a lookup in a list of settings. Log
-- is src/common/log.c: Log.Handles follows the streams it opens until the mutex is destroyed,
-- and Log.Levels what it writes.
--
-- Net is how both programs start: src/server/server_socket.c, src/client/client_socket.c,
-- src/server/epoll.c and include/error_check.h over the calls of the system (Kernel), whose
-- failures end the process (Outcome). Net.Port has the port of the address, Net.Calls what the
-- manual says of the calls, and Net.Start what main does before its loop. Server.Main is the
-- loop of the server's main over what epoll_wait answers, against the steps of Server.Pool;
-- Server.Main.Whole and Client.Whole are main of both programs behind the settings, with what
-- they close at their end.
--
-- Server.Memory and Client.Memory are a disk in memory, on which the modules called Tests run
-- the theorems.
--
-- A path or a string is the list of bytes before its NUL; a buffer's size is written out where
-- the code uses it. A descriptor is the path that was opened. Integers are natural numbers,
-- with % 2 ^ 64 where a uint64_t can wrap. A loop that receives packets runs on fuel, one more
-- than the bytes that can still arrive, and each packet takes 20 of them; the download loop has
-- one more than the file's size, and each block moves on by at least a byte. The upload loop of
-- the client has one more than the bytes left and the answers of read together; the loops over
-- a configuration file and over the standard input have one more than its bytes, and each line
-- takes one.
--
-- Not modelled: the calls to the log from the other modules, the signal handler of the server,
-- the prompt of the client and the farewell that it prints, what goes to the standard error,
-- and two connections that work on one file.
pub mod Base
pub mod Client
pub mod Config
pub mod EndToEnd
pub mod Libc
pub mod Log
pub mod Net
pub mod Server
pub mod Wire
