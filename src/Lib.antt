-- ===== src/Lib.antt =====
-- The rcli server for the Amiga: a shell or a command runs behind a virtual console, whose reads and
-- writes go over a socket.
--
-- The server (amiga/rclid/rclid.c) runs one loop over three sources of signals. The virtual console
-- (amiga/rclid/vcon.c) gets DOS packets of the program that runs, and lends a message of its pool to
-- the server for each packet that it cannot answer at once. The server submits the request to the
-- socket layer (amiga/rclid/sockio.c), which moves bytes with non-blocking calls, keeps reads,
-- writes and waits in three lists, and replies each message when it is done; waits run a job of
-- amiga/rclid/timer.c. Bytes that were read are split into lines and cleaned of control characters
-- (amiga/rclid/conv.c), which become signals to the tasks behind the console. Before that a
-- handshake (amiga/rclid/init.c, line.c) reads the mode and an argument line. The shell or command
-- runs in a process of its own (amiga/rclid/run.c), which tells the server by a signal that it has
-- ended. The server is a service: it takes its socket (amiga/rclid/serv.c) from inetd or from
-- amiga/rclid/runserv.c, which accepts connections and starts a service for each. The command line
-- tools (amiga/tools/tget.c, tput.c, tsig.c) share a parser and printer of control sequences
-- (amiga/tools/termio.c).
--
-- Common: shared names, Boolean tests, lists over the native numbers, memory as a function, the loop
--   over a message port, and the blocks and ports that are allocated.
-- Conv: `conv_extract_signals`; Conv/Extract compares it with filters on the list of bytes.
-- Vcon: the handle, its pool (`alloc_vmsg`, `free_vmsg`, `vcon_create_fh`); Vcon/Packets has
--   `handle_dos_pkt`, one function for each action; Vcon/Signals the replies, the port loops,
--   `vcon_send_signal` and `vcon_flush`; Vcon/Session runs the console between a program that
--   sends packets and a client that takes, holds and answers messages in any order, and has no
--   flush, which the server never calls. Vcon/Books counts messages and packets, Vcon/Handled,
--   Vcon/Once and Vcon/Conservation follow the counts through each operation, Vcon/Flushing and
--   Vcon/Targets are about the flush and the signals, Vcon/Drained about the two port loops.
--   Vcon/Memory has what `vcon_init` allocates and `vcon_exit` frees.
-- Timer: jobs, device and port; Timer/Jobs their invariant, Timer/Addresses lookups by address,
--   Timer/Memory what is allocated.
-- Sockio: the handle and its messages; Sockio/Submit the calls of the user, Sockio/Wait the helpers
--   of `sockio_wait_handle`, Sockio/Handle that function itself; Sockio/Session puts the client, the
--   timer device and the socket around a handle, as events in any order. Sockio/Links says where
--   messages are and which timer jobs name them; Answered, Moves, Transfers, Calm, Rounds and Posted
--   follow that through each operation, up to Conservation. Writes says in which order writes will
--   be answered; Ordered, Enlisted, Waited, Queued and Issued follow it, up to Fifo. Stream, Receive,
--   Flush, Replace and Submitted are proofs about single operations, Race about a round in which a
--   timer runs out as its character arrives, Drained about the port
--   loops; Still, Frames and Sent follow the users' data of messages. Sockio/Memory has what
--   `sockio_init` allocates and `sockio_exit` frees.
-- Line and Init: `line_check_char`, `line_read_line`, `init_handshake`; Line/Ends and Init/Outcome have
--   proofs.
-- Rclid: data and options; Rclid/Console has `handle_vcon_msg`, Rclid/Socket `handle_sockio_msg` with
--   `line_split_buffer` and `process_signals_in_buffer`, Rclid/Loop `main_loop`, Rclid/Setup
--   `init_rclid`, `run_command`, `exit_rclid` and `main` with what is allocated; Rclid/Requests,
--   Replies, Lines, Options, Idle, Activity, Drained and Ends are proofs. Rclid/Session puts
--   programs, DOS, the timer device and the system around the loop with its console and its socket,
--   which the handshake has used before. Rclid/Cargo counts what socket messages carry; Rclid/Ledger
--   has the books of both pools and of the packets: its Moves and Messages are single steps, Requests, Answers
--   and Ports the two handlers, Rounds a round of the loop, Start the state after the handshake,
--   Accounts whole runs; Quiet, Closing and Answered are about the time after the socket is gone.
-- Run: `run_init`; Run/Process has `start_proc` and `run_exit`, each as a place that it has reached
--   and one turn from there, so that a list of turns is an interleaving; Run/Order, Result,
--   Progress and Hangs are proofs.
-- Serv: `get_socket`, `serv_init`, `serv_exit`; Serv/Exits has a proof.
-- Runserv: `setup_listen_socket` and `runserv`, whose loop is split at the calls that may fail, with
--   lists of what is open; Runserv/Main its `main`; Runserv/Strays and Leftovers have proofs.
-- Termio: `termio_parse_csi` and `termio_expand_cmd_code`; Termio/Tables the tables and lookups;
--   Termio/Keys, Parse and RoundTrip are proofs.
-- Tools: `read_buf`, `tget`, `tput` and the exit code of tsig; Tools/ReadBuf has a proof, Tools/Main
--   the mains of tget.c and tput.c.
-- Tests: concrete inputs for all of these.
--
-- A message is named by its index in the handle's array, a packet, port, task or job by its address.
-- An exec list or message port is a list; memory that buffers point into is a function from addresses
-- to bytes. Calls that answer DOS or a port are logged in the state. What the system answers
-- (`WaitSelect`, `recv`, `send`, `OpenDevice`, allocation) is an argument, one for each call or each
-- round of a loop, so that a loop over `while` is a recursion on the list of answers, and `none` or
-- the state reached where they end; loops over a message port run over what it held at the start,
-- because the handlers do not add to it; the Drained files compare them with the loops
-- that ask the port again each time. `ULONG` and `UWORD` arithmetic that can wrap has its modulus
-- written out. `CopyMem` is modelled for areas that have no byte in common, as it is documented.
--
-- Not modelled: the text of the argument line that runserv.c prints with `snprintf`; what tget.c and
-- tput.c dump with VERBOSE; the logs; the test programs; the Python client.
pub mod Common
pub mod Conv
pub mod Vcon
pub mod Timer
pub mod Sockio
pub mod Line
pub mod Rclid
pub mod Run
pub mod Serv
pub mod Runserv
pub mod Init
pub mod Termio
pub mod Tools
pub mod Tests
