-- ===== src/Tests/Service.antt =====
-- A service that is started for a client, and one that cannot be, for amiga/rclid/runserv.c and
-- serv.c, and the ends of rclid.c.
use rcli.Common.{ℕ, ◌^◌, ◌≡◌, refl, none, some, true, false, [], ◌∷◌}
use rcli.Serv.{ServAnswer, nothing, get_socket, serv_init, serv_exit}
use rcli.Serv.Exits.{opened_with, serv_init-serv_exit}
use rcli.Runserv.{
  Tool, ListenAnswer, RoundAnswer, setup_listen_socket, serve, pass_on, launch_service, serve_loop,
  runserv,
}
use rcli.Runserv.Leftovers.{Returned, runserv-Returned}
use rcli.Run.{run_init}
use rcli.Rclid.{ServOptions, Mode}
use rcli.Rclid.Setup.{main, after_init, init_rclid, run_command, MainAnswer}

abbrev idle_tool : Tool
idle_tool = record { signals = []; sockets = []; segs = []; ids = []; outputs = []; launched = [] }

abbrev on_socket : ListenAnswer
on_socket = record { socket = some 3; binds = true; listens = true }

-- A service is launched and answers with signal 16.
abbrev launched : RoundAnswer
launched = record {
  select = some 1;
  client = some 4;
  addr_fits = true;
  seg = some 700;
  sock_id = some 90;
  output = some 50;
  created = true;
  got_mask = 2 ^ 16;
  service_obtains = true;
  obtained = none;
}

-- A client whose address has another length.
abbrev strange : RoundAnswer
strange = record {
  select = some 1;
  client = some 5;
  addr_fits = false;
  seg = none;
  sock_id = none;
  output = none;
  created = false;
  got_mask = 0;
  service_obtains = false;
  obtained = none;
}

runserv-Returned_example :
    Returned 16 false
      (launched ∷ strange ∷ [])
      idle_tool
      (runserv (some 16) on_socket 8 false (launched ∷ strange ∷ []) idle_tool).1
unfolding runserv setup_listen_socket serve_loop serve pass_on launch_service
runserv-Returned_example =
    runserv-Returned (some 16) on_socket 8 false (launched ∷ strange ∷ []) idle_tool refl

-- The service signals, but has not obtained socket 90.
unobtained :
    (runserv
      (some 16)
      on_socket
      8
      false
      (record launched { service_obtains = false } ∷ strange ∷ [])
      idle_tool).1.ids
    ≡ 90 ∷ []
unfolding runserv setup_listen_socket serve_loop serve pass_on launch_service
unobtained = refl

runserv_leaks :
    (runserv (some 16) on_socket 8 false (launched ∷ strange ∷ []) idle_tool).1.sockets ≡ 5 ∷ []
unfolding runserv setup_listen_socket serve_loop serve pass_on launch_service
runserv_leaks = refl

abbrev from_runserv : ServAnswer
from_runserv = record {
  dos = true;
  socket_lib = true;
  args = some (record { socket = some 90; task = some 8; signal = some 16 });
  obtain = λ id. some 2;
  daemon = none;
}

serv_init-serv_exit_example :
    ((serv_init from_runserv).opened ≡ opened_with true (serv_init from_runserv).socket)
    × ((fd : ℕ)
        → (serv_init from_runserv).socket ≡ some fd
        → serv_exit (serv_init from_runserv).opened fd ≡ nothing)
serv_init-serv_exit_example = serv_init-serv_exit from_runserv

-- The console is there and the shell has its process; at the end bytes are still pushed back.
abbrev shell_runs : MainAnswer
shell_runs = record {
  serv = from_runserv;
  init = record {
    server = true;
    tmp_tx_buf = true;
    break_mask = true;
    sockio_port = true;
    sockio = true;
    push_back = true;
  };
  handshake = record { ok = true; mode = Mode.shell; arg_line = none };
  ram = λ a. 0;
  command = record {
    vcon_port = true;
    vcon = true;
    fh_in = some 5;
    fh_out = some 6;
    run = record { memory = true; signal = some 3; created = true };
  };
  loop_ends = true;
  at_start = false;
}

abbrev plain_options : ServOptions
plain_options = record {
  stack_size = 8192;
  max_msgs = 8;
  init_wait = 200;
  push_back_max = 1024;
  arg_len = 256;
  def_command = none;
  def_shell_cmd = none;
  flags = 3;
}

-- Without a process `main` does not return.
main_hangs :
    main plain_options (record shell_runs {
      command = record (shell_runs.command) {
        run = record { memory = true; signal = some 3; created = false };
      };
    })
    ≡ none
unfolding main after_init init_rclid run_command run_init serv_init get_socket
main_hangs = refl
