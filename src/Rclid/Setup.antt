-- ===== src/Rclid/Setup.antt =====
-- `init_rclid`, `run_command`, `exit_rclid` and `main` of rclid.c: what is allocated and freed
-- around the main loop, and which command is run.
use rcli.Common.{
  ℕ, Bool, true, false, Option, none, some, List, [], ◌∷◌, ◌++◌, not, ◌&&◌, if◌then◌else◌, Ram,
}
use rcli.Rclid.{ServOptions, Mode}
use rcli.Run.{RunMode, RunAnswer, Launch, run_init}
use rcli.Serv.{ServAnswer, Opened, serv_init, serv_exit}

-- The texts that `error_out` sends while the server starts.
pub data StartError : Type 0 where
  server_data tmp_buffer socket_options create_sockio_port open_sockio : StartError
  create_vcon_port open_console init_run starting_command : StartError

-- What is allocated: `sd` itself, what its fields point to, the push back buffer that belongs to
-- `sockio`, and the two file handles of the console while no process has them.
pub record Parts : Type 0 where
  pub server : Bool
  pub tmp_tx_buf : Bool
  pub sockio_port : Bool
  pub sockio : Bool
  pub push_back : Bool
  pub vcon_port : Bool
  pub vcon : Bool
  pub arg_line : Bool
  pub run : Bool
  pub handles : List ℕ

abbrev pub no_parts : Parts
no_parts = record {
  server = false;
  tmp_tx_buf = false;
  sockio_port = false;
  sockio = false;
  push_back = false;
  vcon_port = false;
  vcon = false;
  arg_line = false;
  run = false;
  handles = [];
}

-- Whether each call of `init_rclid` succeeds. `push_back`: `sockio_init` has allocated a push back
-- buffer, which it keeps also where it fails after that (Sockio/Memory.antt).
pub record InitAnswer : Type 0 where
  pub server : Bool
  pub tmp_tx_buf : Bool
  pub break_mask : Bool
  pub sockio_port : Bool
  pub sockio : Bool
  pub push_back : Bool

-- Whether it gives `sd`, what is allocated, and the errors.
abbrev pub Started : Type 0
Started = Bool × Parts × List StartError

unfoldable pub init_rclid : InitAnswer → Started
init_rclid a =
    if not a.server
    then (false, no_parts, server_data ∷ [])
    else if not a.tmp_tx_buf
    then (false, record no_parts { server = true }, tmp_buffer ∷ [])
    else if not a.break_mask
    then (false, record no_parts { server = true; tmp_tx_buf = true }, socket_options ∷ [])
    else if not a.sockio_port
    then (false, record no_parts { server = true; tmp_tx_buf = true }, create_sockio_port ∷ [])
    else if not a.sockio
    then (
      false,
      record no_parts {
        server = true;
        tmp_tx_buf = true;
        sockio_port = true;
        push_back = a.push_back;
      },
      open_sockio ∷ [],
    )
    else (
      true,
      record no_parts {
        server = true;
        tmp_tx_buf = true;
        sockio_port = true;
        sockio = true;
        push_back = a.push_back;
      },
      [],
    )

abbrev pub run_mode_of : Mode → RunMode
run_mode_of Mode.shell = RunMode.shell
run_mode_of Mode.command = RunMode.command

-- The client's command line, or the default of the mode.
abbrev pub command_of : ServOptions → Mode → Option ℕ → Option ℕ
command_of opts mode (some line) = some line
command_of opts Mode.shell none = opts.def_shell_cmd
command_of opts Mode.command none = opts.def_command

-- What `run_command` asks of the system. The two file handles are 0 where `vcon_create_fh` fails.
pub record RunCommandAnswer : Type 0 where
  pub vcon_port : Bool
  pub vcon : Bool
  pub fh_in : Option ℕ
  pub fh_out : Option ℕ
  pub run : RunAnswer

abbrev pub bptr : Option ℕ → ℕ
bptr none = 0
bptr (some fh) = fh

abbrev pub handle_list : Option ℕ → List ℕ
handle_list none = []
handle_list (some fh) = fh ∷ []

-- Whether the command was started, with what was started.
pub record Commanded : Type 0 where
  pub ok : Bool
  pub parts : Parts
  pub launched : Option Launch
  pub errors : List StartError

abbrev pub after_run_init : Parts → RunCommandAnswer → Option Launch → Commanded
after_run_init p a none = record {
  ok = false;
  parts = record p {
    vcon_port = true;
    vcon = true;
    handles = handle_list a.fh_in ++ handle_list a.fh_out;
  };
  launched = none;
  errors = init_run ∷ [];
}
after_run_init p a (some run) = record {
  ok = true;
  parts = record p { vcon_port = true; vcon = true; run = true };
  launched = some run;
  errors = [];
}

unfoldable pub run_command :
    ServOptions → Mode → Option ℕ → Ram → RunCommandAnswer → Parts → Commanded
run_command opts mode arg_line ram a p =
    if not a.vcon_port
    then record { ok = false; parts = p; launched = none; errors = create_vcon_port ∷ [] }
    else if not a.vcon
    then record {
      ok = false;
      parts = record p { vcon_port = true };
      launched = none;
      errors = open_console ∷ [];
    }
    else after_run_init p a (
        run_init (run_mode_of mode) (bptr a.fh_in) (bptr a.fh_out) (command_of opts mode arg_line)
          ram a.run)

-- `exit_rclid`, for `sd` or NULL: whatever a field points to is freed, and then `sd`. `at_start`: the
-- pointer that `sockio_exit` frees is the start of the push back buffer; where it is not, the buffer
-- stays. For `run` it waits in `run_exit`; this is the case in which that returns.
unfoldable pub exit_rclid : Bool → Bool → Parts → Parts
exit_rclid at_start false p = p
exit_rclid at_start true p = record p {
  sockio = false;
  push_back = p.push_back && not at_start;
  sockio_port = false;
  run = false;
  vcon = false;
  vcon_port = false;
  tmp_tx_buf = false;
  arg_line = false;
  server = false;
}

-- What `init_handshake` did, which has ended: its result, the mode, and the command line that it read.
pub record Handshake : Type 0 where
  pub ok : Bool
  pub mode : Mode
  pub arg_line : Option ℕ

abbrev pub is_some : Option ℕ → Bool
is_some none = false
is_some (some x) = true

-- `loop_ends`: `main_loop` ends. `at_start`: at the end `push_back_buf` points to the start of the
-- push back buffer.
pub record MainAnswer : Type 0 where
  pub serv : ServAnswer
  pub init : InitAnswer
  pub handshake : Handshake
  pub ram : Ram
  pub command : RunCommandAnswer
  pub loop_ends : Bool
  pub at_start : Bool

-- `RETURN_*`
pub data Return : Type 0 where
  ok fail : Return

-- The end of `main`: its result, what is still allocated and open, the errors that were sent, and
-- whether the main loop was entered, with which process.
pub record Exit : Type 0 where
  pub result : Return
  pub parts : Parts
  pub opened : Opened
  pub errors : List StartError
  pub served : Option Launch

-- `main_loop` and `exit_rclid`, or `exit_rclid` alone. `none`: the main loop goes on for ever, or
-- `run_exit` waits for ever, since there is no process that tells it its end (Run/Hangs.antt).
abbrev pub after_command : MainAnswer → Opened → ℕ → Commanded → Option Exit
after_command a opened socket c =
    if c.ok && not (a.loop_ends && a.command.run.created)
    then none
    else some (record {
      result = Return.ok;
      parts = exit_rclid a.at_start true c.parts;
      opened = serv_exit opened socket;
      errors = if c.ok then c.errors else c.errors ++ (starting_command ∷ []);
      served = if c.ok then c.launched else none;
    })

unfoldable pub after_init : ServOptions → MainAnswer → Opened → ℕ → Started → Option Exit
after_init opts a opened socket (false, p, errors) = some (record {
  result = Return.ok;
  parts = exit_rclid a.at_start false p;
  opened = serv_exit opened socket;
  errors = errors;
  served = none;
})
after_init opts a opened socket (true, p, errors) =
    let p1 = record p { arg_line = is_some a.handshake.arg_line } in
    if a.handshake.ok
    then after_command a opened socket
        (run_command opts a.handshake.mode a.handshake.arg_line a.ram a.command p1)
    else some (record {
      result = Return.ok;
      parts = exit_rclid a.at_start true p1;
      opened = serv_exit opened socket;
      errors = errors;
      served = none;
    })

-- `main`, or `none` where it does not return. The main loop itself is in Rclid/Loop.antt.
unfoldable pub main : ServOptions → MainAnswer → Option Exit
main opts a =
    let s = serv_init a.serv in
    elim s.socket [
      | none ↦ some (record {
        result = Return.fail;
        parts = no_parts;
        opened = s.opened;
        errors = [];
        served = none;
      })
      | some socket ↦ after_init opts a s.opened socket (init_rclid a.init)
    ]
