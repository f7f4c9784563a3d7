-- ===== src/Rclid/Ends.antt =====
-- What `main` of rclid.c leaves behind, and which command it runs.
use rcli.Common.{
  ℕ, ◌≡◌, Bool, false, some, List, [], ◌++◌, not, ◌&&◌, ◌||◌, Option, if◌then◌else◌, arith, is_none,
}
use rcli.Serv.{Opened}
use rcli.Rclid.Setup.{Parts, no_parts, InitAnswer, MainAnswer, handle_list, Return, Exit}

-- What `init_rclid` has allocated where it gives NULL: all that succeeded before, and a push back
-- buffer of `sockio_init`.
abbrev pub leaked_by : InitAnswer → Parts
leaked_by a = record no_parts {
  server = a.server;
  tmp_tx_buf = a.server && a.tmp_tx_buf;
  sockio_port = a.server && a.tmp_tx_buf && a.break_mask && a.sockio_port;
  push_back = a.server && a.tmp_tx_buf && a.break_mask && a.sockio_port && a.push_back;
}

abbrev pub is_complete : InitAnswer → Bool
is_complete a = a.server && a.tmp_tx_buf && a.break_mask && a.sockio_port && a.sockio

-- `run_init` is called, and whether it gives a handle.
abbrev pub runs : MainAnswer → Bool
runs a = a.handshake.ok && a.command.vcon_port && a.command.vcon

abbrev pub gives_run : MainAnswer → Bool
gives_run a = a.command.run.memory && not (is_none a.command.run.signal)

-- The handles that nobody closes: `run_init` failed after `vcon_create_fh`.
abbrev pub handles_left : MainAnswer → List ℕ
handles_left a =
    if runs a && not (gives_run a)
    then handle_list a.command.fh_in ++ handle_list a.command.fh_out
    else []

abbrev pub left_by : MainAnswer → Parts
left_by a =
    if is_complete a.init
    then record no_parts {
      push_back = a.init.push_back && not a.at_start;
      handles = handles_left a;
    }
    else leaked_by a.init

-- If the main loop is entered, it ends, and there is a process.
abbrev pub returns : MainAnswer → Bool
returns a =
    not (is_complete a.init && runs a && gives_run a) || (a.loop_ends && a.command.run.created)

handles_left-none : (a : MainAnswer) → a.handshake.ok ≡ false → handles_left a ≡ []
handles_left-none a e = ground arith

-- A result of `main` that is there, with nothing open and these parts left.
abbrev pub Ended : Opened → Parts → Option Exit → Type 0
Ended opened parts res =
    (x : Exit) × (res ≡ some x) × (x.result ≡ Return.ok) × (x.opened ≡ opened) × (x.parts ≡ parts)
