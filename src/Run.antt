-- ===== src/Run.antt =====
-- amiga/rclid/run.c, run.h: the process that runs the shell or the command, and `run_exit` that
-- waits for its end.
pub mod Process
pub mod Order
pub mod Result
pub mod Progress
pub mod Hangs
use rcli.Common.{
  ℕ, ◌-◌, ◌^◌, Bool, true, false, Option, none, some, ◌==◌, ◌||◌, not, if◌then◌else◌, Ram,
}

-- `RUN_MODE_*`
pub data RunMode : Type 0 where
  shell command : RunMode

-- `RUN_EXIT_STATUS_*`
pub data ExitStatus : Type 0 where
  invalid ok no_dos no_run : ExitStatus

-- A command line: a text at an address, or one of the two that `run_init` has itself.
pub data Command : Type 0 where
  text : ℕ → Command
  remote_startup no_command : Command

-- `run_handle`, without the caller's task and the library's base.
pub record RunHandle : Type 0 where
  pub run_cmd : Command
  pub mode : RunMode
  pub fh_in : ℕ
  pub fh_out : ℕ
  pub exit_status : ExitStatus
  pub exit_signal : ℕ

-- Where the new process is in `start_proc`, or that it could not be created.
pub data Phase : Type 0 where
  no_process opens_dos runs signals_no_dos : Phase
  closes_in closes_out sets_status signals closes_dos : Bool → Phase
  ended : ExitStatus → Phase

-- Where the caller is: before `run_exit`, or in it.
pub data Caller : Type 0 where
  busy checks waits reads : Caller
  frees_signal frees_memory returned : ExitStatus → Caller

-- The handle, the process, the caller and what they share: the exit signal, the two file handles,
-- the library that the process has open, the command that was run, and the memory of the handle.
-- `late` says that the process used the memory after `FreeVec`; it is read as if it stayed.
pub record Launch : Type 0 where
  pub run : RunHandle
  pub phase : Phase
  pub caller : Caller
  pub pending : Bool
  pub in_open : Bool
  pub out_open : Bool
  pub dos_open : Bool
  pub ran : Option (RunMode × Command)
  pub memory : Bool
  pub late : Bool

-- `(run_cmd == NULL) || (run_cmd[0] == 0)`
abbrev pub is_missing : Option ℕ → Ram → Bool
is_missing none ram = true
is_missing (some a) ram = ram a == 0

abbrev pub default_command : RunMode → Command
default_command shell = remote_startup
default_command command = no_command

abbrev pub text_of : Option ℕ → Command
text_of none = no_command
text_of (some a) = text a

-- What `run_init` asks of the system: memory, a signal (`none` for -1), and the process.
pub record RunAnswer : Type 0 where
  pub memory : Bool
  pub signal : Option ℕ
  pub created : Bool

-- The handle as `run_init` leaves it. The result of `CreateNewProcTags` is not looked at.
abbrev pub launch : RunMode → ℕ → ℕ → Command → ℕ → Bool → Launch
launch mode fh_in fh_out run_cmd bit created = record {
  run = record {
    run_cmd = run_cmd;
    mode = mode;
    fh_in = fh_in;
    fh_out = fh_out;
    exit_status = ExitStatus.invalid;
    exit_signal = bit;
  };
  phase = if created then Phase.opens_dos else Phase.no_process;
  caller = Caller.busy;
  pending = false;
  in_open = true;
  out_open = true;
  dos_open = false;
  ran = none;
  memory = true;
  late = false;
}

-- `none` for NULL.
unfoldable pub run_init : RunMode → ℕ → ℕ → Option ℕ → Ram → RunAnswer → Option Launch
run_init mode fh_in fh_out run_cmd ram answer =
    if not answer.memory then none else elim answer.signal [
      | none ↦ none
      | some bit ↦
          let cmd = if is_missing run_cmd ram then default_command mode else text_of run_cmd in
          some (launch mode fh_in fh_out cmd bit answer.created)
    ]

abbrev pub run_exit_mask : RunHandle → ℕ
run_exit_mask run = 2 ^ run.exit_signal
