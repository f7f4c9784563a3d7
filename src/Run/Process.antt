-- ===== src/Run/Process.antt =====
-- `start_proc` and `run_exit` of run.c, one turn at a time, in any order.
use rcli.Common.{
  ℕ, ◌-◌, ◌+◌, ◌^◌, Bool, true, false, some, List, [], ◌∷◌, ◌==◌, ◌||◌, not, if◌then◌else◌,
}
use rcli.Run.{RunMode, ExitStatus, RunHandle, Phase, Caller, Launch}

-- What dos.library answers the process: whether it opens, and what `Execute` or `SystemTags` give.
pub record DosAnswer : Type 0 where
  pub opens : Bool
  pub result : ℕ

-- `Execute` gives DOSTRUE, which is -1; `SystemTags` gives -1 where it fails.
abbrev pub is_launched : RunMode → ℕ → Bool
is_launched RunMode.shell result = result == 2 ^ 32 - 1
is_launched RunMode.command result = not (result == 2 ^ 32 - 1)

abbrev pub status_of : Bool → ExitStatus
status_of true = ExitStatus.ok
status_of false = ExitStatus.no_run

abbrev pub set_status : RunHandle → ExitStatus → RunHandle
set_status run s = record run { exit_status = s }

-- One turn of the process, from its place in `start_proc`.
unfoldable pub proceed : DosAnswer → Launch → Phase → Launch
proceed dos w Phase.no_process = w
proceed dos w Phase.opens_dos =
    if dos.opens
    then record w { dos_open = true; phase = Phase.runs; late = w.late || not w.memory }
    else record w {
      run = set_status w.run ExitStatus.no_dos;
      phase = Phase.signals_no_dos;
      late = w.late || not w.memory;
    }
proceed dos w Phase.signals_no_dos = record w {
  pending = true;
  phase = Phase.ended ExitStatus.no_dos;
  late = w.late || not w.memory;
}
proceed dos w Phase.runs = record w {
  ran = some (w.run.mode, w.run.run_cmd);
  phase = Phase.closes_in (is_launched w.run.mode dos.result);
  late = w.late || not w.memory;
}
proceed dos w (Phase.closes_in launched) = record w {
  in_open = false;
  phase = Phase.closes_out launched;
  late = w.late || not w.memory;
}
proceed dos w (Phase.closes_out launched) = record w {
  out_open = false;
  phase = Phase.sets_status launched;
  late = w.late || not w.memory;
}
proceed dos w (Phase.sets_status launched) = record w {
  run = set_status w.run (status_of launched);
  phase = Phase.signals launched;
  late = w.late || not w.memory;
}
proceed dos w (Phase.signals launched) = record w {
  pending = true;
  phase = Phase.closes_dos launched;
  late = w.late || not w.memory;
}
proceed dos w (Phase.closes_dos launched) = record w {
  dos_open = false;
  phase = Phase.ended (status_of launched);
  late = w.late || not w.memory;
}
proceed dos w (Phase.ended s) = w

abbrev pub is_invalid : ExitStatus → Bool
is_invalid ExitStatus.invalid = true
is_invalid _ = false

-- One turn of the caller, which enters `run_exit` at some time and then goes through it.
unfoldable pub run_exit : Launch → Caller → Launch
run_exit w Caller.busy = record w { caller = Caller.checks }
run_exit w Caller.checks = record w {
  caller = if is_invalid w.run.exit_status then Caller.waits else Caller.reads;
}
run_exit w Caller.waits =
    if w.pending then record w { pending = false; caller = Caller.reads } else w
run_exit w Caller.reads = record w { caller = Caller.frees_signal w.run.exit_status }
run_exit w (Caller.frees_signal s) = record w { caller = Caller.frees_memory s }
run_exit w (Caller.frees_memory s) = record w { memory = false; caller = Caller.returned s }
run_exit w (Caller.returned s) = w

-- Who is to go on.
pub data Turn : Type 0 where
  process : DosAnswer → Turn
  caller : Turn

unfoldable pub turn : Launch → Turn → Launch
turn w (process dos) = proceed dos w w.phase
turn w caller = run_exit w w.caller

unfoldable pub turns : Launch → List Turn → Launch
turns w [] = w
turns w (t ∷ ts) = turns (turn w t) ts

-- The turns of the process, and those of the caller.
abbrev pub process_turns : List Turn → ℕ
process_turns [] = 0
process_turns (process dos ∷ ts) = 1 + process_turns ts
process_turns (caller ∷ ts) = process_turns ts

abbrev pub caller_turns : List Turn → ℕ
caller_turns [] = 0
caller_turns (process dos ∷ ts) = caller_turns ts
caller_turns (caller ∷ ts) = 1 + caller_turns ts
