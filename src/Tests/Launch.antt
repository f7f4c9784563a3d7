-- ===== src/Tests/Launch.antt =====
-- A shell that runs and ends, and a process that could not be created, for amiga/rclid/run.c.
use rcli.Common.{
  ◌-◌, ◌^◌, ◌≡◌, refl, none, some, true, false, List, [], ◌∷◌, ◌++◌, arith, Ram, Bool,
}
use rcli.Run.{RunMode, ExitStatus, Command, Caller, Launch, RunAnswer, run_init, launch}
use rcli.Run.Process.{Turn, process, caller, turns, turn, proceed, run_exit, is_invalid}
use rcli.Run.Order.{is_past}
use rcli.Run.Result.{run_exit_result}
use rcli.Run.Progress.{run_exit_returns}
use rcli.Run.Hangs.{run_exit_hangs}

abbrev no_ram : Ram
no_ram a = 0

abbrev started : Launch
started = launch RunMode.shell 5 6 Command.remote_startup 3 true

abbrev alone : Launch
alone = launch RunMode.shell 5 6 Command.remote_startup 3 false

abbrev answer_of : Bool → RunAnswer
answer_of created = record { memory = true; signal = some 3; created = created }

abbrev fine : Turn
fine = process (record { opens = true; result = 2 ^ 32 - 1 })

abbrev seven : List Turn
seven = fine ∷ fine ∷ fine ∷ fine ∷ caller ∷ fine ∷ fine ∷ fine ∷ []

abbrev six : List Turn
six = caller ∷ caller ∷ caller ∷ caller ∷ caller ∷ caller ∷ []

run_exit_result_example :
    (is_invalid ExitStatus.ok ≡ false)
    × (ExitStatus.ok ≡ (turns started (seven ++ six)).run.exit_status)
    × ((turns started (seven ++ six)).in_open ≡ false)
    × ((turns started (seven ++ six)).out_open ≡ false)
unfolding turns turn proceed run_exit run_init
run_exit_result_example =
    run_exit_result RunMode.shell 5 6 none no_ram (answer_of true) started refl (seven ++ six)
      ExitStatus.ok refl

run_exit_returns_example :
    (s : ExitStatus) × ((turns (turns started seven) six).caller ≡ Caller.returned s)
unfolding run_init
run_exit_returns_example =
    run_exit_returns RunMode.shell 5 6 none no_ram (answer_of true) started refl refl seven six
      (omega arith) (omega arith)

alone_hangs : is_past (turns alone six).caller ≡ false
unfolding run_init
alone_hangs = run_exit_hangs RunMode.shell 5 6 none no_ram (answer_of false) alone refl refl six

-- The process sets the status, `run_exit` frees the handle, and only then the process reads the
-- signal's number in it.
late_signal : (turns started (fine ∷ fine ∷ fine ∷ fine ∷ fine ∷ six ++ fine ∷ [])).late ≡ true
unfolding turns turn proceed run_exit
late_signal = refl

-- The caller waits for the signal, frees the handle, and the process then reads the library's base
-- in it.
late_library :
    (turns started
      (caller ∷ caller ∷ fine ∷ fine ∷ fine ∷ fine ∷ fine ∷ fine ∷ six ++ fine ∷ [])).late
    ≡ true
unfolding turns turn proceed run_exit
late_library = refl
