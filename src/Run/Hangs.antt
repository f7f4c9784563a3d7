-- ===== src/Run/Hangs.antt =====
-- `run_exit` without a process.
use rcli.Common.{
  ℕ, ◌≡◌, refl, sym, ap, subst, ◌∙◌, false, Option, some, List, [], ◌∷◌, arith, Ram, if◌then◌else◌,
}
use rcli.Run.{RunMode, ExitStatus, Phase, Caller, Launch, RunAnswer, run_init}
use rcli.Run.Process.{DosAnswer, Turn, process, caller, proceed, run_exit, turn, turns}
use rcli.Run.Order.{is_past}
use rcli.Run.Result.{run_init-launch}
use rcli.Run.Progress.{first_phase, run_init-phase}

-- No process, and a caller that has found nothing.
record Stuck (w : Launch) : Type 0 where
  phase : w.phase ≡ Phase.no_process
  before : is_past w.caller ≡ false
  silent : w.pending ≡ false
  unset : w.run.exit_status ≡ ExitStatus.invalid

proceed-Stuck :
    (dos : DosAnswer) (w : Launch) (p : Phase) → w.phase ≡ p → Stuck w → Stuck (proceed dos w p)
unfolding proceed
proceed-Stuck dos w p e k = subst (λ x. Stuck (proceed dos w x)) (sym k.phase ∙ e) k

run_exit-Stuck : (w : Launch) (c : Caller) → w.caller ≡ c → Stuck w → Stuck (run_exit w c)
unfolding run_exit
run_exit-Stuck w Caller.busy e k = record {
  phase = k.phase;
  before = refl;
  silent = k.silent;
  unset = k.unset;
}
run_exit-Stuck w Caller.checks e k = record {
  phase = k.phase;
  before = rw k.unset refl;
  silent = k.silent;
  unset = k.unset;
}
run_exit-Stuck w Caller.waits e k =
    subst (λ b. Stuck (if b then record w { pending = false; caller = Caller.reads } else w))
      (sym k.silent) k
run_exit-Stuck w Caller.reads e k = absurd (ground (arith, k.before, ap is_past e))
run_exit-Stuck w (Caller.frees_signal s) e k = absurd (ground (arith, k.before, ap is_past e))
run_exit-Stuck w (Caller.frees_memory s) e k = absurd (ground (arith, k.before, ap is_past e))
run_exit-Stuck w (Caller.returned s) e k = absurd (ground (arith, k.before, ap is_past e))

turns-Stuck : (ts : List Turn) (w : Launch) → Stuck w → Stuck (turns w ts)
unfolding turns turn
turns-Stuck [] w k = k
turns-Stuck (process dos ∷ ts) w k =
    turns-Stuck ts (turn w (process dos)) (proceed-Stuck dos w w.phase refl k)
turns-Stuck (caller ∷ ts) w k = turns-Stuck ts (turn w caller) (run_exit-Stuck w w.caller refl k)

-- If the process could not be created, `run_exit` never returns, in no order of turns.
pub run_exit_hangs :
    (mode : RunMode) (fh_in fh_out : ℕ) (cmd : Option ℕ) (ram : Ram) (answer : RunAnswer)
    (w : Launch)
    → run_init mode fh_in fh_out cmd ram answer ≡ some w
    → answer.created ≡ false
    → (ts : List Turn) → is_past (turns w ts).caller ≡ false
run_exit_hangs mode fh_in fh_out cmd ram answer w h made ts =
    let (c, bit, e) = run_init-launch mode fh_in fh_out cmd ram answer w h in
    let p = run_init-phase mode fh_in fh_out cmd ram answer w h ∙ ap first_phase made in
    let k : Stuck w = record {
      phase = p;
      before = ap (λ v. is_past v.caller) (sym e);
      silent = ap (λ v. v.pending) (sym e);
      unset = ap (λ v. v.run.exit_status) (sym e);
    } in
    (turns-Stuck ts w k).before
