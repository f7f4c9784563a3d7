-- ===== src/Run/Progress.antt =====
-- The end of `run_exit`: when the process and the caller get their turns, and without a process.
use rcli.Common.{
  ℕ, ◌-◌, ◌≤◌, ◌≡◌, refl, sym, ap, ◌∙◌, Bool, true, false, Option, some, List, [], ◌∷◌, arith,
  Bool-cases, inl, inr, Ram,
}
use rcli.Run.{RunMode, ExitStatus, Phase, Caller, Command, Launch, RunAnswer, run_init, launch}
use rcli.Run.Process.{
  DosAnswer, Turn, process, caller, proceed, run_exit, turn, turns, process_turns, caller_turns,
  is_invalid,
}
use rcli.Run.Order.{Agree, is_past, is_signalled, proceed-Agree, run_exit-Agree, turns-Agree}
use rcli.Run.Result.{run_init-Agree, run_init-launch}

-- How many turns the process has left, at most.
abbrev pub left : Phase → ℕ
left Phase.no_process = 8
left Phase.opens_dos = 7
left Phase.runs = 6
left (Phase.closes_in l) = 5
left (Phase.closes_out l) = 4
left (Phase.sets_status l) = 3
left Phase.signals_no_dos = 1
left (Phase.signals l) = 2
left (Phase.closes_dos l) = 1
left (Phase.ended s) = 0

-- The turns that the caller has left, once the process has ended.
abbrev pub left_to_return : Caller → ℕ
left_to_return Caller.busy = 6
left_to_return Caller.checks = 5
left_to_return Caller.waits = 4
left_to_return Caller.reads = 3
left_to_return (Caller.frees_signal s) = 2
left_to_return (Caller.frees_memory s) = 1
left_to_return (Caller.returned s) = 0

abbrev pub has_process : Phase → Bool
has_process Phase.no_process = false
has_process _ = true

-- The process goes on with each turn, until it ends.
proceed-left :
    (dos : DosAnswer) (w : Launch) (p : Phase)
    → w.phase ≡ p
    → has_process p ≡ true
    → (has_process (proceed dos w p).phase ≡ true) × (left (proceed dos w p).phase ≤ left p - 1)
unfolding proceed
proceed-left dos w Phase.no_process e h = absurd (ground arith)
proceed-left dos w Phase.opens_dos e h = elim (Bool-cases dos.opens) [
  | inl o ↦ rw o (refl, omega arith)
  | inr o ↦ rw o (refl, omega arith)
]
proceed-left dos w Phase.runs e h = (refl, omega arith)
proceed-left dos w Phase.signals_no_dos e h = (refl, omega arith)
proceed-left dos w (Phase.closes_in l) e h = (refl, omega arith)
proceed-left dos w (Phase.closes_out l) e h = (refl, omega arith)
proceed-left dos w (Phase.sets_status l) e h = (refl, omega arith)
proceed-left dos w (Phase.signals l) e h = (refl, omega arith)
proceed-left dos w (Phase.closes_dos l) e h = (refl, omega arith)
proceed-left dos w (Phase.ended s) e h = (ap has_process e, omega (arith, ap left e))

run_exit-phase : (w : Launch) (c : Caller) → (run_exit w c).phase ≡ w.phase
unfolding run_exit
run_exit-phase w Caller.busy = refl
run_exit-phase w Caller.checks = refl
run_exit-phase w Caller.waits = ground arith
run_exit-phase w Caller.reads = refl
run_exit-phase w (Caller.frees_signal s) = refl
run_exit-phase w (Caller.frees_memory s) = refl
run_exit-phase w (Caller.returned s) = refl

turns-left :
    (ts : List Turn) (w : Launch)
    → has_process w.phase ≡ true
    → (has_process (turns w ts).phase ≡ true)
      × (left (turns w ts).phase ≤ left w.phase - process_turns ts)
unfolding turns turn
turns-left [] w h = (h, omega arith)
turns-left (process dos ∷ ts) w h =
    let (x, y) = proceed-left dos w w.phase refl h in
    let (x', y') = turns-left ts (turn w (process dos)) x in (x', omega (arith, y, y'))
turns-left (caller ∷ ts) w h =
    let e = run_exit-phase w w.caller in
    let (x, y) = turns-left ts (turn w caller) (ap has_process e ∙ h) in
    (x, omega (arith, y, ap left e))

left-signalled : (p : Phase) → left p ≡ 0 → is_signalled p ≡ true
left-signalled Phase.no_process h = absurd (omega (arith, h))
left-signalled Phase.opens_dos h = absurd (omega (arith, h))
left-signalled Phase.runs h = absurd (omega (arith, h))
left-signalled Phase.signals_no_dos h = absurd (omega (arith, h))
left-signalled (Phase.closes_in l) h = absurd (omega (arith, h))
left-signalled (Phase.closes_out l) h = absurd (omega (arith, h))
left-signalled (Phase.sets_status l) h = absurd (omega (arith, h))
left-signalled (Phase.signals l) h = absurd (omega (arith, h))
left-signalled (Phase.closes_dos l) h = refl
left-signalled (Phase.ended s) h = refl

run_exit-left :
    (w : Launch) (c : Caller)
    → w.caller ≡ c
    → Agree w
    → left w.phase ≡ 0
    → left_to_return (run_exit w c).caller ≤ left_to_return c - 1
unfolding run_exit
run_exit-left w Caller.busy e a z = omega arith
run_exit-left w Caller.checks e a z = elim (Bool-cases (is_invalid w.run.exit_status)) [
  | inl i ↦ rw i (omega arith)
  | inr i ↦ rw i (omega arith)
]
run_exit-left w Caller.waits e a z =
    let sent = a.sent (ap is_past e) ∙ left-signalled w.phase z in rw sent (omega arith)
run_exit-left w Caller.reads e a z = omega arith
run_exit-left w (Caller.frees_signal s) e a z = omega arith
run_exit-left w (Caller.frees_memory s) e a z = omega arith
run_exit-left w (Caller.returned s) e a z = omega (arith, ap left_to_return e)

pub proceed-caller :
    (dos : DosAnswer) (w : Launch) (p : Phase) → (proceed dos w p).caller ≡ w.caller
unfolding proceed
proceed-caller dos w Phase.no_process = refl
proceed-caller dos w Phase.opens_dos = ground arith
proceed-caller dos w Phase.runs = refl
proceed-caller dos w Phase.signals_no_dos = refl
proceed-caller dos w (Phase.closes_in l) = refl
proceed-caller dos w (Phase.closes_out l) = refl
proceed-caller dos w (Phase.sets_status l) = refl
proceed-caller dos w (Phase.signals l) = refl
proceed-caller dos w (Phase.closes_dos l) = refl
proceed-caller dos w (Phase.ended s) = refl

turns-left_to_return :
    (ts : List Turn) (w : Launch)
    → has_process w.phase ≡ true
    → Agree w
    → left w.phase ≡ 0
    → left_to_return (turns w ts).caller ≤ left_to_return w.caller - caller_turns ts
unfolding turns turn
turns-left_to_return [] w h a z = omega arith
turns-left_to_return (process dos ∷ ts) w h a z =
    let (x, y) = proceed-left dos w w.phase refl h in
    let e = ap left_to_return (proceed-caller dos w w.phase) in
    let r =
      turns-left_to_return ts (turn w (process dos)) x (proceed-Agree dos w w.phase refl a)
        (omega (arith, y, z)) in
    omega (arith, e, r)
turns-left_to_return (caller ∷ ts) w h a z =
    let e = run_exit-phase w w.caller in
    let y = run_exit-left w w.caller refl a z in
    let r =
      turns-left_to_return ts (turn w caller) (ap has_process e ∙ h)
        (run_exit-Agree w w.caller refl a) (ap left e ∙ z) in
    omega (arith, y, r)

left_to_return-zero :
    (c : Caller) → left_to_return c ≡ 0 → (s : ExitStatus) × (c ≡ Caller.returned s)
left_to_return-zero Caller.busy h = absurd (omega (arith, h))
left_to_return-zero Caller.checks h = absurd (omega (arith, h))
left_to_return-zero Caller.waits h = absurd (omega (arith, h))
left_to_return-zero Caller.reads h = absurd (omega (arith, h))
left_to_return-zero (Caller.frees_signal s) h = absurd (omega (arith, h))
left_to_return-zero (Caller.frees_memory s) h = absurd (omega (arith, h))
left_to_return-zero (Caller.returned s) h = (s, refl)

left_to_return-le : (c : Caller) → left_to_return c ≤ 6
left_to_return-le Caller.busy = omega arith
left_to_return-le Caller.checks = omega arith
left_to_return-le Caller.waits = omega arith
left_to_return-le Caller.reads = omega arith
left_to_return-le (Caller.frees_signal s) = omega arith
left_to_return-le (Caller.frees_memory s) = omega arith
left_to_return-le (Caller.returned s) = omega arith

abbrev pub first_phase : Bool → Phase
first_phase true = Phase.opens_dos
first_phase false = Phase.no_process

launch-phase :
    (mode : RunMode) (fh_in fh_out : ℕ) (cmd : Command) (bit : ℕ) (created : Bool)
    → (launch mode fh_in fh_out cmd bit created).phase ≡ first_phase created
launch-phase mode fh_in fh_out cmd bit true = refl
launch-phase mode fh_in fh_out cmd bit false = refl

pub run_init-phase :
    (mode : RunMode) (fh_in fh_out : ℕ) (cmd : Option ℕ) (ram : Ram) (answer : RunAnswer)
    (w : Launch)
    → run_init mode fh_in fh_out cmd ram answer ≡ some w
    → w.phase ≡ first_phase answer.created
run_init-phase mode fh_in fh_out cmd ram answer w h =
    let (c, bit, e) = run_init-launch mode fh_in fh_out cmd ram answer w h in
    ap (λ v. v.phase) (sym e) ∙ launch-phase mode fh_in fh_out c bit answer.created

-- If the process was created, `run_exit` returns: in any order of turns in which the process has at
-- least seven turns, and the caller six turns after that, with any answers of dos.library.
pub run_exit_returns :
    (mode : RunMode) (fh_in fh_out : ℕ) (cmd : Option ℕ) (ram : Ram) (answer : RunAnswer)
    (w : Launch)
    → run_init mode fh_in fh_out cmd ram answer ≡ some w
    → answer.created ≡ true
    → (ts us : List Turn) → 7 ≤ process_turns ts
    → 6 ≤ caller_turns us
    → (s : ExitStatus) × ((turns (turns w ts) us).caller ≡ Caller.returned s)
run_exit_returns mode fh_in fh_out cmd ram answer w h made ts us enough enough' =
    let p = run_init-phase mode fh_in fh_out cmd ram answer w h ∙ ap first_phase made in
    let (x, y) = turns-left ts w (ap has_process p) in
    let a = turns-Agree ts w (run_init-Agree mode fh_in fh_out cmd ram answer w h) in
    let r = turns-left_to_return us (turns w ts) x a (omega (arith, y, ap left p, enough)) in
    left_to_return-zero _ (omega (arith, r, left_to_return-le (turns w ts).caller, enough'))
