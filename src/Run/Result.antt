-- ===== src/Run/Result.antt =====
-- What `run_exit` gives back, and what its caller may rely on then.
use rcli.Common.{
  ℕ, ◌≡◌, refl, sym, ap, subst, ◌∙◌, Bool, true, false, Option, some, List, arith, if◌then◌else◌,
  Bool-cases, Option-cases, inl, inr, Ram, some-injective,
}
use rcli.Run.{
  RunMode, ExitStatus, Command, Phase, Caller, Launch, RunAnswer, run_init, launch, is_missing,
  default_command, text_of,
}
use rcli.Run.Process.{Turn, turns, is_invalid}
use rcli.Run.Order.{Agree, keeps_open, in_at, out_at, status_at, turns-Agree}

launch-Agree :
    (mode : RunMode) (fh_in fh_out : ℕ) (cmd : Command) (bit : ℕ) (created : Bool)
    → Agree (launch mode fh_in fh_out cmd bit created)
launch-Agree mode fh_in fh_out cmd bit true = record {
  told = refl;
  input_at = refl;
  output_at = refl;
  sent = λ h. refl;
  honest = λ h. absurd (ground arith);
  past = λ h. absurd (ground arith);
  taken = λ s h. absurd (ground arith);
}
launch-Agree mode fh_in fh_out cmd bit false = record {
  told = refl;
  input_at = refl;
  output_at = refl;
  sent = λ h. refl;
  honest = λ h. absurd (ground arith);
  past = λ h. absurd (ground arith);
  taken = λ s h. absurd (ground arith);
}

pub run_init-launch :
    (mode : RunMode) (fh_in fh_out : ℕ) (cmd : Option ℕ) (ram : Ram) (answer : RunAnswer)
    (w : Launch)
    → run_init mode fh_in fh_out cmd ram answer ≡ some w
    → (c : Command) × (bit : ℕ) × (launch mode fh_in fh_out c bit answer.created ≡ w)
unfolding run_init
run_init-launch mode fh_in fh_out cmd ram answer w h = elim (Bool-cases answer.memory) [
  | inr m ↦ absurd (ground (arith, h, m))
  | inl m ↦ elim (Option-cases answer.signal) [
    | inl s ↦ absurd (ground (arith, h, m, s))
    | inr (bit, s) ↦ (
      if is_missing cmd ram then default_command mode else text_of cmd,
      bit,
      some-injective (sym (rw (m, s) refl) ∙ h),
    )
  ]
]

pub run_init-Agree :
    (mode : RunMode) (fh_in fh_out : ℕ) (cmd : Option ℕ) (ram : Ram) (answer : RunAnswer)
    (w : Launch)
    → run_init mode fh_in fh_out cmd ram answer ≡ some w
    → Agree w
run_init-Agree mode fh_in fh_out cmd ram answer w h =
    let (c, bit, e) = run_init-launch mode fh_in fh_out cmd ram answer w h in
    subst Agree e (launch-Agree mode fh_in fh_out c bit answer.created)

set-keeps_open :
    (p : Phase)
    → is_invalid (status_at p) ≡ false
    → (in_at p ≡ keeps_open (status_at p)) × (out_at p ≡ keeps_open (status_at p))
set-keeps_open Phase.signals_no_dos h = (refl, refl)
set-keeps_open (Phase.signals true) h = (refl, refl)
set-keeps_open (Phase.signals false) h = (refl, refl)
set-keeps_open (Phase.closes_dos true) h = (refl, refl)
set-keeps_open (Phase.closes_dos false) h = (refl, refl)
set-keeps_open (Phase.ended s) h = (refl, refl)
set-keeps_open Phase.no_process h = absurd (ground arith)
set-keeps_open Phase.opens_dos h = absurd (ground arith)
set-keeps_open Phase.runs h = absurd (ground arith)
set-keeps_open (Phase.closes_in l) h = absurd (ground arith)
set-keeps_open (Phase.closes_out l) h = absurd (ground arith)
set-keeps_open (Phase.sets_status l) h = absurd (ground arith)

-- In any order of the turns of the new process and of `run_exit`, once `run_exit` has returned: its
-- result is the status that the process has set, never RUN_EXIT_STATUS_INVALID, and both file
-- handles are closed, unless the process could not open dos.library: then both are still open.
pub run_exit_result :
    (mode : RunMode) (fh_in fh_out : ℕ) (cmd : Option ℕ) (ram : Ram) (answer : RunAnswer)
    (w : Launch)
    → run_init mode fh_in fh_out cmd ram answer ≡ some w
    → (ts : List Turn) (s : ExitStatus) → (turns w ts).caller ≡ Caller.returned s
    → (is_invalid s ≡ false)
      × (s ≡ (turns w ts).run.exit_status)
      × ((turns w ts).in_open ≡ keeps_open s)
      × ((turns w ts).out_open ≡ keeps_open s)
run_exit_result mode fh_in fh_out cmd ram answer w h ts s e =
    let a = turns-Agree ts w (run_init-Agree mode fh_in fh_out cmd ram answer w h) in
    let t = a.taken s (rw e refl) in
    let v = a.past (rw e refl) in
    let (x, y) = set-keeps_open (turns w ts).phase v in
    (
      ap is_invalid t ∙ v,
      t ∙ sym a.told,
      a.input_at ∙ x ∙ ap keeps_open (sym t),
      a.output_at ∙ y ∙ ap keeps_open (sym t),
    )
