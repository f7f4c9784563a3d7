-- ===== src/Run/Order.antt =====
-- What holds of the process and its caller in every order of their turns.
use rcli.Common.{
  ◌≡◌, refl, sym, subst, ap, ◌∙◌, Bool, true, false, Option, none, some, List, [], ◌∷◌, arith,
  Bool-cases, inl, inr,
}
use rcli.Run.{ExitStatus, Phase, Caller, Launch}
use rcli.Run.Process.{
  DosAnswer, Turn, process, caller, status_of, is_invalid, proceed, run_exit, turn, turns,
}

-- The status that `start_proc` has set at each place.
abbrev pub status_at : Phase → ExitStatus
status_at Phase.signals_no_dos = ExitStatus.no_dos
status_at (Phase.signals launched) = status_of launched
status_at (Phase.closes_dos launched) = status_of launched
status_at (Phase.ended s) = s
status_at _ = ExitStatus.invalid

abbrev pub is_signalled : Phase → Bool
is_signalled (Phase.closes_dos launched) = true
is_signalled (Phase.ended s) = true
is_signalled _ = false

abbrev pub keeps_open : ExitStatus → Bool
keeps_open ExitStatus.no_dos = true
keeps_open _ = false

-- Whether the input, and the output, is still open.
abbrev pub in_at : Phase → Bool
in_at (Phase.closes_out launched) = false
in_at (Phase.sets_status launched) = false
in_at (Phase.signals launched) = false
in_at (Phase.closes_dos launched) = false
in_at (Phase.ended s) = keeps_open s
in_at _ = true

abbrev pub out_at : Phase → Bool
out_at (Phase.closes_out launched) = true
out_at p = in_at p

-- Whether the caller has found the status set, and what it has read.
abbrev pub is_past : Caller → Bool
is_past Caller.busy = false
is_past Caller.checks = false
is_past Caller.waits = false
is_past _ = true

abbrev pub result_of : Caller → Option ExitStatus
result_of (Caller.frees_signal s) = some s
result_of (Caller.frees_memory s) = some s
result_of (Caller.returned s) = some s
result_of _ = none

-- What the status, the two streams, the signal, the process and the caller have to do with each
-- other.
pub record AgreeOf (status : ExitStatus) (input output pending : Bool) (p : Phase) (c : Caller)
    : Type 0 where
  pub told : status ≡ status_at p
  pub input_at : input ≡ in_at p
  pub output_at : output ≡ out_at p
  pub sent : is_past c ≡ false → pending ≡ is_signalled p
  pub honest : pending ≡ true → is_invalid (status_at p) ≡ false
  pub past : is_past c ≡ true → is_invalid (status_at p) ≡ false
  pub taken : (s : ExitStatus) → result_of c ≡ some s → s ≡ status_at p

abbrev pub Agree : Launch → Type 0
Agree w = AgreeOf w.run.exit_status w.in_open w.out_open w.pending w.phase w.caller

result_of-past : (c : Caller) (s : ExitStatus) → result_of c ≡ some s → is_past c ≡ true
result_of-past (Caller.frees_signal t) s h = refl
result_of-past (Caller.frees_memory t) s h = refl
result_of-past (Caller.returned t) s h = refl
result_of-past Caller.busy s h = absurd (ground arith)
result_of-past Caller.checks s h = absurd (ground arith)
result_of-past Caller.waits s h = absurd (ground arith)
result_of-past Caller.reads s h = absurd (ground arith)

module _ {st : ExitStatus} {i o pend : Bool} {p : Phase} {c : Caller} (a : AgreeOf st i o pend p c)
    (q : Phase) where
  -- A place with the same status, and the same use of the signal.
  goes_on :
      status_at q ≡ status_at p
      → is_signalled q ≡ is_signalled p
      → AgreeOf st (in_at q) (out_at q) pend q c
  goes_on e f = record {
    told = a.told ∙ sym e;
    input_at = refl;
    output_at = refl;
    sent = λ h. a.sent h ∙ sym f;
    honest = λ h. ap is_invalid e ∙ a.honest h;
    past = λ h. ap is_invalid e ∙ a.past h;
    taken = λ s h. a.taken s h ∙ sym e;
  }

  -- The status is set.
  tells :
      is_invalid (status_at p) ≡ true
      → is_invalid (status_at q) ≡ false
      → is_signalled q ≡ is_signalled p
      → AgreeOf (status_at q) (in_at q) (out_at q) pend q c
  tells e e' f = record {
    told = refl;
    input_at = refl;
    output_at = refl;
    sent = λ h. a.sent h ∙ sym f;
    honest = λ h. e';
    past = λ h. e';
    taken = λ s h. absurd (ground (arith, a.past (result_of-past c s h)));
  }

  -- The signal is sent.
  sends :
      status_at q ≡ status_at p
      → is_invalid (status_at p) ≡ false
      → is_signalled q ≡ true
      → AgreeOf st (in_at q) (out_at q) true q c
  sends e e' f = record {
    told = a.told ∙ sym e;
    input_at = refl;
    output_at = refl;
    sent = λ h. sym f;
    honest = λ h. ap is_invalid e ∙ e';
    past = λ h. ap is_invalid e ∙ e';
    taken = λ s h. a.taken s h ∙ sym e;
  }

status_of-valid : (launched : Bool) → is_invalid (status_of launched) ≡ false
status_of-valid true = refl
status_of-valid false = refl

closed_at : (launched : Bool) → keeps_open (status_of launched) ≡ false
closed_at true = refl
closed_at false = refl

-- The streams as the place of the process gives them.
settle :
    {st : ExitStatus} {i o pend : Bool} {p : Phase} {c : Caller} (i' o' : Bool)
    → AgreeOf st i o pend p c
    → i' ≡ i
    → o' ≡ o
    → AgreeOf st i' o' pend p c
settle i' o' a e f = record {
  told = a.told;
  input_at = e ∙ a.input_at;
  output_at = f ∙ a.output_at;
  sent = a.sent;
  honest = a.honest;
  past = a.past;
  taken = a.taken;
}

pub proceed-Agree :
    (dos : DosAnswer) (w : Launch) (p : Phase) → w.phase ≡ p → Agree w → Agree (proceed dos w p)
unfolding proceed
proceed-Agree dos w p e a =
    at p (subst (λ x. AgreeOf w.run.exit_status w.in_open w.out_open w.pending x w.caller) e a)
  where
    at :
        (x : Phase)
        → AgreeOf w.run.exit_status w.in_open w.out_open w.pending x w.caller
        → Agree (proceed dos w x)
    at Phase.no_process b = a
    at Phase.opens_dos b = elim (Bool-cases dos.opens) [
      | inl o ↦ rw o (settle _ _ (goes_on b Phase.runs refl refl) b.input_at b.output_at)
      | inr o ↦
          rw o (settle _ _ (tells b Phase.signals_no_dos refl refl refl) b.input_at b.output_at)
    ]
    at Phase.runs b = settle _ _ (goes_on b (Phase.closes_in _) refl refl) b.input_at b.output_at
    at Phase.signals_no_dos b =
        settle _ _ (sends b (Phase.ended ExitStatus.no_dos) refl refl refl) b.input_at b.output_at
    at (Phase.closes_in launched) b =
        settle _ _ (goes_on b (Phase.closes_out launched) refl refl) refl b.output_at
    at (Phase.closes_out launched) b =
        settle _ _ (goes_on b (Phase.sets_status launched) refl refl) b.input_at refl
    at (Phase.sets_status launched) b =
        settle _ _ (tells b (Phase.signals launched) refl (status_of-valid launched) refl)
          b.input_at b.output_at
    at (Phase.signals launched) b =
        settle _ _ (sends b (Phase.closes_dos launched) refl (status_of-valid launched) refl)
          b.input_at b.output_at
    at (Phase.closes_dos launched) b =
        settle _ _ (goes_on b (Phase.ended (status_of launched)) refl refl)
          (b.input_at ∙ sym (closed_at launched)) (b.output_at ∙ sym (closed_at launched))
    at (Phase.ended s) b = a

-- The caller moves on without the signal.
moves :
    {st : ExitStatus} {i o pend : Bool} {p : Phase} {c : Caller} (d : Caller)
    → AgreeOf st i o pend p c
    → (is_past d ≡ false → is_past c ≡ false)
    → (is_past d ≡ true → is_invalid (status_at p) ≡ false)
    → ((s : ExitStatus) → result_of d ≡ some s → s ≡ status_at p)
    → AgreeOf st i o pend p d
moves d a f g h = record {
  told = a.told;
  input_at = a.input_at;
  output_at = a.output_at;
  sent = λ x. a.sent (f x);
  honest = a.honest;
  past = g;
  taken = h;
}

pub run_exit-Agree : (w : Launch) (c : Caller) → w.caller ≡ c → Agree w → Agree (run_exit w c)
unfolding run_exit
run_exit-Agree w c e a =
    at c (subst (λ x. AgreeOf w.run.exit_status w.in_open w.out_open w.pending w.phase x) e a)
  where
    at :
        (x : Caller)
        → AgreeOf w.run.exit_status w.in_open w.out_open w.pending w.phase x
        → Agree (run_exit w x)
    at Caller.busy b =
        moves Caller.checks b (λ h. refl) (λ h. absurd (ground arith))
          (λ s h. absurd (ground arith))
    at Caller.checks b = elim (Bool-cases (is_invalid w.run.exit_status)) [
      | inl x ↦ rw x (
          moves Caller.waits b (λ h. refl) (λ h. absurd (ground arith))
            (λ s h. absurd (ground arith)))
      | inr x ↦ rw x (
          moves Caller.reads b (λ h. refl) (λ h. sym (ap is_invalid b.told) ∙ x)
            (λ s h. absurd (ground arith)))
    ]
    at Caller.waits b = elim (Bool-cases w.pending) [
      | inl x ↦ rw x (record {
        told = b.told;
        input_at = b.input_at;
        output_at = b.output_at;
        sent = λ h. absurd (ground arith);
        honest = λ h. absurd (ground arith);
        past = λ h. b.honest x;
        taken = λ s h. absurd (ground arith);
      })
      | inr x ↦
          rw x (subst (λ y. AgreeOf w.run.exit_status w.in_open w.out_open y w.phase w.caller) x a)
    ]
    at Caller.reads b =
        moves (Caller.frees_signal w.run.exit_status) b (λ h. h) (λ h. b.past refl)
          (λ s h. cc (b.told))
    at (Caller.frees_signal s) b = moves (Caller.frees_memory s) b (λ h. h) b.past b.taken
    at (Caller.frees_memory s) b = moves (Caller.returned s) b (λ h. h) b.past b.taken
    at (Caller.returned s) b = a

pub turns-Agree : (ts : List Turn) (w : Launch) → Agree w → Agree (turns w ts)
unfolding turns turn
turns-Agree [] w a = a
turns-Agree (process dos ∷ ts) w a =
    turns-Agree ts (turn w (process dos)) (proceed-Agree dos w w.phase refl a)
turns-Agree (caller ∷ ts) w a = turns-Agree ts (turn w caller) (run_exit-Agree w w.caller refl a)
