-- ===== src/Vcon/Targets.antt =====
-- Whom `vcon_send_signal` of vcon.c signals.
use rcli.Common.{
  ℕ, ◌≡◌, Bool, true, false, not, Option, none, some, List, [], ◌∷◌, ◌++◌, ◌==◌, if◌then◌else◌, map,
  append_assoc, Bool-cases, inl, inr, append-nil,
}
use rcli.Vcon.{Vcon, signal}
use rcli.Vcon.Signals.{vcon_send_signal, task_behind, send_task_signal}

-- The tasks behind the two ports: the reader's first, and the writer's where it is another.
abbrev pub targets : Option ℕ → Option ℕ → List ℕ
targets none none = []
targets (some r) none = r ∷ []
targets none (some w) = w ∷ []
targets (some r) (some w) = if w == r then r ∷ [] else r ∷ w ∷ []

abbrev pub is_empty : List ℕ → Bool
is_empty [] = true
is_empty (x ∷ xs) = false

-- Each task behind the reader's and the writer's port gets the signals, the reader's first and a
-- task behind both once, nothing else changes, and the result tells whether there was one.
pub vcon_send_signal-targets :
    (task_of : ℕ → Option ℕ) (sh : Vcon) (mask : ℕ) (r w : Option ℕ)
    → task_behind task_of sh.read_signal_port ≡ r
    → task_behind task_of sh.write_signal_port ≡ w
    → vcon_send_signal task_of sh mask ≡ (
      record sh { effects = sh.effects ++ map (λ t. signal t mask) (targets r w) },
      not (is_empty (targets r w)),
    )
unfolding vcon_send_signal send_task_signal
vcon_send_signal-targets task_of sh mask none none er ew = rw (er, ew, append-nil)
vcon_send_signal-targets task_of sh mask (some r) none er ew = rw (er, ew)
vcon_send_signal-targets task_of sh mask none (some w) er ew = rw (er, ew)
vcon_send_signal-targets task_of sh mask (some r) (some w) er ew = elim (Bool-cases (w == r)) [
  | inl e ↦ rw (er, ew, e)
  | inr e ↦ rw (er, ew, e, append_assoc)
]
