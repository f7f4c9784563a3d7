-- ===== src/Common/Ports.antt =====
-- The loop over a message port: `while((msg = GetMsg(port)) != NULL)`.
use Prim.Native.Nat.{ℕ, zero, suc}
use mathlib.Core.Path.{◌≡◌, refl}
use mathlib.Core.List.{List, [], ◌∷◌}
use mathlib.Core.Option.{Option, none, some}
use rcli.Common.Lists.{length}

module _ {ℓ κ} {S : Type ℓ} {M : Type κ} (port : S → List M) (body : M → List M → S → S) where
  -- The loop as it is written: each round asks the port again. `body` gets the message and what the
  -- port holds behind it; `none` is a loop that is still running after `fuel` rounds.
  unfoldable pub while_get : ℕ → S → Option S
  while_get zero s = none
  while_get (suc fuel) s = elim (port s) [ [] ↦ some s | m ∷ rest ↦ while_get fuel (body m rest s) ]

  -- A body that puts nothing to the port and takes nothing from it, as long as `P` holds of what the
  -- port holds: the loop handles that and ends.
  pub while_get-ends {μ} :
      (P : List M → Type μ) (all : List M → S → S)
      → ((m : M) (rest : List M) → P (m ∷ rest) → P rest)
      → ((m : M) (rest : List M) (s : S) → P (m ∷ rest) → port (body m rest s) ≡ rest)
      → ((s : S) → port s ≡ [] → all [] s ≡ s)
      → ((m : M) (rest : List M) (s : S)
          → port s ≡ m ∷ rest
          → all (m ∷ rest) s ≡ all rest (body m rest s))
      → (ms : List M) (s : S) → P ms
      → port s ≡ ms
      → (while_get (suc (length ms)) s ≡ some (all ms s)) × (port (all ms s) ≡ [])
  unfolding while_get
  while_get-ends P all less keeps stop go [] s h e = rw (while_get, e, stop s e) (refl, e)
  while_get-ends P all less keeps stop go (m ∷ ms) s h e =
      rw (while_get, e, go m ms s e)
        (while_get-ends P all less keeps stop go ms (body m ms s) (less m ms h) (keeps m ms s h))
