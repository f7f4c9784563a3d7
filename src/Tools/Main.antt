-- ===== src/Tools/Main.antt =====
-- The mains of amiga/tools/tget.c and tput.c: what they return, and what they leave open.
use rcli.Common.{
  ℕ, ◌≡◌, refl, ◌↔◌, ◌⊎◌, inl, inr, if◌then◌else◌, Bool, true, false, Option, none, some, List, Ram,
}
use Prim.Native.String.{String}
use rcli.Termio.{CmdSeq}
use rcli.Tools.{ReadAnswer, Report, Put, no_command, not_found, invalid_params, printed, tget, tput}

-- `RETURN_OK`, `RETURN_WARN`, `RETURN_ERROR`
pub data Return : Type 0 where
  ok warn error : Return

-- Whether dos.library is open, and the arguments are not freed.
pub record Left : Type 0 where
  pub dos : Bool
  pub args : Bool

abbrev pub closed : Left
closed = record { dos = false; args = false }

-- Where `ReadArgs` fails, main returns at once.
abbrev pub bad_args : Left
bad_args = record { dos = true; args = false }

-- `params_t` of tput.c, but for `verbose`, on which only the form of the output depends.
pub record Params : Type 0 where
  pub list : Bool
  pub code : Option (String × List (List ℕ))

abbrev return_of : Put → Return
return_of no_command = Return.warn
return_of not_found = Return.error
return_of (invalid_params e) = Return.error
return_of (printed output) = Return.ok

-- `main` of tput.c, with what `ReadArgs` gives.
unfoldable pub tput_main : Option Params → Return × Left
tput_main none = (Return.error, bad_args)
tput_main (some params) = (if params.list then Return.ok else return_of (tput params.code), closed)

-- `main` of tget.c, with whether `ReadArgs` succeeds, and what `tget` reads from and prints.
unfoldable pub tget_main : Bool → ℕ → List ReadAnswer → CmdSeq → Ram → Return × Option Report × Left
tget_main false buffer keys seq ram = (Return.error, none, bad_args)
tget_main true buffer keys seq ram = (Return.ok, some (tget buffer keys seq ram), closed)

succeeds :
    (list : Bool) (put : Put)
    → ((if list then Return.ok else return_of put) ≡ Return.ok)
      ↔ ((list ≡ true) ⊎ ((output : List ℕ) × (put ≡ printed output)))
succeeds true put = (λ h. inl refl, λ h. refl)
succeeds false (printed output) = (λ h. inr (output, refl), λ h. refl)
succeeds false no_command = (λ h. cc, λ h. elim h [ inl e ↦ cc | inr (output, e) ↦ cc ])
succeeds false not_found = (λ h. cc, λ h. elim h [ inl e ↦ cc | inr (output, e) ↦ cc ])
succeeds false (invalid_params x) = (λ h. cc, λ h. elim h [ inl e ↦ cc | inr (output, e) ↦ cc ])

-- `tput` returns RETURN_OK exactly where it lists the codes or prints a sequence, and closes what it
-- opened exactly where its arguments could be read.
tput_main-tput :
    (params : Params)
    → ((tput_main (some params)).1 ≡ closed)
      × ((tput_main (some params)).0 ≡ Return.ok
          ↔ ((params.list ≡ true) ⊎ ((output : List ℕ) × (tput params.code ≡ printed output))))
unfolding tput_main
tput_main-tput params = (refl, succeeds params.list (tput params.code))
