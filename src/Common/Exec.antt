-- ===== src/Common/Exec.antt =====
-- What a program has allocated from exec.library: blocks of memory and message ports.
use Prim.Native.Nat.{ℕ}
use mathlib.Core.Path.{◌≡◌, refl, ap, ◌∙◌}
use mathlib.Core.List.{List, [], ◌∷◌, ◌++◌}
use mathlib.Core.Option.{Option, none, some}
use native.Mathlib.Omega.{arith}
use mathlib.Core.Logic.{inl, inr}
use rcli.Common.Tests.{◌==◌, if◌then◌else◌, Bool-cases}
use rcli.Common.Lists.{count, remove}

-- `wild` logs what was freed and is no block: exec.library goes wrong there.
pub record System : Type 0 where
  pub blocks : List ℕ
  pub ports : List ℕ
  pub wild : List ℕ

-- `AllocVec` and `CreateMsgPort`, with the address that they give, or `none` for NULL.
abbrev pub alloc_vec : Option ℕ → System → System
alloc_vec none sys = sys
alloc_vec (some a) sys = record sys { blocks = a ∷ sys.blocks }

abbrev pub create_port : Option ℕ → System → System
create_port none sys = sys
create_port (some a) sys = record sys { ports = a ∷ sys.ports }

-- `FreeVec`, which leaves NULL alone.
abbrev pub free_vec : Option ℕ → System → System
free_vec none sys = sys
free_vec (some a) sys =
    if count a sys.blocks == 0
    then record sys { wild = sys.wild ++ (a ∷ []) }
    else record sys { blocks = remove a sys.blocks }

-- `if(port != NULL) DeleteMsgPort(port)`
abbrev pub delete_port : Option ℕ → System → System
delete_port none sys = sys
delete_port (some a) sys = record sys { ports = remove a sys.ports }

pub free_vec-alloc_vec : (o : Option ℕ) (sys : System) → free_vec o (alloc_vec o sys) ≡ sys
free_vec-alloc_vec none sys = refl
free_vec-alloc_vec (some a) sys = ground arith

pub delete_port-create_port :
    (o : Option ℕ) (sys : System) → delete_port o (create_port o sys) ≡ sys
delete_port-create_port none sys = refl
delete_port-create_port (some a) sys = ground arith

-- A block goes, whichever block was allocated behind it.
pub free_vec-behind :
    (o p : Option ℕ) (sys : System) → free_vec o (alloc_vec p (alloc_vec o sys)) ≡ alloc_vec p sys
free_vec-behind none p sys = refl
free_vec-behind (some a) none sys = ground arith
free_vec-behind (some a) (some b) sys = elim (Bool-cases (b == a)) [
  | inl e ↦ let same : b ≡ a = ground arith in rw same (ground arith)
  | inr e ↦ ground arith
]

-- Several blocks, the first of which was allocated last.
abbrev pub alloc_all : List ℕ → System → System
alloc_all [] sys = sys
alloc_all (a ∷ xs) sys = alloc_vec (some a) (alloc_all xs sys)

abbrev pub free_all : List ℕ → System → System
free_all [] sys = sys
free_all (a ∷ xs) sys = free_all xs (free_vec (some a) sys)

pub free_all-alloc_all : (xs : List ℕ) (sys : System) → free_all xs (alloc_all xs sys) ≡ sys
free_all-alloc_all [] sys = refl
free_all-alloc_all (a ∷ xs) sys =
    ap (free_all xs) (free_vec-alloc_vec (some a) (alloc_all xs sys)) ∙ free_all-alloc_all xs sys
