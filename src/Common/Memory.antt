-- ===== src/Common/Memory.antt =====
-- The memory that buffers point into: a byte at each address.
use Prim.Native.Nat.{ℕ, zero, suc, ◌+◌, ◌<◌, ◌≤◌}
use mathlib.Core.Path.{◌≡◌, refl, ap, ap₂, ◌∙◌}
use mathlib.Core.Logic.{◌⊎◌, inl, inr}
use mathlib.Core.List.{List, [], ◌∷◌, ◌++◌}
use native.Mathlib.Omega.{arith}
use rcli.Common.Tests.{◌==◌, if◌then◌else◌}
use rcli.Common.Lists.{length}

abbrev pub Ram : Type 0
Ram = ℕ → ℕ

abbrev pub store : Ram → ℕ → ℕ → Ram
store ram a v = λ x. if x == a then v else ram x

-- An array of structures, or memory cells that pointers name: one entry is written.
abbrev pub update {ℓ} : {A : Type ℓ} → (ℕ → A) → ℕ → A → ℕ → A
update f a v = λ x. if x == a then v else f x

-- The `n` bytes from address `a` on.
abbrev pub bytes : Ram → ℕ → ℕ → List ℕ
bytes ram a zero = []
bytes ram a (suc n) = ram a ∷ bytes ram (a + 1) n

-- Writes the bytes from address `a` on.
abbrev pub store_bytes : Ram → ℕ → List ℕ → Ram
store_bytes ram a [] = ram
store_bytes ram a (b ∷ bs) = store_bytes (store ram a b) (a + 1) bs

-- `CopyMem(src, dst, n)`, for areas that do not overlap.
abbrev pub copy_mem : Ram → ℕ → ℕ → ℕ → Ram
copy_mem ram src dst n = store_bytes ram dst (bytes ram src n)

pub length-bytes : (ram : Ram) (a n : ℕ) → length (bytes ram a n) ≡ n
length-bytes ram a zero = refl
length-bytes ram a (suc n) = ap suc (length-bytes ram (a + 1) n)

-- Two memories that agree on the area hold the same bytes there.
pub bytes_eq :
    (r s : Ram) (a n : ℕ) → ((x : ℕ) → a ≤ x → x < a + n → r x ≡ s x) → bytes r a n ≡ bytes s a n
bytes_eq r s a zero h = refl
bytes_eq r s a (suc n) h =
    ap₂ ◌∷◌ (h a (omega arith) (omega arith))
      (bytes_eq r s (a + 1) n (λ x p q. h x (omega arith) (omega arith)))

pub bytes-add : (ram : Ram) (a n m : ℕ) → bytes ram a (n + m) ≡ bytes ram a n ++ bytes ram (a + n) m
bytes-add ram a zero m = ap₂ (bytes ram) (omega arith) (omega arith)
bytes-add ram a (suc n) m =
    let shift : suc n + m ≡ suc (n + m) = omega arith in
    let move : a + 1 + n ≡ a + suc n = omega arith in rw (shift, bytes-add ram (a + 1) n m, move)

-- Nothing outside the written area changes.
pub store_bytes_frame :
    (bs : List ℕ) (ram : Ram) (a x : ℕ)
    → (x < a) ⊎ (a + length bs ≤ x)
    → store_bytes ram a bs x ≡ ram x
store_bytes_frame [] ram a x h = refl
store_bytes_frame (b ∷ bs) ram a x (inl h) =
    store_bytes_frame bs (store ram a b) (a + 1) x (inl (omega arith)) ∙ ground arith
store_bytes_frame (b ∷ bs) ram a x (inr h) =
    store_bytes_frame bs (store ram a b) (a + 1) x (inr (omega arith)) ∙ ground arith

-- What was written is read back.
pub bytes-store_bytes :
    (bs : List ℕ) (ram : Ram) (a : ℕ) → bytes (store_bytes ram a bs) a (length bs) ≡ bs
bytes-store_bytes [] ram a = refl
bytes-store_bytes (b ∷ bs) ram a =
    ap₂ ◌∷◌ (store_bytes_frame bs (store ram a b) (a + 1) a (inl (omega arith)) ∙ ground arith)
      (bytes-store_bytes bs (store ram a b) (a + 1))

-- An area that the write does not touch keeps its bytes.
pub bytes-store_bytes_apart :
    (bs : List ℕ) (ram : Ram) (a c n : ℕ)
    → (c + n ≤ a) ⊎ (a + length bs ≤ c)
    → bytes (store_bytes ram a bs) c n ≡ bytes ram c n
bytes-store_bytes_apart bs ram a c n (inl h) =
    bytes_eq _ ram c n (λ x p q. store_bytes_frame bs ram a x (inl (omega arith)))
bytes-store_bytes_apart bs ram a c n (inr h) =
    bytes_eq _ ram c n (λ x p q. store_bytes_frame bs ram a x (inr (omega arith)))
