-- ===== src/Tools/ReadBuf.antt =====
-- Which bytes `read_buf` of tget.c reads, and where it writes.
use rcli.Common.{
  ℕ, zero, suc, ◌+◌, ◌-◌, ◌*◌, ◌≤◌, ◌<◌, ◌≡◌, ◌≢◌, ◌⊎◌, inl, inr, refl, ◌∙◌, none, some, List, [],
  ◌∷◌, if◌then◌else◌, Ram, store, store_bytes, store_bytes_frame, bytes_eq, bytes-store_bytes,
  bytes, length, arith, Bool-cases, Option-cases,
}
use native.Mathlib.Nat.{add-zero, zero-add}
use rcli.Tools.{ReadAnswer, Reading, read_loop, read_buf}

-- The bytes that come within the delay, `room` at most.
abbrev pub typed : ℕ → List ReadAnswer → List ℕ
typed zero keys = []
typed (suc room) [] = []
typed (suc room) (key ∷ keys) = elim key.got [
  | none ↦ []
  | some b ↦ b ∷ (if key.more then typed room keys else [])
]

at_place :
    (buf buf' size size' : ℕ) (ram : Ram)
    → buf ≡ buf'
    → size ≡ size'
    → ◌≡◌ {A = Reading}
        (record { buf = buf; size = size; ram = ram })
        (record { buf = buf'; size = size'; ram = ram })
at_place buf buf' size size' ram e f = rw (e, f) refl

read_loop-typed :
    (room : ℕ) (keys : List ReadAnswer) (buf size : ℕ) (ram : Ram)
    → let bs = typed room keys in
      read_loop room keys (record { buf = buf; size = size; ram = ram })
      ≡ record { buf = buf + length bs; size = size + length bs; ram = store_bytes ram buf bs }
unfolding read_loop
read_loop-typed zero keys buf size ram = rw (add-zero, add-zero) refl
read_loop-typed (suc room) [] buf size ram = rw (add-zero, add-zero) refl
read_loop-typed (suc room) (key ∷ keys) buf size ram = elim (Option-cases key.got) [
  | inl e ↦ rw (e, add-zero, add-zero) refl
  | inr (b, e) ↦ elim (Bool-cases key.more) [
    | inl m ↦
        rw (e, m)
          (read_loop-typed room keys (buf + 1) (size + 1) (store ram buf b)
            ∙ at_place _ _ _ _ _ (omega arith) (omega arith))
    | inr m ↦ rw (e, m) refl
  ]
]

typed-le : (room : ℕ) (keys : List ReadAnswer) → length (typed room keys) ≤ room
typed-le zero keys = omega arith
typed-le (suc room) [] = omega arith
typed-le (suc room) (key ∷ keys) = elim (Option-cases key.got) [
  | inl e ↦ rw e (omega arith)
  | inr (b, e) ↦ elim (Bool-cases key.more) [
    | inl m ↦ rw (e, m) (omega (arith, typed-le room keys))
    | inr m ↦ rw (e, m) (omega arith)
  ]
]

-- For any input: `read_buf` reads the bytes that come within the delay, less than `max_size` of
-- them, to the start of the buffer; the NUL goes to the address twice as many bytes behind the
-- start, and no other byte changes. So from the 16th byte on the NUL is outside of the 32 bytes
-- that `tget` has for it.
pub read_buf-typed :
    (buf max_size : ℕ) (keys : List ReadAnswer) (ram : Ram)
    → 1 ≤ max_size
    → let bs = typed (max_size - 1) keys in
      let (size, ram') = read_buf buf max_size keys ram in
      (size ≡ length bs)
      × (size < max_size)
      × (bytes ram' buf size ≡ bs)
      × (ram' (buf + 2 * size) ≡ 0)
      × ((x : ℕ) → (x < buf) ⊎ (buf + size ≤ x) → x ≢ buf + 2 * size → ram' x ≡ ram x)
unfolding read_buf
read_buf-typed buf max_size keys ram h =
    let bs = typed (max_size - 1) keys in
    let n = length bs in
    let r = store_bytes ram buf bs in
    let b = typed-le (max_size - 1) keys in
    rw (read_loop-typed (max_size - 1) keys buf 0 ram, zero-add)
      (
        refl,
        omega (arith, b, h),
        bytes_eq _ r buf n (λ x p q. ground arith) ∙ bytes-store_bytes bs ram buf,
        ground arith,
        λ x p q. ground (arith, store_bytes_frame bs ram buf x p),
      )
