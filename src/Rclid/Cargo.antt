-- ===== src/Rclid/Cargo.antt =====
-- Which console messages a set of socket messages carries in `user_data`, counted.
use rcli.Common.{
  ℕ, ◌+◌, ◌≡◌, ◌≢◌, refl, ap, sym, ◌∙◌, ◌⊎◌, inl, inr, Option, none, some, List, [], ◌∷◌, ◌++◌,
  arith, ◌==◌, if◌then◌else◌, count, count-append, remove, Bool-cases,
}
use rcli.Sockio.{Sockio}
use rcli.Vcon.Books.{owes, count-remove}

abbrev pub with_first : Option ℕ → List ℕ → List ℕ
with_first none xs = xs
with_first (some x) xs = x ∷ xs

-- What the messages `is` carry, where message `i` carries `f i`.
abbrev pub cargo : (ℕ → Option ℕ) → List ℕ → List ℕ
cargo f [] = []
cargo f (i ∷ is) = with_first (f i) (cargo f is)

abbrev pub user_of : Sockio → ℕ → Option ℕ
user_of sio m = (sio.msgs m).user_data

-- The messages that were submitted and are not back at the user.
abbrev pub in_flight : Sockio → List ℕ
in_flight sio =
    sio.recv_list ++ (sio.send_list ++ (sio.wait_list ++ (sio.msg_port ++ sio.user_port)))

abbrev pub carried : Sockio → List ℕ
carried sio = cargo (user_of sio) (in_flight sio)

pub count-with_first :
    (m : ℕ) (o : Option ℕ) (xs : List ℕ) → count m (with_first o xs) ≡ owes m o + count m xs
count-with_first m none xs = omega arith
count-with_first m (some x) xs = omega arith

pub count-in_flight :
    (m : ℕ) (sio : Sockio)
    → count m (in_flight sio)
      ≡ count m sio.recv_list
        + count m sio.send_list
        + count m sio.wait_list
        + count m sio.msg_port
        + count m sio.user_port
count-in_flight m sio =
    let waits = sio.wait_list ++ (sio.msg_port ++ sio.user_port) in
    omega (
      arith,
      count-append m sio.recv_list (sio.send_list ++ waits),
      count-append m sio.send_list waits,
      count-append m sio.wait_list (sio.msg_port ++ sio.user_port),
      count-append m sio.msg_port sio.user_port,
    )

pub cargo-remove :
    (f : ℕ → Option ℕ) (i m : ℕ) (is : List ℕ)
    → count i is ≢ 0
    → count m (cargo f is) ≡ owes m (f i) + count m (cargo f (remove i is))
cargo-remove f i m [] h = absurd (h refl)
cargo-remove f i m (j ∷ is) h = elim (Bool-cases (j == i)) [
  | inl e ↦
      let same : j ≡ i = ground arith in
      rw e
        (count-with_first m (f j) (cargo f is) ∙ ap (λ x. owes m (f x) + count m (cargo f is)) same)
  | inr e ↦ rw e (
      ground (
        arith,
        count-with_first m (f j) (cargo f is),
        count-with_first m (f j) (cargo f (remove i is)),
        cargo-remove f i m is (ground arith),
      ))
]

-- A message that is among `is` as often as among `js` and carries the same, or one that is not
-- among `is`, and not among `js` either unless it carries nothing.
abbrev pub Alike : (ℕ → Option ℕ) → (ℕ → Option ℕ) → List ℕ → List ℕ → ℕ → Type 0
Alike f g is js i =
    ((count i is ≡ count i js) × (f i ≡ g i))
    ⊎ ((count i is ≡ 0) × ((count i js ≡ 0) ⊎ (g i ≡ none)))

pub cargo-none :
    (g : ℕ → Option ℕ) (m : ℕ) (js : List ℕ)
    → ((i : ℕ) → (count i js ≡ 0) ⊎ (g i ≡ none))
    → count m (cargo g js) ≡ 0
cargo-none g m [] h = refl
cargo-none g m (j ∷ js) h = elim (h j) [
  | inl z ↦ absurd (ground (arith, z))
  | inr z ↦
      rw z (cargo-none g m js (λ i. elim (h i) [ inl n ↦ inl (ground (arith, n)) | inr n ↦ inr n ]))
]

-- Lists of messages that are alike carry each console message as often as each other.
pub cargo-Alike :
    (f g : ℕ → Option ℕ) (m : ℕ) (is js : List ℕ)
    → ((i : ℕ) → Alike f g is js i)
    → count m (cargo f is) ≡ count m (cargo g js)
cargo-Alike f g m [] js h =
    sym (cargo-none g m js (λ i. elim (h i) [ inl (n, e) ↦ inl (sym n) | inr (n, e) ↦ e ]))
cargo-Alike f g m (j ∷ is) js h = elim (h j) [
  | inr (n, e) ↦ absurd (ground (arith, n))
  | inl (n, e) ↦
      let there : count j js ≢ 0 = ground (arith, n) in
      let rest = cargo-Alike f g m is (remove j js) (λ i. elim (h i) [
        | inl (k, u) ↦ inl (ground (arith, k, count-remove j i js there), u)
        | inr (k, inl u) ↦
            inr (ground (arith, k), inl (ground (arith, k, u, count-remove j i js there)))
        | inr (k, inr u) ↦ inr (ground (arith, k), inr u)
      ]) in
      omega (
        arith,
        count-with_first m (f j) (cargo f is),
        cargo-remove g j m js there,
        rest,
        ap (owes m) e,
      )
]

-- One message that is there once is given something to carry.
pub cargo-load :
    (f g : ℕ → Option ℕ) (k i m : ℕ) (is : List ℕ)
    → count k is ≡ 1
    → f k ≡ none
    → g k ≡ some i
    → ((x : ℕ) → x ≢ k → g x ≡ f x)
    → count m (cargo g is) ≡ (if i == m then 1 else 0) + count m (cargo f is)
cargo-load f g k i m is once free loaded others =
    let there : count k is ≢ 0 = omega (arith, once) in
    let rest = cargo-Alike g f m (remove k is) (remove k is) (λ x. elim (Bool-cases (k == x)) [
      | inl e ↦
          let gone : count x (remove k is) ≡ 0 = ground (arith, once, count-remove k x is there) in
          inr (gone, inl gone)
      | inr e ↦ inl (refl, others x (λ z. ground (arith, z)))
    ]) in
    omega (
      arith,
      cargo-remove g k m is there,
      cargo-remove f k m is there,
      rest,
      ap (owes m) free,
      ap (owes m) loaded,
    )
