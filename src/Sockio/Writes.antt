-- ===== src/Sockio/Writes.antt =====
-- The writes of a handle of sockio.c in the order in which they will be answered.
use rcli.Common.{
  ℕ, ◌≡◌, ◌≢◌, refl, ap, ◌∙◌, Bool, true, false, List, [], ◌∷◌, ◌++◌, arith, if◌then◌else◌, update,
  count, remove, append-nil, Bool-cases, inl, inr,
}
use rcli.Sockio.{Sockio, SockioMsg, MsgType}

abbrev pub is_write : MsgType → Bool
is_write MsgType.send = true
is_write _ = false

-- The writes among the messages of a list.
abbrev pub pick : (ℕ → SockioMsg) → List ℕ → List ℕ
pick msgs [] = []
pick msgs (i ∷ is) = if is_write (msgs i).type then i ∷ pick msgs is else pick msgs is

-- The writes that are answered, those under way, and those that are submitted.
abbrev pub writes_of : (ℕ → SockioMsg) → List ℕ → List ℕ → List ℕ → List ℕ
writes_of msgs user sends port = pick msgs user ++ (sends ++ pick msgs port)

abbrev pub writes : Sockio → List ℕ
writes sio = writes_of sio.msgs sio.user_port sio.send_list sio.msg_port

-- The lists hold messages of their type.
pub record Typed (sio : Sockio) : Type 0 where
  pub sends : (i : ℕ) → count i sio.send_list ≢ 0 → is_write (sio.msgs i).type ≡ true
  pub reads : (i : ℕ) → count i sio.recv_list ≢ 0 → is_write (sio.msgs i).type ≡ false
  pub waits : (i : ℕ) → count i sio.wait_list ≢ 0 → is_write (sio.msgs i).type ≡ false

-- What an operation of the handle keeps of its writes.
pub record Ordered (sio sio' : Sockio) : Type 0 where
  pub order : writes sio' ≡ writes sio
  pub typed : Typed sio'

pub Ordered-trans : (a b : Sockio) {c : Sockio} → Ordered a b → Ordered b c → Ordered a c
Ordered-trans a b h k = record { order = k.order ∙ h.order; typed = k.typed }

pub pick-append :
    (msgs : ℕ → SockioMsg) (xs ys : List ℕ) → pick msgs (xs ++ ys) ≡ pick msgs xs ++ pick msgs ys
pick-append msgs [] ys = refl
pick-append msgs (x ∷ xs) ys = elim (Bool-cases (is_write (msgs x).type)) [
  | inl e ↦ rw e (ap (x ∷◌) (pick-append msgs xs ys))
  | inr e ↦ rw e (pick-append msgs xs ys)
]

pub pick-remove :
    (msgs : ℕ → SockioMsg) (i : ℕ) (xs : List ℕ)
    → is_write (msgs i).type ≡ false
    → pick msgs (remove i xs) ≡ pick msgs xs
pick-remove msgs i [] e = refl
pick-remove msgs i (x ∷ xs) e = ground (arith, e, pick-remove msgs i xs e)

-- Messages of the same types.
pub pick_types :
    (msgs msgs' : ℕ → SockioMsg) (xs : List ℕ)
    → ((x : ℕ) → count x xs ≢ 0 → is_write (msgs' x).type ≡ is_write (msgs x).type)
    → pick msgs' xs ≡ pick msgs xs
pick_types msgs msgs' [] h = refl
pick_types msgs msgs' (x ∷ xs) h =
    let here = h x (ground arith) in
    let rest = pick_types msgs msgs' xs (λ y n. h y (ground (arith, n))) in rw (here, rest) refl

-- A message that is not there may change.
pub pick-update :
    (msgs : ℕ → SockioMsg) (i : ℕ) (msg : SockioMsg) (xs : List ℕ)
    → count i xs ≡ 0
    → pick (update msgs i msg) xs ≡ pick msgs xs
pick-update msgs i msg xs e =
    pick_types msgs (update msgs i msg) xs
      (λ x n. let other : x ≢ i = λ eq. n (ap (λ y. count y xs) eq ∙ e) in ground arith)

-- A message that is no write goes to the user's port.
pub pick-other :
    (msgs : ℕ → SockioMsg) (xs : List ℕ) (i : ℕ)
    → is_write (msgs i).type ≡ false
    → pick msgs (xs ++ (i ∷ [])) ≡ pick msgs xs
pick-other msgs xs i e = pick-append msgs xs (i ∷ []) ∙ rw e (append-nil (pick msgs xs))

-- A write goes to the user's port, or from the port to its list.
pub pick-write :
    (msgs : ℕ → SockioMsg) (xs : List ℕ) (i : ℕ)
    → is_write (msgs i).type ≡ true
    → pick msgs (xs ++ (i ∷ [])) ≡ pick msgs xs ++ (i ∷ [])
pick-write msgs xs i e = pick-append msgs xs (i ∷ []) ∙ rw e refl
