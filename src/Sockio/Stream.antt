-- ===== src/Sockio/Stream.antt =====
-- The byte stream that goes out: what `send` took and what is still queued.
use rcli.Common.{
  ℕ, ◌+◌, ◌-◌, ◌≤◌, ◌≡◌, refl, ap, ap₂, sym, ◌∙◌, inl, inr, Bool, true, false, List, [], ◌∷◌, ◌++◌,
  arith, ◌==◌, append_assoc, Ram, bytes, bytes-add, Bool-cases, ==_iff,
}
use rcli.Sockio.{Sockio, SockioMsg, rest_of}
use rcli.Sockio.Wait.{SendResult, took, send_from, finish_send, handle_tx}

-- The bytes of the queued sends, of the first from `actual` on.
abbrev pub to_send : (ℕ → SockioMsg) → Ram → List ℕ → ℕ → List ℕ
to_send msgs ram [] actual = []
to_send msgs ram (i ∷ is) actual =
    bytes ram ((msgs i).buf_data + actual) ((msgs i).size - actual) ++ to_send msgs ram is 0

abbrev pub unsent : Sockio → List ℕ
unsent sio = to_send sio.msgs sio.ram sio.send_list sio.tx_actual

-- What is left of a buffer splits at the bytes that `send` took.
left_splits :
    (ram : Ram) (a size actual n : ℕ)
    → actual + n ≤ size
    → bytes ram (a + actual) (size - actual)
      ≡ bytes ram (a + actual) n ++ bytes ram (a + (actual + n)) (size - (actual + n))
left_splits ram a size actual n h =
    let parts : size - actual ≡ n + (size - (actual + n)) = omega arith in
    let next : a + actual + n ≡ a + (actual + n) = omega arith in
    ap (bytes ram (a + actual)) parts
    ∙ bytes-add ram (a + actual) n (size - (actual + n))
    ∙ ap (λ x. bytes ram (a + actual) n ++ bytes ram x (size - (actual + n))) next

-- A send of which nothing is left adds no byte.
to_send-done :
    (msgs : ℕ → SockioMsg) (ram : Ram) (i : ℕ) (is : List ℕ) (actual : ℕ)
    → (msgs i).size ≡ actual
    → to_send msgs ram is 0 ≡ to_send msgs ram (i ∷ is) actual
to_send-done msgs ram i is actual h =
    let none_left : 0 ≡ (msgs i).size - actual = omega arith in
    ap (λ n. bytes ram ((msgs i).buf_data + actual) n ++ to_send msgs ram is 0) none_left

-- Taking a finished send off the queue loses no byte, and sends none.
finish_send-unsent :
    (sio : Sockio) (i : ℕ) (is : List ℕ)
    → sio.send_list ≡ i ∷ is
    → let sio' = finish_send sio i in (unsent sio' ≡ unsent sio) × (sio'.sent ≡ sio.sent)
unfolding finish_send
finish_send-unsent sio i is e = elim (Bool-cases ((sio.msgs i).size == sio.tx_actual)) [
  | inl done ↦
      let same = to_send-done sio.msgs sio.ram i is sio.tx_actual ((==_iff _ _).0 done) in
      rw done (
        ap (λ l. to_send sio.msgs sio.ram (rest_of l) 0) e
            ∙ same
            ∙ sym (ap (λ l. to_send sio.msgs sio.ram l sio.tx_actual) e),
        refl,
      )
  | inr more ↦ rw more (refl, refl)
]

-- `send` takes no more than it was given.
abbrev pub Fits : Sockio → ℕ → SendResult → Type 0
Fits sio i (took n) = sio.tx_actual + n ≤ (sio.msgs i).size
Fits sio i (SendResult.failed eagain) = Unit {0}

send_from-stream :
    (sio : Sockio) (i : ℕ) (is : List ℕ) (res : SendResult)
    → sio.send_list ≡ i ∷ is
    → Fits sio i res
    → let sio' = (send_from sio i res).1 in
      (sio'.sent ++ unsent sio' ≡ sio.sent ++ unsent sio) × (sio'.send_list ≡ sio.send_list)
unfolding send_from
send_from-stream sio i is (SendResult.failed true) e h = (refl, refl)
send_from-stream sio i is (SendResult.failed false) e h = (refl, refl)
send_from-stream sio i is (took n) e h =
    let msg = sio.msgs i in
    let gone = bytes sio.ram (msg.buf_data + sio.tx_actual) n in
    let rest = to_send sio.msgs sio.ram is 0 in
    let left =
      bytes sio.ram (msg.buf_data + (sio.tx_actual + n)) (msg.size - (sio.tx_actual + n)) in
    let split = left_splits sio.ram msg.buf_data msg.size sio.tx_actual n h in
    (
      ap (λ l. (sio.sent ++ gone) ++ to_send sio.msgs sio.ram l (sio.tx_actual + n)) e
          ∙ append_assoc sio.sent gone (left ++ rest)
          ∙ ap (◌++◌ sio.sent) (
              sym (append_assoc gone left rest)
              ∙ ap (λ l. l ++ rest) (sym split)
              ∙ sym (ap (λ l. to_send sio.msgs sio.ram l sio.tx_actual) e)),
      refl,
    )

-- Whatever `send` answers, if it takes no more than it was given: what was sent and what is still
-- queued make up the same stream of bytes before and after the step. No byte is lost, doubled or
-- moved.
pub handle_tx-stream :
    (sio : Sockio) (i : ℕ) (is : List ℕ) (ready : Bool) (res : SendResult)
    → sio.send_list ≡ i ∷ is
    → Fits sio i res
    → let sio' = (handle_tx sio i ready res).1 in sio'.sent ++ unsent sio' ≡ sio.sent ++ unsent sio
unfolding handle_tx
handle_tx-stream sio i is false res e h =
    let (left, same) = finish_send-unsent sio i is e in ap₂ ◌++◌ same left
handle_tx-stream sio i is true res e h =
    let (stream, list) = send_from-stream sio i is res e h in
    let (left, same) = finish_send-unsent (send_from sio i res).1 i is (list ∙ e) in
    ap₂ ◌++◌ same left ∙ stream
