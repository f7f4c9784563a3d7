-- ===== src/Sockio/Rounds.antt =====
-- `sockio_wait_handle` keeps the messages and the links, whatever the system answers.
use rcli.Common.{
  ℕ, ◌+◌, ◌≡◌, ◌≢◌, refl, ap, ◌∙◌, inl, inr, Bool, true, false, Option, none, some, List, [], ◌∷◌,
  arith, ◌==◌, ◌&&◌, ◌||◌, count, Bool-cases, Option-cases, ltb,
}
use rcli.Sockio.{Sockio, State, rest_of, head?, sub_ulong, error_io, error_wait}
use rcli.Sockio.Wait.{
  RecvResult, received, SendResult, Selected, recv_into, finish_recv, handle_rx, handle_push_back,
  move_pushed, finish_wait, sockio_flush, unlink_wait,
}
use rcli.Sockio.Handle.{
  flush_by_state, push_back_first, handle_signals, wait_step, rx_step, tx_step, fail, Prepared,
  prepare, transfer, sockio_wait_handle,
}
use rcli.Sockio.Links.{Distinct, Links, Kept, Kept-trans, Kept-Distinct}
use rcli.Sockio.Answered.{finish_wait-Kept}
use rcli.Sockio.Moves.{
  sockio_flush-Kept, sockio_flush_recv-Kept, reply_error_msg-Kept, finish_recv-Kept,
}
use rcli.Sockio.Transfers.{same-Kept, handle_rx-Kept, handle_tx-Kept}
use rcli.Sockio.Calm.{Calm, handle_signals-Kept, handle_signals-Calm}

pub head_splits : (i : ℕ) (xs : List ℕ) → head? xs ≡ some i → xs ≡ i ∷ rest_of xs
head_splits i [] e = cc
head_splits i (x ∷ xs) e = cc

head_counts : (i : ℕ) (xs : List ℕ) → head? xs ≡ some i → count i xs ≢ 0
head_counts i [] e = cc
head_counts i (x ∷ xs) e = ground arith

-- What was picked stands where it was found: the read and the send first in their lists, and the
-- wait on its list or at the user's port.
pub record Picked (p : Prepared) (sio : Sockio) : Type 0 where
  pub reads : (i : ℕ) → p.rx_msg ≡ some i → head? sio.recv_list ≡ some i
  pub sends : (i : ℕ) → p.tx_msg ≡ some i → head? sio.send_list ≡ some i
  pub waits : (i : ℕ) → p.wait_msg ≡ some i → count i sio.wait_list + count i sio.user_port ≢ 0

pub Picked-Calm : (p : Prepared) (a b : Sockio) → Calm a b → Picked p a → Picked p b
Picked-Calm p a b c k = record {
  reads = λ i e. c.reads i (k.reads i e);
  sends = λ i e. c.sends i (k.sends i e);
  waits = λ i e. c.waits i (k.waits i e);
}

push_back_first-Kept :
    (held : List ℕ) (sio : Sockio) (o : Option ℕ)
    → head? sio.recv_list ≡ o
    → Links sio
    → Kept held sio (push_back_first sio o).1
unfolding push_back_first handle_push_back
push_back_first-Kept held sio none e l = same-Kept held sio l
push_back_first-Kept held sio (some i) e l = elim (Bool-cases (ltb 0 sio.push_back_size)) [
  | inl d ↦
      let sio1 = move_pushed sio i (sub_ulong (sio.msgs i).size sio.rx_actual) in
      rw d (
        Kept-trans sio sio1 (record { placed = λ m. refl; links = l })
          (finish_recv-Kept held sio1 i (rest_of sio.recv_list) (head_splits i sio.recv_list e) l))
  | inr d ↦ rw d (same-Kept held sio l)
]

push_back_first_fields :
    (sio : Sockio) (o : Option ℕ)
    → let (rx, sio') = push_back_first sio o in
      (sio'.send_list ≡ sio.send_list)
      × ((i : ℕ) → rx ≡ some i → (o ≡ some i) × (sio'.recv_list ≡ sio.recv_list))
unfolding push_back_first handle_push_back finish_recv
push_back_first_fields sio none = (refl, λ i e. cc)
push_back_first_fields sio (some j) = (ground arith, λ i e. ground (arith, e))

flush_by_state-Kept :
    (held : List ℕ) (state : State) (sio : Sockio)
    → Distinct sio held
    → Links sio
    → Kept held sio (flush_by_state state sio)
unfolding flush_by_state
flush_by_state-Kept held State.ok sio v l = same-Kept held sio l
flush_by_state-Kept held State.eof sio v l = sockio_flush_recv-Kept held sio v l
flush_by_state-Kept held State.error sio v l = sockio_flush-Kept held sio v l

pub prepare-Kept :
    (held : List ℕ) (sio : Sockio) → Distinct sio held → Links sio → Kept held sio (prepare sio).sio
unfolding prepare
prepare-Kept held sio v l =
    let sio1 = flush_by_state sio.state sio in
    let one = flush_by_state-Kept held sio.state sio v l in
    Kept-trans sio sio1 one (push_back_first-Kept held sio1 (head? sio1.recv_list) refl one.links)

pub prepare-Picked : (sio : Sockio) → let p = prepare sio in Picked p p.sio
unfolding prepare
prepare-Picked sio =
    let sio1 = flush_by_state sio.state sio in
    let (sends, reads) = push_back_first_fields sio1 (head? sio1.recv_list) in
    let sio2 = (push_back_first sio1 (head? sio1.recv_list)).1 in
    record {
      reads = λ i e. let (first, list) = reads i e in ap head? list ∙ first;
      sends = λ i e. ap head? sends ∙ e;
      waits = λ i e. ground (arith, head_counts i sio2.wait_list e);
    }

pub wait_step-Kept :
    (held : List ℕ) (p : Prepared) (ready : Bool) (sio : Sockio) (o : Option ℕ)
    → p.wait_msg ≡ o
    → Picked p sio
    → Distinct sio held
    → Links sio
    → Kept held sio (wait_step o ready sio)
unfolding wait_step
wait_step-Kept held p ready sio none e k v l = same-Kept held sio l
wait_step-Kept held p false sio (some i) e k v l = same-Kept held sio l
wait_step-Kept held p true sio (some i) e k v l =
    finish_wait-Kept held sio i v l (λ z. k.waits i e (omega (arith, z)))

pub wait_step_lists :
    (o : Option ℕ) (ready : Bool) (sio : Sockio)
    → ((wait_step o ready sio).recv_list ≡ sio.recv_list)
      × ((wait_step o ready sio).send_list ≡ sio.send_list)
unfolding wait_step finish_wait unlink_wait
wait_step_lists none ready sio = (refl, refl)
wait_step_lists (some i) true sio = (refl, refl)
wait_step_lists (some i) false sio = (refl, refl)

pub rx_step-Kept :
    (held : List ℕ) (o : Option ℕ) (ready : Bool) (res : RecvResult) (sio : Sockio)
    → ((i : ℕ) → o ≡ some i → head? sio.recv_list ≡ some i)
    → Links sio
    → Kept held sio (rx_step o ready res sio).1
unfolding rx_step
rx_step-Kept held none ready res sio h l = same-Kept held sio l
rx_step-Kept held (some i) ready res sio h l =
    handle_rx-Kept held sio i (rest_of sio.recv_list) ready res
      (head_splits i sio.recv_list (h i refl)) l

pub rx_step_sends :
    (o : Option ℕ) (ready : Bool) (res : RecvResult) (sio : Sockio)
    → (rx_step o ready res sio).1.send_list ≡ sio.send_list
unfolding rx_step handle_rx recv_into finish_recv
rx_step_sends none ready res sio = refl
rx_step_sends (some i) false res sio = ground arith
rx_step_sends (some i) true (RecvResult.failed eagain) sio = ground arith
rx_step_sends (some i) true (received []) sio = ground arith
rx_step_sends (some i) true (received (b ∷ bs)) sio = ground arith

pub tx_step-Kept :
    (held : List ℕ) (o : Option ℕ) (ready : Bool) (res : SendResult) (sio : Sockio)
    → ((i : ℕ) → o ≡ some i → head? sio.send_list ≡ some i)
    → Links sio
    → Kept held sio (tx_step o ready res sio).1
unfolding tx_step
tx_step-Kept held none ready res sio h l = same-Kept held sio l
tx_step-Kept held (some i) ready res sio h l =
    handle_tx-Kept held sio i (rest_of sio.send_list) ready res
      (head_splits i sio.send_list (h i refl)) l

-- A failure flushes everything and tells the user.
fail-Kept :
    (held : List ℕ) (sio : Sockio) (code : ℕ)
    → Distinct sio held
    → Links sio
    → Kept held sio (fail sio code)
fail-Kept held sio code v l =
    let sio1 = sockio_flush sio in
    let one = sockio_flush-Kept held sio v l in
    Kept-trans sio sio1 one (
      reply_error_msg-Kept held sio1 code sio1.free_list refl (Kept-Distinct sio sio1 one v)
        one.links)

transfer-Kept :
    (held : List ℕ) (p : Prepared) (sel : Selected) (sio : Sockio)
    → Picked p sio
    → Distinct sio held
    → Links sio
    → Kept held sio (transfer p sel sio)
unfolding transfer
transfer-Kept held p sel sio k v l =
    let sio1 = wait_step p.wait_msg sel.rx_set sio in
    let (recvs, sends) = wait_step_lists p.wait_msg sel.rx_set sio in
    let one = wait_step-Kept held p sel.rx_set sio p.wait_msg refl k v l in
    let ready = sel.rx_set && p.rx_pending in
    let sio2 = (rx_step p.rx_msg ready sel.rx sio1).1 in
    let two = Kept-trans sio sio1 one (
      rx_step-Kept held p.rx_msg ready sel.rx sio1 (λ i e. ap head? recvs ∙ k.reads i e)
        one.links) in
    let sio3 = (tx_step p.tx_msg (sel.tx_set && p.tx_pending) sel.tx sio2).1 in
    let three = Kept-trans sio sio2 two (
      tx_step-Kept held p.tx_msg (sel.tx_set && p.tx_pending) sel.tx sio2
        (λ i e. ap head? (rx_step_sends p.rx_msg ready sel.rx sio1 ∙ sends) ∙ k.sends i e)
        two.links) in
    let failed =
      (rx_step p.rx_msg ready sel.rx sio1).0
      || (tx_step p.tx_msg (sel.tx_set && p.tx_pending) sel.tx sio2).0 in
    elim (Bool-cases failed) [
      | inl e ↦ rw e (
          Kept-trans sio sio3 three
            (fail-Kept held sio3 error_io (Kept-Distinct sio sio3 three v) three.links))
      | inr e ↦ rw e three
    ]

pub sockio_wait_handle-Kept :
    (held : List ℕ) (sio : Sockio) (mask : ℕ) (sel : Selected)
    → Distinct sio held
    → Links sio
    → Kept held sio (sockio_wait_handle sio mask sel).0
unfolding sockio_wait_handle
sockio_wait_handle-Kept held sio mask sel v l =
    let p = prepare sio in
    let one = prepare-Kept held sio v l in
    let v1 = Kept-Distinct sio p.sio one v in
    let sio1 = handle_signals sel.got_mask p.sio in
    let two = Kept-trans sio p.sio one (handle_signals-Kept held sel.got_mask p.sio v1 one.links) in
    let broken = record (p.sio) { state = State.error } in
    elim (Option-cases sel.result) [
      | inl e ↦
          rw (sockio_wait_handle, e)
            (Kept-trans sio p.sio one (
              Kept-trans p.sio broken (record { placed = λ m. refl; links = one.links })
                (fail-Kept held broken error_wait v1 one.links)))
      | inr (n, e) ↦
          rw (sockio_wait_handle, e)
            (elim (Bool-cases (n == 0)) [
              | inl z ↦ rw z two
              | inr z ↦ rw z (
                  Kept-trans sio sio1 two (
                    transfer-Kept held p sel sio1
                      (Picked-Calm p p.sio sio1 (handle_signals-Calm sel.got_mask p.sio)
                        (prepare-Picked sio))
                      (Kept-Distinct sio sio1 two v) two.links))
            ])
    ]
