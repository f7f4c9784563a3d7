-- ===== src/Sockio/Queued.antt =====
-- `sockio_wait_handle` put together: the order of the writes stays, whatever the system answers.
use rcli.Common.{
  ℕ, ◌≡◌, refl, ap, ◌∙◌, inl, inr, Bool, true, false, Option, none, some, ◌==◌, ◌&&◌, ◌||◌,
  Bool-cases, Option-cases, List,
}
use rcli.Sockio.{Sockio, State, rest_of, head?, error_io, error_wait}
use rcli.Sockio.Wait.{RecvResult, SendResult, Selected, sockio_flush}
use rcli.Sockio.Handle.{
  handle_signals, wait_step, rx_step, tx_step, fail, Prepared, prepare, transfer,
  sockio_wait_handle,
}
use rcli.Sockio.Links.{Distinct, Links, Kept-trans, Kept-Distinct}
use rcli.Sockio.Moves.{sockio_flush-Kept}
use rcli.Sockio.Calm.{handle_signals-Kept, handle_signals-Calm}
use rcli.Sockio.Rounds.{
  Picked, Picked-Calm, prepare-Picked, prepare-Kept, head_splits, wait_step_lists, rx_step_sends,
  wait_step-Kept, rx_step-Kept, tx_step-Kept,
}
use rcli.Sockio.Writes.{is_write, Typed, Ordered, Ordered-trans}
use rcli.Sockio.Ordered.{same-Ordered, sockio_flush-Ordered}
use rcli.Sockio.Enlisted.{reply_error_msg-Ordered, finish_wait-Ordered, handle_signals-Ordered}
use rcli.Sockio.Waited.{
  handle_rx-Ordered, handle_tx-Ordered, prepare-Ordered, prepare-wait, handle_signals-type,
}

wait_step-Ordered :
    (ready : Bool) (sio : Sockio) (o : Option ℕ)
    → ((i : ℕ) → o ≡ some i → is_write (sio.msgs i).type ≡ false)
    → Typed sio
    → Ordered sio (wait_step o ready sio)
unfolding wait_step
wait_step-Ordered ready sio none h t = same-Ordered sio t
wait_step-Ordered false sio (some i) h t = same-Ordered sio t
wait_step-Ordered true sio (some i) h t = finish_wait-Ordered sio i (h i refl) t

rx_step-Ordered :
    (o : Option ℕ) (ready : Bool) (res : RecvResult) (sio : Sockio)
    → ((i : ℕ) → o ≡ some i → head? sio.recv_list ≡ some i)
    → Typed sio
    → Ordered sio (rx_step o ready res sio).1
unfolding rx_step
rx_step-Ordered none ready res sio h t = same-Ordered sio t
rx_step-Ordered (some i) ready res sio h t =
    handle_rx-Ordered sio i (rest_of sio.recv_list) ready res
      (head_splits i sio.recv_list (h i refl)) t

tx_step-Ordered :
    (o : Option ℕ) (ready : Bool) (res : SendResult) (sio : Sockio)
    → ((i : ℕ) → o ≡ some i → head? sio.send_list ≡ some i)
    → Typed sio
    → Ordered sio (tx_step o ready res sio).1
unfolding tx_step
tx_step-Ordered none ready res sio h t = same-Ordered sio t
tx_step-Ordered (some i) ready res sio h t =
    handle_tx-Ordered sio i (rest_of sio.send_list) ready res
      (head_splits i sio.send_list (h i refl)) t

fail-Ordered :
    (held : List ℕ) (sio : Sockio) (code : ℕ)
    → Distinct sio held
    → Links sio
    → Typed sio
    → Ordered sio (fail sio code)
fail-Ordered held sio code v l t =
    let sio1 = sockio_flush sio in
    let kept = sockio_flush-Kept held sio v l in
    let one = sockio_flush-Ordered sio t in
    Ordered-trans sio sio1 one (
      reply_error_msg-Ordered held sio1 code sio1.free_list refl (Kept-Distinct sio sio1 kept v)
        one.typed)

transfer-Ordered :
    (held : List ℕ) (p : Prepared) (sel : Selected) (sio : Sockio)
    → Picked p sio
    → ((i : ℕ) → p.wait_msg ≡ some i → is_write (sio.msgs i).type ≡ false)
    → Distinct sio held
    → Links sio
    → Typed sio
    → Ordered sio (transfer p sel sio)
unfolding transfer
transfer-Ordered held p sel sio k w v l t =
    let sio1 = wait_step p.wait_msg sel.rx_set sio in
    let (recvs, sends) = wait_step_lists p.wait_msg sel.rx_set sio in
    let kept1 = wait_step-Kept held p sel.rx_set sio p.wait_msg refl k v l in
    let one = wait_step-Ordered sel.rx_set sio p.wait_msg w t in
    let ready = sel.rx_set && p.rx_pending in
    let sio2 = (rx_step p.rx_msg ready sel.rx sio1).1 in
    let kept2 = Kept-trans sio sio1 kept1 (
      rx_step-Kept held p.rx_msg ready sel.rx sio1 (λ i e. ap head? recvs ∙ k.reads i e)
        kept1.links) in
    let two = Ordered-trans sio sio1 one (
      rx_step-Ordered p.rx_msg ready sel.rx sio1 (λ i e. ap head? recvs ∙ k.reads i e) one.typed) in
    let writable = sel.tx_set && p.tx_pending in
    let sio3 = (tx_step p.tx_msg writable sel.tx sio2).1 in
    let kept3 = Kept-trans sio sio2 kept2 (
      tx_step-Kept held p.tx_msg writable sel.tx sio2
        (λ i e. ap head? (rx_step_sends p.rx_msg ready sel.rx sio1 ∙ sends) ∙ k.sends i e)
        kept2.links) in
    let three = Ordered-trans sio sio2 two (
      tx_step-Ordered p.tx_msg writable sel.tx sio2
        (λ i e. ap head? (rx_step_sends p.rx_msg ready sel.rx sio1 ∙ sends) ∙ k.sends i e)
        two.typed) in
    let failed =
      (rx_step p.rx_msg ready sel.rx sio1).0 || (tx_step p.tx_msg writable sel.tx sio2).0 in
    elim (Bool-cases failed) [
      | inl e ↦ rw e (
          Ordered-trans sio sio3 three (
            fail-Ordered held sio3 error_io (Kept-Distinct sio sio3 kept3 v) kept3.links
              three.typed))
      | inr e ↦ rw e three
    ]

pub sockio_wait_handle-Ordered :
    (held : List ℕ) (sio : Sockio) (mask : ℕ) (sel : Selected)
    → Distinct sio held
    → Links sio
    → Typed sio
    → Ordered sio (sockio_wait_handle sio mask sel).0
unfolding sockio_wait_handle
sockio_wait_handle-Ordered held sio mask sel v l t =
    let p = prepare sio in
    let kept = prepare-Kept held sio v l in
    let one = prepare-Ordered sio t in
    let v1 = Kept-Distinct sio p.sio kept v in
    let sio1 = handle_signals sel.got_mask p.sio in
    let kept1 = handle_signals-Kept held sel.got_mask p.sio v1 kept.links in
    let v2 = Kept-Distinct p.sio sio1 kept1 v1 in
    let two =
      Ordered-trans sio p.sio one
        (handle_signals-Ordered held sel.got_mask p.sio v1 kept.links one.typed) in
    let broken = record (p.sio) { state = State.error } in
    let same : Typed broken = record {
      sends = one.typed.sends;
      reads = one.typed.reads;
      waits = one.typed.waits;
    } in
    elim (Option-cases sel.result) [
      | inl e ↦
          let h = fail-Ordered held broken error_wait v1 kept.links same in
          rw (sockio_wait_handle, e) (record { order = h.order ∙ one.order; typed = h.typed })
      | inr (n, e) ↦
          rw (sockio_wait_handle, e)
            (elim (Bool-cases (n == 0)) [
              | inl z ↦ rw z two
              | inr z ↦ rw z (
                  Ordered-trans sio sio1 two (
                    transfer-Ordered held p sel sio1
                      (Picked-Calm p p.sio sio1 (handle_signals-Calm sel.got_mask p.sio)
                        (prepare-Picked sio))
                      (λ i e.
                        ap is_write (handle_signals-type sel.got_mask p.sio i)
                        ∙ prepare-wait sio t i e)
                      v2 kept1.links two.typed))
            ])
    ]
