-- ===== src/Sockio/Transfers.antt =====
-- The steps of `sockio_wait_handle` for the first read and the first send keep the messages.
use rcli.Common.{
  ℕ, ◌<◌, ◌≡◌, refl, inl, inr, Bool, true, false, List, [], ◌∷◌, arith, Bool-cases, leb, ltb,
}
use rcli.Sockio.{Sockio, State, reply_msg, set_size, rest_of}
use rcli.Sockio.Wait.{
  RecvResult, received, SendResult, took, recv_into, finish_recv, handle_rx, send_from, handle_tx,
}
use rcli.Sockio.Links.{Links, Kept, Kept-trans}
use rcli.Sockio.Moves.{finish_recv-Kept, first_read-Kept, finish_send-Kept}

pub same-Kept : (held : List ℕ) (sio : Sockio) → Links sio → Kept held sio sio
same-Kept held sio l = record { placed = λ m. refl; links = l }

pub finish_recv-short :
    (sio : Sockio) (i : ℕ) → sio.rx_actual < (sio.msgs i).min_size → (finish_recv sio i).1 ≡ sio
unfolding finish_recv
finish_recv-short sio i h =
    let more : leb (sio.msgs i).min_size sio.rx_actual ≡ false = ground arith in rw more refl

-- The step for the first read.
pub handle_rx-Kept :
    (held : List ℕ) (sio : Sockio) (i : ℕ) (is : List ℕ) (ready : Bool) (res : RecvResult)
    → sio.recv_list ≡ i ∷ is
    → Links sio
    → Kept held sio (handle_rx sio i ready res).1
unfolding handle_rx recv_into
handle_rx-Kept held sio i is false res e l = finish_recv-Kept held sio i is e l
handle_rx-Kept held sio i is true (RecvResult.failed true) e l = finish_recv-Kept held sio i is e l
handle_rx-Kept held sio i is true (RecvResult.failed false) e l =
    let sio1 = record sio { state = State.error } in
    Kept-trans sio sio1 (record { placed = λ m. refl; links = l })
      (finish_recv-Kept held sio1 i is e l)
handle_rx-Kept held sio i is true (received (b ∷ bs)) e l =
    let sio1 = (recv_into sio i (received (b ∷ bs))).1 in
    Kept-trans sio sio1 (record { placed = λ m. refl; links = l })
      (finish_recv-Kept held sio1 i is e l)
handle_rx-Kept held sio i is true (received []) e l =
    elim (Bool-cases (ltb sio.rx_actual (sio.msgs i).min_size)) [
      | inl d ↦
          let ended = record sio { state = State.eof } in
          let sio1 =
            reply_msg
              (record (set_size ended i 0) { recv_list = rest_of sio.recv_list; rx_actual = 0 })
              i in
          let short : sio1.rx_actual < (sio1.msgs i).min_size = ground arith in
          rw (d, finish_recv-short sio1 i short)
            (Kept-trans sio ended (record { placed = λ m. refl; links = l })
              (first_read-Kept held ended i 0 is e l))
      | inr d ↦ rw d (finish_recv-Kept held sio i is e l)
    ]

pub handle_tx-Kept :
    (held : List ℕ) (sio : Sockio) (i : ℕ) (is : List ℕ) (ready : Bool) (res : SendResult)
    → sio.send_list ≡ i ∷ is
    → Links sio
    → Kept held sio (handle_tx sio i ready res).1
unfolding handle_tx send_from
handle_tx-Kept held sio i is false res e l = finish_send-Kept held sio i is e l
handle_tx-Kept held sio i is true (SendResult.failed true) e l = finish_send-Kept held sio i is e l
handle_tx-Kept held sio i is true (SendResult.failed false) e l =
    let sio1 = record sio { state = State.error } in
    Kept-trans sio sio1 (record { placed = λ m. refl; links = l })
      (finish_send-Kept held sio1 i is e l)
handle_tx-Kept held sio i is true (took n) e l =
    let sio1 = (send_from sio i (took n)).1 in
    Kept-trans sio sio1 (record { placed = λ m. refl; links = l })
      (finish_send-Kept held sio1 i is e l)
