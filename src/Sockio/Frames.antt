-- ===== src/Sockio/Frames.antt =====
-- `sockio_wait_handle` and the submissions: a message either is left where it was with its user's
-- data, or is taken from the free list with none.
use rcli.Common.{
  ℕ, ◌≡◌, ◌≢◌, refl, ap, ◌∙◌, ◌⊎◌, inl, inr, Bool, true, false, Option, none, some, List, [], ◌∷◌,
  arith, ◌==◌, ◌&&◌, ◌||◌, count, Bool-cases, Option-cases, ltb, update,
}
use rcli.Sockio.{Sockio, State, MsgType, SockioMsg, head?, sub_ulong, error_io, error_wait}
use rcli.Sockio.Wait.{
  RecvResult, SendResult, Selected, handle_push_back, move_pushed, finish_wait, sockio_flush,
  unlink_wait, reply_error_msg,
}
use rcli.Sockio.Handle.{
  flush_by_state, push_back_first, handle_signals, wait_step, rx_step, tx_step, fail, Prepared,
  prepare, transfer, sockio_wait_handle,
}
use rcli.Sockio.Submitted.{fresh_msg, alloc_msg-some, alloc_msg-none}
use rcli.Sockio.Still.{
  Still, same-Still, Still-trans, flush_recv-Still, sockio_flush-Still, handle_signals-Still,
  finish_recv-Still, handle_rx-Still, handle_tx-Still, set_size-user,
}

-- What becomes of message `i`.
abbrev pub Frame : Sockio → Sockio → ℕ → Type 0
Frame a b i =
    ((count i b.free_list ≡ count i a.free_list) × ((b.msgs i).user_data ≡ (a.msgs i).user_data))
    ⊎ ((count i a.free_list ≢ 0) × ((b.msgs i).user_data ≡ none))

pub record Frames (a b : Sockio) : Type 0 where
  pub frame : (i : ℕ) → Frame a b i

pub Still-Frames : {a b : Sockio} → Still a b → Frames a b
Still-Frames h = record { frame = λ i. inl (ap (count i) h.free, h.users i) }

Still-Frames_trans : {a b c : Sockio} → Still a b → Frames b c → Frames a c
Still-Frames_trans h k = record {
  frame = λ i. elim (k.frame i) [
    | inl (f, u) ↦ inl (f ∙ ap (count i) h.free, u ∙ h.users i)
    | inr (f, u) ↦ inr (λ z. f (ap (count i) h.free ∙ z), u)
  ];
}

pub taken_one :
    (i x : ℕ) (rest : List ℕ) (a : Sockio) (msg : SockioMsg)
    → a.free_list ≡ x ∷ rest
    → msg.user_data ≡ none
    → ((count i rest ≡ count i a.free_list)
        × ((update a.msgs x msg i).user_data ≡ (a.msgs i).user_data))
      ⊎ ((count i a.free_list ≢ 0) × ((update a.msgs x msg i).user_data ≡ none))
taken_one i x rest a msg e u = elim (Bool-cases (x == i)) [
  | inl same ↦ inr (λ z. ground (arith, z, ap (count i) e), ground (arith, u))
  | inr other ↦ inl (ground (arith, ap (count i) e), ground arith)
]

reply_error_msg-Frames :
    (sio : Sockio) (code : ℕ) (free : List ℕ)
    → sio.free_list ≡ free
    → Frames sio (reply_error_msg sio code).1
unfolding reply_error_msg
reply_error_msg-Frames sio code [] e =
    rw (reply_error_msg, alloc_msg-none sio MsgType.error 0 0 code e)
      (Still-Frames (same-Still sio))
reply_error_msg-Frames sio code (i ∷ rest) e =
    rw (reply_error_msg, alloc_msg-some sio MsgType.error 0 0 code e)
      (record { frame = λ x. taken_one x i rest sio (fresh_msg MsgType.error 0 0 code) e refl })

fail-Frames : (sio : Sockio) (code : ℕ) → Frames sio (fail sio code)
fail-Frames sio code =
    let sio1 = sockio_flush sio in
    Still-Frames_trans (sockio_flush-Still sio)
      (reply_error_msg-Frames sio1 code sio1.free_list refl)

flush_by_state-Still : (state : State) (sio : Sockio) → Still sio (flush_by_state state sio)
unfolding flush_by_state
flush_by_state-Still State.ok sio = same-Still sio
flush_by_state-Still State.eof sio = flush_recv-Still sio
flush_by_state-Still State.error sio = sockio_flush-Still sio

push_back_first-Still : (sio : Sockio) (o : Option ℕ) → Still sio (push_back_first sio o).1
unfolding push_back_first handle_push_back
push_back_first-Still sio none = same-Still sio
push_back_first-Still sio (some i) = elim (Bool-cases (ltb 0 sio.push_back_size)) [
  | inl d ↦
      let h = finish_recv-Still (move_pushed sio i (sub_ulong (sio.msgs i).size sio.rx_actual)) i in
      rw d (record { free = h.free; users = h.users })
  | inr d ↦ rw d (same-Still sio)
]

prepare-Still : (sio : Sockio) → Still sio (prepare sio).sio
unfolding prepare
prepare-Still sio =
    let sio1 = flush_by_state sio.state sio in
    Still-trans (flush_by_state-Still sio.state sio)
      (push_back_first-Still sio1 (head? sio1.recv_list))

wait_step-Still : (o : Option ℕ) (ready : Bool) (sio : Sockio) → Still sio (wait_step o ready sio)
unfolding wait_step finish_wait unlink_wait
wait_step-Still none ready sio = same-Still sio
wait_step-Still (some i) false sio = same-Still sio
wait_step-Still (some i) true sio = record { free = refl; users = λ x. set_size-user sio i 1 x }

rx_step-Still :
    (o : Option ℕ) (ready : Bool) (res : RecvResult) (sio : Sockio)
    → Still sio (rx_step o ready res sio).1
unfolding rx_step
rx_step-Still none ready res sio = same-Still sio
rx_step-Still (some i) ready res sio = handle_rx-Still sio i ready res

tx_step-Still :
    (o : Option ℕ) (ready : Bool) (res : SendResult) (sio : Sockio)
    → Still sio (tx_step o ready res sio).1
unfolding tx_step
tx_step-Still none ready res sio = same-Still sio
tx_step-Still (some i) ready res sio = handle_tx-Still sio i ready res

transfer-Frames : (p : Prepared) (sel : Selected) (sio : Sockio) → Frames sio (transfer p sel sio)
unfolding transfer
transfer-Frames p sel sio =
    let sio1 = wait_step p.wait_msg sel.rx_set sio in
    let rx_ready = sel.rx_set && p.rx_pending in
    let sio2 = (rx_step p.rx_msg rx_ready sel.rx sio1).1 in
    let tx_ready = sel.tx_set && p.tx_pending in
    let sio3 = (tx_step p.tx_msg tx_ready sel.tx sio2).1 in
    let three : Still sio sio3 = Still-trans (wait_step-Still p.wait_msg sel.rx_set sio) (
      Still-trans (rx_step-Still p.rx_msg rx_ready sel.rx sio1)
        (tx_step-Still p.tx_msg tx_ready sel.tx sio2)) in
    let failed =
      (rx_step p.rx_msg rx_ready sel.rx sio1).0 || (tx_step p.tx_msg tx_ready sel.tx sio2).0 in
    elim (Bool-cases failed) [
      | inl e ↦ rw e (Still-Frames_trans three (fail-Frames sio3 error_io))
      | inr e ↦ rw e (Still-Frames three)
    ]

pub sockio_wait_handle-Frames :
    (sio : Sockio) (mask : ℕ) (sel : Selected) → Frames sio (sockio_wait_handle sio mask sel).0
unfolding sockio_wait_handle
sockio_wait_handle-Frames sio mask sel =
    let p = prepare sio in
    let one = prepare-Still sio in
    let sio1 = handle_signals sel.got_mask p.sio in
    let two = Still-trans one (handle_signals-Still sel.got_mask p.sio) in
    let broken = record (p.sio) { state = State.error } in
    elim (Option-cases sel.result) [
      | inl e ↦
          let same : Still sio broken = record { free = one.free; users = one.users } in
          rw (sockio_wait_handle, e) (Still-Frames_trans same (fail-Frames broken error_wait))
      | inr (n, e) ↦
          rw (sockio_wait_handle, e)
            (elim (Bool-cases (n == 0)) [
              | inl z ↦ rw z (Still-Frames two)
              | inr z ↦ rw z (Still-Frames_trans two (transfer-Frames p sel sio1))
            ])
    ]
