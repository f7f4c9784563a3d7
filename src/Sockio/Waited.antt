-- ===== src/Sockio/Waited.antt =====
-- `sockio_wait_handle` leaves the order of the writes, whatever the system answers.
use rcli.Common.{
  ℕ, ◌<◌, ◌≡◌, ◌≢◌, refl, ap, ◌∙◌, inl, inr, Bool, true, false, Option, none, some, List, [], ◌∷◌,
  ◌++◌, arith, ◌==◌, count, Bool-cases, Option-cases, leb, ltb, append_assoc, bit_and,
  if◌then◌else◌,
}
use rcli.Timer.{find_job, timer_job_get_user_data, timer_get_next_done_job}
use rcli.Sockio.{Sockio, State, MsgType, reply_msg, set_size, rest_of, head?, sub_ulong}
use rcli.Sockio.Wait.{
  RecvResult, received, SendResult, took, recv_into, finish_recv, handle_rx, handle_push_back,
  move_pushed, send_from, finish_send, handle_tx, handle_msg, handle_msgs, enlist, finish_job,
  handle_jobs, handle_timer, unlink_wait,
}
use rcli.Sockio.Handle.{flush_by_state, push_back_first, handle_signals, prepare}
use rcli.Sockio.Transfers.{finish_recv-short}
use rcli.Sockio.Rounds.{head_splits}
use rcli.Sockio.Writes.{is_write, pick, Typed, Ordered, Ordered-trans, pick-write}
use rcli.Sockio.Ordered.{
  same-Ordered, set_size-type, other-order, sockio_flush-Ordered, sockio_flush_recv-Ordered,
}

-- The first read is done.
read_done-Ordered :
    (sio : Sockio) (i size : ℕ) (is : List ℕ)
    → sio.recv_list ≡ i ∷ is
    → Typed sio
    → Ordered sio (
        reply_msg
          (record (set_size sio i size) { recv_list = rest_of sio.recv_list; rx_actual = 0 })
          i)
read_done-Ordered sio i size is e t = record {
  order = other-order sio i size (t.reads i (ground (arith, ap (count i) e)));
  typed = record {
    sends = λ j n. set_size-type sio i size j ∙ t.sends j n;
    reads = λ j n.
        set_size-type sio i size j
        ∙ t.reads j (ground (arith, n, ap (count j) e, ap (λ xs. count j (rest_of xs)) e));
    waits = λ j n. set_size-type sio i size j ∙ t.waits j n;
  };
}

finish_recv-Ordered :
    (sio : Sockio) (i : ℕ) (is : List ℕ)
    → sio.recv_list ≡ i ∷ is
    → Typed sio
    → Ordered sio (finish_recv sio i).1
unfolding finish_recv
finish_recv-Ordered sio i is e t = elim (Bool-cases (leb (sio.msgs i).min_size sio.rx_actual)) [
  | inl d ↦ rw d (read_done-Ordered sio i sio.rx_actual is e t)
  | inr d ↦ rw d (same-Ordered sio t)
]

finish_send-Ordered :
    (sio : Sockio) (i : ℕ) (is : List ℕ)
    → sio.send_list ≡ i ∷ is
    → Typed sio
    → Ordered sio (finish_send sio i)
unfolding finish_send
finish_send-Ordered sio i is e t = elim (Bool-cases ((sio.msgs i).size == sio.tx_actual)) [
  | inl d ↦ rw d (record {
    order =
        rw (pick-write sio.msgs sio.user_port i (t.sends i (ground (arith, ap (count i) e))), e)
          (append_assoc (pick sio.msgs sio.user_port) (i ∷ []) (is ++ pick sio.msgs sio.msg_port));
    typed = record {
      sends =
          λ j n. t.sends j (ground (arith, n, ap (count j) e, ap (λ xs. count j (rest_of xs)) e));
      reads = t.reads;
      waits = t.waits;
    };
  })
  | inr d ↦ rw d (same-Ordered sio t)
]

pub handle_rx-Ordered :
    (sio : Sockio) (i : ℕ) (is : List ℕ) (ready : Bool) (res : RecvResult)
    → sio.recv_list ≡ i ∷ is
    → Typed sio
    → Ordered sio (handle_rx sio i ready res).1
unfolding handle_rx recv_into
handle_rx-Ordered sio i is false res e t = finish_recv-Ordered sio i is e t
handle_rx-Ordered sio i is true (RecvResult.failed true) e t = finish_recv-Ordered sio i is e t
handle_rx-Ordered sio i is true (RecvResult.failed false) e t =
    let h =
      finish_recv-Ordered (record sio { state = State.error }) i is e
        (record { sends = t.sends; reads = t.reads; waits = t.waits }) in
    record { order = h.order; typed = h.typed }
handle_rx-Ordered sio i is true (received (b ∷ bs)) e t =
    let h =
      finish_recv-Ordered (recv_into sio i (received (b ∷ bs))).1 i is e
        (record { sends = t.sends; reads = t.reads; waits = t.waits }) in
    record { order = h.order; typed = h.typed }
handle_rx-Ordered sio i is true (received []) e t =
    elim (Bool-cases (ltb sio.rx_actual (sio.msgs i).min_size)) [
      | inl d ↦
          let ended = record sio { state = State.eof } in
          let sio1 =
            reply_msg
              (record (set_size ended i 0) { recv_list = rest_of sio.recv_list; rx_actual = 0 })
              i in
          let short : sio1.rx_actual < (sio1.msgs i).min_size = ground arith in
          let h =
            read_done-Ordered ended i 0 is e
              (record { sends = t.sends; reads = t.reads; waits = t.waits }) in
          rw (d, finish_recv-short sio1 i short) (record { order = h.order; typed = h.typed })
      | inr d ↦ rw d (finish_recv-Ordered sio i is e t)
    ]

pub handle_tx-Ordered :
    (sio : Sockio) (i : ℕ) (is : List ℕ) (ready : Bool) (res : SendResult)
    → sio.send_list ≡ i ∷ is
    → Typed sio
    → Ordered sio (handle_tx sio i ready res).1
unfolding handle_tx send_from
handle_tx-Ordered sio i is false res e t = finish_send-Ordered sio i is e t
handle_tx-Ordered sio i is true (SendResult.failed true) e t = finish_send-Ordered sio i is e t
handle_tx-Ordered sio i is true (SendResult.failed false) e t =
    let h =
      finish_send-Ordered (record sio { state = State.error }) i is e
        (record { sends = t.sends; reads = t.reads; waits = t.waits }) in
    record { order = h.order; typed = h.typed }
handle_tx-Ordered sio i is true (took n) e t =
    let h =
      finish_send-Ordered (send_from sio i (took n)).1 i is e
        (record { sends = t.sends; reads = t.reads; waits = t.waits }) in
    record { order = h.order; typed = h.typed }

push_back_first-Ordered :
    (sio : Sockio) (o : Option ℕ)
    → head? sio.recv_list ≡ o
    → Typed sio
    → Ordered sio (push_back_first sio o).1
unfolding push_back_first handle_push_back
push_back_first-Ordered sio none e t = same-Ordered sio t
push_back_first-Ordered sio (some i) e t = elim (Bool-cases (ltb 0 sio.push_back_size)) [
  | inl d ↦
      let h =
        finish_recv-Ordered (move_pushed sio i (sub_ulong (sio.msgs i).size sio.rx_actual)) i
          (rest_of sio.recv_list) (head_splits i sio.recv_list e)
          (record { sends = t.sends; reads = t.reads; waits = t.waits }) in
      rw d (record { order = h.order; typed = h.typed })
  | inr d ↦ rw d (same-Ordered sio t)
]

flush_by_state-Ordered :
    (state : State) (sio : Sockio) → Typed sio → Ordered sio (flush_by_state state sio)
unfolding flush_by_state
flush_by_state-Ordered State.ok sio t = same-Ordered sio t
flush_by_state-Ordered State.eof sio t = sockio_flush_recv-Ordered sio t
flush_by_state-Ordered State.error sio t = sockio_flush-Ordered sio t

pub prepare-Ordered : (sio : Sockio) → Typed sio → Ordered sio (prepare sio).sio
unfolding prepare
prepare-Ordered sio t =
    let sio1 = flush_by_state sio.state sio in
    let one = flush_by_state-Ordered sio.state sio t in
    Ordered-trans sio sio1 one (push_back_first-Ordered sio1 (head? sio1.recv_list) refl one.typed)

head_counts : (i : ℕ) (xs : List ℕ) → head? xs ≡ some i → count i xs ≢ 0
head_counts i [] e = cc
head_counts i (x ∷ xs) e = ground arith

-- The wait that was picked is no write.
pub prepare-wait :
    (sio : Sockio)
    → Typed sio
    → (i : ℕ) → (prepare sio).wait_msg ≡ some i
    → is_write ((prepare sio).sio.msgs i).type ≡ false
unfolding prepare
prepare-wait sio t i e =
    (prepare-Ordered sio t).typed.waits i (head_counts i (prepare sio).sio.wait_list e)

enlist_type :
    (type : MsgType) (sio : Sockio) (i x : ℕ)
    → ((enlist type sio i).msgs x).type ≡ (sio.msgs x).type
enlist_type MsgType.recv sio i x = refl
enlist_type MsgType.send sio i x = refl
enlist_type MsgType.wait_char sio i x = refl
enlist_type MsgType.error sio i x = refl
enlist_type MsgType.free sio i x = refl

handle_msgs-type :
    (is : List ℕ) (sio : Sockio) (x : ℕ) → ((handle_msgs is sio).msgs x).type ≡ (sio.msgs x).type
unfolding handle_msgs handle_msg
handle_msgs-type [] sio x = refl
handle_msgs-type (i ∷ is) sio x =
    handle_msgs-type is (handle_msg (record sio { msg_port = is }) i) x
    ∙ enlist_type (sio.msgs i).type (record sio { msg_port = is }) i x

finish_job-type : (sio : Sockio) (a x : ℕ) → ((finish_job sio a).msgs x).type ≡ (sio.msgs x).type
unfolding finish_job unlink_wait timer_job_get_user_data
finish_job-type sio a x = elim (Option-cases (find_job a sio.timer.job_list)) [
  | inl e ↦ rw (finish_job, e) refl
  | inr (job, e) ↦ rw (finish_job, e) (ground arith)
]

handle_jobs-type :
    (jobs : List ℕ) (sio : Sockio) (x : ℕ)
    → ((handle_jobs jobs sio).msgs x).type ≡ (sio.msgs x).type
unfolding handle_jobs
handle_jobs-type [] sio x = refl
handle_jobs-type (a ∷ rest) sio x =
    let sio1 = record sio { timer = (timer_get_next_done_job sio.timer).1 } in
    handle_jobs-type rest (finish_job sio1 a) x ∙ finish_job-type sio1 a x

pub handle_signals-type :
    (got : ℕ) (sio : Sockio) (x : ℕ) → ((handle_signals got sio).msgs x).type ≡ (sio.msgs x).type
unfolding handle_signals handle_timer
handle_signals-type got sio x =
    let sio1 = if bit_and got sio.msg_mask == 0 then sio else handle_msgs sio.msg_port sio in
    let one : (sio1.msgs x).type ≡ (sio.msgs x).type =
      elim (Bool-cases (bit_and got sio.msg_mask == 0)) [
        | inl e ↦ rw e refl
        | inr e ↦ rw e (handle_msgs-type sio.msg_port sio x)
      ] in
    elim (Bool-cases (bit_and got sio1.timer_mask == 0)) [
      | inl e ↦ rw e one
      | inr e ↦ rw e (handle_jobs-type sio1.timer.port sio1 x ∙ one)
    ]
