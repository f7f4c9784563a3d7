-- ===== src/Sockio/Still.antt =====
-- What the operations of sockio.c do to the free list and to the users' data of messages: nothing,
-- but for a message that is taken from the free list.
use rcli.Common.{
  ℕ, ◌≡◌, refl, ◌∙◌, inl, inr, Bool, true, false, List, [], ◌∷◌, arith, ◌==◌, Bool-cases,
  Option-cases, bit_and, if◌then◌else◌,
}
use rcli.Timer.{find_job, timer_job_get_user_data, timer_get_next_done_job, timer_stop}
use rcli.Sockio.{Sockio, MsgType, reply_msg, set_size}
use rcli.Sockio.Wait.{
  RecvResult, received, SendResult, took, recv_into, finish_recv, handle_rx, send_from, finish_send,
  handle_tx, sockio_flush, sockio_flush_recv, sockio_flush_send, flush_recvs, flush_waits,
  flush_sends, handle_msg, handle_msgs, enlist, finish_job, handle_jobs, handle_timer, unlink_wait,
  job_of,
}
use rcli.Sockio.Handle.{handle_signals}

-- Neither has changed.
pub record Still (a b : Sockio) : Type 0 where
  pub free : b.free_list ≡ a.free_list
  pub users : (i : ℕ) → (b.msgs i).user_data ≡ (a.msgs i).user_data

pub same-Still : (a : Sockio) → Still a a
same-Still a = record { free = refl; users = λ i. refl }

pub Still-trans : {a b c : Sockio} → Still a b → Still b c → Still a c
Still-trans h k = record { free = k.free ∙ h.free; users = λ i. k.users i ∙ h.users i }

pub set_size-user :
    (sio : Sockio) (i size x : ℕ)
    → ((set_size sio i size).msgs x).user_data ≡ (sio.msgs x).user_data
set_size-user sio i size x = ground arith

flush_recvs-Still : (is : List ℕ) (sio : Sockio) → Still sio (flush_recvs is sio)
unfolding flush_recvs
flush_recvs-Still [] sio = same-Still sio
flush_recvs-Still (i ∷ is) sio =
    let k = flush_recvs-Still is (reply_msg (record (set_size sio i 0) { recv_list = is }) i) in
    record { free = k.free; users = λ x. k.users x ∙ set_size-user sio i 0 x }

flush_waits-Still : (is : List ℕ) (sio : Sockio) → Still sio (flush_waits is sio)
unfolding flush_waits
flush_waits-Still [] sio = same-Still sio
flush_waits-Still (i ∷ is) sio =
    let th = timer_stop sio.timer (job_of (sio.msgs i)) in
    let k =
      flush_waits-Still is
        (reply_msg (record (set_size sio i 0) { timer = th; wait_list = is }) i) in
    record { free = k.free; users = λ x. k.users x ∙ set_size-user sio i 0 x }

flush_sends-Still : (is : List ℕ) (sio : Sockio) → Still sio (flush_sends is sio)
unfolding flush_sends
flush_sends-Still [] sio = same-Still sio
flush_sends-Still (i ∷ is) sio =
    let k = flush_sends-Still is (reply_msg (record sio { send_list = is }) i) in
    record { free = k.free; users = k.users }

pub flush_recv-Still : (sio : Sockio) → Still sio (sockio_flush_recv sio)
unfolding sockio_flush_recv
flush_recv-Still sio =
    Still-trans (flush_recvs-Still sio.recv_list sio)
      (flush_waits-Still _ (flush_recvs sio.recv_list sio))

pub sockio_flush-Still : (sio : Sockio) → Still sio (sockio_flush sio)
unfolding sockio_flush sockio_flush_send
sockio_flush-Still sio =
    Still-trans (flush_sends-Still sio.send_list sio)
      (flush_recv-Still (flush_sends sio.send_list sio))

enlist-Still : (type : MsgType) (sio : Sockio) (i : ℕ) → Still sio (enlist type sio i)
enlist-Still MsgType.recv sio i = record { free = refl; users = λ x. refl }
enlist-Still MsgType.send sio i = record { free = refl; users = λ x. refl }
enlist-Still MsgType.wait_char sio i = record { free = refl; users = λ x. refl }
enlist-Still MsgType.error sio i = same-Still sio
enlist-Still MsgType.free sio i = same-Still sio

handle_msgs-Still : (is : List ℕ) (sio : Sockio) → Still sio (handle_msgs is sio)
unfolding handle_msgs handle_msg
handle_msgs-Still [] sio = record { free = refl; users = λ x. refl }
handle_msgs-Still (i ∷ is) sio =
    let one = enlist-Still (sio.msgs i).type (record sio { msg_port = is }) i in
    let k = handle_msgs-Still is (handle_msg (record sio { msg_port = is }) i) in
    record { free = k.free ∙ one.free; users = λ x. k.users x ∙ one.users x }

finish_job-Still : (sio : Sockio) (a : ℕ) → Still sio (finish_job sio a)
unfolding finish_job unlink_wait timer_job_get_user_data
finish_job-Still sio a = elim (Option-cases (find_job a sio.timer.job_list)) [
  | inl e ↦ rw (finish_job, e) (record { free = refl; users = λ x. refl })
  | inr (job, e) ↦ rw (finish_job, e) (record { free = refl; users = λ x. ground arith })
]

handle_jobs-Still : (jobs : List ℕ) (sio : Sockio) → Still sio (handle_jobs jobs sio)
unfolding handle_jobs
handle_jobs-Still [] sio = same-Still sio
handle_jobs-Still (a ∷ rest) sio =
    let sio1 = record sio { timer = (timer_get_next_done_job sio.timer).1 } in
    let one = finish_job-Still sio1 a in
    let k = handle_jobs-Still rest (finish_job sio1 a) in
    record { free = k.free ∙ one.free; users = λ x. k.users x ∙ one.users x }

pub handle_signals-Still : (got : ℕ) (sio : Sockio) → Still sio (handle_signals got sio)
unfolding handle_signals handle_timer
handle_signals-Still got sio =
    let sio1 = if bit_and got sio.msg_mask == 0 then sio else handle_msgs sio.msg_port sio in
    let one : Still sio sio1 = elim (Bool-cases (bit_and got sio.msg_mask == 0)) [
      | inl e ↦ rw e (same-Still sio)
      | inr e ↦ rw e (handle_msgs-Still sio.msg_port sio)
    ] in
    elim (Bool-cases (bit_and got sio1.timer_mask == 0)) [
      | inl e ↦ rw e one
      | inr e ↦ rw e (Still-trans one (handle_jobs-Still sio1.timer.port sio1))
    ]

pub finish_recv-Still : (sio : Sockio) (i : ℕ) → Still sio (finish_recv sio i).1
unfolding finish_recv
finish_recv-Still sio i = record { free = ground arith; users = λ x. ground arith }

finish_send-Still : (sio : Sockio) (i : ℕ) → Still sio (finish_send sio i)
unfolding finish_send
finish_send-Still sio i = record { free = ground arith; users = λ x. ground arith }

recv_into-Still : (sio : Sockio) (i : ℕ) (res : RecvResult) → Still sio (recv_into sio i res).1
unfolding recv_into
recv_into-Still sio i (RecvResult.failed again) = record {
  free = ground arith;
  users = λ x. ground arith;
}
recv_into-Still sio i (received []) = record { free = ground arith; users = λ x. ground arith }
recv_into-Still sio i (received (b ∷ bs)) = record { free = refl; users = λ x. refl }

pub handle_rx-Still :
    (sio : Sockio) (i : ℕ) (ready : Bool) (res : RecvResult)
    → Still sio (handle_rx sio i ready res).1
unfolding handle_rx
handle_rx-Still sio i false res = finish_recv-Still sio i
handle_rx-Still sio i true res =
    Still-trans (recv_into-Still sio i res) (finish_recv-Still (recv_into sio i res).1 i)

send_from-Still : (sio : Sockio) (i : ℕ) (res : SendResult) → Still sio (send_from sio i res).1
unfolding send_from
send_from-Still sio i (SendResult.failed again) = record {
  free = ground arith;
  users = λ x. ground arith;
}
send_from-Still sio i (took n) = record { free = refl; users = λ x. refl }

pub handle_tx-Still :
    (sio : Sockio) (i : ℕ) (ready : Bool) (res : SendResult)
    → Still sio (handle_tx sio i ready res).1
unfolding handle_tx
handle_tx-Still sio i false res = finish_send-Still sio i
handle_tx-Still sio i true res =
    Still-trans (send_from-Still sio i res) (finish_send-Still (send_from sio i res).1 i)
