-- ===== src/Sockio/Wait.antt =====
-- `sockio_wait_handle` and the helpers that it calls. What `WaitSelect`, `recv` and `send` answer
-- in one call is an argument.
use rcli.Common.{
  ℕ, ◌+◌, ◌-◌, Bool, true, false, Option, none, some, List, [], ◌∷◌, ◌++◌, ltb, leb, ◌==◌,
  if◌then◌else◌, copy_mem, store_bytes, bytes, length, remove,
}
use rcli.Timer.{timer_get_next_done_job, timer_stop, timer_exit, timer_job_get_user_data}
use rcli.Sockio.{
  Sockio, SockioMsg, MsgType, State, alloc_msg, reply_msg, set_size, rest_of, sub_ulong,
}

-- `recv`: some bytes (none at the end of the stream), or -1 with whether `errno` is EAGAIN.
pub data RecvResult : Type 0 where
  received : List ℕ → RecvResult
  failed : Bool → RecvResult

-- `send`: how many bytes it took, or -1 with whether `errno` is EAGAIN.
pub data SendResult : Type 0 where
  took : ℕ → SendResult
  failed : Bool → SendResult

-- `WaitSelect`: its result (`none` for -1), the signals, and the socket's bits in the two sets.
pub record Selected : Type 0 where
  pub result : Option ℕ
  pub got_mask : ℕ
  pub rx_set : Bool
  pub tx_set : Bool
  pub rx : RecvResult
  pub tx : SendResult

-- Replies one message of the receive list, as end of file.
unfoldable pub flush_recvs : List ℕ → Sockio → Sockio
flush_recvs [] sio = sio
flush_recvs (i ∷ is) sio =
    flush_recvs is (reply_msg (record (set_size sio i 0) { recv_list = is }) i)

-- A wait is answered with no character, and its timer stopped.
abbrev pub job_of : SockioMsg → Option ℕ
job_of msg = if msg.buf_data == 0 then none else some msg.buf_data

unfoldable pub flush_waits : List ℕ → Sockio → Sockio
flush_waits [] sio = sio
flush_waits (i ∷ is) sio =
    let timer = timer_stop sio.timer (job_of (sio.msgs i)) in
    flush_waits is (reply_msg (record (set_size sio i 0) { timer = timer; wait_list = is }) i)

unfoldable pub flush_sends : List ℕ → Sockio → Sockio
flush_sends [] sio = sio
flush_sends (i ∷ is) sio = flush_sends is (reply_msg (record sio { send_list = is }) i)

unfoldable pub sockio_flush_recv : Sockio → Sockio
sockio_flush_recv sio = let sio' = flush_recvs sio.recv_list sio in flush_waits sio'.wait_list sio'

unfoldable pub sockio_flush_send : Sockio → Sockio
sockio_flush_send sio = flush_sends sio.send_list sio

unfoldable pub sockio_flush : Sockio → Sockio
sockio_flush sio = sockio_flush_recv (sockio_flush_send sio)

-- `sockio_exit` before it frees the handle's memory.
abbrev sockio_exit : Sockio → Sockio
sockio_exit sio = let sio' = sockio_flush sio in record sio' { timer = timer_exit sio'.timer }

-- The error goes to `min_size`. Without a free message nothing is said.
unfoldable pub reply_error_msg : Sockio → ℕ → Bool × Sockio
reply_error_msg sio code = elim (alloc_msg sio MsgType.error 0 0 code) [
  | none ↦ (false, sio)
  | some (i, sio') ↦ (true, reply_msg sio' i)
]

-- `handle_msg`: a submitted message goes to the list of its type.
abbrev pub enlist : MsgType → Sockio → ℕ → Sockio
enlist MsgType.recv sio i = record sio { recv_list = sio.recv_list ++ (i ∷ []) }
enlist MsgType.send sio i = record sio { send_list = sio.send_list ++ (i ∷ []) }
enlist MsgType.wait_char sio i = record sio { wait_list = sio.wait_list ++ (i ∷ []) }
enlist _ sio i = sio

unfoldable pub handle_msg : Sockio → ℕ → Sockio
handle_msg sio i = enlist (sio.msgs i).type sio i

unfoldable pub handle_msgs : List ℕ → Sockio → Sockio
handle_msgs [] sio = record sio { msg_port = [] }
handle_msgs (i ∷ is) sio = handle_msgs is (handle_msg (record sio { msg_port = is }) i)

-- `Remove` unlinks a wait from the list that holds it: the wait list, the handle's port, or the
-- user's port when it is there already.
unfoldable pub unlink_wait : Sockio → ℕ → Sockio
unlink_wait sio i = record sio {
  wait_list = remove i sio.wait_list;
  msg_port = remove i sio.msg_port;
  user_port = remove i sio.user_port;
}

-- One finished timer job. The job is freed by `timer_stop` and its `user_data` read afterwards:
-- here the freed memory still holds what it held.
unfoldable pub finish_job : Sockio → ℕ → Sockio
finish_job sio job =
    let timer = timer_stop sio.timer (some job) in
    elim (timer_job_get_user_data sio.timer (some job)) [
      | none ↦ record sio { timer = timer }
      | some i ↦ reply_msg (unlink_wait (set_size (record sio { timer = timer }) i 0) i) i
    ]

-- The loop over `timer_get_next_done_job`, over what the port held at its start.
unfoldable pub handle_jobs : List ℕ → Sockio → Sockio
handle_jobs [] sio = sio
handle_jobs (job ∷ jobs) sio =
    handle_jobs jobs (finish_job (record sio { timer = (timer_get_next_done_job sio.timer).1 }) job)

unfoldable pub handle_timer : Sockio → Sockio
handle_timer sio = handle_jobs sio.timer.port sio

-- A read that has its minimum is done: the size becomes what was read.
unfoldable pub finish_recv : Sockio → ℕ → Bool × Sockio
finish_recv sio i =
    if leb (sio.msgs i).min_size sio.rx_actual
    then (
      true,
      reply_msg
          (record (set_size sio i sio.rx_actual) {
            recv_list = rest_of sio.recv_list;
            rx_actual = 0;
          })
          i,
    )
    else (false, sio)

-- The move of bytes that were pushed back into a read with room for `rx_size` more.
abbrev pub move_pushed : Sockio → ℕ → ℕ → Sockio
move_pushed sio i rx_size =
    let more = ltb rx_size sio.push_back_size in
    let n = if more then rx_size else sio.push_back_size in
    record sio {
      push_back_size = if more then sio.push_back_size - rx_size else 0;
      push_back_buf = if more then sio.push_back_buf + rx_size else 0;
      ram = copy_mem sio.ram sio.push_back_buf ((sio.msgs i).buf_data + sio.rx_actual) n;
      rx_actual = sio.rx_actual + n;
    }

-- Bytes pushed back go to the read before any from the socket.
unfoldable pub handle_push_back : Sockio → ℕ → Bool × Sockio
handle_push_back sio i =
    finish_recv (move_pushed sio i (sub_ulong (sio.msgs i).size sio.rx_actual)) i

-- `recv` into the missing part of the read, and what its result leads to. The flag is `error`.
unfoldable pub recv_into : Sockio → ℕ → RecvResult → Bool × Sockio
recv_into sio i (failed eagain) =
    if eagain then (false, sio) else (true, record sio { state = State.error })
recv_into sio i (received []) =
    if ltb sio.rx_actual (sio.msgs i).min_size
    then (
      false,
      reply_msg
          (set_size
            (record sio { state = State.eof; recv_list = rest_of sio.recv_list; rx_actual = 0 }) i
            0)
          i,
    )
    else (false, sio)
recv_into sio i (received (b ∷ bs)) = (
  false,
  record sio {
    ram = store_bytes sio.ram ((sio.msgs i).buf_data + sio.rx_actual) (b ∷ bs);
    rx_actual = sio.rx_actual + length (b ∷ bs);
  },
)

unfoldable pub handle_rx : Sockio → ℕ → Bool → RecvResult → Bool × Sockio
handle_rx sio i ready res =
    let (error, sio') = if ready then recv_into sio i res else (false, sio) in
    (error, (finish_recv sio' i).1)

-- `send` from the part that is left.
unfoldable pub send_from : Sockio → ℕ → SendResult → Bool × Sockio
send_from sio i (failed eagain) =
    if eagain then (false, sio) else (true, record sio { state = State.error })
send_from sio i (took n) = (
  false,
  record sio {
    tx_actual = sio.tx_actual + n;
    sent = sio.sent ++ bytes sio.ram ((sio.msgs i).buf_data + sio.tx_actual) n;
  },
)

unfoldable pub finish_send : Sockio → ℕ → Sockio
finish_send sio i =
    if (sio.msgs i).size == sio.tx_actual
    then reply_msg (record sio { send_list = rest_of sio.send_list; tx_actual = 0 }) i
    else sio

unfoldable pub handle_tx : Sockio → ℕ → Bool → SendResult → Bool × Sockio
handle_tx sio i ready res =
    let (error, sio') = if ready then send_from sio i res else (false, sio) in
    (error, finish_send sio' i)

-- A character for the first wait: its timer is stopped and it is answered with 1.
unfoldable pub finish_wait : Sockio → ℕ → Sockio
finish_wait sio i =
    let sio' = unlink_wait (set_size sio i 1) i in
    reply_msg (record sio' { timer = timer_stop sio'.timer (job_of (sio'.msgs i)) }) i
