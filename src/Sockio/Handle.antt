-- ===== src/Sockio/Handle.antt =====
-- `sockio_wait_handle` of sockio.c, put together from its steps.
use Prim.Native.Nat.{bit_xor}
use rcli.Common.{
  ℕ, ◌-◌, ◌^◌, Bool, false, Option, none, some, ltb, ◌==◌, ◌&&◌, if◌then◌else◌, ◌||◌, bit_and,
  bit_or,
}
use rcli.Sockio.{Sockio, State, head?, error_wait, error_io}
use rcli.Sockio.Wait.{
  Selected, RecvResult, SendResult, sockio_flush_recv, sockio_flush, reply_error_msg, handle_msgs,
  handle_timer, handle_push_back, handle_rx, handle_tx, finish_wait,
}

-- After the end of the stream reads are flushed, after an error everything.
unfoldable pub flush_by_state : State → Sockio → Sockio
flush_by_state State.ok sio = sio
flush_by_state State.eof sio = sockio_flush_recv sio
flush_by_state State.error sio = sockio_flush sio

-- The read that still wants the socket, once it has had what was pushed back.
unfoldable pub push_back_first : Sockio → Option ℕ → Option ℕ × Sockio
push_back_first sio none = (none, sio)
push_back_first sio (some i) =
    if ltb 0 sio.push_back_size
    then (let (done, sio') = handle_push_back sio i in (if done then none else some i, sio'))
    else (some i, sio)

abbrev pub rx_wanted : Sockio → Option ℕ → Bool
rx_wanted sio none = false
rx_wanted sio (some i) = ltb sio.rx_actual (sio.msgs i).min_size

abbrev pub tx_wanted : Sockio → Option ℕ → Bool
tx_wanted sio none = false
tx_wanted sio (some i) = ltb sio.tx_actual (sio.msgs i).size

-- Own messages, then finished timers.
unfoldable pub handle_signals : ℕ → Sockio → Sockio
handle_signals got sio =
    let sio1 = if bit_and got sio.msg_mask == 0 then sio else handle_msgs sio.msg_port sio in
    if bit_and got sio1.timer_mask == 0 then sio1 else handle_timer sio1

-- `*sig_mask` without the handle's own bits.
abbrev pub user_mask : Sockio → ℕ → ℕ
user_mask sio got = bit_and got (bit_xor (2 ^ 32 - 1) (bit_or sio.msg_mask sio.timer_mask))

unfoldable pub wait_step : Option ℕ → Bool → Sockio → Sockio
wait_step none ready sio = sio
wait_step (some i) ready sio = if ready then finish_wait sio i else sio

unfoldable pub rx_step : Option ℕ → Bool → RecvResult → Sockio → Bool × Sockio
rx_step none ready res sio = (false, sio)
rx_step (some i) ready res sio = handle_rx sio i ready res

unfoldable pub tx_step : Option ℕ → Bool → SendResult → Sockio → Bool × Sockio
tx_step none ready res sio = (false, sio)
tx_step (some i) ready res sio = handle_tx sio i ready res

abbrev pub fail : Sockio → ℕ → Sockio
fail sio code = (reply_error_msg (sockio_flush sio) code).1

-- What is decided before `WaitSelect`: the messages, and whether each wants the socket.
pub record Prepared : Type 0 where
  pub sio : Sockio
  pub rx_msg : Option ℕ
  pub tx_msg : Option ℕ
  pub wait_msg : Option ℕ
  pub rx_pending : Bool
  pub tx_pending : Bool

unfoldable pub prepare : Sockio → Prepared
prepare sio =
    let sio1 = flush_by_state sio.state sio in
    let tx = head? sio1.send_list in
    let (rx, sio2) = push_back_first sio1 (head? sio1.recv_list) in
    record {
      sio = sio2;
      rx_msg = rx;
      tx_msg = tx;
      wait_msg = head? sio2.wait_list;
      rx_pending = rx_wanted sio2 rx;
      tx_pending = tx_wanted sio2 tx;
    }

-- The three transfers, once the socket is ready.
unfoldable pub transfer : Prepared → Selected → Sockio → Sockio
transfer p sel sio =
    let sio1 = wait_step p.wait_msg sel.rx_set sio in
    let (rx_error, sio2) = rx_step p.rx_msg (sel.rx_set && p.rx_pending) sel.rx sio1 in
    let (tx_error, sio3) = tx_step p.tx_msg (sel.tx_set && p.tx_pending) sel.tx sio2 in
    if rx_error || tx_error then fail sio3 error_io else sio3

-- The handle and `*sig_mask` afterwards. `sig_mask` is left alone where `WaitSelect` fails.
unfoldable pub sockio_wait_handle : Sockio → ℕ → Selected → Sockio × ℕ
sockio_wait_handle sio sig_mask sel =
    let p = prepare sio in
    elim sel.result [
      | none ↦ (fail (record (p.sio) { state = State.error }) error_wait, sig_mask)
      | some n ↦
          let sio1 = handle_signals sel.got_mask p.sio in
          (if n == 0 then sio1 else transfer p sel sio1, user_mask p.sio sel.got_mask)
    ]
