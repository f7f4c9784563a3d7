-- ===== src/Sockio/Submit.antt =====
-- The calls of sockio.c that the user makes: submitting reads, writes and waits, pushing bytes
-- back, exchanging a read's buffer, and asking for what is pending.
use rcli.Common.{
  ℕ, ◌+◌, ◌-◌, ◌/◌, ◌%◌, Bool, true, false, Option, none, some, List, [], ◌∷◌, ltb, leb, ◌==◌,
  if◌then◌else◌, copy_mem, is_null, update, not, ◌||◌,
}
use rcli.Timer.{timer_start, TimerAnswer}
use rcli.Sockio.{Sockio, MsgType, is_error, alloc_msg, put_msg, reply_msg, set_size, head?, rest_of}

abbrev submit : Option (ℕ × Sockio) → Sockio → Option ℕ × Sockio
submit none sio = (none, sio)
submit (some (i, sio')) sio = (some i, put_msg sio' i)

unfoldable pub sockio_recv : Sockio → ℕ → ℕ → ℕ → Option ℕ × Sockio
sockio_recv sio buf max_size min_size =
    if is_error sio.state
    then (none, sio)
    else submit (alloc_msg sio MsgType.recv buf max_size min_size) sio

unfoldable pub sockio_send : Sockio → ℕ → ℕ → Option ℕ × Sockio
sockio_send sio buf size =
    if is_error sio.state
    then (none, sio)
    else submit (alloc_msg sio MsgType.send buf size size) sio

abbrev pub address_or_null : Option ℕ → ℕ
address_or_null none = 0
address_or_null (some a) = a

-- The timeout is split into seconds and the rest. `min_size` keeps the rest.
abbrev pub timeout_secs : ℕ → ℕ
timeout_secs timeout_us = if ltb 1_000_000 timeout_us then timeout_us / 1_000_000 else 0

abbrev pub timeout_micros : ℕ → ℕ
timeout_micros timeout_us = if ltb 1_000_000 timeout_us then timeout_us % 1_000_000 else timeout_us

abbrev pub start_wait : ℕ → Sockio → TimerAnswer → ℕ → ℕ → Option ℕ × Sockio
start_wait i sio answer secs micros =
    let (job, timer) = timer_start sio.timer answer secs micros i in
    let msg = record (sio.msgs i) { min_size = micros; buf_data = address_or_null job } in
    (some i, put_msg (record sio { timer = timer; msgs = update sio.msgs i msg }) i)

unfoldable pub sockio_wait_char : Sockio → TimerAnswer → ℕ → Option ℕ × Sockio
sockio_wait_char sio answer timeout_us =
    if is_error sio.state then (none, sio) else elim (alloc_msg sio MsgType.wait_char 0 0 0) [
      | none ↦ (none, sio)
      | some (i, sio') ↦
          start_wait i sio' answer (timeout_secs timeout_us) (timeout_micros timeout_us)
    ]

unfoldable pub sockio_push_back : Sockio → ℕ → ℕ → Bool × Sockio
sockio_push_back sio buf size = if ltb sio.push_back_max size then (false, sio) else (
  true,
  record sio {
    push_back_buf = sio.push_back_base;
    push_back_size = size;
    ram = copy_mem sio.ram buf sio.push_back_base size;
  },
)

abbrev pub is_head : ℕ → List ℕ → Bool
is_head i [] = false
is_head i (x ∷ xs) = x == i

-- The first `actual` bytes move to the new buffer; a read that has its minimum is done. `CopyMem` is
-- documented for areas that have no byte in common, and is modelled for these: where the old and
-- the new buffer overlap, the bytes that it leaves are not those of `copy_mem`.
unfoldable pub refill_recv : Sockio → ℕ → ℕ → ℕ → ℕ → ℕ → Sockio
refill_recv sio i old_buf buf actual min_size =
    let sio' = record sio { ram = copy_mem sio.ram old_buf buf actual; rx_actual = actual } in
    if leb min_size actual
    then reply_msg
        (record (set_size sio' i actual) { recv_list = rest_of sio'.recv_list; rx_actual = 0 }) i
    else sio'

unfoldable pub sockio_replace_recv_buffer : Sockio → ℕ → ℕ → ℕ → ℕ → Bool × Sockio
unfolding refill_recv
sockio_replace_recv_buffer sio i buf max_size min_size =
    let old_buf = (sio.msgs i).buf_data in
    let sio1 = record sio {
      msgs =
          update sio.msgs i
            (record (sio.msgs i) { size = max_size; buf_data = buf; min_size = min_size });
    } in
    if not (is_head i sio1.recv_list)
    then (true, sio1)
    else if ltb max_size sio1.rx_actual
    then (let (ok, sio2) = sockio_push_back sio1 (old_buf + max_size) (sio1.rx_actual - max_size) in
        if ok then (true, refill_recv sio2 i old_buf buf max_size min_size) else (false, sio2))
    else (true, refill_recv sio1 i old_buf buf sio1.rx_actual min_size)

unfoldable pub sockio_first_recv : Sockio → Option ℕ
sockio_first_recv sio = head? sio.recv_list

unfoldable pub sockio_first_wait : Sockio → Option ℕ
sockio_first_wait sio = head? sio.wait_list

unfoldable pub sockio_first_send : Sockio → Option ℕ
sockio_first_send sio = head? sio.send_list

unfoldable pub sockio_has_pending : Sockio → Bool
sockio_has_pending sio =
    not (is_null (head? sio.recv_list))
    || (not (is_null (head? sio.wait_list)) || not (is_null (head? sio.send_list)))
