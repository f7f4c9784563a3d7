-- ===== src/Tests/Socket.antt =====
-- A socket with a send and two reads, for amiga/rclid/sockio.c and line.c.
use rcli.Common.{
  ℕ, inl, ◌+◌, ◌-◌, ◌<◌, ◌^◌, ◌≡◌, refl, inr, true, false, none, some, [], ◌∷◌, ◌++◌, arith, get_or,
  bytes, Ram, ◌==◌, if◌then◌else◌,
}
use rcli.Timer.{TimerAnswer, new_job, timer_start}
use rcli.Sockio.{Sockio, SockioMsg, MsgType, State}
use rcli.Sockio.Wait.{
  Selected, took, received, handle_tx, handle_rx, handle_push_back, sockio_flush,
}
use rcli.Sockio.Handle.{sockio_wait_handle}
use rcli.Sockio.Race.{sockio_wait_handle-timer_start}
use rcli.Sockio.Stream.{handle_tx-stream, unsent}
use rcli.Sockio.Receive.{handle_rx-received, handle_push_back-stream}
use rcli.Sockio.Flush.{sockio_flush-After}
use rcli.Sockio.Submit.{sockio_replace_recv_buffer}
use rcli.Sockio.Replace.{replace_recv_buffer-stream, overflow}
use rcli.Line.{Reading, LineResult, line, newline_at, line_msg, end_line}
use rcli.Line.Ends.{line_msg-overrun}

abbrev small_ram : Ram
small_ram = λ x. get_or (b'h' ∷ b'i' ∷ 0x0a ∷ b'x' ∷ b'y' ∷ []) (x - 1000) 0

-- Message 0 reads up to 8 bytes to 2000, at least 4; message 1 sends 5 bytes from 1000 on;
-- message 2 waits with the timer job at 64.
abbrev test_msg : ℕ → SockioMsg
test_msg i =
    if i == 0
    then record { user_data = none; buf_data = 2000; size = 8; min_size = 4; type = MsgType.recv }
    else if i == 1
    then record { user_data = none; buf_data = 1000; size = 5; min_size = 0; type = MsgType.send }
    else record {
      user_data = none;
      buf_data = 64;
      size = 0;
      min_size = 0;
      type = MsgType.wait_char;
    }

abbrev busy : Sockio
busy = record {
  user_port = [];
  msg_port = [];
  free_list = 3 ∷ 4 ∷ [];
  recv_list = 0 ∷ [];
  send_list = 1 ∷ [];
  wait_list = 2 ∷ [];
  msgs = test_msg;
  timer = record { port = []; job_list = new_job 64 1 0 2 ∷ []; device = true; num_jobs = 1 };
  max_msgs = 5;
  rx_actual = 2;
  tx_actual = 1;
  msg_mask = 1;
  timer_mask = 2;
  state = State.ok;
  push_back_base = 3000;
  push_back_buf = 3000;
  push_back_size = 3;
  push_back_max = 16;
  ram = small_ram;
  sent = b'h' ∷ [];
}

handle_tx-stream_example :
    let sio' = (handle_tx busy 1 true (took 3)).1 in
    sio'.sent ++ unsent sio' ≡ busy.sent ++ unsent busy
handle_tx-stream_example = handle_tx-stream busy 1 [] true (took 3) refl (omega arith)

handle_rx-received_example :
    let sio' = (handle_rx busy 0 true (received (b'a' ∷ b'b' ∷ []))).1 in
    (bytes sio'.ram 2000 4 ≡ bytes small_ram 2000 2 ++ (b'a' ∷ b'b' ∷ []))
    × (sio'.user_port ≡ 0 ∷ [])
    × (sio'.recv_list ≡ [])
    × (sio'.rx_actual ≡ 0)
    × ((sio'.msgs 0).size ≡ 4)
handle_rx-received_example = handle_rx-received busy 0 [] b'a' (b'b' ∷ []) refl

handle_push_back-stream_example :
    let sio' = (handle_push_back busy 0).1 in
    (bytes sio'.ram 2000 2 ≡ bytes small_ram 2000 2)
    × (bytes sio'.ram 2002 3 ++ bytes sio'.ram sio'.push_back_buf sio'.push_back_size
        ≡ bytes small_ram 3000 3)
    × (sio'.user_port ≡ 0 ∷ [])
    × (sio'.recv_list ≡ [])
    × (sio'.rx_actual ≡ 0)
    × ((sio'.msgs 0).size ≡ 5)
handle_push_back-stream_example =
    handle_push_back-stream busy 0 [] refl (omega arith) (omega arith) (inr (omega arith))

sockio_flush-After_example :
    let sio' = sockio_flush busy in
    (sio'.user_port ≡ 1 ∷ 0 ∷ 2 ∷ [])
    × (sio'.recv_list ≡ [])
    × (sio'.send_list ≡ [])
    × (sio'.wait_list ≡ [])
    × (sio'.free_list ≡ 3 ∷ 4 ∷ [])
    × (sio'.msg_port ≡ [])
sockio_flush-After_example = sockio_flush-After busy

-- Read 0 holds two bytes, and its new buffer has room for one.
replace_recv_buffer-stream_example :
    let (ok, sio') = sockio_replace_recv_buffer busy 0 5000 1 1 in
    (ok ≡ true)
    × (bytes sio'.ram 5000 1 ++ overflow sio' true ≡ bytes small_ram 2000 2)
    × (sio'.user_port ≡ 0 ∷ [])
    × (sio'.recv_list ≡ [])
    × (sio'.rx_actual ≡ 0)
    × ((sio'.msgs 0).size ≡ 1)
    × ((sio'.msgs 0).buf_data ≡ 5000)
replace_recv_buffer-stream_example =
    replace_recv_buffer-stream busy 0 [] 5000 1 1 refl (omega arith) (inl (omega arith))
      (inl (omega arith)) (inr (omega arith))

abbrev answer : TimerAnswer
answer = record { job = some 96; opens = true }

-- Five bytes are at 1000, a line feed the third of them.
abbrev reading : Reading
reading = record { sio = busy; result = LineResult.error; stay = true; got = 0 }

abbrev arrived : SockioMsg
arrived = record { user_data = none; buf_data = 1000; size = 5; min_size = 1; type = MsgType.recv }

-- The wait alone, its job on the timer's port.
abbrev late : Sockio
late = record busy {
  recv_list = [];
  send_list = [];
  timer = record (busy.timer) { port = 64 ∷ [] };
}

-- Its timer and the socket are signalled.
abbrev both_ready : Selected
both_ready = record {
  result = some 1;
  got_mask = 2;
  rx_set = true;
  tx_set = false;
  rx = received [];
  tx = took 0;
}

sockio_wait_handle-timer_start_example :
    let timer' = (sockio_wait_handle late 0 both_ready).0.timer in
    (timer'.job_list ≡ [])
    × (timer'.device ≡ false)
    × (timer'.num_jobs ≡ 2 ^ 16 - 1)
    × ((timer_start timer' answer 1 0 3).1.device ≡ false)
sockio_wait_handle-timer_start_example =
    sockio_wait_handle-timer_start late 2 (new_job 64 1 0 2) 0 0 both_ready answer 1 0 3
      (record {
        state = refl;
        recvs = refl;
        sends = refl;
        waits = refl;
        jobs = refl;
        num_jobs = refl;
        user_data = refl;
        buf_data = refl;
        nonnull = λ h. omega arith;
      })
      (record {
        port = refl;
        result = refl;
        rx_set = refl;
        timer_signal = refl;
        no_msg_signal = refl;
      })

-- An empty line: the line feed is the first byte that arrives.
abbrev empty_line : Reading
empty_line = line_msg 1002 15 200000 answer reading (record arrived { size = 3 }) MsgType.recv

empty_line_ends : (empty_line.result ≡ line 0) × (empty_line.stay ≡ false)
unfolding line_msg newline_at end_line
empty_line_ends = (refl, refl)

abbrev one_char : SockioMsg
one_char = record {
  user_data = none;
  buf_data = 64;
  size = 1;
  min_size = 0;
  type = MsgType.wait_char;
}

-- Three bytes of a buffer of 16 are read.
line_msg-overrun_example :
    let read =
      (line_msg 1000 15 200000 answer
          (record reading { got = 3 })
          one_char
          MsgType.wait_char).sio.msgs
        3 in
    (read.type ≡ MsgType.recv) × (1016 < read.buf_data + read.size)
line_msg-overrun_example =
    line_msg-overrun 1000 16 200000 3 (4 ∷ []) answer (record reading { got = 3 }) one_char refl
      refl refl (omega arith) (omega arith)
