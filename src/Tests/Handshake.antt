-- ===== src/Tests/Handshake.antt =====
-- Handshakes in which a line comes and in which no character comes, for amiga/rclid/init.c.
use rcli.Common.{
  if◌then◌else◌, ◌==◌, ℕ, List, ◌≡◌, refl, Bool, true, false, Option, none, some, [], ◌∷◌,
}
use rcli.Timer.{timer_start, timer_stop, timer_job_get_user_data, timer_get_next_done_job}
use rcli.Sockio.{MsgType, alloc_msg, sockio_free_msg}
use rcli.Sockio.Submit.{sockio_wait_char, sockio_recv, sockio_push_back}
use rcli.Sockio.Wait.{
  Selected, finish_wait, handle_rx, recv_into, finish_recv, took, received, handle_msgs, handle_msg,
  handle_timer, handle_jobs, finish_job, unlink_wait,
}
use rcli.Sockio.Handle.{
  transfer, wait_step, rx_step, tx_step, sockio_wait_handle, prepare, flush_by_state,
  push_back_first, handle_signals,
}
use rcli.Line.{
  line_read_line, line_msg, newline_at, end_line, line_check_char, read_loop, read_round, each_msg,
  check_msg,
}
use rcli.Rclid.{ServData, Mode}
use rcli.Init.{Answers, init_handshake, choose, follow, read_args, take_line}
use rcli.Tests.Server.{server, answer}

-- The job of the first wait is on its port when the first round looks.
abbrev waiting : ServData
waiting = record server {
  sockio = record (server.sockio) { timer = record (server.sockio.timer) { port = 96 ∷ [] } };
}

-- No character comes, and the timer runs out.
abbrev answers : Answers
answers = record {
  stack_buf = 5000;
  port_mask = 64;
  answer = answer;
  check_rounds =
      record {
        result = some 0;
        got_mask = 76;
        rx_set = false;
        tx_set = false;
        rx = received [];
        tx = took 0;
      }
      ∷ [];
  line_rounds = [];
  arg_buf = some 6000;
}

abbrev data_of : Option (Bool × ServData) → ServData
data_of none = waiting
data_of (some (ok, sd)) = sd

timed_out : (data_of (init_handshake waiting answers)).mode ≡ Mode.shell
unfolding init_handshake line_check_char read_loop read_round each_msg check_msg choose follow
    sockio_wait_char alloc_msg timer_start sockio_wait_handle prepare flush_by_state push_back_first
    handle_signals handle_msgs handle_msg handle_timer handle_jobs finish_job timer_stop
    timer_job_get_user_data timer_get_next_done_job unlink_wait sockio_free_msg
timed_out = refl

-- Two reads are pending from before, so that each loop is over after one round.
abbrev reading : ServData
reading = record server {
  sockio = record (server.sockio) {
    recv_list = 2 ∷ 3 ∷ [];
    msgs = λ i. record {
      user_data = none;
      buf_data = if i == 2 then 5000 else 6000;
      size = if i == 2 then 1 else 16;
      min_size = 1;
      type = MsgType.recv;
    };
  };
}

-- A round in which the user's port is signalled, and the socket has these bytes.
abbrev brings : List ℕ → Selected
brings bs = record {
  result = some 1;
  got_mask = 64;
  rx_set = true;
  tx_set = false;
  rx = received bs;
  tx = took 0;
}

abbrev talking : Answers
talking = record answers {
  check_rounds = brings (b'#' ∷ []) ∷ [];
  line_rounds = brings (b'h' ∷ b'i' ∷ 0x0a ∷ []) ∷ [];
}

abbrev talked : ServData
talked = data_of (init_handshake reading talking)

line_taken : (talked.arg_line ≡ some 6000) × (talked.arg_len ≡ 2) × (talked.mode ≡ Mode.shell)
unfolding init_handshake line_check_char line_read_line read_loop read_round each_msg check_msg
    line_msg newline_at end_line choose follow read_args take_line sockio_wait_char sockio_recv
    sockio_push_back alloc_msg timer_start sockio_wait_handle prepare flush_by_state push_back_first
    handle_signals handle_msgs handle_msg handle_timer handle_jobs finish_job finish_wait timer_stop
    timer_job_get_user_data timer_get_next_done_job unlink_wait sockio_free_msg transfer wait_step
    rx_step tx_step handle_rx recv_into finish_recv
line_taken = (refl, refl, refl)
