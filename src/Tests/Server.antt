-- ===== src/Tests/Server.antt =====
-- A server with one request of each kind, for amiga/rclid/rclid.c.
use rcli.Common.{
  ℕ, ◌+◌, ◌<◌, ◌-◌, ◌≡◌, ◌≢◌, refl, inl, true, false, none, some, [], ◌∷◌, ◌++◌, ◌⊎◌, arith, get_or,
  bytes, Ram,
}
use rcli.Timer.{TimerAnswer}
use rcli.Vcon
use rcli.Vcon.{Vcon, VconMsg}
use rcli.Sockio
use rcli.Sockio.{Sockio, SockioMsg}
use rcli.Rclid.{ServData, Mode}
use rcli.Rclid.Console.{handle_vcon_msg}
use rcli.Rclid.Socket.{handle_sockio_msg, line_end, line_split_buffer}
use rcli.Rclid.Loop.{Masks}
use rcli.Rclid.Lines.{line_split-splits}
use rcli.Rclid.Requests.{handle_vcon_msg-once, Replied, Linked}
use rcli.Rclid.Replies.{handle_sockio_msg-once, ReadAgain}

-- Request 0 reads to 1000, where "hi", a line feed and "xy" stand.
abbrev test_vmsg : ℕ → VconMsg
test_vmsg i = record {
  private = some 100;
  buf_data = 1000;
  size = 5;
  type = Vcon.MsgType.read;
  buffer_mode = 0;
}

abbrev test_vcon : Vcon
test_vcon = record {
  pkt_port = [];
  read_signal_port = none;
  write_signal_port = none;
  user_port = 0 ∷ [];
  vmsg_port = [];
  free_vmsg_list = 1 ∷ [];
  vmsgs = test_vmsg;
  max_msgs = 2;
  pkt_sigmask = 1;
  vmsg_sigmask = 2;
  open_cnt = 1;
  buffer_mode = 0;
  state = Vcon.State.opened;
  replies = [];
  effects = [];
}

abbrev typed_ram : Ram
typed_ram = λ x. get_or (b'h' ∷ b'i' ∷ 0x0a ∷ b'x' ∷ b'y' ∷ []) (x - 1000) 0

abbrev test_sockio : Sockio
test_sockio = record {
  user_port = [];
  msg_port = [];
  free_list = 0 ∷ 1 ∷ [];
  recv_list = [];
  send_list = [];
  wait_list = [];
  msgs = λ i. record {
    user_data = some 0;
    buf_data = 1000;
    size = 5;
    min_size = 1;
    type = Sockio.MsgType.recv;
  };
  timer = record { port = []; job_list = []; device = false; num_jobs = 0 };
  max_msgs = 2;
  rx_actual = 0;
  tx_actual = 0;
  msg_mask = 4;
  timer_mask = 8;
  state = Sockio.State.ok;
  push_back_base = 3000;
  push_back_buf = 0;
  push_back_size = 0;
  push_back_max = 16;
  ram = typed_ram;
  sent = [];
}

abbrev pub server : ServData
server = record {
  options = record {
    stack_size = 8192;
    max_msgs = 2;
    init_wait = 200;
    push_back_max = 16;
    arg_len = 256;
    def_command = none;
    def_shell_cmd = none;
    flags = 3;
  };
  vcon = test_vcon;
  sockio = test_sockio;
  tmp_tx_buf = 4000;
  arg_line = none;
  arg_len = 0;
  buffer_mode = 0;
  mode = Mode.shell;
  flags = 3;
  errors = [];
}

abbrev pub answer : TimerAnswer
answer = record { job = some 96; opens = true }

handle_vcon_msg-once_example :
    let sd' = (handle_vcon_msg server 0 true answer).1 in Replied server sd' 0 ⊎ Linked server sd' 0
handle_vcon_msg-once_example = handle_vcon_msg-once Vcon.MsgType.read server 0 answer refl

handle_sockio_msg-once_example :
    let sd' = (handle_sockio_msg (λ p. none) server 0).1 in
    Replied server sd' 0 ⊎ ReadAgain server sd' 0
handle_sockio_msg-once_example =
    handle_sockio_msg-once Sockio.MsgType.recv (λ p. none) server 0 0 refl refl

line_split-splits_example :
    let sd' = line_split_buffer server 0 in
    ((sd'.vcon.vmsgs 0).size ≡ 3)
    × (typed_ram 1002 ≡ 0x0a)
    × (bytes sd'.sockio.ram 1000 3
          ++ bytes sd'.sockio.ram sd'.sockio.push_back_buf sd'.sockio.push_back_size
        ≡ b'h' ∷ b'i' ∷ 0x0a ∷ b'x' ∷ b'y' ∷ [])
    × ((x : ℕ) → x + 1 < 3 → typed_ram (1000 + x) ≢ 0x0a)
unfolding line_end
line_split-splits_example =
    line_split-splits server 0 (omega arith) (omega arith) (inl (omega arith))

abbrev pub masks : Masks
masks = record {
  run_mask = 16;
  vport_mask = 32;
  sport_mask = 64;
  break_mask = 0x1000;
  task_of = λ p. none;
}
