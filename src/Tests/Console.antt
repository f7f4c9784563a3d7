-- ===== src/Tests/Console.antt =====
-- A console that gets a write and a read of a program, for amiga/rclid/vcon.c, conv.c and timer.c.
use rcli.Common.{
  ◌+◌, ◌-◌, ◌≤◌, ◌≡◌, refl, true, some, List, [], ◌∷◌, arith, count, get_or, bytes, Ram,
}
use rcli.Vcon.{Vcon, MsgType, State, Action, DosPacket, signal}
use rcli.Vcon.Session.{Event, arrives, opens, handles, takes, answers, run, fresh}
use rcli.Vcon.Books.{places, answers_for, queued, replied}
use rcli.Vcon.Conservation.{run-places, run_answers_once}
use rcli.Vcon.Signals.{vcon_flush, handle_vmsg_reply, vcon_send_signal}
use rcli.Vcon.Flushing.{flush_answers_twice}
use rcli.Vcon.Targets.{vcon_send_signal-targets}
use rcli.Conv.{Buf, conv_extract_signals}
use rcli.Conv.Extract.{extract-plain, extract-counts}

abbrev write_pkt : DosPacket
write_pkt = record {
  address = 100;
  dp_type = Action.write;
  dp_port = 7;
  dp_arg1 = 0;
  dp_arg2 = 500;
  dp_arg3 = 4;
}

abbrev read_pkt : DosPacket
read_pkt = record write_pkt { address = 200; dp_type = Action.read; dp_port = 8 }

abbrev script : List Event
script =
    opens (some 40)
    ∷ arrives write_pkt
    ∷ arrives read_pkt
    ∷ handles 3
    ∷ takes
    ∷ takes
    ∷ answers 0 4 0
    ∷ handles 3
    ∷ []

run_answers_once_example :
    let c = run script (fresh 8 0 1) in
    count 100 c.arrived ≡ queued 100 c.vcon.pkt_port + answers_for c.vcon c.held 100
run_answers_once_example = run_answers_once 8 0 1 script 100

run-places_example : let c = run script (fresh 8 0 1) in places c.vcon c.held 3 ≡ 1
run-places_example = run-places 8 0 1 script 3

-- Message 0 is lent for the read of packet 200.
abbrev lent : Vcon
lent = record {
  pkt_port = [];
  read_signal_port = some 8;
  write_signal_port = some 7;
  user_port = [];
  vmsg_port = [];
  free_vmsg_list = 1 ∷ [];
  vmsgs = λ i. record {
    private = some 200;
    buf_data = 500;
    size = 4;
    type = MsgType.read;
    buffer_mode = 0;
  };
  max_msgs = 2;
  pkt_sigmask = 1;
  vmsg_sigmask = 2;
  open_cnt = 1;
  buffer_mode = 0;
  state = State.opened;
  replies = [];
  effects = [];
}

flush_answers_twice_example :
    replied 200 [] + 2 ≤ replied 200 (handle_vmsg_reply (vcon_flush lent) 0).replies
flush_answers_twice_example = flush_answers_twice lent 0 200 refl (omega arith) refl refl

vcon_send_signal-targets_example :
    vcon_send_signal (λ p. some (p + 10)) lent 0x1000
    ≡ (record lent { effects = signal 18 0x1000 ∷ signal 17 0x1000 ∷ [] }, true)
vcon_send_signal-targets_example =
    vcon_send_signal-targets (λ p. some (p + 10)) lent 0x1000 (some 18) (some 17) refl refl

-- The bytes 3 a 4 b from address 10 on.
abbrev typed : Ram
typed = λ x. get_or (3 ∷ b'a' ∷ 4 ∷ b'b' ∷ 0 ∷ []) (x - 10) 9

abbrev typed_buf : Buf
typed_buf = record { buf_data = 10; size = 4 }

extract-plain_example :
    let e = conv_extract_signals typed typed_buf in
    (bytes e.ram e.buf.buf_data e.buf.size ≡ b'a' ∷ b'b' ∷ []) × (e.buf.size ≡ 2) × (e.changes ≡ 2)
extract-plain_example = extract-plain typed typed_buf

extract-counts_example : get_or (conv_extract_signals typed typed_buf).counts 1 0 ≡ 1
extract-counts_example = extract-counts typed typed_buf 1 (omega arith)
