-- ===== src/Tests/Ledger.antt =====
-- A server that a program writes four bytes to, for amiga/rclid/rclid.c with vcon.c and sockio.c.
use rcli.Common.{◌+◌, ◌≡◌, refl, true, false, none, some, List, [], ◌∷◌, count}
use rcli.Vcon.{Action, DosPacket}
use rcli.Vcon.Books.{queued, answers_for, places}
use rcli.Sockio.Links
use rcli.Sockio.Session
use rcli.Sockio.{sockio_init, alloc_msg}
use rcli.Sockio.Submit.{sockio_recv}
use rcli.Sockio.Wait.{
  Selected, received, took, handle_msgs, handle_msg, handle_rx, recv_into, finish_recv,
  handle_timer, handle_jobs,
}
use rcli.Sockio.Handle.{
  sockio_wait_handle, transfer, rx_step, tx_step, wait_step, prepare, push_back_first,
  flush_by_state, handle_signals,
}
use rcli.Rclid.Cargo.{carried}
use rcli.Rclid.Session.{Event, arrives, opens, rounds, Grant, run, start, after_handshake}
use rcli.Rclid.Ledger.Accounts.{packets_owed_once, messages_placed}
use rcli.Tests.Server.{server, masks}

abbrev pub write_pkt : DosPacket
write_pkt = record {
  address = 100;
  dp_type = Action.write;
  dp_port = 7;
  dp_arg1 = 0;
  dp_arg2 = 1000;
  dp_arg3 = 4;
}

abbrev pub grant : Grant
grant = record {
  pkt_bit = 0;
  vmsg_bit = 1;
  msg_bit = 2;
  timer_bit = 3;
  push_back_base = 3000;
  ram = λ a. b'x';
}

abbrev pub nothing_ready : Selected
nothing_ready = record {
  result = some 0;
  got_mask = 0;
  rx_set = false;
  tx_set = false;
  rx = received [];
  tx = took 0;
}

-- The handshake reads one byte.
abbrev pub handshake : List Session.Event
handshake =
    Session.reads 2000 1 1
    ∷ Session.handles 0 (record nothing_ready { got_mask = 4 })
    ∷ Session.handles 0
        (record nothing_ready { result = some 1; rx_set = true; rx = received (b'x' ∷ []) })
    ∷ Session.takes
    ∷ Session.frees 0
    ∷ []

abbrev pub turn : Selected → Event
turn selected =
    rounds masks (record { selected = selected; answer = λ i. record { job = none; opens = true } })

-- The packet becomes a request, which becomes a message of the socket; that is put on its list, the
-- socket takes the bytes, and the packet is answered.
abbrev script : List Event
script =
    opens (some 40)
    ∷ arrives write_pkt
    ∷ turn (record nothing_ready { got_mask = 33 })
    ∷ turn (record nothing_ready { got_mask = 4 })
    ∷ turn (record nothing_ready { result = some 1; got_mask = 64; tx_set = true; tx = took 4 })
    ∷ turn (record nothing_ready { got_mask = 2 })
    ∷ []

-- The handshake frees what it takes.
pub handshake_done : (after_handshake grant server.options handshake).held ≡ []
unfolding Session.drive Session.step Session.fresh sockio_wait_handle transfer rx_step tx_step
    prepare push_back_first flush_by_state handle_signals sockio_recv sockio_init alloc_msg
    handle_msgs handle_msg handle_rx recv_into finish_recv wait_step handle_timer handle_jobs
handshake_done = refl

packets_owed_once_example :
    let s = run script (start grant handshake server) in
    let v = s.loop.sd.vcon in
    count 100 s.arrived ≡ queued 100 v.pkt_port + answers_for v (carried s.loop.sd.sockio) 100
packets_owed_once_example = packets_owed_once grant handshake server handshake_done script 100

messages_placed_example :
    let s = run script (start grant handshake server) in
    let sio = s.loop.sd.sockio in
    (places s.loop.sd.vcon (carried sio) 1 ≡ 1) × (Links.places sio [] 1 ≡ 1)
messages_placed_example = messages_placed grant handshake server handshake_done script 1
