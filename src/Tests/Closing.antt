-- ===== src/Tests/Closing.antt =====
-- A server whose socket breaks before a program writes, for amiga/rclid/rclid.c.
use rcli.Common.{◌≡◌, refl, true, false, none, List, [], ◌∷◌, count}
use rcli.Vcon.{vcon_get_sigmask, vcon_init, alloc_vmsg, reply_pkt, free_vmsg}
use rcli.Vcon.Books.{replied}
use rcli.Vcon.Packets.{handle_dos_pkt, dispatch, on_write, lend, settle}
use rcli.Vcon.Signals.{vcon_handle_sigmask, handle_pkts, handle_replies, handle_vmsg_reply}
use rcli.Sockio.{sockio_init, alloc_msg, sockio_free_msg}
use rcli.Sockio.Session
use rcli.Sockio.Submit.{sockio_recv, sockio_first_recv, sockio_first_wait, sockio_first_send}
use rcli.Sockio.Wait.{
  Selected, handle_msgs, handle_msg, handle_rx, recv_into, finish_recv, handle_timer, handle_jobs,
  reply_error_msg, sockio_flush, sockio_flush_recv, sockio_flush_send, flush_recvs, flush_waits,
  flush_sends,
}
use rcli.Sockio.Handle.{
  sockio_wait_handle, transfer, rx_step, tx_step, wait_step, prepare, push_back_first,
  flush_by_state, handle_signals,
}
use rcli.Rclid.Console.{handle_vcon_msg, on_vcon_msg}
use rcli.Rclid.Socket.{handle_sockio_msg, on_sockio_msg}
use rcli.Rclid.Loop.{
  Loop, Round, round, start_loop, do_vcon, do_sockio, do_console, sockio_msgs, vcon_msgs,
  after_vcon_msg, one_vcon_msg, is_sockio_idle,
}
use rcli.Rclid.Cargo.{in_flight}
use rcli.Rclid.Session.{Server, Event, arrives, run, step, start, granted, is_granted}
use rcli.Rclid.Ledger.Answered.{brings_packets, brings_replies, round-answers_all}
use rcli.Tests.Server.{server, masks}
use rcli.Tests.Ledger.{write_pkt, grant, nothing_ready, handshake, handshake_done, turn}

abbrev quick : Selected → Round
quick selected = record { selected = selected; answer = λ i. record { job = none; opens = true } }

-- `WaitSelect` fails, and then the program writes.
abbrev broken : List Event
broken = turn (record nothing_ready { result = none }) ∷ arrives write_pkt ∷ []

abbrev packet_comes : Round
packet_comes = quick (record nothing_ready { got_mask = 33 })

abbrev reply_comes : Round
reply_comes = quick (record nothing_ready { got_mask = 2 })

abbrev ended : Server
ended = run broken (start grant handshake server)

abbrev first : Loop
first = round masks packet_comes ended.loop

closes :
    (ended.loop.socket_active ≡ false)
    × (in_flight ended.loop.sd.sockio ≡ [])
    × (is_granted masks packet_comes ended.loop ≡ true)
    × (is_granted masks reply_comes first ≡ true)
    × (brings_packets masks packet_comes ended.loop ≡ true)
    × (brings_replies masks reply_comes first ≡ true)
unfolding run step start start_loop granted round do_vcon do_sockio do_console sockio_msgs vcon_msgs
    after_vcon_msg one_vcon_msg is_sockio_idle handle_sockio_msg on_sockio_msg handle_vcon_msg
    on_vcon_msg vcon_get_sigmask vcon_init alloc_vmsg reply_pkt free_vmsg handle_dos_pkt dispatch
    on_write lend settle vcon_handle_sigmask handle_pkts handle_replies handle_vmsg_reply
    sockio_init alloc_msg sockio_free_msg sockio_recv sockio_first_recv sockio_first_wait
    sockio_first_send handle_msgs handle_msg handle_rx recv_into finish_recv handle_timer
    handle_jobs reply_error_msg sockio_flush sockio_flush_recv sockio_flush_send flush_recvs
    flush_waits flush_sends sockio_wait_handle transfer rx_step tx_step wait_step prepare
    push_back_first flush_by_state handle_signals Session.drive Session.step Session.fresh
closes = (refl, refl, refl, refl, refl, refl)

round-answers_all_example :
    count 100 ended.arrived ≡ replied 100 (round masks reply_comes first).sd.vcon.replies
round-answers_all_example =
    let (off, idle, g1, g2, packets, replies) = closes in
    round-answers_all grant handshake server handshake_done broken masks packet_comes reply_comes
      off idle g1 g2 packets replies 100
