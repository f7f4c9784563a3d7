-- ===== src/Tests/Ports.antt =====
-- Loops over ports that hold something, for amiga/rclid/vcon.c, sockio.c and rclid.c.
use rcli.Common.{◌≡◌, some, [], ◌∷◌, while_get, arith, none, true}
use rcli.Vcon.{Vcon}
use rcli.Vcon.Signals.{handle_pkts, handle_replies}
use rcli.Vcon.Drained.{get_pkt, get_reply, handle_pkts-handle_replies}
use rcli.Sockio.{Sockio}
use rcli.Sockio.Wait.{handle_msgs, handle_timer}
use rcli.Sockio.Drained.{get_msg, get_job, handle_msgs-handle_timer}
use rcli.Rclid.Loop.{sockio_msgs, vcon_msgs, one_sockio_msg, one_vcon_msg, Loop}
use rcli.Rclid.Drained.{sockio_msgs-vcon_msgs}
use rcli.Tests.Server.{server, answer}
use rcli.Tests.Ledger.{write_pkt}

abbrev console : Vcon
console = record (server.vcon) { pkt_port = write_pkt ∷ write_pkt ∷ []; vmsg_port = 0 ∷ [] }

abbrev socket : Sockio
socket = record (server.sockio) {
  msg_port = 0 ∷ 1 ∷ [];
  timer = record (server.sockio.timer) { port = 96 ∷ 64 ∷ [] };
}

-- One request of the console, and one message of the socket.
abbrev loop : Loop
loop = record {
  sd = record server { sockio = record (server.sockio) { user_port = 1 ∷ [] } };
  socket_active = true;
  vcon_active = true;
}

handle_pkts-handle_replies_example :
    ((while_get (λ s. s.pkt_port) get_pkt 3 console ≡ some (handle_pkts console.pkt_port console))
      × ((handle_pkts console.pkt_port console).pkt_port ≡ []))
    × ((while_get (λ s. s.vmsg_port) get_reply 2 console
          ≡ some (handle_replies console.vmsg_port console))
        × ((handle_replies console.vmsg_port console).vmsg_port ≡ []))
handle_pkts-handle_replies_example = handle_pkts-handle_replies console

handle_msgs-handle_timer_example :
    ((while_get (λ s. s.msg_port) get_msg 3 socket ≡ some (handle_msgs socket.msg_port socket))
      × ((handle_msgs socket.msg_port socket).msg_port ≡ []))
    × ((while_get (λ s. s.timer.port) get_job 3 socket ≡ some (handle_timer socket))
        × ((handle_timer socket).timer.port ≡ []))
handle_msgs-handle_timer_example = handle_msgs-handle_timer socket (λ a. ground arith)

sockio_msgs-vcon_msgs_example :
    ((while_get (λ x. x.sd.sockio.user_port) (one_sockio_msg (λ p. none)) 2 loop
        ≡ some (sockio_msgs (λ p. none) loop.sd.sockio.user_port loop))
      × ((sockio_msgs (λ p. none) loop.sd.sockio.user_port loop).sd.sockio.user_port ≡ []))
    × ((while_get (λ x. x.sd.vcon.user_port) (λ i. one_vcon_msg answer i) 2 loop
          ≡ some (vcon_msgs (λ i. answer) loop.sd.vcon.user_port loop))
        × ((vcon_msgs (λ i. answer) loop.sd.vcon.user_port loop).sd.vcon.user_port ≡ []))
sockio_msgs-vcon_msgs_example = sockio_msgs-vcon_msgs (λ p. none) (λ i. answer) loop
