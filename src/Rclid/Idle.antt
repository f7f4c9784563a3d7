-- ===== src/Rclid/Idle.antt =====
-- `is_sockio_idle` of rclid.c against `sockio_has_pending` of sockio.c.
use rcli.Common.{arith, ◌≡◌, not}
use rcli.Sockio.{Sockio}
use rcli.Sockio.Submit.{sockio_has_pending, sockio_first_recv, sockio_first_wait, sockio_first_send}
use rcli.Rclid.Loop.{is_sockio_idle}

-- The server takes the socket for idle just where the socket layer has no read, wait or send
-- pending.
is_sockio_idle-sockio_has_pending :
    (sio : Sockio) → is_sockio_idle sio ≡ not (sockio_has_pending sio)
unfolding is_sockio_idle sockio_has_pending sockio_first_recv sockio_first_wait sockio_first_send
is_sockio_idle-sockio_has_pending sio = ground arith
