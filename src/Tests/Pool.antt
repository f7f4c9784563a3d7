-- ===== src/Tests/Pool.antt =====
-- A read, a write and a wait on one socket, through several rounds, for amiga/rclid/sockio.c.
use rcli.Common.{◌++◌, ℕ, ◌≡◌, refl, some, true, List, [], ◌∷◌, Ram}
use rcli.Timer.{timer_init, TimerAnswer, timer_start, new_job}
use rcli.Sockio.{sockio_init, alloc_msg}
use rcli.Sockio.Submit.{sockio_send, sockio_recv, sockio_wait_char}
use rcli.Sockio.Wait.{Selected, received, took}
use rcli.Sockio.Session.{Event, reads, sends, waits, handles, takes, frees, step, drive, fresh}
use rcli.Sockio.Links.{Link, places}
use rcli.Sockio.Fifo.{drive-writes, given}
use rcli.Sockio.Writes.{writes}
use rcli.Sockio.Conservation.{drive-places, drive-Link}

abbrev no_ram : Ram
no_ram a = 0

abbrev job_at : ℕ → TimerAnswer
job_at a = record { job = some a; opens = true }

-- The port's signal comes, and the socket has two bytes and takes one.
abbrev one_round : Selected
one_round = record {
  result = some 1;
  got_mask = 2;
  rx_set = true;
  tx_set = true;
  rx = received (b'a' ∷ b'b' ∷ []);
  tx = took 1;
}

abbrev script : List Event
script =
    reads 2000 8 1
    ∷ sends 1000 1
    ∷ handles 0 one_round
    ∷ handles 0 one_round
    ∷ takes
    ∷ frees 0
    ∷ waits (job_at 64) 500
    ∷ []

drive-places_example :
    let c = drive script (fresh 4 16 3000 1 2 no_ram) in places c.sio c.held 1 ≡ 1
drive-places_example = drive-places 4 16 3000 1 2 no_ram script 1

abbrev waiting_script : List Event
waiting_script = reads 2000 8 1 ∷ waits (job_at 64) 500 ∷ []

drive-Link_example :
    Link (drive waiting_script (fresh 4 16 3000 1 2 no_ram)).sio 64 (new_job 64 0 500 1)
unfolding drive step fresh sockio_init sockio_recv sockio_wait_char alloc_msg timer_start timer_init
drive-Link_example = drive-Link 4 16 3000 1 2 no_ram waiting_script 64 (new_job 64 0 500 1) refl

drive-writes_example :
    let c = fresh 4 16 3000 1 2 no_ram in given script c ++ writes (drive script c).sio ≡ 1 ∷ []
unfolding step fresh sockio_init sockio_send alloc_msg sockio_recv
drive-writes_example = drive-writes 4 16 3000 1 2 no_ram script
