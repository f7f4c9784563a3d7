-- ===== src/Rclid/Session.antt =====
-- The server of rclid.c in use: what the applications, DOS, the timer device and the system do to
-- it, as events.
use rcli.Common.{ℕ, Bool, true, Option, List, [], ◌∷◌, ◌++◌, ◌&&◌, ◌||◌, if◌then◌else◌, bit_or, Ram}
use rcli.Timer.{TimerAnswer}
use rcli.Vcon.{DosPacket, vcon_create_fh, vcon_get_sigmask, vcon_init}
use rcli.Sockio.Session
use rcli.Sockio.Session.{Client, is_fresh, fire, drive, fresh}
use rcli.Sockio.Handle.{sockio_wait_handle}
use rcli.Rclid.{ServData, ServOptions}
use rcli.Rclid.Loop.{Loop, Masks, Round, one_vcon_msg, do_vcon, do_sockio, round, start_loop}

-- The loop's data, and every packet that an application ever sent.
pub record Server : Type 0 where
  pub loop : Loop
  pub arrived : List ℕ

pub data Event : Type 0 where
  -- an application sends a packet
  arrives : DosPacket → Event
  -- a file handle of the console is opened, and DOS gives it this memory
  opens : Option ℕ → Event
  -- the time of a job is over
  fires : ℕ → Event
  -- one round of the loop, with what the system answers in it
  rounds : Masks → Round → Event

-- What the round finds at the socket and the console.
abbrev pub wakes : Masks → Round → Loop → Loop × ℕ
wakes masks r l =
    let vcon_mask = vcon_get_sigmask l.sd.vcon in
    let all =
      bit_or (bit_or masks.run_mask vcon_mask)
        (bit_or masks.vport_mask (bit_or masks.sport_mask masks.break_mask)) in
    let (sio, got) = sockio_wait_handle l.sd.sockio all r.selected in
    (record l { sd = record (l.sd) { sockio = sio } }, got)

-- The round up to where it turns to the console's port.
abbrev pub before_console : Masks → Round → Loop → Loop
before_console masks r l =
    let (l1, got) = wakes masks r l in
    do_sockio masks got (do_vcon (vcon_get_sigmask l.sd.vcon) got l1)

-- Memory for a timer job is never that of a job that runs, nor NULL.
unfoldable pub granted : (ℕ → TimerAnswer) → List ℕ → Loop → Bool
granted answer [] l = true
granted answer (i ∷ is) l =
    is_fresh l.sd.sockio.timer (answer i).job && granted answer is (one_vcon_msg (answer i) i is l)

abbrev pub is_granted : Masks → Round → Loop → Bool
is_granted masks r l = let l1 = before_console masks r l in granted r.answer l1.sd.vcon.user_port l1

abbrev pub set_data : Server → ServData → Server
set_data s sd = record s { loop = record (s.loop) { sd = sd } }

-- A round needs a side that is active, and memory as the system gives it.
unfoldable pub step : Event → Server → Server
step (arrives pkt) s =
    let sd = s.loop.sd in
    record (set_data s
      (record sd { vcon = record (sd.vcon) { pkt_port = sd.vcon.pkt_port ++ (pkt ∷ []) } })) {
        arrived = s.arrived ++ (pkt.address ∷ []);
      }
step (opens fh) s =
    let sd = s.loop.sd in set_data s (record sd { vcon = (vcon_create_fh sd.vcon fh).1 })
step (fires a) s = let sd = s.loop.sd in set_data s (record sd { sockio = fire sd.sockio a })
step (rounds masks r) s =
    if (s.loop.socket_active || s.loop.vcon_active) && is_granted masks r s.loop
    then record s { loop = round masks r s.loop }
    else s

unfoldable pub run : List Event → Server → Server
run [] s = s
run (e ∷ es) s = run es (step e s)

-- The signals that the system gives the console and the socket, and the memory.
pub record Grant : Type 0 where
  pub pkt_bit : ℕ
  pub vmsg_bit : ℕ
  pub msg_bit : ℕ
  pub timer_bit : ℕ
  pub push_back_base : ℕ
  pub ram : Ram

-- The socket as the handshake leaves it, after these events.
abbrev pub after_handshake : Grant → ServOptions → List Session.Event → Client
after_handshake grant opts es = drive es (
    fresh opts.max_msgs opts.push_back_max grant.push_back_base grant.msg_bit grant.timer_bit
      grant.ram)

-- The server where `main_loop` starts: a socket that the handshake has used, and a new console.
unfoldable pub start : Grant → List Session.Event → ServData → Server
start grant es sd = record {
  loop = start_loop (record sd {
    vcon = vcon_init sd.options.max_msgs grant.pkt_bit grant.vmsg_bit;
    sockio = (after_handshake grant sd.options es).sio;
  });
  arrived = [];
}
