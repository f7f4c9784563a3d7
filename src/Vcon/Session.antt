-- ===== src/Vcon/Session.antt =====
-- A console in use: what the applications, the client and the signals do to it, as events. There is
-- none for `vcon_flush`, which of the programs only a manual test calls.
use rcli.Common.{ℕ, Option, List, [], ◌∷◌, ◌++◌, ◌==◌, if◌then◌else◌, update, count, remove}
use rcli.Vcon.{Vcon, VconMsg, DosPacket, vcon_init, vcon_create_fh}
use rcli.Vcon.Signals.{vcon_handle_sigmask}

-- The handle, the messages that the client has taken from its port, and every packet that an
-- application ever sent.
pub record Console : Type 0 where
  pub vcon : Vcon
  pub held : List ℕ
  pub arrived : List ℕ

pub data Event : Type 0 where
  -- an application sends a packet
  arrives : DosPacket → Event
  -- the client opens a file handle, and DOS gives it this memory
  opens : Option ℕ → Event
  -- the client hands over signals
  handles : ℕ → Event
  -- the client takes a message from its port
  takes : Event
  -- the client replies a message that it holds, with a size and a buffer mode
  answers : ℕ → ℕ → ℕ → Event

unfoldable pub answer : VconMsg → ℕ → ℕ → VconMsg
answer vmsg size mode = record vmsg { size = size; buffer_mode = mode }

unfoldable pub step : Event → Console → Console
step (arrives pkt) c = record c {
  vcon = record c.vcon { pkt_port = c.vcon.pkt_port ++ (pkt ∷ []) };
  arrived = c.arrived ++ (pkt.address ∷ []);
}
step (opens fh) c = record c { vcon = (vcon_create_fh c.vcon fh).1 }
step (handles mask) c = record c { vcon = (vcon_handle_sigmask c.vcon mask).0 }
step takes c = elim c.vcon.user_port [
  | [] ↦ c
  | i ∷ rest ↦ record c { vcon = record c.vcon { user_port = rest }; held = i ∷ c.held }
]
step (answers i size mode) c = if count i c.held == 0 then c else record c {
  vcon = record c.vcon {
    vmsg_port = c.vcon.vmsg_port ++ (i ∷ []);
    vmsgs = update c.vcon.vmsgs i (answer (c.vcon.vmsgs i) size mode);
  };
  held = remove i c.held;
}

unfoldable pub run : List Event → Console → Console
run [] c = c
run (e ∷ es) c = run es (step e c)

-- A console as `vcon_init` leaves it.
unfoldable pub fresh : ℕ → ℕ → ℕ → Console
fresh max_msgs pkt_bit vmsg_bit = record {
  vcon = vcon_init max_msgs pkt_bit vmsg_bit;
  held = [];
  arrived = [];
}
