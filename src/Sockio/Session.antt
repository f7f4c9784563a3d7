-- ===== src/Sockio/Session.antt =====
-- A socket in use: what the client, the timer device and the socket do to a handle of sockio.c, as
-- events. `sockio_replace_recv_buffer` is not among them: no caller of the repository uses it.
use rcli.Common.{
  ℕ, Bool, true, Option, none, some, List, [], ◌∷◌, ◌++◌, ◌==◌, ◌&&◌, not, is_null, if◌then◌else◌,
  count, remove, Ram,
}
use rcli.Timer.{Timer, TimerAnswer, find_job}
use rcli.Sockio.{Sockio, sockio_init, sockio_free_msg}
use rcli.Sockio.Submit.{sockio_recv, sockio_send, sockio_wait_char, sockio_push_back}
use rcli.Sockio.Wait.{Selected, sockio_flush}
use rcli.Sockio.Handle.{sockio_wait_handle}

-- The handle, and the messages that the client has taken from its port.
pub record Client : Type 0 where
  pub sio : Sockio
  pub held : List ℕ

pub data Event : Type 0 where
  -- the client submits a read, a write or a wait
  reads : ℕ → ℕ → ℕ → Event
  sends : ℕ → ℕ → Event
  waits : TimerAnswer → ℕ → Event
  -- the time of a job is over
  fires : ℕ → Event
  -- the client calls `sockio_wait_handle`
  handles : ℕ → Selected → Event
  -- the client takes a message from its port, and frees one that it holds
  takes : Event
  frees : ℕ → Event
  pushes : ℕ → ℕ → Event
  flushes : Event

-- Memory for a job is not NULL, and not that of a job that runs.
abbrev pub is_fresh : Timer → Option ℕ → Bool
is_fresh th none = true
is_fresh th (some a) = not (a == 0) && is_null (find_job a th.job_list)

abbrev pub fire : Sockio → ℕ → Sockio
fire sio a =
    if is_null (find_job a sio.timer.job_list)
    then sio
    else record sio { timer = record (sio.timer) { port = sio.timer.port ++ (a ∷ []) } }

unfoldable pub step : Event → Client → Client
step (reads buf max_size min_size) c = record c {
  sio = (sockio_recv c.sio buf max_size min_size).1;
}
step (sends buf size) c = record c { sio = (sockio_send c.sio buf size).1 }
step (waits answer us) c =
    if is_fresh c.sio.timer answer.job
    then record c { sio = (sockio_wait_char c.sio answer us).1 }
    else c
step (fires a) c = record c { sio = fire c.sio a }
step (handles mask sel) c = record c { sio = (sockio_wait_handle c.sio mask sel).0 }
step takes c = elim c.sio.user_port [
  | [] ↦ c
  | i ∷ rest ↦ record { sio = record (c.sio) { user_port = rest }; held = i ∷ c.held }
]
step (frees i) c =
    if count i c.held == 0
    then c
    else record { sio = sockio_free_msg c.sio i; held = remove i c.held }
step (pushes buf n) c = record c { sio = (sockio_push_back c.sio buf n).1 }
step flushes c = record c { sio = sockio_flush c.sio }

unfoldable pub drive : List Event → Client → Client
drive [] c = c
drive (e ∷ es) c = drive es (step e c)

unfoldable pub fresh : ℕ → ℕ → ℕ → ℕ → ℕ → Ram → Client
fresh max_msgs push_back_size base msg_bit timer_bit ram = record {
  sio = sockio_init max_msgs push_back_size base msg_bit timer_bit ram;
  held = [];
}
