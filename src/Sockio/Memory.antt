-- ===== src/Sockio/Memory.antt =====
-- What `sockio_init` allocates and `sockio_exit` frees.
use rcli.Common.{
  ◌≡◌, ℕ, if◌then◌else◌, alloc_all, Option, none, some, List, [], ltb, System, alloc_vec,
  create_port, free_vec, delete_port,
}
use rcli.Timer.Memory
use rcli.Timer.Memory.{timer_init_memory, timer_exit_memory}

-- The address of the handle, and its pointers to what it owns, which are NULL at first.
pub record Parts : Type 0 where
  pub sio : ℕ
  pub push_back_base : Option ℕ
  pub msg_port : Option ℕ
  pub msgs : Option ℕ
  pub timer : Option Memory.Parts

abbrev exit_timer : Option Memory.Parts → List ℕ → System → System
exit_timer none jobs sys = sys
exit_timer (some timer) jobs sys = timer_exit_memory timer jobs sys

-- `push_back_buf` is what is freed where there is a push back buffer.
abbrev free_buf : Option ℕ → Option ℕ → System → System
free_buf none buf sys = sys
free_buf (some base) buf sys = free_vec buf sys

-- `sockio_exit` with what `push_back_buf` points to, and the timer jobs that run.
unfoldable pub sockio_exit_memory : Parts → Option ℕ → List ℕ → System → System
sockio_exit_memory parts buf jobs sys = free_vec (some parts.sio) (
    free_buf parts.push_back_base buf
      (delete_port parts.msg_port (free_vec parts.msgs (exit_timer parts.timer jobs sys))))

abbrev parts_of : ℕ → Option ℕ → Option ℕ → Option ℕ → Option Memory.Parts → Parts
parts_of sio base msg_port msgs timer = record {
  sio = sio;
  push_back_base = base;
  msg_port = msg_port;
  msgs = msgs;
  timer = timer;
}

-- The jump to `fail`: nothing was pushed back, and no job runs.
abbrev fail : Parts → System → Option Parts × System
unfolding sockio_exit_memory
fail parts sys = (none, sockio_exit_memory parts none [] sys)

abbrev set_up_timer : Parts → Option Memory.Parts × System → Option Parts × System
unfolding fail
set_up_timer parts (none, sys) = fail parts sys
set_up_timer parts (some timer, sys) = (some (record parts { timer = some timer }), sys)

-- `sockio_init` once the push back buffer is there, if there is one.
unfoldable pub set_up :
    ℕ → Option ℕ → Option ℕ → Option ℕ → Option ℕ → Option ℕ → System → Option Parts × System
unfolding fail set_up_timer
set_up sio base none msgs th timer_port sys = fail (parts_of sio base none none none) sys
set_up sio base (some port) none th timer_port sys =
    fail (parts_of sio base (some port) none none) (create_port (some port) sys)
set_up sio base (some port) (some msgs) th timer_port sys =
    set_up_timer (parts_of sio base (some port) (some msgs) none)
      (timer_init_memory th timer_port (alloc_vec (some msgs) (create_port (some port) sys)))

-- The handle or NULL. The arguments are the size of the push back buffer, and the address that each
-- allocation gives: the handle, that buffer, its port and messages, the timer and its port.
unfoldable pub sockio_init_memory :
    ℕ
    → Option ℕ
    → Option ℕ
    → Option ℕ
    → Option ℕ
    → Option ℕ
    → Option ℕ
    → System
    → Option Parts × System
unfolding fail set_up
sockio_init_memory size none base msg_port msgs th timer_port sys = (none, sys)
sockio_init_memory size (some sio) base msg_port msgs th timer_port sys =
    let sys1 = alloc_vec (some sio) sys in
    if ltb 0 size
    then elim base [
      | none ↦ fail (parts_of sio none none none none) sys1
      | some b ↦ set_up sio (some b) msg_port msgs th timer_port (alloc_vec (some b) sys1)
    ]
    else set_up sio none msg_port msgs th timer_port sys1

-- The push back buffer that was allocated.
abbrev pub base_of : ℕ → Option ℕ → Option ℕ → Option ℕ
base_of size none base = none
base_of size (some sio) base = if ltb 0 size then base else none

-- What is left of an attempt: where it gives NULL, the push back buffer; where it does not and jobs
-- were started, the push back buffer too if `push_back_buf` is NULL at the end, and nothing if it
-- points to the start of the buffer.
abbrev pub Leaves : Option ℕ → List ℕ → System → Option Parts × System → Type 0
Leaves base jobs sys (none, sys') = sys' ≡ alloc_vec base sys
Leaves base jobs sys (some parts, sys') =
    (sockio_exit_memory parts none jobs (alloc_all jobs sys') ≡ alloc_vec base sys)
    × (sockio_exit_memory parts base jobs (alloc_all jobs sys') ≡ sys)

module _ (sio : ℕ) (sys : System) where
  -- The handle and the push back buffer, and how the end of `sockio_exit` leaves them.
  abbrev buffered : Option ℕ → System
  buffered base = alloc_vec base (alloc_vec (some sio) sys)

  abbrev ends : Option ℕ → Option ℕ → System → System
  ends base buf s = free_vec (some sio) (free_buf base buf s)
