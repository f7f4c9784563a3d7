-- ===== src/Sockio.antt =====
-- amiga/rclid/sockio.c, sockio.h: asynchronous reads, writes and waits on one socket. A message is
-- named by its index in `msgs`; `ram` is the memory that buffers point into.
pub mod Submit
pub mod Wait
pub mod Handle
pub mod Stream
pub mod Receive
pub mod Flush
pub mod Submitted
pub mod Race
pub mod Replace
pub mod Session
pub mod Links
pub mod Answered
pub mod Moves
pub mod Rounds
pub mod Posted
pub mod Conservation
pub mod Transfers
pub mod Calm
pub mod Writes
pub mod Ordered
pub mod Enlisted
pub mod Waited
pub mod Queued
pub mod Issued
pub mod Fifo
pub mod Still
pub mod Frames
pub mod Sent
pub mod Drained
pub mod Memory
use rcli.Common.{
  ℕ, ◌+◌, ◌-◌, ◌^◌, ◌%◌, Bool, true, false, not, ◌&&◌, Option, none, some, List, [], ◌∷◌, ◌++◌,
  ◌==◌, if◌then◌else◌, range, update, Ram, bit_or, ltb,
}
use rcli.Timer.{Timer, timer_init}

-- `SOCKIO_MSG_*`
pub data MsgType : Type 0 where
  recv send wait_char error free : MsgType

-- `SOCKIO_STATE_*`
pub data State : Type 0 where
  ok eof error : State

abbrev pub is_error : State → Bool
is_error error = true
is_error _ = false

-- `sockio_msg_t`. For a wait, `buf_data` is the address of its timer job.
pub record SockioMsg : Type 0 where
  pub user_data : Option ℕ
  pub buf_data : ℕ
  pub size : ℕ
  pub min_size : ℕ
  pub type : MsgType

-- `sockio_handle`, with the ports' queues. `sent` logs the bytes that `send` took, oldest first.
pub record Sockio : Type 0 where
  pub user_port : List ℕ
  pub msg_port : List ℕ
  pub free_list : List ℕ
  pub recv_list : List ℕ
  pub send_list : List ℕ
  pub wait_list : List ℕ
  pub msgs : ℕ → SockioMsg
  pub timer : Timer
  pub max_msgs : ℕ
  pub rx_actual : ℕ
  pub tx_actual : ℕ
  pub msg_mask : ℕ
  pub timer_mask : ℕ
  pub state : State
  pub push_back_base : ℕ
  pub push_back_buf : ℕ
  pub push_back_size : ℕ
  pub push_back_max : ℕ
  pub ram : Ram
  pub sent : List ℕ

abbrev pub error_wait : ℕ
error_wait = 0

abbrev pub error_io : ℕ
error_io = 1

-- ULONG subtraction.
abbrev pub sub_ulong : ℕ → ℕ → ℕ
sub_ulong a b = (a + 2 ^ 32 - b) % 2 ^ 32

abbrev pub no_msg : SockioMsg
no_msg = record { user_data = none; buf_data = 0; size = 0; min_size = 0; type = free }

-- `sockio_init` once memory and ports are there: `base` is the push back buffer, of
-- `push_back_size` bytes.
unfoldable pub sockio_init : ℕ → ℕ → ℕ → ℕ → ℕ → Ram → Sockio
sockio_init max_msgs push_back_size base msg_bit timer_bit ram = record {
  user_port = [];
  msg_port = [];
  free_list = range 0 max_msgs;
  recv_list = [];
  send_list = [];
  wait_list = [];
  msgs = λ i. no_msg;
  timer = timer_init;
  max_msgs = max_msgs;
  rx_actual = 0;
  tx_actual = 0;
  msg_mask = 2 ^ msg_bit;
  timer_mask = 2 ^ timer_bit;
  state = ok;
  push_back_base = base;
  push_back_buf = 0;
  push_back_size = 0;
  push_back_max = push_back_size;
  ram = ram;
  sent = [];
}

-- `alloc_msg`: the message's index, or `none` where the free list is empty.
unfoldable pub alloc_msg : Sockio → MsgType → ℕ → ℕ → ℕ → Option (ℕ × Sockio)
alloc_msg sio type buf_data size min_size = elim sio.free_list [
  | [] ↦ none
  | i ∷ rest ↦ some (
    i,
    record sio {
      free_list = rest;
      msgs = update sio.msgs i (record {
        user_data = none;
        buf_data = buf_data;
        size = size;
        min_size = min_size;
        type = type;
      });
    },
  )
]

unfoldable pub sockio_free_msg : Sockio → ℕ → Sockio
sockio_free_msg sio i = record sio {
  free_list = sio.free_list ++ (i ∷ []);
  msgs = update sio.msgs i (record (sio.msgs i) { type = free });
}

-- `ReplyMsg`: the message goes to the user's port.
abbrev pub reply_msg : Sockio → ℕ → Sockio
reply_msg sio i = record sio { user_port = sio.user_port ++ (i ∷ []) }

-- `PutMsg(sio->msg_port, msg)`
abbrev pub put_msg : Sockio → ℕ → Sockio
put_msg sio i = record sio { msg_port = sio.msg_port ++ (i ∷ []) }

abbrev pub set_size : Sockio → ℕ → ℕ → Sockio
set_size sio i size = record sio { msgs = update sio.msgs i (record (sio.msgs i) { size = size }) }

abbrev pub head? : List ℕ → Option ℕ
head? [] = none
head? (x ∷ xs) = some x

-- `RemHead`, for a list that is known to hold something.
abbrev pub rest_of : List ℕ → List ℕ
rest_of [] = []
rest_of (x ∷ xs) = xs
