-- ===== src/Vcon.antt =====
-- amiga/rclid/vcon.c, vcon.h: the virtual console. A message pool is lent to the client, and each
-- DOS packet is answered at once or through a lent message. A message is named by its index in
-- `vmsgs`, a packet, port, task or file handle by its address.
pub mod Packets
pub mod Signals
pub mod Session
pub mod Books
pub mod Handled
pub mod Once
pub mod Conservation
pub mod Flushing
pub mod Targets
pub mod Drained
pub mod Memory
use rcli.Common.{
  ℕ, ◌+◌, ◌-◌, ◌^◌, ◌%◌, Bool, true, false, not, ◌&&◌, Option, none, some, List, [], ◌∷◌, ◌++◌, ltb,
  ◌==◌, if◌then◌else◌, bit_and, bit_or, range, update,
}

-- `VCON_MSG_*`
pub data MsgType : Type 0 where
  read write wait_char buffer_mode end error free : MsgType

-- `vcon_msg_t`. `private` is the DOS packet that waits for the message.
pub record VconMsg : Type 0 where
  pub private : Option ℕ
  pub buf_data : ℕ
  pub size : ℕ
  pub type : MsgType
  pub buffer_mode : ℕ

-- `VCON_STATE_*`
pub data State : Type 0 where
  opened close error flush : State

abbrev pub is_flush : State → Bool
is_flush flush = true
is_flush _ = false

abbrev pub is_error : State → Bool
is_error error = true
is_error _ = false

-- `dp_Type`, for the values that the handler tells apart.
pub data Action : Type 0 where
  findinput findoutput findupdate end change_signal screen_mode disk_info undisk_info : Action
  write read seek wait_char : Action
  other : ℕ → Action

-- `struct DosPacket`. Arguments are 32-bit patterns.
pub record DosPacket : Type 0 where
  pub address : ℕ
  pub dp_type : Action
  pub dp_port : ℕ
  pub dp_arg1 : ℕ
  pub dp_arg2 : ℕ
  pub dp_arg3 : ℕ

-- A `ReplyPkt` call.
pub record PktReply : Type 0 where
  pub pkt : ℕ
  pub res1 : ℕ
  pub res2 : ℕ

-- What the handler does to a file handle, an `InfoData` or a task.
pub data Effect : Type 0 where
  init_fh : ℕ → Effect
  set_info : ℕ → ℕ → Effect
  signal : ℕ → ℕ → Effect

-- `vcon_handle`, with the ports' queues. `task_of` is `mp_SigTask` of a port; `replies` and
-- `effects` log the calls into DOS and exec, oldest first.
pub record Vcon : Type 0 where
  pub pkt_port : List DosPacket
  pub read_signal_port : Option ℕ
  pub write_signal_port : Option ℕ
  pub user_port : List ℕ
  pub vmsg_port : List ℕ
  pub free_vmsg_list : List ℕ
  pub vmsgs : ℕ → VconMsg
  pub max_msgs : ℕ
  pub pkt_sigmask : ℕ
  pub vmsg_sigmask : ℕ
  pub open_cnt : ℕ
  pub buffer_mode : ℕ
  pub state : State
  pub replies : List PktReply
  pub effects : List Effect

-- DOS results: `DOSTRUE` is -1.
abbrev pub dos_true : ℕ
dos_true = 2 ^ 32 - 1

abbrev pub dos_false : ℕ
dos_false = 0

abbrev pub error_no_free_store : ℕ
error_no_free_store = 103

abbrev pub error_action_not_known : ℕ
error_action_not_known = 209

abbrev pub error_object_wrong_type : ℕ
error_object_wrong_type = 212

abbrev pub mode_unsupported : ℕ
mode_unsupported = 0xff

abbrev pub mode_cooked : ℕ
mode_cooked = 0

abbrev pub mode_raw : ℕ
mode_raw = 1

abbrev pub mode_medium : ℕ
mode_medium = 2

abbrev pub no_msg : VconMsg
no_msg = record { private = none; buf_data = 0; size = 0; type = free; buffer_mode = 0 }

-- `vcon_init` once memory and ports are there: `pkt_bit` and `vmsg_bit` are the ports' signal
-- bits. `max_msgs` is at least 8.
unfoldable pub vcon_init : ℕ → ℕ → ℕ → Vcon
vcon_init max_msgs pkt_bit vmsg_bit =
    let n = if ltb max_msgs 8 then 8 else max_msgs in
    record {
      pkt_port = [];
      read_signal_port = none;
      write_signal_port = none;
      user_port = [];
      vmsg_port = [];
      free_vmsg_list = range 0 n;
      vmsgs = λ i. no_msg;
      max_msgs = n;
      pkt_sigmask = 2 ^ pkt_bit;
      vmsg_sigmask = 2 ^ vmsg_bit;
      open_cnt = 0;
      buffer_mode = 0;
      state = close;
      replies = [];
      effects = [];
    }

-- `vcon_create_fh`, with the result of `AllocDosObjectTags`: the new handle's address, or `none`.
unfoldable pub vcon_create_fh : Vcon → Option ℕ → Option ℕ × Vcon
vcon_create_fh sh fh = if is_error sh.state then (none, sh) else elim fh [
  | none ↦ (none, sh)
  | some a ↦ (
    some a,
    record sh {
      open_cnt = (sh.open_cnt + 1) % 2 ^ 32;
      state = opened;
      effects = sh.effects ++ (init_fh a ∷ []);
    },
  )
]

unfoldable pub vcon_get_sigmask : Vcon → ℕ
vcon_get_sigmask sh = bit_or sh.pkt_sigmask sh.vmsg_sigmask

-- `alloc_vmsg`: the message's index, or `none` where the free list is empty.
unfoldable pub alloc_vmsg : Vcon → MsgType → ℕ → ℕ → Option ℕ → Option (ℕ × Vcon)
alloc_vmsg sh type buf_data size private = elim sh.free_vmsg_list [
  | [] ↦ none
  | i ∷ rest ↦ some (
    i,
    record sh {
      free_vmsg_list = rest;
      vmsgs = update sh.vmsgs i (record {
        private = private;
        buf_data = buf_data;
        size = size;
        type = type;
        buffer_mode = sh.buffer_mode;
      });
    },
  )
]

unfoldable pub free_vmsg : Vcon → ℕ → Vcon
free_vmsg sh i = record sh {
  free_vmsg_list = sh.free_vmsg_list ++ (i ∷ []);
  vmsgs = update sh.vmsgs i (record (sh.vmsgs i) { type = free });
}

unfoldable pub reply_pkt : Vcon → ℕ → ℕ → ℕ → Vcon
reply_pkt sh pkt res1 res2 = record sh {
  replies = sh.replies ++ (record { pkt = pkt; res1 = res1; res2 = res2 } ∷ []);
}

-- `PutMsg(sh->user_port, vmsg)`
abbrev pub put_user : Vcon → ℕ → Vcon
put_user sh i = record sh { user_port = sh.user_port ++ (i ∷ []) }
