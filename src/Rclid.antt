-- ===== src/Rclid.antt =====
-- amiga/rclid/rclid.c, rclid.h: the server's data, its options, and what it answers to.
pub mod Console
pub mod Socket
pub mod Loop
pub mod Lines
pub mod Requests
pub mod Activity
pub mod Idle
pub mod Options
pub mod Replies
pub mod Setup
pub mod Ends
pub mod Cargo
pub mod Drained
pub mod Session
pub mod Ledger
use Prim.Native.Nat.{bit_xor}
use rcli.Common.{
  ℕ, ◌+◌, ◌-◌, ◌^◌, Bool, true, false, Option, none, some, List, [], ◌∷◌, ◌++◌, ◌==◌, if◌then◌else◌,
  bit_and, bit_or, update, not,
}
use rcli.Vcon.{Vcon, VconMsg}
use rcli.Sockio.{Sockio, SockioMsg}

-- `params_t`, what `ReadArgs` gives. A text is its address.
pub record Params : Type 0 where
  pub stack_size : Option ℕ
  pub max_msgs : Option ℕ
  pub init_wait : Option ℕ
  pub def_command : Option ℕ
  pub def_shell_cmd : Option ℕ
  pub no_signals : Option ℕ
  pub no_split : Option ℕ
  pub arg_len : Option ℕ
  pub push_back_size : Option ℕ

-- `serv_options_t`
pub record ServOptions : Type 0 where
  pub stack_size : ℕ
  pub max_msgs : ℕ
  pub init_wait : ℕ
  pub push_back_max : ℕ
  pub arg_len : ℕ
  pub def_command : Option ℕ
  pub def_shell_cmd : Option ℕ
  pub flags : ℕ

abbrev pub flag_parse_signals : ℕ
flag_parse_signals = 1

abbrev pub flag_split_lines : ℕ
flag_split_lines = 2

abbrev pub flag_do_medium_mode : ℕ
flag_do_medium_mode = 4

abbrev pub flag_send_mode : ℕ
flag_send_mode = 8

abbrev pub has_flag : ℕ → ℕ → Bool
has_flag flags f = not (bit_and flags f == 0)

-- `flags &= ~f`, on 32 bits
abbrev pub clear_flag : ℕ → ℕ → ℕ
clear_flag flags f = bit_and flags (bit_xor (2 ^ 32 - 1) f)

abbrev pub value_or : Option ℕ → ℕ → ℕ
value_or none d = d
value_or (some v) d = v

abbrev pub unless : Option ℕ → (ℕ → ℕ) → ℕ → ℕ
unless none f x = x
unless (some v) f x = f x

-- `parse_options`, on options that start as zero.
unfoldable pub parse_options : Params → ServOptions
parse_options params = record {
  stack_size = value_or params.stack_size 8192;
  max_msgs = value_or params.max_msgs 8;
  init_wait = value_or params.init_wait 200;
  push_back_max = value_or params.push_back_size 1024;
  arg_len = value_or params.arg_len 256;
  def_command = params.def_command;
  def_shell_cmd = params.def_shell_cmd;
  flags =
      unless params.no_split (λ f. clear_flag f flag_split_lines)
        (unless params.no_signals (λ f. clear_flag f flag_parse_signals)
          (bit_or flag_parse_signals flag_split_lines));
}

pub data Mode : Type 0 where
  shell command : Mode

-- The texts that `error_out` sends.
pub data ErrorText : Type 0 where
  buffer_mode_send send_failed recv_failed wait_failed out_of_memory : ErrorText

-- `serv_data_t`, with what runs behind it. `errors` logs `error_out`.
pub record ServData : Type 0 where
  pub options : ServOptions
  pub vcon : Vcon
  pub sockio : Sockio
  pub tmp_tx_buf : ℕ
  pub arg_line : Option ℕ
  pub arg_len : ℕ
  pub buffer_mode : ℕ
  pub mode : Mode
  pub flags : ℕ
  pub errors : List ErrorText

-- `HANDLE_*`
pub data HandleResult : Type 0 where
  ok error end : HandleResult

abbrev pub error_out : ServData → ErrorText → ServData
error_out sd text = record sd { errors = sd.errors ++ (text ∷ []) }

-- `ReplyMsg(vmsg)`: the message goes back to the console's port.
abbrev pub reply_vmsg : ServData → ℕ → ServData
reply_vmsg sd i = record sd {
  vcon = record (sd.vcon) { vmsg_port = sd.vcon.vmsg_port ++ (i ∷ []) };
}

abbrev pub set_vmsg : ServData → ℕ → VconMsg → ServData
set_vmsg sd i vmsg = record sd { vcon = record (sd.vcon) { vmsgs = update sd.vcon.vmsgs i vmsg } }

-- `msg->user_data = vmsg`
abbrev pub link : Sockio → ℕ → ℕ → Sockio
link sio m i = record sio { msgs = update sio.msgs m (record (sio.msgs m) { user_data = some i }) }
