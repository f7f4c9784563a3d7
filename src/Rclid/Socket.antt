-- ===== src/Rclid/Socket.antt =====
-- `handle_sockio_msg` of rclid.c with the treatment of what was read: lines split off, signals
-- taken out.
use rcli.Common.{
  ℕ, zero, suc, ◌+◌, ◌-◌, Option, none, some, List, ltb, ◌==◌, ◌&&◌, if◌then◌else◌, get_or, Ram,
  bit_or,
}
use rcli.Conv.{conv_extract_signals}
use rcli.Vcon.{mode_cooked}
use rcli.Vcon.Signals.{vcon_send_signal}
use rcli.Sockio.{MsgType, sockio_free_msg}
use rcli.Sockio.Submit.{sockio_recv, sockio_push_back}
use rcli.Rclid.{
  ServData, HandleResult, ErrorText, error_out, reply_vmsg, set_vmsg, link, has_flag,
  flag_parse_signals, flag_split_lines,
}

-- `SIGBREAKF_CTRL_C` and the three that follow.
abbrev pub signal_bits : List ℕ → ℕ
signal_bits counts =
    bit_or
      (bit_or (if ltb 0 (get_or counts 0 0) then 0x1000 else 0)
        (if ltb 0 (get_or counts 1 0) then 0x2000 else 0))
      (bit_or (if ltb 0 (get_or counts 2 0) then 0x4000 else 0)
        (if ltb 0 (get_or counts 3 0) then 0x8000 else 0))

-- The buffer of a console message and the rest of the data, as the treatments pass them on.
abbrev pub set_vmsg_size : ServData → ℕ → ℕ → ServData
set_vmsg_size sd i n = set_vmsg sd i (record (sd.vcon.vmsgs i) { size = n })

abbrev pub with_ram : ServData → Ram → ServData
with_ram sd ram = record sd { sockio = record (sd.sockio) { ram = ram } }

unfoldable pub process_signals_in_buffer : (ℕ → Option ℕ) → ServData → ℕ → ServData
process_signals_in_buffer task_of sd i =
    let vmsg = sd.vcon.vmsgs i in
    let e =
      conv_extract_signals sd.sockio.ram (record { buf_data = vmsg.buf_data; size = vmsg.size }) in
    let sd1 = set_vmsg_size (with_ram sd e.ram) i e.buf.size in
    if ltb 0 e.changes
    then record sd1 { vcon = (vcon_send_signal task_of sd1.vcon (signal_bits e.counts)).0 }
    else sd1

-- The index behind the first line feed among `n` bytes from index `i` on, or the end.
unfoldable pub line_end : Ram → ℕ → ℕ → ℕ → ℕ
line_end ram base i zero = i
line_end ram base i (suc n) =
    let rest = line_end ram base (i + 1) n in if ram (base + i) == 0x0a then i + 1 else rest

-- The size shrinks also where the rest could not be pushed back.
unfoldable pub line_split_buffer : ServData → ℕ → ServData
line_split_buffer sd i =
    let vmsg = sd.vcon.vmsgs i in
    let n = line_end sd.sockio.ram vmsg.buf_data 0 vmsg.size in
    if ltb n (vmsg.size - 1)
    then (let (ok, sio) = sockio_push_back sd.sockio (vmsg.buf_data + n) (vmsg.size - n) in
        set_vmsg_size (record sd { sockio = sio }) i n)
    else sd

-- What becomes of the two messages: `none` is a pointer set to NULL.
pub record Finish : Type 0 where
  pub result : HandleResult
  pub msg : Option ℕ
  pub vmsg : Option ℕ
  pub sd : ServData

-- Nothing is left of the read: the socket message is freed, and a new read takes its place.
unfoldable pub read_again : ServData → ℕ → ℕ → ℕ → Finish
read_again sd m i old_size =
    let sio = sockio_free_msg sd.sockio m in
    let (new_msg, sio1) = sockio_recv sio (sd.vcon.vmsgs i).buf_data old_size 1 in
    elim new_msg [
      | none ↦ record {
        result = HandleResult.error;
        msg = none;
        vmsg = some i;
        sd = error_out (record sd { sockio = sio1 }) ErrorText.recv_failed;
      }
      | some k ↦ record {
        result = HandleResult.ok;
        msg = none;
        vmsg = none;
        sd = record sd { sockio = link sio1 k i };
      }
    ]

abbrev pub treat : (ℕ → Option ℕ) → ServData → ℕ → ServData
treat task_of sd i =
    let sd1 =
      if has_flag sd.flags flag_split_lines && sd.buffer_mode == mode_cooked
      then line_split_buffer sd i
      else sd in
    if has_flag sd1.flags flag_parse_signals then process_signals_in_buffer task_of sd1 i else sd1

unfoldable pub on_recv : (ℕ → Option ℕ) → ServData → ℕ → ℕ → Finish
on_recv task_of sd m i =
    let old_size = (sd.vcon.vmsgs i).size in
    let size = (sd.sockio.msgs m).size in
    let sd1 = set_vmsg_size sd i size in
    let done : Finish = record {
      result = HandleResult.ok;
      msg = some m;
      vmsg = some i;
      sd = sd1;
    } in
    if size == 0
    then done
    else (let sd2 = treat task_of sd1 i in
        if (sd2.vcon.vmsgs i).size == 0
        then read_again sd2 m i old_size
        else record { result = HandleResult.ok; msg = some m; vmsg = some i; sd = sd2 })

-- A read and a wait always carry a console message; without one the data stay as they are.
unfoldable pub on_sockio_msg : MsgType → (ℕ → Option ℕ) → ServData → ℕ → Option ℕ → Finish
on_sockio_msg MsgType.recv task_of sd m (some i) = on_recv task_of sd m i
on_sockio_msg MsgType.wait_char task_of sd m (some i) = record {
  result = HandleResult.ok;
  msg = some m;
  vmsg = some i;
  sd = set_vmsg_size sd i (sd.sockio.msgs m).size;
}
on_sockio_msg MsgType.error task_of sd m vmsg = record {
  result = HandleResult.error;
  msg = some m;
  vmsg = vmsg;
  sd = sd;
}
on_sockio_msg _ task_of sd m vmsg = record {
  result = HandleResult.ok;
  msg = some m;
  vmsg = vmsg;
  sd = sd;
}

abbrev pub free_if : Option ℕ → ServData → ServData
free_if none sd = sd
free_if (some m) sd = record sd { sockio = sockio_free_msg sd.sockio m }

abbrev pub reply_if : Option ℕ → ServData → ServData
reply_if none sd = sd
reply_if (some i) sd = reply_vmsg sd i

unfoldable pub handle_sockio_msg : (ℕ → Option ℕ) → ServData → ℕ → HandleResult × ServData
handle_sockio_msg task_of sd m =
    let msg = sd.sockio.msgs m in
    let f = on_sockio_msg msg.type task_of sd m msg.user_data in
    (f.result, reply_if f.vmsg (free_if f.msg f.sd))
