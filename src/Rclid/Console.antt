-- ===== src/Rclid/Console.antt =====
-- `handle_vcon_msg` and `handle_buffer_mode` of rclid.c: what the console asks goes to the socket.
use rcli.Common.{ℕ, ◌+◌, Bool, true, false, Option, none, some, ◌==◌, if◌then◌else◌, store, ◌||◌}
use rcli.Vcon.{Vcon, VconMsg, mode_unsupported, mode_cooked, mode_raw, mode_medium}
use rcli.Vcon
use rcli.Timer.{TimerAnswer}
use rcli.Sockio.{Sockio}
use rcli.Sockio.Submit.{sockio_send, sockio_recv, sockio_wait_char}
use rcli.Rclid.{
  ServData, HandleResult, ErrorText, error_out, reply_vmsg, set_vmsg, link, has_flag,
  flag_do_medium_mode, flag_send_mode,
}

-- A case of the switch: its result, whether the message is replied now, and the data.
pub record Handling : Type 0 where
  pub result : HandleResult
  pub reply : Bool
  pub sd : ServData

-- A message that was submitted waits; one that could not be is an error and is replied as it is.
unfoldable pub submitted : ServData → ℕ → ErrorText → Option ℕ × Sockio → Handling
submitted sd i text (none, sio) = record {
  result = HandleResult.error;
  reply = true;
  sd = error_out (record sd { sockio = sio }) text;
}
submitted sd i text (some m, sio) = record {
  result = HandleResult.ok;
  reply = false;
  sd = record sd { sockio = link sio m i };
}

abbrev pub accepts_mode : ServData → ℕ → Bool
accepts_mode sd mode =
    mode == mode_cooked
    || (mode == mode_raw
        || (if mode == mode_medium then has_flag sd.flags flag_do_medium_mode else false))

abbrev pub csi : ℕ
csi = 0x9b

-- The sequence that reports the mode, written at `tmp_tx_buf`.
abbrev pub write_mode : Sockio → ℕ → ℕ → Sockio
write_mode sio buf mode = record sio {
  ram = store (store (store sio.ram buf csi) (buf + 1) (mode + b'0')) (buf + 2) b'V';
}

unfoldable pub handle_buffer_mode : ServData → ℕ → Handling
unfolding submitted
handle_buffer_mode sd i =
    let vmsg = sd.vcon.vmsgs i in
    let mode = vmsg.buffer_mode in
    if accepts_mode sd mode
    then (let sd1 = record sd { buffer_mode = mode } in
        if has_flag sd1.flags flag_send_mode
        then record { result = HandleResult.ok; reply = true; sd = sd1 }
        else submitted sd1 i ErrorText.buffer_mode_send
            (sockio_send (write_mode sd1.sockio sd1.tmp_tx_buf mode) sd1.tmp_tx_buf 3))
    else record {
      result = HandleResult.ok;
      reply = true;
      sd = set_vmsg sd i (record vmsg { buffer_mode = mode_unsupported });
    }

-- With the socket gone every request is answered at once.
abbrev pub slurp : ServData → ℕ → VconMsg → Handling
slurp sd i vmsg = record { result = HandleResult.ok; reply = true; sd = set_vmsg sd i vmsg }

unfoldable pub on_vcon_msg : Vcon.MsgType → ServData → ℕ → Bool → TimerAnswer → Handling
on_vcon_msg Vcon.MsgType.write sd i active answer =
    let vmsg = sd.vcon.vmsgs i in
    if active
    then submitted sd i ErrorText.send_failed (sockio_send sd.sockio vmsg.buf_data vmsg.size)
    else slurp sd i vmsg
on_vcon_msg Vcon.MsgType.read sd i active answer =
    let vmsg = sd.vcon.vmsgs i in
    if active
    then submitted sd i ErrorText.recv_failed (sockio_recv sd.sockio vmsg.buf_data vmsg.size 1)
    else slurp sd i (record vmsg { size = 0 })
on_vcon_msg Vcon.MsgType.buffer_mode sd i active answer =
    if active
    then handle_buffer_mode sd i
    else slurp sd i (record (sd.vcon.vmsgs i) { buffer_mode = mode_unsupported })
on_vcon_msg Vcon.MsgType.wait_char sd i active answer =
    let vmsg = sd.vcon.vmsgs i in
    if active
    then submitted sd i ErrorText.wait_failed (sockio_wait_char sd.sockio answer vmsg.size)
    else slurp sd i (record vmsg { size = 0 })
on_vcon_msg Vcon.MsgType.end sd i active answer = record {
  result = HandleResult.end;
  reply = true;
  sd = sd;
}
on_vcon_msg _ sd i active answer = record { result = HandleResult.ok; reply = true; sd = sd }

unfoldable pub handle_vcon_msg : ServData → ℕ → Bool → TimerAnswer → HandleResult × ServData
handle_vcon_msg sd i active answer =
    let h = on_vcon_msg (sd.vcon.vmsgs i).type sd i active answer in
    (h.result, if h.reply then reply_vmsg h.sd i else h.sd)
