-- ===== src/Rclid/Ledger/Answers.antt =====
-- `handle_sockio_msg` of rclid.c keeps the books: the socket message is freed, and the console
-- message that it carried is replied, or a new read has it.
use rcli.Common.{
  ℕ, ◌+◌, ◌-◌, refl, inl, inr, Option, none, some, List, [], ◌∷◌, arith, ◌==◌, ◌&&◌, Bool-cases,
  Option-cases, ltb,
}
use rcli.Conv.{conv_extract_signals}
use rcli.Vcon.{Vcon, mode_cooked}
use rcli.Vcon.Signals.{vcon_send_signal, send_task_signal}
use rcli.Vcon.Once
use rcli.Sockio.{MsgType, sockio_free_msg}
use rcli.Sockio.Submit.{sockio_recv, sockio_push_back}
use rcli.Sockio.Sent.{recv-Sent, Handed-some}
use rcli.Rclid.{ServData, ErrorText, error_out, has_flag, flag_split_lines, flag_parse_signals}
use rcli.Rclid.Socket.{
  Finish, read_again, treat, on_recv, on_sockio_msg, handle_sockio_msg, line_split_buffer,
  process_signals_in_buffer, free_if, reply_if, set_vmsg_size, with_ram, signal_bits, line_end,
}
use rcli.Rclid.Ledger.{Stock, Sound, Sound-Distinct}
use rcli.Rclid.Ledger.Moves.{
  in_hand, socket-Sound, rest-Sound, ram-Sound, set_vmsg-Sound, reply_vmsg-Sound, console-Sound,
}
use rcli.Rclid.Ledger.Messages.{link-Sound, free_msg-Sound}

send_signal-Kept :
    (held : List ℕ) (task_of : ℕ → Option ℕ) (v : Vcon) (mask : ℕ)
    → Once.Kept held v (vcon_send_signal task_of v mask).0
unfolding vcon_send_signal send_task_signal
send_signal-Kept held task_of v mask = record {
  placed = λ m. ground arith;
  owing = λ p. ground arith;
}

module _ {k : Stock} {taken own : List ℕ} (sd : ServData) (i : ℕ) (s : Sound k taken own sd) where
  push_back-Sound :
      (buf n : ℕ) → Sound k taken own (record sd { sockio = (sockio_push_back sd.sockio buf n).1 })
  unfolding sockio_push_back
  push_back-Sound buf n = elim (Bool-cases (ltb sd.sockio.push_back_max n)) [
    | inl full ↦ rw full s
    | inr fits ↦ rw fits (record { book = s.book; placed = s.placed; links = s.links })
  ]

  line_split_buffer-Sound : Sound k taken own (line_split_buffer sd i)
  unfolding line_split_buffer
  line_split_buffer-Sound =
      let vmsg = sd.vcon.vmsgs i in
      let n = line_end sd.sockio.ram vmsg.buf_data 0 vmsg.size in
      let sio = (sockio_push_back sd.sockio (vmsg.buf_data + n) (vmsg.size - n)).1 in
      elim (Bool-cases (ltb n (vmsg.size - 1))) [
        | inl more ↦ rw more (
            set_vmsg-Sound (record sd { sockio = sio }) i (record vmsg { size = n }) refl
              (push_back-Sound (vmsg.buf_data + n) (vmsg.size - n)))
        | inr whole ↦ rw whole s
      ]

  signals-Sound :
      (task_of : ℕ → Option ℕ) → Sound k taken own (process_signals_in_buffer task_of sd i)
  unfolding process_signals_in_buffer
  signals-Sound task_of =
      let vmsg = sd.vcon.vmsgs i in
      let e =
        conv_extract_signals sd.sockio.ram
          (record { buf_data = vmsg.buf_data; size = vmsg.size }) in
      let one = ram-Sound sd e.ram s in
      let sd1 = set_vmsg_size (with_ram sd e.ram) i e.buf.size in
      let two = set_vmsg-Sound (with_ram sd e.ram) i (record vmsg { size = e.buf.size }) refl one in
      elim (Bool-cases (ltb 0 e.changes)) [
        | inl d ↦ rw d (
            console-Sound sd1 (vcon_send_signal task_of sd1.vcon (signal_bits e.counts)).0
              (send_signal-Kept _ task_of sd1.vcon (signal_bits e.counts)) two)
        | inr d ↦ rw d two
      ]

treat-Sound :
    {k : Stock} {taken own : List ℕ} (task_of : ℕ → Option ℕ) (sd : ServData) (i : ℕ)
    → Sound k taken own sd
    → Sound k taken own (treat task_of sd i)
treat-Sound task_of sd i s =
    let sd1 = line_split_buffer sd i in
    let one = line_split_buffer-Sound sd i s in
    elim (Bool-cases (has_flag sd.flags flag_split_lines && sd.buffer_mode == mode_cooked)) [
      | inl e ↦ elim (Bool-cases (has_flag sd1.flags flag_parse_signals)) [
        | inl p ↦ rw (e, p) (signals-Sound sd1 i one task_of)
        | inr p ↦ rw (e, p) one
      ]
      | inr e ↦ elim (Bool-cases (has_flag sd.flags flag_parse_signals)) [
        | inl p ↦ rw (e, p) (signals-Sound sd i s task_of)
        | inr p ↦ rw (e, p) s
      ]
    ]

-- What is left to free and to reply is what is still in hand.
abbrev Ready : Stock → Finish → Type 0
Ready k f = Sound k (in_hand f.msg) (in_hand f.vmsg) f.sd

module _ {k : Stock} (sd : ServData) (m i : ℕ) (s : Sound k (m ∷ []) (i ∷ []) sd) where
  read_again-Ready : (old : ℕ) → Ready k (read_again sd m i old)
  unfolding read_again
  read_again-Ready old =
      let a = sockio_free_msg sd.sockio m in
      let one = free_msg-Sound sd m s in
      let p = sockio_recv a (sd.vcon.vmsgs i).buf_data old 1 in
      let sent =
        recv-Sent a [] (Sound-Distinct (record sd { sockio = a }) one) one.links
          (sd.vcon.vmsgs i).buf_data old 1 in
      let sd1 = record sd { sockio = p.1 } in
      let two = socket-Sound (record sd { sockio = a }) p.1 sent.kept sent.frames one in
      elim (Option-cases p.0) [
        | inl e ↦
            rw (read_again, e) (rest-Sound sd1 (error_out sd1 ErrorText.recv_failed) refl refl two)
        | inr (x, e) ↦
            rw (read_again, e)
              (let (there, free) = Handed-some p x e sent.handed in
                link-Sound sd1 x i there free two)
      ]

module _ {k : Stock} (sd : ServData) (m i : ℕ) (s : Sound k (m ∷ []) (i ∷ []) sd)
    (task_of : ℕ → Option ℕ) where
  on_recv-Ready : Ready k (on_recv task_of sd m i)
  unfolding on_recv
  on_recv-Ready =
      let sd1 = set_vmsg_size sd i (sd.sockio.msgs m).size in
      let one =
        set_vmsg-Sound sd i (record (sd.vcon.vmsgs i) { size = (sd.sockio.msgs m).size }) refl s in
      let sd2 = treat task_of sd1 i in
      let two = treat-Sound task_of sd1 i one in
      elim (Bool-cases ((sd.sockio.msgs m).size == 0)) [
        | inl e ↦ rw e one
        | inr e ↦ elim (Bool-cases ((sd2.vcon.vmsgs i).size == 0)) [
          | inl z ↦ rw (e, z) (read_again-Ready sd2 m i two (sd.vcon.vmsgs i).size)
          | inr z ↦ rw (e, z) two
        ]
      ]

on_sockio_msg-Ready :
    {k : Stock} (type : MsgType) (task_of : ℕ → Option ℕ) (sd : ServData) (m : ℕ) (vmsg : Option ℕ)
    → Sound k (m ∷ []) (in_hand vmsg) sd
    → Ready k (on_sockio_msg type task_of sd m vmsg)
unfolding on_sockio_msg
on_sockio_msg-Ready MsgType.recv task_of sd m (some i) s = on_recv-Ready sd m i s task_of
on_sockio_msg-Ready MsgType.wait_char task_of sd m (some i) s = set_vmsg-Sound sd i _ refl s
on_sockio_msg-Ready MsgType.recv task_of sd m none s = s
on_sockio_msg-Ready MsgType.wait_char task_of sd m none s = s
on_sockio_msg-Ready MsgType.error task_of sd m vmsg s = s
on_sockio_msg-Ready MsgType.send task_of sd m vmsg s = s
on_sockio_msg-Ready MsgType.free task_of sd m vmsg s = s

closed-Sound :
    {k : Stock} (msg vmsg : Option ℕ) (sd : ServData)
    → Sound k (in_hand msg) (in_hand vmsg) sd
    → Sound k [] [] (reply_if vmsg (free_if msg sd))
closed-Sound none none sd s = s
closed-Sound none (some i) sd s = reply_vmsg-Sound sd i s
closed-Sound (some m) none sd s = free_msg-Sound sd m s
closed-Sound (some m) (some i) sd s =
    reply_vmsg-Sound (record sd { sockio = sockio_free_msg sd.sockio m }) i (free_msg-Sound sd m s)

pub handle_sockio_msg-Sound :
    {k : Stock} (task_of : ℕ → Option ℕ) (sd : ServData) (m : ℕ)
    → Sound k (m ∷ []) (in_hand (sd.sockio.msgs m).user_data) sd
    → Sound k [] [] (handle_sockio_msg task_of sd m).1
unfolding handle_sockio_msg
handle_sockio_msg-Sound task_of sd m s =
    let msg = sd.sockio.msgs m in
    let f = on_sockio_msg msg.type task_of sd m msg.user_data in
    closed-Sound f.msg f.vmsg f.sd (on_sockio_msg-Ready msg.type task_of sd m msg.user_data s)
