-- ===== src/Rclid/Replies.antt =====
-- Each message that comes back from the socket frees the request that it carries.
use rcli.Common.{
  ℕ, ◌≡◌, refl, ap, ◌∙◌, ◌⊎◌, inl, inr, Option, none, some, [], ◌∷◌, ◌++◌, arith, ◌==◌, List,
  Bool-cases, ◌&&◌,
}
use rcli.Vcon.{Vcon, mode_cooked}
use rcli.Vcon.Signals.{vcon_send_signal, send_task_signal}
use rcli.Sockio.{Sockio, SockioMsg, MsgType, is_error, sockio_free_msg}
use rcli.Sockio.Submitted.{fresh_msg, alloc_msg-some, alloc_msg-none}
use rcli.Sockio.Submit.{sockio_recv, sockio_push_back}
use rcli.Rclid.{ServData, has_flag, flag_split_lines, flag_parse_signals}
use rcli.Rclid.Socket.{
  Finish, read_again, treat, on_recv, on_sockio_msg, handle_sockio_msg, line_split_buffer,
  process_signals_in_buffer, free_if, reply_if, set_vmsg_size,
}
use rcli.Rclid.Requests.{Replied}

-- Neither port has changed, nor the place of the request's buffer.
abbrev Quiet : ServData → ServData → ℕ → Type 0
Quiet sd sd' i =
    (sd'.vcon.vmsg_port ≡ sd.vcon.vmsg_port)
    × (sd'.sockio.msg_port ≡ sd.sockio.msg_port)
    × ((sd'.vcon.vmsgs i).buf_data ≡ (sd.vcon.vmsgs i).buf_data)

Quiet-trans : (sd sd1 sd2 : ServData) (i : ℕ) → Quiet sd1 sd2 i → Quiet sd sd1 i → Quiet sd sd2 i
Quiet-trans sd sd1 sd2 i (a, b, c) (a', b', c') = (a ∙ a', b ∙ b', c ∙ c')

line_split-Quiet : (sd : ServData) (i : ℕ) → Quiet sd (line_split_buffer sd i) i
unfolding line_split_buffer sockio_push_back
line_split-Quiet sd i = (ground arith, ground arith, ground arith)

send_signal_keeps :
    (task_of : ℕ → Option ℕ) (v : Vcon) (mask : ℕ)
    → let v' = (vcon_send_signal task_of v mask).0 in
      (v'.vmsg_port ≡ v.vmsg_port) × (v'.vmsgs ≡ v.vmsgs)
unfolding vcon_send_signal send_task_signal
send_signal_keeps task_of v mask = (ground arith, ground arith)

signals-Quiet :
    (task_of : ℕ → Option ℕ) (sd : ServData) (i : ℕ)
    → Quiet sd (process_signals_in_buffer task_of sd i) i
unfolding process_signals_in_buffer
signals-Quiet task_of sd i =
    (grind (arith, send_signal_keeps), ground arith, grind (arith, send_signal_keeps))

treat-Quiet : (task_of : ℕ → Option ℕ) (sd : ServData) (i : ℕ) → Quiet sd (treat task_of sd i) i
treat-Quiet task_of sd i =
    let split = line_split_buffer sd i in
    elim (Bool-cases (has_flag sd.flags flag_split_lines && sd.buffer_mode == mode_cooked)) [
      | inl e ↦ elim (Bool-cases (has_flag split.flags flag_parse_signals)) [
        | inl p ↦
            rw (e, p)
              (Quiet-trans sd split (process_signals_in_buffer task_of split i) i
                (signals-Quiet task_of split i) (line_split-Quiet sd i))
        | inr p ↦ rw (e, p) (line_split-Quiet sd i)
      ]
      | inr e ↦ elim (Bool-cases (has_flag sd.flags flag_parse_signals)) [
        | inl p ↦ rw (e, p) (signals-Quiet task_of sd i)
        | inr p ↦ rw (e, p) (refl, refl, refl)
      ]
    ]

-- The request waits for one new socket message: a read of at least one byte into its buffer, of the
-- size that it asked for.
abbrev pub ReadAgain : ServData → ServData → ℕ → Type 0
ReadAgain sd sd' i =
    let vmsg = sd.vcon.vmsgs i in
    (k : ℕ) × (sd'.vcon.vmsg_port ≡ sd.vcon.vmsg_port)
    × (sd'.sockio.msg_port ≡ sd.sockio.msg_port ++ (k ∷ []))
    × (sd'.sockio.msgs k
        ≡ record (fresh_msg MsgType.recv vmsg.buf_data vmsg.size 1) { user_data = some i })

-- What is left to do at the end of `handle_sockio_msg`.
abbrev closed : Finish → ServData
closed f = reply_if f.vmsg (free_if f.msg f.sd)

-- What a read that is submitted answers.
abbrev Reads : Sockio → SockioMsg → Option ℕ × Sockio → Type 0
Reads sio msg p =
    ((p.0 ≡ none) × (p.1.msg_port ≡ sio.msg_port))
    ⊎ ((k : ℕ) × (p.0 ≡ some k) × (p.1.msg_port ≡ sio.msg_port ++ (k ∷ [])) × (p.1.msgs k ≡ msg))

recv-Reads :
    (sio : Sockio) (buf n k : ℕ) (free : List ℕ)
    → sio.free_list ≡ free
    → Reads sio (fresh_msg MsgType.recv buf n k) (sockio_recv sio buf n k)
unfolding sockio_recv
recv-Reads sio buf n k [] e = elim (Bool-cases (is_error sio.state)) [
  | inl bad ↦ rw bad (inl (refl, refl))
  | inr good ↦ rw (good, alloc_msg-none sio MsgType.recv buf n k e) (inl (refl, refl))
]
recv-Reads sio buf n k (m ∷ rest) e = elim (Bool-cases (is_error sio.state)) [
  | inl bad ↦ rw bad (inl (refl, refl))
  | inr good ↦
      rw (good, alloc_msg-some sio MsgType.recv buf n k e) (inr (m, refl, refl, ground arith))
]

read_again-once :
    (sd : ServData) (m i old : ℕ)
    → let sd' = closed (read_again sd m i old) in
      Replied sd sd' i
      ⊎ ((k : ℕ) × (sd'.vcon.vmsg_port ≡ sd.vcon.vmsg_port)
          × (sd'.sockio.msg_port ≡ sd.sockio.msg_port ++ (k ∷ []))
          × (sd'.sockio.msgs k ≡ record (fresh_msg MsgType.recv (sd.vcon.vmsgs i).buf_data old 1) {
            user_data = some i;
          }))
unfolding read_again sockio_free_msg
read_again-once sd m i old =
    let freed = sockio_free_msg sd.sockio m in
    elim (recv-Reads freed (sd.vcon.vmsgs i).buf_data old 1 freed.free_list refl) [
      | inl (e, port) ↦ rw (read_again, e) (inl (refl, port))
      | inr (k, e, port, msg) ↦ rw (read_again, e) (inr (k, refl, port, ground arith))
    ]

on_recv-once :
    (task_of : ℕ → Option ℕ) (sd : ServData) (m i : ℕ)
    → let sd' = closed (on_recv task_of sd m i) in Replied sd sd' i ⊎ ReadAgain sd sd' i
unfolding on_recv sockio_free_msg
on_recv-once task_of sd m i =
    let sd1 = set_vmsg_size sd i (sd.sockio.msgs m).size in
    let sd2 = treat task_of sd1 i in
    let (vport, sport, place) = treat-Quiet task_of sd1 i in
    let old = (sd.vcon.vmsgs i).size in
    elim (Bool-cases ((sd.sockio.msgs m).size == 0)) [
      | inl e ↦ rw e (inl (refl, refl))
      | inr e ↦ elim (Bool-cases ((sd2.vcon.vmsgs i).size == 0)) [
        | inl z ↦
            rw (e, z)
              (elim (read_again-once sd2 m i old) [
                | inl (a, b) ↦ inl (a ∙ ap (λ l. l ++ (i ∷ [])) vport, b ∙ sport)
                | inr (k, a, b, c) ↦
                    inr
                      (k, a ∙ vport, b ∙ ap (λ l. l ++ (k ∷ [])) sport, c ∙ rw place (ground arith))
              ])
        | inr z ↦ rw (e, z) (inl (ap (λ l. l ++ (i ∷ [])) vport, sport))
      ]
    ]

-- Whatever the message that comes back from the socket, if it carries a request: the request is
-- replied to the console and the socket gets no message, or it is not replied and the socket gets
-- exactly one message, which carries it: a new read of at least one byte into the request's buffer,
-- of the size that was asked for.
pub handle_sockio_msg-once :
    (type : MsgType) (task_of : ℕ → Option ℕ) (sd : ServData) (m i : ℕ)
    → (sd.sockio.msgs m).type ≡ type
    → (sd.sockio.msgs m).user_data ≡ some i
    → let sd' = (handle_sockio_msg task_of sd m).1 in Replied sd sd' i ⊎ ReadAgain sd sd' i
unfolding handle_sockio_msg on_sockio_msg sockio_free_msg
handle_sockio_msg-once MsgType.recv task_of sd m i t e = rw (t, e) (on_recv-once task_of sd m i)
handle_sockio_msg-once _ task_of sd m i t e = rw (t, e) (inl (refl, refl))
