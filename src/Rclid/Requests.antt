-- ===== src/Rclid/Requests.antt =====
-- Each request of the console is replied at once or handed to the socket, never both or neither.
use rcli.Common.{
  ℕ, ◌≡◌, refl, ap, ◌∙◌, ◌⊎◌, inl, inr, true, Option, none, some, List, [], ◌∷◌, ◌++◌, arith,
  if◌then◌else◌, Bool-cases,
}
use rcli.Vcon
use rcli.Vcon.{VconMsg}
use rcli.Timer.{TimerAnswer}
use rcli.Sockio.{Sockio, MsgType, is_error}
use rcli.Sockio.Submit.{sockio_recv, sockio_send, sockio_wait_char}
use rcli.Sockio.Submitted.{alloc_msg-some, alloc_msg-none}
use rcli.Rclid.{ServData, ErrorText, has_flag, flag_send_mode, reply_vmsg}
use rcli.Rclid.Console.{
  Handling, submitted, handle_buffer_mode, on_vcon_msg, handle_vcon_msg, accepts_mode, write_mode,
}

-- What a submission answers: no message and an unchanged port, or a message at the port's end.
abbrev Posts : Sockio → Option ℕ × Sockio → Type 0
Posts sio (none, sio') = sio'.msg_port ≡ sio.msg_port
Posts sio (some m, sio') = sio'.msg_port ≡ sio.msg_port ++ (m ∷ [])

module _ (sio : Sockio) where
  send-Posts :
      (buf n : ℕ) (free : List ℕ) → sio.free_list ≡ free → Posts sio (sockio_send sio buf n)
  unfolding sockio_send
  send-Posts buf n [] e = elim (Bool-cases (is_error sio.state)) [
    | inl bad ↦ rw bad refl
    | inr good ↦ rw (good, alloc_msg-none sio MsgType.send buf n n e) refl
  ]
  send-Posts buf n (m ∷ rest) e = elim (Bool-cases (is_error sio.state)) [
    | inl bad ↦ rw bad refl
    | inr good ↦ rw (good, alloc_msg-some sio MsgType.send buf n n e) refl
  ]

  recv-Posts :
      (buf n k : ℕ) (free : List ℕ) → sio.free_list ≡ free → Posts sio (sockio_recv sio buf n k)
  unfolding sockio_recv
  recv-Posts buf n k [] e = elim (Bool-cases (is_error sio.state)) [
    | inl bad ↦ rw bad refl
    | inr good ↦ rw (good, alloc_msg-none sio MsgType.recv buf n k e) refl
  ]
  recv-Posts buf n k (m ∷ rest) e = elim (Bool-cases (is_error sio.state)) [
    | inl bad ↦ rw bad refl
    | inr good ↦ rw (good, alloc_msg-some sio MsgType.recv buf n k e) refl
  ]

  wait-Posts :
      (answer : TimerAnswer) (us : ℕ) (free : List ℕ)
      → sio.free_list ≡ free
      → Posts sio (sockio_wait_char sio answer us)
  unfolding sockio_wait_char
  wait-Posts answer us [] e = elim (Bool-cases (is_error sio.state)) [
    | inl bad ↦ rw bad refl
    | inr good ↦ rw (good, alloc_msg-none sio MsgType.wait_char 0 0 0 e) refl
  ]
  wait-Posts answer us (m ∷ rest) e = elim (Bool-cases (is_error sio.state)) [
    | inl bad ↦ rw bad refl
    | inr good ↦ rw (good, alloc_msg-some sio MsgType.wait_char 0 0 0 e) refl
  ]

-- The request is back at the console, and the socket has got nothing.
abbrev pub Replied : ServData → ServData → ℕ → Type 0
Replied sd sd' i =
    (sd'.vcon.vmsg_port ≡ sd.vcon.vmsg_port ++ (i ∷ []))
    × (sd'.sockio.msg_port ≡ sd.sockio.msg_port)

-- The request waits for one socket message, which names it.
abbrev pub Linked : ServData → ServData → ℕ → Type 0
Linked sd sd' i =
    (m : ℕ) × (sd'.vcon.vmsg_port ≡ sd.vcon.vmsg_port)
    × (sd'.sockio.msg_port ≡ sd.sockio.msg_port ++ (m ∷ []))
    × ((sd'.sockio.msgs m).user_data ≡ some i)

-- The end of `handle_vcon_msg`.
abbrev finished : Handling → ℕ → ServData
finished h i = if h.reply then reply_vmsg h.sd i else h.sd

submitted-once :
    (sd sd1 : ServData) (sio : Sockio) (i : ℕ) (text : ErrorText) (p : Option ℕ × Sockio)
    → Posts sio p
    → sio.msg_port ≡ sd.sockio.msg_port
    → sd1.vcon.vmsg_port ≡ sd.vcon.vmsg_port
    → let sd' = finished (submitted sd1 i text p) i in Replied sd sd' i ⊎ Linked sd sd' i
unfolding submitted
submitted-once sd sd1 sio i text (none, sio') h same port =
    inl (ap (λ l. l ++ (i ∷ [])) port, h ∙ same)
submitted-once sd sd1 sio i text (some m, sio') h same port =
    inr (m, port, h ∙ ap (λ l. l ++ (m ∷ [])) same, ground arith)

buffer_mode-once :
    (sd : ServData) (i : ℕ)
    → let sd' = finished (handle_buffer_mode sd i) i in Replied sd sd' i ⊎ Linked sd sd' i
unfolding handle_buffer_mode
buffer_mode-once sd i =
    let mode = (sd.vcon.vmsgs i).buffer_mode in
    let sio = write_mode sd.sockio sd.tmp_tx_buf mode in
    elim (Bool-cases (accepts_mode sd mode)) [
      | inr no_mode ↦ rw no_mode (inl (refl, refl))
      | inl mode_ok ↦ elim (Bool-cases (has_flag sd.flags flag_send_mode)) [
        | inl passive ↦ rw (mode_ok, passive) (inl (refl, refl))
        | inr active ↦
            rw (mode_ok, active)
              (submitted-once sd (record sd { buffer_mode = mode }) sio i ErrorText.buffer_mode_send
                (sockio_send sio sd.tmp_tx_buf 3)
                (send-Posts sio sd.tmp_tx_buf 3 sio.free_list refl) refl refl)
      ]
    ]

-- While the socket is active, whatever the type of the request and the answers of memory and timer:
-- either the request is replied to the console and the socket gets no message, or it is not replied
-- and the socket gets exactly one message, which carries it.
pub handle_vcon_msg-once :
    (type : Vcon.MsgType) (sd : ServData) (i : ℕ) (answer : TimerAnswer)
    → (sd.vcon.vmsgs i).type ≡ type
    → let sd' = (handle_vcon_msg sd i true answer).1 in Replied sd sd' i ⊎ Linked sd sd' i
unfolding handle_vcon_msg on_vcon_msg
handle_vcon_msg-once Vcon.MsgType.write sd i answer e =
    let vmsg = sd.vcon.vmsgs i in
    rw e (
      submitted-once sd sd sd.sockio i ErrorText.send_failed
        (sockio_send sd.sockio vmsg.buf_data vmsg.size)
        (send-Posts sd.sockio vmsg.buf_data vmsg.size sd.sockio.free_list refl) refl refl)
handle_vcon_msg-once Vcon.MsgType.read sd i answer e =
    let vmsg = sd.vcon.vmsgs i in
    rw e (
      submitted-once sd sd sd.sockio i ErrorText.recv_failed
        (sockio_recv sd.sockio vmsg.buf_data vmsg.size 1)
        (recv-Posts sd.sockio vmsg.buf_data vmsg.size 1 sd.sockio.free_list refl) refl refl)
handle_vcon_msg-once Vcon.MsgType.wait_char sd i answer e =
    let us = (sd.vcon.vmsgs i).size in
    rw e (
      submitted-once sd sd sd.sockio i ErrorText.wait_failed (sockio_wait_char sd.sockio answer us)
        (wait-Posts sd.sockio answer us sd.sockio.free_list refl) refl refl)
handle_vcon_msg-once Vcon.MsgType.buffer_mode sd i answer e = rw e (buffer_mode-once sd i)
handle_vcon_msg-once Vcon.MsgType.end sd i answer e = rw e (inl (refl, refl))
handle_vcon_msg-once Vcon.MsgType.error sd i answer e = rw e (inl (refl, refl))
handle_vcon_msg-once Vcon.MsgType.free sd i answer e = rw e (inl (refl, refl))
