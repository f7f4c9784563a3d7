-- ===== src/Rclid/Ledger/Ports.antt =====
-- The ports that the loops over messages in rclid.c read: what the loops' bodies leave in them.
use rcli.Common.{ℕ, ◌≡◌, refl, ◌∙◌, Bool, true, Option, none, some, arith}
use rcli.Timer.{TimerAnswer}
use rcli.Vcon
use rcli.Vcon.{mode_cooked}
use rcli.Sockio.{Sockio, MsgType, sockio_free_msg, alloc_msg}
use rcli.Sockio.Submit.{sockio_recv, sockio_push_back}
use rcli.Rclid.{ServData, ErrorText}
use rcli.Rclid.Console.{submitted, handle_buffer_mode, on_vcon_msg, handle_vcon_msg}
use rcli.Rclid.Socket.{
  read_again, treat, on_recv, on_sockio_msg, handle_sockio_msg, line_split_buffer,
  process_signals_in_buffer, free_if, reply_if, set_vmsg_size,
}

recv-port : (sio : Sockio) (buf n k : ℕ) → (sockio_recv sio buf n k).1.user_port ≡ sio.user_port
unfolding sockio_recv alloc_msg
recv-port sio buf n k = ground arith

split-port :
    (sd : ServData) (i : ℕ) → (line_split_buffer sd i).sockio.user_port ≡ sd.sockio.user_port
unfolding line_split_buffer sockio_push_back
split-port sd i = ground arith

signals-port :
    (task_of : ℕ → Option ℕ) (sd : ServData) (i : ℕ)
    → (process_signals_in_buffer task_of sd i).sockio.user_port ≡ sd.sockio.user_port
unfolding process_signals_in_buffer
signals-port task_of sd i = ground arith

treat-port :
    (task_of : ℕ → Option ℕ) (sd : ServData) (i : ℕ)
    → (treat task_of sd i).sockio.user_port ≡ sd.sockio.user_port
treat-port task_of sd i = grind (arith, split-port, signals-port)

read_again-port :
    (sd : ServData) (m i old : ℕ)
    → (read_again sd m i old).sd.sockio.user_port ≡ sd.sockio.user_port
unfolding read_again sockio_free_msg
read_again-port sd m i old =
    let p = recv-port (sockio_free_msg sd.sockio m) (sd.vcon.vmsgs i).buf_data old 1 in
    ground (arith, p)

on_recv-port :
    (task_of : ℕ → Option ℕ) (sd : ServData) (m i : ℕ)
    → (on_recv task_of sd m i).sd.sockio.user_port ≡ sd.sockio.user_port
unfolding on_recv
on_recv-port task_of sd m i =
    let sd1 = set_vmsg_size sd i (sd.sockio.msgs m).size in
    let sd2 = treat task_of sd1 i in
    ground (arith, treat-port task_of sd1 i, read_again-port sd2 m i (sd.vcon.vmsgs i).size)

on_sockio_msg-port :
    (type : MsgType) (task_of : ℕ → Option ℕ) (sd : ServData) (m : ℕ) (vmsg : Option ℕ)
    → (on_sockio_msg type task_of sd m vmsg).sd.sockio.user_port ≡ sd.sockio.user_port
unfolding on_sockio_msg
on_sockio_msg-port MsgType.recv task_of sd m (some i) = on_recv-port task_of sd m i
on_sockio_msg-port MsgType.recv task_of sd m none = refl
on_sockio_msg-port MsgType.wait_char task_of sd m (some i) = refl
on_sockio_msg-port MsgType.wait_char task_of sd m none = refl
on_sockio_msg-port MsgType.error task_of sd m vmsg = refl
on_sockio_msg-port MsgType.send task_of sd m vmsg = refl
on_sockio_msg-port MsgType.free task_of sd m vmsg = refl

closed-port :
    (msg vmsg : Option ℕ) (sd : ServData)
    → (reply_if vmsg (free_if msg sd)).sockio.user_port ≡ sd.sockio.user_port
unfolding sockio_free_msg
closed-port none none sd = refl
closed-port none (some i) sd = refl
closed-port (some m) none sd = refl
closed-port (some m) (some i) sd = refl

-- Handling a message of the socket puts none back to the port that it was taken from.
pub handle_sockio_msg-port :
    (task_of : ℕ → Option ℕ) (sd : ServData) (m : ℕ)
    → (handle_sockio_msg task_of sd m).1.sockio.user_port ≡ sd.sockio.user_port
unfolding handle_sockio_msg
handle_sockio_msg-port task_of sd m =
    let msg = sd.sockio.msgs m in
    let f = on_sockio_msg msg.type task_of sd m msg.user_data in
    closed-port f.msg f.vmsg f.sd ∙ on_sockio_msg-port msg.type task_of sd m msg.user_data

submitted-port :
    (sd : ServData) (i : ℕ) (text : ErrorText) (p : Option ℕ × Sockio)
    → (submitted sd i text p).sd.vcon.user_port ≡ sd.vcon.user_port
unfolding submitted
submitted-port sd i text (none, sio) = refl
submitted-port sd i text (some m, sio) = refl

buffer_mode-port :
    (sd : ServData) (i : ℕ) → (handle_buffer_mode sd i).sd.vcon.user_port ≡ sd.vcon.user_port
unfolding handle_buffer_mode
buffer_mode-port sd i = grind (arith, submitted-port)

request-port :
    (type : Vcon.MsgType) (sd : ServData) (i : ℕ) (active : Bool) (answer : TimerAnswer)
    → (on_vcon_msg type sd i active answer).sd.vcon.user_port ≡ sd.vcon.user_port
unfolding on_vcon_msg
request-port Vcon.MsgType.write sd i true answer = submitted-port sd i ErrorText.send_failed _
request-port Vcon.MsgType.read sd i true answer = submitted-port sd i ErrorText.recv_failed _
request-port Vcon.MsgType.wait_char sd i true answer = submitted-port sd i ErrorText.wait_failed _
request-port Vcon.MsgType.buffer_mode sd i true answer = buffer_mode-port sd i
request-port _ sd i active answer = ground arith

-- Handling a message of the console puts none back to the port that it was taken from.
pub handle_vcon_msg-port :
    (sd : ServData) (i : ℕ) (active : Bool) (answer : TimerAnswer)
    → (handle_vcon_msg sd i active answer).1.vcon.user_port ≡ sd.vcon.user_port
unfolding handle_vcon_msg
handle_vcon_msg-port sd i active answer =
    ground (arith, request-port (sd.vcon.vmsgs i).type sd i active answer)
