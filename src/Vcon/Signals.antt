-- ===== src/Vcon/Signals.antt =====
-- The rest of vcon.c: replies that come back from the client, the two port loops, signals to the
-- tasks behind the console, and the flush.
use Prim.Native.Nat.{bit_and}
use rcli.Common.{
  ℕ, zero, suc, Bool, true, false, not, ◌&&◌, Option, none, some, List, [], ◌∷◌, ◌++◌, ◌==◌,
  if◌then◌else◌, update, is_null,
}
use rcli.Vcon.{
  Vcon, VconMsg, MsgType, State, is_flush, is_error, dos_true, dos_false, error_no_free_store,
  error_object_wrong_type, mode_unsupported, free_vmsg, reply_pkt, DosPacket, signal,
}
use rcli.Vcon.Packets.{handle_dos_pkt, address_or_null}

-- The two results of a reply.
abbrev pub Results : Type 0
Results = ℕ × ℕ

-- What the client's answer means to DOS. The case of the buffer mode falls through to `default`.
unfoldable pub reply_results : VconMsg → MsgType → Results
reply_results vmsg MsgType.read = (vmsg.size, 0)
reply_results vmsg MsgType.write = (vmsg.size, 0)
reply_results vmsg MsgType.wait_char =
    if vmsg.size == 0 then (dos_false, 0) else (dos_true, vmsg.size)
reply_results vmsg MsgType.buffer_mode =
    if vmsg.buffer_mode == mode_unsupported
    then (dos_false, error_object_wrong_type)
    else (dos_true, 0)
reply_results vmsg _ = (dos_true, 0)

-- A packet that may be NULL.
abbrev pub reply_if : Vcon → Option ℕ → Results → Vcon
reply_if sh none r = sh
reply_if sh (some pkt) r = reply_pkt sh pkt r.0 r.1

unfoldable pub handle_vmsg_reply : Vcon → ℕ → Vcon
handle_vmsg_reply sh i =
    let vmsg = sh.vmsgs i in free_vmsg (reply_if sh vmsg.private (reply_results vmsg vmsg.type)) i

-- The loops over `GetMsg`, over what the port held when the signal was seen.
unfoldable pub handle_pkts : List DosPacket → Vcon → Vcon
handle_pkts [] sh = record sh { pkt_port = [] }
handle_pkts (pkt ∷ pkts) sh = handle_pkts pkts (handle_dos_pkt (record sh { pkt_port = pkts }) pkt)

unfoldable pub handle_replies : List ℕ → Vcon → Vcon
handle_replies [] sh = record sh { vmsg_port = [] }
handle_replies (i ∷ is) sh = handle_replies is (handle_vmsg_reply (record sh { vmsg_port = is }) i)

abbrev pub on_mask : ℕ → ℕ → (Vcon → Vcon) → Vcon → Vcon
on_mask got bit f sh = if bit_and got bit == 0 then sh else f sh

unfoldable pub vcon_handle_sigmask : Vcon → ℕ → Vcon × Bool
vcon_handle_sigmask sh got_mask =
    let sh1 = on_mask got_mask sh.pkt_sigmask (λ s. handle_pkts s.pkt_port s) sh in
    let sh2 = on_mask got_mask sh1.vmsg_sigmask (λ s. handle_replies s.vmsg_port s) sh1 in
    (sh2, not (is_error sh2.state))

-- `mp_SigTask` of a port that may be NULL.
abbrev pub task_behind : (ℕ → Option ℕ) → Option ℕ → Option ℕ
task_behind task_of none = none
task_behind task_of (some port) = task_of port

abbrev pub same : Option ℕ → Option ℕ → Bool
same none none = true
same (some a) (some b) = a == b
same _ _ = false

unfoldable pub send_task_signal : Vcon → Option ℕ → ℕ → Vcon
send_task_signal sh none mask = sh
send_task_signal sh (some task) mask = record sh { effects = sh.effects ++ (signal task mask ∷ []) }

-- The reader's task first, then the writer's if it is another one.
unfoldable pub vcon_send_signal : (ℕ → Option ℕ) → Vcon → ℕ → Vcon × Bool
vcon_send_signal task_of sh mask =
    let rtask = task_behind task_of sh.read_signal_port in
    let wtask = task_behind task_of sh.write_signal_port in
    let sh1 = if not (is_null rtask) then send_task_signal sh rtask mask else sh in
    let sent = not (is_null rtask) in
    if not (is_null wtask) && not (same wtask rtask)
    then (send_task_signal sh1 wtask mask, true)
    else (sh1, sent)

unfoldable pub clean_signals : Vcon → Option ℕ → Vcon
clean_signals sh port =
    let sh1 = if same sh.read_signal_port port then record sh { read_signal_port = none } else sh in
    if same sh1.write_signal_port port then record sh1 { write_signal_port = none } else sh1

-- `vcon_flush`: the answer to a message of each type that is not free.
unfoldable pub flush_results : VconMsg → MsgType → Results
flush_results vmsg MsgType.read = (0, 0)
flush_results vmsg MsgType.write = (vmsg.size, 0)
flush_results vmsg _ = (dos_false, error_no_free_store)

abbrev pub is_free : MsgType → Bool
is_free MsgType.free = true
is_free _ = false

-- One round of the loop over `vmsgs`. The packet is answered even if it is NULL,
-- and the message is marked free without being put on the free list.
unfoldable pub flush_msg : Vcon → ℕ → Vcon
flush_msg sh i =
    let vmsg = sh.vmsgs i in
    if is_free vmsg.type
    then sh
    else (let (res1, res2) = flush_results vmsg vmsg.type in
        let sh' = reply_pkt sh (address_or_null vmsg.private) res1 res2 in
        record sh' { vmsgs = update sh'.vmsgs i (record vmsg { type = MsgType.free }) })

unfoldable pub flush_from : ℕ → ℕ → Vcon → Vcon
flush_from i zero sh = sh
flush_from i (suc n) sh = flush_from (suc i) n (flush_msg sh i)

unfoldable pub vcon_flush : Vcon → Vcon
vcon_flush sh =
    if is_flush sh.state then sh else record (flush_from 0 sh.max_msgs sh) { state = State.flush }
