-- ===== src/Rclid/Loop.antt =====
-- `main_loop` of rclid.c: one round over the sources of signals, and the loop.
use rcli.Common.{
  ℕ, Bool, true, false, Option, List, [], ◌∷◌, ◌==◌, ◌&&◌, ◌||◌, if◌then◌else◌, not, bit_and,
  bit_or, is_null,
}
use rcli.Vcon.{vcon_get_sigmask}
use rcli.Vcon.Signals.{vcon_handle_sigmask}
use rcli.Timer.{TimerAnswer}
use rcli.Sockio.{Sockio}
use rcli.Sockio.Submit.{sockio_first_recv, sockio_first_wait, sockio_first_send}
use rcli.Sockio.Wait.{Selected}
use rcli.Sockio.Handle.{sockio_wait_handle}
use rcli.Rclid.{ServData, HandleResult, ErrorText, error_out}
use rcli.Rclid.Console.{handle_vcon_msg}
use rcli.Rclid.Socket.{handle_sockio_msg}

-- No read, wait or send is pending.
unfoldable pub is_sockio_idle : Sockio → Bool
is_sockio_idle sio =
    is_null (sockio_first_recv sio)
    && (is_null (sockio_first_wait sio) && is_null (sockio_first_send sio))

pub record Loop : Type 0 where
  pub sd : ServData
  pub socket_active : Bool
  pub vcon_active : Bool

-- The masks of the loop, and the ports' tasks.
pub record Masks : Type 0 where
  pub run_mask : ℕ
  pub vport_mask : ℕ
  pub sport_mask : ℕ
  pub break_mask : ℕ
  pub task_of : ℕ → Option ℕ

abbrev pub has_signal : ℕ → ℕ → Bool
has_signal mask got = not (bit_and mask got == 0)

-- `if(vcon_mask & sig_mask)`
unfoldable pub do_vcon : ℕ → ℕ → Loop → Loop
do_vcon vcon_mask got l =
    if has_signal vcon_mask got
    then (let (v, ok) = vcon_handle_sigmask l.sd.vcon got in
        let sd = record (l.sd) { vcon = v } in
        record l { sd = if ok then sd else error_out sd ErrorText.out_of_memory })
    else l

abbrev pub is_failure : HandleResult → Bool
is_failure HandleResult.error = true
is_failure _ = false

-- One message of the socket, `rest` being what the port holds behind it.
abbrev pub one_sockio_msg : (ℕ → Option ℕ) → ℕ → List ℕ → Loop → Loop
one_sockio_msg task_of m rest l =
    let taken = record (l.sd) { sockio = record (l.sd.sockio) { user_port = rest } } in
    let (result, sd) = handle_sockio_msg task_of taken m in
    record l { sd = sd; socket_active = if is_failure result then false else l.socket_active }

-- The loop over the socket's messages, over what the port held at its start.
unfoldable pub sockio_msgs : (ℕ → Option ℕ) → List ℕ → Loop → Loop
sockio_msgs task_of [] l = record l {
  sd = record (l.sd) { sockio = record (l.sd.sockio) { user_port = [] } };
}
sockio_msgs task_of (m ∷ ms) l = sockio_msgs task_of ms (one_sockio_msg task_of m ms l)

unfoldable pub do_sockio : Masks → ℕ → Loop → Loop
unfolding is_sockio_idle
do_sockio masks got l =
    if has_signal masks.sport_mask got
    then (let l1 = sockio_msgs masks.task_of l.sd.sockio.user_port l in
        if is_sockio_idle l1.sd.sockio && not l1.vcon_active
        then record l1 { socket_active = false }
        else l1)
    else l

-- What a result means for the loop: the end of the console ends the socket too, if that is idle.
unfoldable pub after_vcon_msg : HandleResult → Loop → Loop
after_vcon_msg HandleResult.end l = record l {
  vcon_active = false;
  socket_active = if is_sockio_idle l.sd.sockio then false else l.socket_active;
}
after_vcon_msg _ l = l

-- One message of the console, likewise.
unfoldable pub one_vcon_msg : TimerAnswer → ℕ → List ℕ → Loop → Loop
one_vcon_msg answer i rest l =
    let taken = record (l.sd) { vcon = record (l.sd.vcon) { user_port = rest } } in
    let (result, sd) = handle_vcon_msg taken i l.socket_active answer in
    after_vcon_msg result (record l { sd = sd })

unfoldable pub vcon_msgs : (ℕ → TimerAnswer) → List ℕ → Loop → Loop
vcon_msgs answer [] l = record l {
  sd = record (l.sd) { vcon = record (l.sd.vcon) { user_port = [] } };
}
vcon_msgs answer (i ∷ is) l = vcon_msgs answer is (one_vcon_msg (answer i) i is l)

unfoldable pub do_console : Masks → ℕ → (ℕ → TimerAnswer) → Loop → Loop
do_console masks got answer l =
    if has_signal masks.vport_mask got then vcon_msgs answer l.sd.vcon.user_port l else l

-- What the system answers in one round.
pub record Round : Type 0 where
  pub selected : Selected
  pub answer : ℕ → TimerAnswer

unfoldable pub round : Masks → Round → Loop → Loop
round masks r l =
    let vcon_mask = vcon_get_sigmask l.sd.vcon in
    let all =
      bit_or (bit_or masks.run_mask vcon_mask)
        (bit_or masks.vport_mask (bit_or masks.sport_mask masks.break_mask)) in
    let (sio, got) = sockio_wait_handle l.sd.sockio all r.selected in
    let l1 = record l { sd = record (l.sd) { sockio = sio } } in
    do_console masks got r.answer (do_sockio masks got (do_vcon vcon_mask got l1))

-- The loop over the answers of the system, one for each round; it is left when both are inactive.
unfoldable pub main_loop : Masks → List Round → Loop → Loop
main_loop masks [] l = l
main_loop masks (r ∷ rs) l =
    let rest = main_loop masks rs (round masks r l) in
    if l.socket_active || l.vcon_active then rest else l

unfoldable pub start_loop : ServData → Loop
start_loop sd = record { sd = sd; socket_active = true; vcon_active = true }
