-- ===== src/Rclid/Activity.antt =====
-- The two flags of `main_loop`: once a side is done it stays done.
use rcli.Common.{
  ℕ, ◌≡◌, refl, Option, List, [], ◌∷◌, arith, ◌&&◌, ◌||◌, Bool-cases, inl, inr, bit_or,
}
use rcli.Timer.{TimerAnswer}
use rcli.Vcon.{vcon_get_sigmask}
use rcli.Sockio.Handle.{sockio_wait_handle}
use rcli.Rclid.{HandleResult}
use rcli.Rclid.Loop.{
  Loop, Masks, Round, do_vcon, sockio_msgs, do_sockio, after_vcon_msg, vcon_msgs, do_console, round,
  one_sockio_msg, one_vcon_msg, main_loop,
}

-- A flag that is down before is down after.
abbrev pub Stays : Loop → Loop → Type 0
Stays l l' =
    ((l'.socket_active ≡ (l.socket_active && l'.socket_active)))
    × (l'.vcon_active ≡ (l.vcon_active && l'.vcon_active))

Stays-trans : (a b c : Loop) → Stays a b → Stays b c → Stays a c
Stays-trans a b c h k = ground arith

sockio_msgs-Stays :
    (task_of : ℕ → Option ℕ) (ms : List ℕ) (l : Loop) → Stays l (sockio_msgs task_of ms l)
unfolding sockio_msgs
sockio_msgs-Stays task_of [] l = (ground arith, ground arith)
sockio_msgs-Stays task_of (m ∷ ms) l =
    let l1 = one_sockio_msg task_of m ms l in
    Stays-trans l l1 (sockio_msgs task_of ms l1) (ground arith, ground arith)
      (sockio_msgs-Stays task_of ms l1)

after_vcon_msg-Stays :
    (r : HandleResult) (l l1 : Loop)
    → l1.socket_active ≡ l.socket_active
    → l1.vcon_active ≡ l.vcon_active
    → Stays l (after_vcon_msg r l1)
unfolding after_vcon_msg
after_vcon_msg-Stays HandleResult.end l l1 a b = (ground arith, ground arith)
after_vcon_msg-Stays HandleResult.ok l l1 a b = (ground arith, ground arith)
after_vcon_msg-Stays HandleResult.error l l1 a b = (ground arith, ground arith)

vcon_msgs-Stays :
    (answer : ℕ → TimerAnswer) (is : List ℕ) (l : Loop) → Stays l (vcon_msgs answer is l)
unfolding vcon_msgs one_vcon_msg
vcon_msgs-Stays answer [] l = (ground arith, ground arith)
vcon_msgs-Stays answer (i ∷ is) l =
    let l1 = one_vcon_msg (answer i) i is l in
    Stays-trans l l1 (vcon_msgs answer is l1) (after_vcon_msg-Stays _ l _ refl refl)
      (vcon_msgs-Stays answer is l1)

pub do_vcon-Stays : (vcon_mask got : ℕ) (l : Loop) → Stays l (do_vcon vcon_mask got l)
unfolding do_vcon
do_vcon-Stays vcon_mask got l = (ground arith, ground arith)

pub do_sockio-Stays : (masks : Masks) (got : ℕ) (l : Loop) → Stays l (do_sockio masks got l)
unfolding do_sockio
do_sockio-Stays masks got l =
    ground (arith, sockio_msgs-Stays masks.task_of l.sd.sockio.user_port l)

pub do_console-Stays :
    (masks : Masks) (got : ℕ) (answer : ℕ → TimerAnswer) (l : Loop)
    → Stays l (do_console masks got answer l)
unfolding do_console
do_console-Stays masks got answer l = ground (arith, vcon_msgs-Stays answer l.sd.vcon.user_port l)

round-Stays : (masks : Masks) (r : Round) (l : Loop) → Stays l (round masks r l)
unfolding round
round-Stays masks r l =
    let (sio, got) =
      sockio_wait_handle l.sd.sockio
        (bit_or (bit_or masks.run_mask (vcon_get_sigmask l.sd.vcon))
          (bit_or masks.vport_mask (bit_or masks.sport_mask masks.break_mask)))
        r.selected in
    let l1 = record l { sd = record (l.sd) { sockio = sio } } in
    let l2 = do_vcon (vcon_get_sigmask l.sd.vcon) got l1 in
    let l3 = do_sockio masks got l2 in
    let l4 = do_console masks got r.answer l3 in
    Stays-trans l l2 l4
      (Stays-trans l l1 l2 (ground arith, ground arith)
        (do_vcon-Stays (vcon_get_sigmask l.sd.vcon) got l1))
      (Stays-trans l2 l3 l4 (do_sockio-Stays masks got l2) (do_console-Stays masks got r.answer l3))

-- Over any number of rounds and whatever the system answers: a socket or a console that the loop
-- has found done is never taken for active again.
main_loop-Stays : (masks : Masks) (rs : List Round) (l : Loop) → Stays l (main_loop masks rs l)
unfolding main_loop
main_loop-Stays masks [] l = (ground arith, ground arith)
main_loop-Stays masks (r ∷ rs) l = elim (Bool-cases (l.socket_active || l.vcon_active)) [
  | inl e ↦ rw e (
      Stays-trans l (round masks r l) (main_loop masks rs (round masks r l)) (round-Stays masks r l)
        (main_loop-Stays masks rs (round masks r l)))
  | inr e ↦ rw e (ground arith, ground arith)
]
