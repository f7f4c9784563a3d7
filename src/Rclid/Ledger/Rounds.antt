-- ===== src/Rclid/Ledger/Rounds.antt =====
-- A round of `main_loop` of rclid.c keeps the books.
use rcli.Common.{
  ℕ, ◌≡◌, refl, ap, sym, subst, ◌∙◌, inl, inr, true, Option, List, [], ◌∷◌, arith, ◌&&◌, not,
  Bool-cases, bit_or,
}
use rcli.Timer.{TimerAnswer}
use rcli.Vcon.{vcon_get_sigmask}
use rcli.Vcon.Signals.{vcon_handle_sigmask}
use rcli.Vcon.Once.{vcon_handle_sigmask-Kept}
use rcli.Sockio.Session.{is_fresh}
use rcli.Sockio.Rounds.{sockio_wait_handle-Kept}
use rcli.Sockio.Frames.{sockio_wait_handle-Frames}
use rcli.Rclid.{ErrorText, error_out, HandleResult}
use rcli.Rclid.Console.{handle_vcon_msg}
use rcli.Rclid.Loop.{
  Loop, Masks, Round, is_sockio_idle, has_signal, do_vcon, sockio_msgs, one_sockio_msg, do_sockio,
  after_vcon_msg, one_vcon_msg, vcon_msgs, do_console, round,
}
use rcli.Rclid.Session.{granted, wakes, before_console, is_granted}
use rcli.Rclid.Ledger.{Stock, Sound, Sound-Distinct, Book-Distinct}
use rcli.Rclid.Ledger.Moves.{socket-Sound, console-Sound, rest-Sound, take_vmsg-Sound}
use rcli.Rclid.Ledger.Messages.{take_msg-Sound}
use rcli.Rclid.Ledger.Requests.{handle_vcon_msg-Sound}
use rcli.Rclid.Ledger.Answers.{handle_sockio_msg-Sound}
use rcli.Rclid.Ledger.Ports.{handle_sockio_msg-port, handle_vcon_msg-port}

after_vcon_msg_data : (r : HandleResult) (l : Loop) → (after_vcon_msg r l).sd ≡ l.sd
unfolding after_vcon_msg
after_vcon_msg_data HandleResult.end l = refl
after_vcon_msg_data HandleResult.ok l = refl
after_vcon_msg_data HandleResult.error l = refl

pub one_vcon_msg_data :
    (answer : TimerAnswer) (i : ℕ) (rest : List ℕ) (l : Loop)
    → let taken = record (l.sd) { vcon = record (l.sd.vcon) { user_port = rest } } in
      (one_vcon_msg answer i rest l).sd ≡ (handle_vcon_msg taken i l.socket_active answer).1
unfolding one_vcon_msg
one_vcon_msg_data answer i rest l = after_vcon_msg_data _ _

module _ {k : Stock} where
  pub sockio_msgs-Sound :
      (task_of : ℕ → Option ℕ) (ms : List ℕ) (l : Loop)
      → l.sd.sockio.user_port ≡ ms
      → Sound k [] [] l.sd
      → Sound k [] [] (sockio_msgs task_of ms l).sd
  unfolding sockio_msgs
  sockio_msgs-Sound task_of [] l e s =
      let sd = l.sd in
      rest-Sound sd _ refl (ap (λ p. record (sd.sockio) { user_port = p }) (sym e)) s
  sockio_msgs-Sound task_of (m ∷ ms) l e s =
      let taken = record (l.sd) { sockio = record (l.sd.sockio) { user_port = ms } } in
      sockio_msgs-Sound task_of ms (one_sockio_msg task_of m ms l)
        (handle_sockio_msg-port task_of taken m)
        (handle_sockio_msg-Sound task_of taken m (take_msg-Sound l.sd m ms e s))

  pub do_sockio-Sound :
      (masks : Masks) (got : ℕ) (l : Loop)
      → Sound k [] [] l.sd
      → Sound k [] [] (do_sockio masks got l).sd
  unfolding do_sockio
  do_sockio-Sound masks got l s =
      let l1 = sockio_msgs masks.task_of l.sd.sockio.user_port l in
      let one = sockio_msgs-Sound masks.task_of l.sd.sockio.user_port l refl s in
      elim (Bool-cases (has_signal masks.sport_mask got)) [
        | inl e ↦ elim (Bool-cases (is_sockio_idle l1.sd.sockio && not l1.vcon_active)) [
          | inl d ↦ rw (e, d) one
          | inr d ↦ rw (e, d) one
        ]
        | inr e ↦ rw e s
      ]

  vcon_msgs-Sound :
      (answer : ℕ → TimerAnswer) (is : List ℕ) (l : Loop)
      → l.sd.vcon.user_port ≡ is
      → granted answer is l ≡ true
      → Sound k [] [] l.sd
      → Sound k [] [] (vcon_msgs answer is l).sd
  unfolding vcon_msgs granted
  vcon_msgs-Sound answer [] l e g s =
      let sd = l.sd in rest-Sound sd _ (ap (λ p. record (sd.vcon) { user_port = p }) (sym e)) refl s
  vcon_msgs-Sound answer (i ∷ is) l e g s =
      let taken = record (l.sd) { vcon = record (l.sd.vcon) { user_port = is } } in
      let l1 = one_vcon_msg (answer i) i is l in
      let done = (handle_vcon_msg taken i l.socket_active (answer i)).1 in
      let same = one_vcon_msg_data (answer i) i is l in
      let fresh : is_fresh l.sd.sockio.timer (answer i).job ≡ true = ground (arith, g) in
      vcon_msgs-Sound answer is l1
        (ap (λ x. x.vcon.user_port) same ∙ handle_vcon_msg-port taken i l.socket_active (answer i))
        (ground (arith, g))
        (subst (λ x. Sound k [] [] x) (sym same)
          (handle_vcon_msg-Sound taken i (take_vmsg-Sound l.sd i is e s) (answer i) fresh
            l.socket_active))

  pub do_console-Sound :
      (masks : Masks) (got : ℕ) (answer : ℕ → TimerAnswer) (l : Loop)
      → granted answer l.sd.vcon.user_port l ≡ true
      → Sound k [] [] l.sd
      → Sound k [] [] (do_console masks got answer l).sd
  unfolding do_console
  do_console-Sound masks got answer l g s = elim (Bool-cases (has_signal masks.vport_mask got)) [
    | inl e ↦ rw e (vcon_msgs-Sound answer l.sd.vcon.user_port l refl g s)
    | inr e ↦ rw e s
  ]

  pub do_vcon-Sound :
      (mask got : ℕ) (l : Loop) → Sound k [] [] l.sd → Sound k [] [] (do_vcon mask got l).sd
  unfolding do_vcon
  do_vcon-Sound mask got l s =
      let p = vcon_handle_sigmask l.sd.vcon got in
      let sd = record (l.sd) { vcon = p.0 } in
      let one =
        console-Sound l.sd p.0 (vcon_handle_sigmask-Kept _ got l.sd.vcon (Book-Distinct s.book))
          s in
      elim (Bool-cases (has_signal mask got)) [
        | inl e ↦ elim (Bool-cases p.1) [
          | inl d ↦ rw (e, d) one
          | inr d ↦ rw (e, d) (rest-Sound sd (error_out sd ErrorText.out_of_memory) refl refl one)
        ]
        | inr e ↦ rw e s
      ]

  -- One round, whatever the system answers, if memory for timer jobs is fresh.
  pub round-Sound :
      (masks : Masks) (r : Round) (l : Loop)
      → is_granted masks r l ≡ true
      → Sound k [] [] l.sd
      → Sound k [] [] (round masks r l).sd
  unfolding round
  round-Sound masks r l g s =
      let all =
        bit_or (bit_or masks.run_mask (vcon_get_sigmask l.sd.vcon))
          (bit_or masks.vport_mask (bit_or masks.sport_mask masks.break_mask)) in
      let w = wakes masks r l in
      let l1 = w.0 in
      let one =
        socket-Sound l.sd l1.sd.sockio
          (sockio_wait_handle-Kept [] l.sd.sockio all r.selected (Sound-Distinct l.sd s) s.links)
          (sockio_wait_handle-Frames l.sd.sockio all r.selected) s in
      let l2 = do_vcon (vcon_get_sigmask l.sd.vcon) w.1 l1 in
      let two = do_vcon-Sound (vcon_get_sigmask l.sd.vcon) w.1 l1 one in
      do_console-Sound masks w.1 r.answer (before_console masks r l) g
        (do_sockio-Sound masks w.1 l2 two)
