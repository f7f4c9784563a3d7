-- ===== src/Rclid/Ledger/Closing.antt =====
-- Two rounds of `main_loop` of rclid.c answer everything once the socket is gone.
use rcli.Common.{
  ℕ, ◌≡◌, refl, ap, sym, subst, ◌∙◌, inl, inr, Bool, true, false, [], arith, ◌==◌, not, Bool-cases,
  bit_and, bit_or,
}
use rcli.Vcon.{Vcon, vcon_get_sigmask}
use rcli.Vcon.Signals.{vcon_handle_sigmask}
use rcli.Vcon.Drained.{sigmask-pkt_port, sigmask-vmsg_port}
use rcli.Sockio.Rounds.{sockio_wait_handle-Kept}
use rcli.Sockio.Frames.{sockio_wait_handle-Frames}
use rcli.Rclid.Loop.{
  Loop, Masks, Round, has_signal, do_vcon, do_sockio, do_console, vcon_msgs, round,
}
use rcli.Rclid.Activity.{do_sockio-Stays}
use rcli.Rclid.Drained.{sockio_msgs-vcon_msgs}
use rcli.Rclid.Session.{wakes}
use rcli.Rclid.Ledger.{Stock, Sound, Sound-Distinct}
use rcli.Rclid.Ledger.Moves.{socket-Sound, carried-Frames}
use rcli.Rclid.Ledger.Rounds.{do_vcon-Sound, do_sockio-Sound}
use rcli.Rclid.Ledger.Quiet.{Apart, Unused, Unused-same, do_sockio-vcon, vcon_msgs-Apart}

-- The signals of a round.
abbrev pub got_in : Masks → Round → Loop → ℕ
got_in masks r l = (wakes masks r l).1

abbrev pub has_bit : ℕ → ℕ → Bool
has_bit got mask = not (bit_and got mask == 0)

do_vcon_rest :
    (mask got : ℕ) (l : Loop)
    → ((do_vcon mask got l).sd.sockio ≡ l.sd.sockio)
      × ((do_vcon mask got l).socket_active ≡ l.socket_active)
unfolding do_vcon
do_vcon_rest mask got l = (ground arith, ground arith)

do_vcon_console :
    (mask got : ℕ) (l : Loop)
    → has_signal mask got ≡ true
    → (do_vcon mask got l).sd.vcon ≡ (vcon_handle_sigmask l.sd.vcon got).0
unfolding do_vcon
do_vcon_console mask got l e = elim (Bool-cases (vcon_handle_sigmask l.sd.vcon got).1) [
  | inl d ↦ rw (e, d) refl
  | inr d ↦ rw (e, d) refl
]

module _ {k : Stock} (masks : Masks) (r : Round) (l : Loop) (s : Sound k [] [] l.sd)
    (u : Unused l.sd.sockio) (off : l.socket_active ≡ false) where
  abbrev mask : ℕ
  mask = vcon_get_sigmask l.sd.vcon

  abbrev got : ℕ
  got = got_in masks r l

  abbrev woken : Loop
  woken = (wakes masks r l).0

  abbrev served : Loop
  served = do_vcon mask got woken

  abbrev cleared : Loop
  cleared = do_sockio masks got served

  woken-Sound : Sound k [] [] woken.sd × Unused woken.sd.sockio
  woken-Sound =
      let all =
        bit_or (bit_or masks.run_mask mask)
          (bit_or masks.vport_mask (bit_or masks.sport_mask masks.break_mask)) in
      let v = Sound-Distinct l.sd s in
      let kept = sockio_wait_handle-Kept [] l.sd.sockio all r.selected v s.links in
      let frames = sockio_wait_handle-Frames l.sd.sockio all r.selected in
      (
        socket-Sound l.sd woken.sd.sockio kept frames s,
        λ m. sym (carried-Frames [] l.sd.sockio woken.sd.sockio m v kept frames) ∙ u m,
      )

  -- What the round finds when it turns to the console's port.
  cleared-Sound :
      Sound k [] [] cleared.sd
      × Unused cleared.sd.sockio
      × (cleared.socket_active ≡ false)
      × (cleared.sd.vcon ≡ served.sd.vcon)
  cleared-Sound =
      let (one, used) = woken-Sound in
      let two = do_vcon-Sound mask got woken one in
      let (sockio, active) = do_vcon_rest mask got woken in
      let used2 : Unused served.sd.sockio = subst Unused (sym sockio) used in
      let same = do_sockio-vcon masks got served two used2 in
      let three = do_sockio-Sound masks got served two in
      let (stays, other) = do_sockio-Stays masks got served in
      (
        three,
        Unused-same served.sd cleared.sd same two three used2,
        ground (arith, stays, active, off),
        same,
      )

  asked-Apart : Apart cleared.sd (round masks r l).sd × ((round masks r l).socket_active ≡ false)
  unfolding round do_console
  asked-Apart =
      let (three, used, inactive, same) = cleared-Sound in
      elim (Bool-cases (has_signal masks.vport_mask got)) [
        | inl e ↦ rw e (vcon_msgs-Apart r.answer cleared.sd.vcon.user_port cleared inactive)
        | inr e ↦ rw e (record { sockio = refl; pkt_port = refl }, inactive)
      ]

  -- The socket stays out of it, and no packet is left by the round that was not left before it
  -- turned to the console's port.
  pub round-Unused :
      Unused (round masks r l).sd.sockio
      × ((round masks r l).socket_active ≡ false)
      × ((round masks r l).sd.vcon.pkt_port ≡ served.sd.vcon.pkt_port)
  round-Unused =
      let (three, used, inactive, same) = cleared-Sound in
      let (apart, off') = asked-Apart in
      (
        subst Unused (sym apart.sockio) used,
        off',
        apart.pkt_port ∙ ap (λ (v : Vcon). v.pkt_port) same,
      )

  -- Signals of packets and of the console's port: no packet and no request waits.
  pub round-asked :
      has_signal mask got ≡ true
      → has_bit got woken.sd.vcon.pkt_sigmask ≡ true
      → has_signal masks.vport_mask got ≡ true
      → ((round masks r l).sd.vcon.pkt_port ≡ []) × ((round masks r l).sd.vcon.user_port ≡ [])
  unfolding round do_console
  round-asked e pkts port =
      let (used, off', left) = round-Unused in
      let (sockets, (loop, empty)) = sockio_msgs-vcon_msgs masks.task_of r.answer cleared in
      (
        left
            ∙ ap (λ (v : Vcon). v.pkt_port) (do_vcon_console mask got woken e)
            ∙ sigmask-pkt_port woken.sd.vcon got (ground (arith, pkts)),
        rw port empty,
      )

  -- The signal of replies, where no packet and no request waited: no reply waits either.
  pub round-replied :
      has_signal mask got ≡ true
      → has_bit got woken.sd.vcon.vmsg_sigmask ≡ true
      → l.sd.vcon.pkt_port ≡ []
      → l.sd.vcon.user_port ≡ []
      → let v = (round masks r l).sd.vcon in
        (v.pkt_port ≡ []) × (v.user_port ≡ []) × (v.vmsg_port ≡ [])
  unfolding round do_console vcon_msgs
  round-replied e replies nopkt nouser =
      let (three, used, inactive, same) = cleared-Sound in
      let (p, w, q) = sigmask-vmsg_port woken.sd.vcon got nopkt (ground (arith, replies)) in
      let there = same ∙ do_vcon_console mask got woken e in
      let pkt = ap (λ (v : Vcon). v.pkt_port) there ∙ p in
      let vmsg = ap (λ (v : Vcon). v.vmsg_port) there ∙ w in
      let user = ap (λ (v : Vcon). v.user_port) there ∙ q ∙ nouser in
      elim (Bool-cases (has_signal masks.vport_mask got)) [
        | inl d ↦ rw (d, user) (pkt, refl, vmsg)
        | inr d ↦ rw d (pkt, user, vmsg)
      ]
