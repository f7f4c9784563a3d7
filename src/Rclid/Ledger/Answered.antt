-- ===== src/Rclid/Ledger/Answered.antt =====
-- The programs behind the console of rclid.c are answered once the socket is gone.
use rcli.Common.{ℕ, ◌≡◌, ap, Bool, true, false, List, [], arith, ◌&&◌, count}
use rcli.Vcon.{vcon_get_sigmask}
use rcli.Vcon.Books.{replied, owed, queued}
use rcli.Sockio.Session
use rcli.Rclid.{ServData}
use rcli.Rclid.Loop.{Loop, Masks, Round, has_signal, round}
use rcli.Rclid.Cargo.{carried, cargo, user_of, in_flight}
use rcli.Rclid.Session.{Server, Event, Grant, run, start, is_granted, after_handshake}
use rcli.Rclid.Ledger.{owed-same}
use rcli.Rclid.Ledger.Rounds.{round-Sound}
use rcli.Rclid.Ledger.Accounts.{started-Balanced}
use rcli.Rclid.Ledger.Quiet.{Unused}
use rcli.Rclid.Ledger.Closing.{got_in, has_bit, round-Unused, round-asked, round-replied}

-- The signals of packets and of the console's port come together in the round.
abbrev pub brings_packets : Masks → Round → Loop → Bool
brings_packets masks r l =
    let got = got_in masks r l in
    has_signal (vcon_get_sigmask l.sd.vcon) got
    && (has_bit got l.sd.vcon.pkt_sigmask && has_signal masks.vport_mask got)

-- The signal of replies comes in the round.
abbrev pub brings_replies : Masks → Round → Loop → Bool
brings_replies masks r l =
    let got = got_in masks r l in
    has_signal (vcon_get_sigmask l.sd.vcon) got && has_bit got l.sd.vcon.vmsg_sigmask

module _ (grant : Grant) (es : List Session.Event) (sd : ServData)
    (done : (after_handshake grant sd.options es).held ≡ []) (events : List Event) (masks : Masks)
    (r1 r2 : Round) where
  -- The server after the events, and after one and two rounds more.
  abbrev pub ended : Server
  ended = run events (start grant es sd)

  abbrev pub first : Loop
  first = round masks r1 ended.loop

  abbrev pub second : Loop
  second = round masks r2 first

  -- If the handshake has freed the messages that it took, and after any events the socket is inactive
  -- and no message is in flight: two more rounds, the first with the signals of packets and of the
  -- console's port and the second with that of replies, both with fresh memory for timer jobs, leave
  -- every packet answered as often as it arrived.
  pub round-answers_all :
      ended.loop.socket_active ≡ false
      → in_flight ended.loop.sd.sockio ≡ []
      → is_granted masks r1 ended.loop ≡ true
      → is_granted masks r2 first ≡ true
      → brings_packets masks r1 ended.loop ≡ true
      → brings_replies masks r2 first ≡ true
      → (p : ℕ) → count p ended.arrived ≡ replied p second.sd.vcon.replies
  round-answers_all off idle g1 g2 packets replies p =
      let sio = ended.loop.sd.sockio in
      let s = started-Balanced grant es sd done events in
      let u : Unused sio = λ m. ap (λ x. count m (cargo (user_of sio) x)) idle in
      let s1 = round-Sound masks r1 ended.loop g1 s in
      let s2 = round-Sound masks r2 first g2 s1 in
      let (u1, off1, left1) = round-Unused masks r1 ended.loop s u off in
      let (pkt1, user1) =
        round-asked masks r1 ended.loop s u off (ground (arith, packets)) (ground (arith, packets))
          (ground (arith, packets)) in
      let (u2, off2, left2) = round-Unused masks r2 first s1 u1 off1 in
      let (pkt2, user2, vmsg2) =
        round-replied masks r2 first s1 u1 off1 (ground (arith, replies)) (ground (arith, replies))
          pkt1 user1 in
      let v = second.sd.vcon in
      omega (
        arith,
        s2.book.owing p,
        ap (queued p) pkt2,
        ap (owed p v.vmsgs) user2,
        ap (owed p v.vmsgs) vmsg2,
        owed-same p v.vmsgs (carried second.sd.sockio) [] u2,
      )
