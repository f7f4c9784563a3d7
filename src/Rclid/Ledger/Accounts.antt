-- ===== src/Rclid/Ledger/Accounts.antt =====
-- The server of rclid.c over any sequence of events: where each message is, and how often each
-- packet is answered.
use rcli.Common.{
  ℕ, ◌+◌, ◌≡◌, refl, ap, sym, ◌∙◌, inl, inr, Option, none, some, List, [], ◌∷◌, arith, ltb, ◌||◌,
  Bool-cases, count, count-append, count-range, if◌then◌else◌, is_null,
}
use rcli.Timer.{find_job}
use rcli.Vcon.{Vcon, vcon_create_fh, vcon_init}
use rcli.Vcon.Books.{queued, queued-append, answers_for, places}
use rcli.Vcon.Once
use rcli.Vcon.Conservation.{pool_size}
use rcli.Sockio.Links
use rcli.Sockio.Session
use rcli.Sockio.Conservation.{run_all, fresh-places}
use rcli.Rclid.{ServData}
use rcli.Rclid.Loop.{start_loop}
use rcli.Rclid.Cargo.{carried, cargo-none, in_flight, user_of}
use rcli.Rclid.Session.{
  Server, Event, arrives, opens, fires, rounds, Grant, step, run, start, is_granted,
  after_handshake,
}
use rcli.Rclid.Ledger.{Book-same, Sound}
use rcli.Rclid.Ledger.Moves.{console-Sound}
use rcli.Rclid.Ledger.Rounds.{round-Sound}
use rcli.Rclid.Ledger.Start.{fresh-Unloaded}

-- The books of a server between two rounds.
abbrev pub Balanced : ℕ → ℕ → Server → Type 0
Balanced vmsgs msgs s =
    Sound (record { vmsgs = vmsgs; msgs = msgs; arrived = s.arrived }) [] [] s.loop.sd

vcon_create_fh-Kept :
    (held : List ℕ) (v : Vcon) (fh : Option ℕ) → Once.Kept held v (vcon_create_fh v fh).1
unfolding vcon_create_fh
vcon_create_fh-Kept held v none = record { placed = λ m. ground arith; owing = λ p. ground arith }
vcon_create_fh-Kept held v (some a) = record {
  placed = λ m. ground arith;
  owing = λ p. ground arith;
}

step-Balanced :
    {vmsgs msgs : ℕ} (e : Event) (s : Server)
    → Balanced vmsgs msgs s
    → Balanced vmsgs msgs (step e s)
unfolding step
step-Balanced (arrives pkt) s h =
    let b = h.book in
    record {
      book = record {
        placed = b.placed;
        owing = λ p. omega (
          arith,
          b.owing p,
          queued-append p s.loop.sd.vcon.pkt_port (pkt ∷ []),
          count-append p s.arrived (pkt.address ∷ []),
        );
      };
      placed = h.placed;
      links = h.links;
    }
step-Balanced (opens fh) s h =
    console-Sound s.loop.sd (vcon_create_fh s.loop.sd.vcon fh).1
      (vcon_create_fh-Kept _ s.loop.sd.vcon fh) h
step-Balanced (fires a) s h =
    elim (Bool-cases (is_null (find_job a s.loop.sd.sockio.timer.job_list))) [
      | inl e ↦ rw e h
      | inr e ↦ rw e (record { book = h.book; placed = h.placed; links = h.links })
    ]
step-Balanced (rounds masks r) s h =
    elim (Bool-cases (s.loop.socket_active || s.loop.vcon_active)) [
      | inl e ↦ elim (Bool-cases (is_granted masks r s.loop)) [
        | inl g ↦ rw (e, g) (round-Sound masks r s.loop g h)
        | inr g ↦ rw (e, g) h
      ]
      | inr e ↦ rw e h
    ]

run-Balanced :
    {vmsgs msgs : ℕ} (es : List Event) (s : Server)
    → Balanced vmsgs msgs s
    → Balanced vmsgs msgs (run es s)
unfolding run
run-Balanced [] s h = h
run-Balanced (e ∷ es) s h = run-Balanced es (step e s) (step-Balanced e s h)

module _ (grant : Grant) (es : List Session.Event) (sd : ServData)
    (done : (after_handshake grant sd.options es).held ≡ []) where
  start-Balanced : Balanced (pool_size sd.options.max_msgs) sd.options.max_msgs (start grant es sd)
  unfolding start start_loop vcon_init
  start-Balanced =
      let opts = sd.options in
      let c = after_handshake grant opts es in
      let unloaded =
        fresh-Unloaded opts.max_msgs opts.push_back_max grant.push_back_base grant.msg_bit
          grant.timer_bit grant.ram es in
      let fair =
        run_all opts.max_msgs opts.push_back_max grant.push_back_base grant.msg_bit grant.timer_bit
          grant.ram es in
      record {
        book =
            Book-same {xs = []}
              (λ m. sym (cargo-none (user_of c.sio) m (in_flight c.sio) (λ i. inr (unloaded i))))
              (record {
                placed = λ m. ground (arith, count-range m 0 (pool_size opts.max_msgs));
                owing = λ p. refl;
              });
        placed = λ m.
            ap (λ held. Links.places c.sio held m) (sym done)
            ∙ fair.placed m
            ∙ fresh-places opts.max_msgs opts.push_back_max grant.push_back_base grant.msg_bit
                grant.timer_bit grant.ram m;
        links = fair.links;
      }

  pub started-Balanced :
      (events : List Event)
      → Balanced
          (pool_size sd.options.max_msgs)
          sd.options.max_msgs
          (run events (start grant es sd))
  started-Balanced events = run-Balanced events (start grant es sd) start-Balanced

  -- If the handshake has freed the socket messages that it took: after any sequence of packets,
  -- opened file handles, timer expiries and rounds of the main loop, whatever the system answers in
  -- them with fresh memory for timer jobs, the number of arrivals of a packet is that of its copies
  -- in the packet port, of the answers sent to it, and of the console messages for it that stand in
  -- the console's ports or are carried by a socket message in flight.
  pub packets_owed_once :
      (events : List Event) (p : ℕ)
      → let s = run events (start grant es sd) in
        let v = s.loop.sd.vcon in
        count p s.arrived ≡ queued p v.pkt_port + answers_for v (carried s.loop.sd.sockio) p
  packets_owed_once events p = (started-Balanced events).book.owing p

  -- If the handshake has freed the socket messages that it took: after any sequence of packets,
  -- opened file handles, timer expiries and rounds of the main loop with fresh memory for timer
  -- jobs, each console message stands in exactly one of the console's free list, its two ports and
  -- the socket messages in flight, one of which carries it; each socket message stands in exactly
  -- one of the socket's free list, its lists of pending requests and its ports; and there are no
  -- others.
  pub messages_placed :
      (events : List Event) (m : ℕ)
      → let s = run events (start grant es sd) in
        let sio = s.loop.sd.sockio in
        (places s.loop.sd.vcon (carried sio) m
          ≡ (if ltb m (pool_size sd.options.max_msgs) then 1 else 0))
        × (Links.places sio [] m ≡ (if ltb m sd.options.max_msgs then 1 else 0))
  messages_placed events m = let b = started-Balanced events in (b.book.placed m, b.placed m)
