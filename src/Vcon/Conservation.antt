-- ===== src/Vcon/Conservation.antt =====
-- A console in use, over any sequence of events: each message stays in exactly one place, and each
-- packet is answered exactly once.
use rcli.Common.{
  ℕ, ◌+◌, ◌≡◌, ◌≢◌, refl, inl, inr, Option, none, some, List, [], ◌∷◌, arith, ◌==◌, ltb,
  if◌then◌else◌, update, count, count-append, count-range, remove, Bool-cases, ◌∙◌,
}
use rcli.Vcon.{vcon_create_fh, vcon_init}
use rcli.Vcon.Session.{
  Console, Event, arrives, opens, handles, takes, answers, answer, step, run, fresh,
}
use rcli.Vcon.Books.{
  queued, owed-append, queued-append, owed-update_private, count-remove, owed-remove, places,
  answers_for, Distinct,
}
use rcli.Vcon.Once.{vcon_handle_sigmask-Kept}

-- What a step of the console keeps. `owing` counts the packets that arrived with it.
record Fair (c d : Console) : Type 0 where
  placed : (m : ℕ) → places d.vcon d.held m ≡ places c.vcon c.held m
  owing :
      (p : ℕ)
      → queued p d.vcon.pkt_port + answers_for d.vcon d.held p + count p c.arrived
        ≡ queued p c.vcon.pkt_port + answers_for c.vcon c.held p + count p d.arrived

Fair-Distinct : {c d : Console} → Fair c d → Distinct c.vcon c.held → Distinct d.vcon d.held
Fair-Distinct h v = λ m. omega (arith, v m, h.placed m)

opens-Fair : (c : Console) (fh : Option ℕ) → Fair c (step (opens fh) c)
unfolding step vcon_create_fh
opens-Fair c none = ground arith
opens-Fair c (some a) = ground arith

takes-Fair : (c : Console) (user : List ℕ) → c.vcon.user_port ≡ user → Fair c (step takes c)
unfolding step
takes-Fair c [] e = rw (e, step) (record { placed = λ m. rw e; owing = λ p. rw e })
takes-Fair c (i ∷ rest) e =
    rw (e, step) (record { placed = λ m. omega arith; owing = λ p. omega arith })

answers-Fair : (c : Console) (i size mode : ℕ) → Fair c (step (answers i size mode) c)
unfolding step answer
answers-Fair c i size mode = elim (Bool-cases (count i c.held == 0)) [
  | inl e ↦ rw e (record { placed = λ m. refl; owing = λ p. refl })
  | inr e ↦
      let there : count i c.held ≢ 0 = ground arith in
      let v = answer (c.vcon.vmsgs i) size mode in
      let gone = remove i c.held in
      rw e (record {
        placed = λ m.
            omega (arith, count-append m c.vcon.vmsg_port (i ∷ []), count-remove i m c.held there);
        owing = λ p. ground (
          arith,
          owed-append p (update c.vcon.vmsgs i v) c.vcon.vmsg_port (i ∷ []),
          owed-update_private p i v c.vcon.vmsgs c.vcon.user_port refl,
          owed-update_private p i v c.vcon.vmsgs c.vcon.vmsg_port refl,
          owed-update_private p i v c.vcon.vmsgs gone refl,
          owed-remove p i c.vcon.vmsgs c.held there,
        );
      })
]

step-Fair : (e : Event) (c : Console) → Distinct c.vcon c.held → Fair c (step e c)
unfolding step
step-Fair (arrives pkt) c v = record {
  placed = λ m. refl;
  owing = λ p. omega (
    arith,
    queued-append p c.vcon.pkt_port (pkt ∷ []),
    count-append p c.arrived (pkt.address ∷ []),
  );
}
step-Fair (opens fh) c v = opens-Fair c fh
step-Fair (handles mask) c v =
    let h = vcon_handle_sigmask-Kept c.held mask c.vcon v in
    record { placed = h.placed; owing = λ p. omega (arith, h.owing p) }
step-Fair takes c v = takes-Fair c c.vcon.user_port refl
step-Fair (answers i size mode) c v = answers-Fair c i size mode

Fair-trans : {a b c : Console} → Fair a b → Fair b c → Fair a c
Fair-trans h k = record {
  placed = λ m. k.placed m ∙ h.placed m;
  owing = λ p. omega (arith, h.owing p, k.owing p);
}

run-Fair : (es : List Event) (c : Console) → Distinct c.vcon c.held → Fair c (run es c)
unfolding run
run-Fair [] c v = record { placed = λ m. refl; owing = λ p. refl }
run-Fair (e ∷ es) c v =
    let h = step-Fair e c v in Fair-trans h (run-Fair es (step e c) (Fair-Distinct h v))

-- The pool's size: at least 8.
abbrev pub pool_size : ℕ → ℕ
pool_size max_msgs = if ltb max_msgs 8 then 8 else max_msgs

pub fresh-places :
    (max_msgs b1 b2 m : ℕ)
    → let c = fresh max_msgs b1 b2 in
      places c.vcon c.held m ≡ (if ltb m (pool_size max_msgs) then 1 else 0)
unfolding fresh vcon_init
fresh-places max_msgs b1 b2 m = ground (arith, count-range m 0 (pool_size max_msgs))

fresh-Distinct : (max_msgs b1 b2 : ℕ) → let c = fresh max_msgs b1 b2 in Distinct c.vcon c.held
fresh-Distinct max_msgs b1 b2 = λ m. ground (arith, fresh-places max_msgs b1 b2 m)

-- After any sequence of events without a flush on a fresh console, each message of the pool stands
-- in exactly one of the free list, the client's port, the console's port and the client's hands,
-- and nothing else does: no message is lost, lent twice or made up.
pub run-places :
    (max_msgs b1 b2 : ℕ) (es : List Event) (m : ℕ)
    → let c = run es (fresh max_msgs b1 b2) in
      places c.vcon c.held m ≡ (if ltb m (pool_size max_msgs) then 1 else 0)
run-places max_msgs b1 b2 es m =
    (run-Fair es (fresh max_msgs b1 b2) (fresh-Distinct max_msgs b1 b2)).placed m
    ∙ fresh-places max_msgs b1 b2 m

-- After any sequence of events without a flush on a fresh console, for each packet the number of
-- its arrivals is the number of its copies in the packet port, of the answers sent to it, and of
-- the lent messages that stand for it: every packet is answered exactly once, now or through one
-- message.
pub run_answers_once :
    (max_msgs b1 b2 : ℕ) (es : List Event) (p : ℕ)
    → let c = run es (fresh max_msgs b1 b2) in
      count p c.arrived ≡ queued p c.vcon.pkt_port + answers_for c.vcon c.held p
unfolding fresh vcon_init
run_answers_once max_msgs b1 b2 es p =
    let h = run-Fair es (fresh max_msgs b1 b2) (fresh-Distinct max_msgs b1 b2) in
    omega (arith, h.owing p)
