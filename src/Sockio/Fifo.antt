-- ===== src/Sockio/Fifo.antt =====
-- A socket in use, over any sequence of events: writes are answered in the order in which they were
-- submitted.
use rcli.Common.{
  ℕ, ◌≡◌, refl, ap, sym, subst, ◌∙◌, inl, inr, List, [], ◌∷◌, ◌++◌, arith, ◌==◌, if◌then◌else◌,
  count, append_assoc, append-nil, Bool-cases, Ram,
}
use rcli.Sockio.{Sockio, SockioMsg, sockio_init}
use rcli.Sockio.Submit.{sockio_send}
use rcli.Sockio.Session.{
  Client, Event, reads, sends, waits, fires, handles, takes, frees, pushes, flushes, is_fresh, step,
  drive, fresh,
}
use rcli.Sockio.Links.{Distinct, Links}
use rcli.Sockio.Conservation.{step-Fair, fresh-places, fresh-Links}
use rcli.Sockio.Writes.{is_write, writes_of, writes, Typed}
use rcli.Sockio.Ordered.{same-Ordered, sockio_flush-Ordered}
use rcli.Sockio.Queued.{sockio_wait_handle-Ordered}
use rcli.Sockio.Issued.{
  listed, Submits, quiet-Submits, recv-Ordered, send-Submits, wait-Ordered, push_back-Ordered,
  fire-Ordered, free-Ordered,
}

-- The write that an event submits, and the write that it gives back to the client.
abbrev pub submitted_by : Event → Client → List ℕ
submitted_by (sends buf size) c = listed (sockio_send c.sio buf size).0
submitted_by _ c = []

abbrev pub first_write : (ℕ → SockioMsg) → List ℕ → List ℕ
first_write msgs [] = []
first_write msgs (i ∷ is) = if is_write (msgs i).type then i ∷ [] else []

abbrev pub given_by : Event → Client → List ℕ
given_by takes c = first_write c.sio.msgs c.sio.user_port
given_by _ c = []

-- All that a sequence of events submits, and all that it gives back, in this order.
abbrev pub submitted : List Event → Client → List ℕ
submitted [] c = []
submitted (e ∷ es) c = submitted_by e c ++ submitted es (step e c)

abbrev pub given : List Event → Client → List ℕ
given [] c = []
given (e ∷ es) c = given_by e c ++ given es (step e c)

-- What an event does to the writes: those that it gives back come first, those that it submits last.
record Passes (e : Event) (c d : Client) : Type 0 where
  order : given_by e c ++ writes d.sio ≡ writes c.sio ++ submitted_by e c
  typed : Typed d.sio

inside :
    (e : Event) (c : Client) (sio : Sockio)
    → given_by e c ≡ []
    → Submits (submitted_by e c) c.sio sio
    → Passes e c (record c { sio = sio })
inside e c sio g h = record { order = ap (λ xs. xs ++ writes sio) g ∙ h.order; typed = h.typed }

-- The client once it has taken what stands first at its port.
abbrev taken : Client → List ℕ → Client
taken c [] = c
taken c (i ∷ rest) = record { sio = record (c.sio) { user_port = rest }; held = i ∷ c.held }

takes-taken : (c : Client) (user : List ℕ) → c.sio.user_port ≡ user → step takes c ≡ taken c user
unfolding step
takes-taken c [] e =
    subst
      (λ p.
        (elim p [
          | [] ↦ c
          | i ∷ rest ↦ record { sio = record (c.sio) { user_port = rest }; held = i ∷ c.held }
        ])
        ≡ c)
      (sym e) refl
takes-taken c (i ∷ rest) e = rw (step, e) refl

first_write-writes :
    (c : Client) (user : List ℕ)
    → c.sio.user_port ≡ user
    → first_write c.sio.msgs user ++ writes (taken c user).sio
      ≡ writes_of c.sio.msgs user c.sio.send_list c.sio.msg_port
first_write-writes c [] e = rw e refl
first_write-writes c (i ∷ rest) e = elim (Bool-cases (is_write (c.sio.msgs i).type)) [
  | inl w ↦ rw w refl
  | inr w ↦ rw w refl
]

taken-Typed : (c : Client) (user : List ℕ) → Typed c.sio → Typed (taken c user).sio
taken-Typed c [] t = t
taken-Typed c (i ∷ rest) t = record { sends = t.sends; reads = t.reads; waits = t.waits }

takes-Passes : (c : Client) → Typed c.sio → Passes takes c (step takes c)
takes-Passes c t =
    let user = c.sio.user_port in
    subst (Passes takes c) (sym (takes-taken c user refl)) (record {
      order = first_write-writes c user refl ∙ sym (append-nil (writes c.sio));
      typed = taken-Typed c user t;
    })

frees-Passes :
    (c : Client) (i : ℕ)
    → Distinct c.sio c.held
    → Typed c.sio
    → Passes (frees i) c (step (frees i) c)
unfolding step
frees-Passes c i v t = elim (Bool-cases (count i c.held == 0)) [
  | inl e ↦ rw e (inside (frees i) c c.sio refl (quiet-Submits (same-Ordered c.sio t)))
  | inr e ↦
      let h = free-Ordered c.held c.sio v t i (λ z. ground arith) in
      rw e (record { order = h.order ∙ sym (append-nil (writes c.sio)); typed = h.typed })
]

step-Passes :
    (e : Event) (c : Client)
    → Distinct c.sio c.held
    → Links c.sio
    → Typed c.sio
    → Passes e c (step e c)
unfolding step
step-Passes (reads buf n k) c v l t =
    inside (reads buf n k) c _ refl
      (quiet-Submits (recv-Ordered c.held c.sio v t buf n k c.sio.free_list refl))
step-Passes (sends buf n) c v l t =
    inside (sends buf n) c _ refl (send-Submits c.held c.sio v t buf n c.sio.free_list refl)
step-Passes (waits answer us) c v l t = elim (Bool-cases (is_fresh c.sio.timer answer.job)) [
  | inl e ↦ rw e (
      inside (waits answer us) c _ refl
        (quiet-Submits (wait-Ordered c.held c.sio v t answer us c.sio.free_list refl)))
  | inr e ↦ rw e (inside (waits answer us) c c.sio refl (quiet-Submits (same-Ordered c.sio t)))
]
step-Passes (fires a) c v l t =
    inside (fires a) c _ refl (quiet-Submits (fire-Ordered c.held c.sio v t a))
step-Passes (handles mask sel) c v l t =
    inside (handles mask sel) c _ refl
      (quiet-Submits (sockio_wait_handle-Ordered c.held c.sio mask sel v l t))
step-Passes takes c v l t = takes-Passes c t
step-Passes (frees i) c v l t = frees-Passes c i v t
step-Passes (pushes buf n) c v l t =
    inside (pushes buf n) c _ refl (quiet-Submits (push_back-Ordered c.held c.sio v t buf n))
step-Passes flushes c v l t = inside flushes c _ refl (quiet-Submits (sockio_flush-Ordered c.sio t))

drive-Passes :
    (es : List Event) (c : Client)
    → Distinct c.sio c.held
    → Links c.sio
    → Typed c.sio
    → given es c ++ writes (drive es c).sio ≡ writes c.sio ++ submitted es c
unfolding drive
drive-Passes [] c v l t = sym (append-nil (writes c.sio))
drive-Passes (e ∷ es) c v l t =
    let f = step-Fair e c v l in
    let h = step-Passes e c v l t in
    let k = drive-Passes es (step e c) (λ m. omega (arith, v m, f.placed m)) f.links h.typed in
    append_assoc (given_by e c) (given es (step e c)) (writes (drive es (step e c)).sio)
    ∙ ap (λ xs. given_by e c ++ xs) k
    ∙ sym (append_assoc (given_by e c) (writes (step e c).sio) (submitted es (step e c)))
    ∙ ap (λ xs. xs ++ submitted es (step e c)) h.order
    ∙ append_assoc (writes c.sio) (submitted_by e c) (submitted es (step e c))

-- After any sequence of submissions, timer expiries, `sockio_wait_handle` calls with any answer of
-- the system, flushes, push backs, takes and frees on a fresh handle: the writes that the client
-- has taken back, followed by those that are answered, under way and submitted in the handle, are
-- all writes that `sockio_send` has accepted, in the order in which it did. So writes are answered
-- in order, each once, whatever fails.
pub drive-writes :
    (max_msgs push_back_size base b1 b2 : ℕ) (ram : Ram) (es : List Event)
    → let c = fresh max_msgs push_back_size base b1 b2 ram in
      given es c ++ writes (drive es c).sio ≡ submitted es c
unfolding fresh sockio_init
drive-writes max_msgs push_back_size base b1 b2 ram es =
    let c = fresh max_msgs push_back_size base b1 b2 ram in
    drive-Passes es c (λ m. ground (arith, fresh-places max_msgs push_back_size base b1 b2 ram m))
      (fresh-Links max_msgs push_back_size base b1 b2 ram)
      (record {
        sends = λ i n. absurd (n refl);
        reads = λ i n. absurd (n refl);
        waits = λ i n. absurd (n refl);
      })
