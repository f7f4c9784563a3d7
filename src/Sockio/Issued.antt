-- ===== src/Sockio/Issued.antt =====
-- The calls of the client, and the timer's expiry, and the order of the writes.
use rcli.Common.{
  ℕ, ◌≡◌, ◌≢◌, refl, ap, sym, ◌∙◌, inl, inr, true, false, Option, none, some, List, [], ◌∷◌, ◌++◌,
  arith, ltb, update, count, append_assoc, append-nil, Bool-cases, is_null,
}
use rcli.Timer.{TimerAnswer, find_job}
use rcli.Sockio.{Sockio, SockioMsg, MsgType, is_error, sockio_free_msg}
use rcli.Sockio.Submit.{
  sockio_recv, sockio_send, sockio_wait_char, sockio_push_back, start_wait, timeout_secs,
  timeout_micros,
}
use rcli.Sockio.Submitted.{fresh_msg, posted, alloc_msg-some, alloc_msg-none}
use rcli.Sockio.Session.{fire}
use rcli.Sockio.Links.{Distinct}
use rcli.Sockio.Writes.{
  is_write, pick, writes_of, writes, Typed, Ordered, pick_types, pick-other, pick-write,
}
use rcli.Sockio.Ordered.{same-Ordered}

abbrev pub listed : Option ℕ → List ℕ
listed none = []
listed (some i) = i ∷ []

-- Message `i` is on no list.
record Absent (sio : Sockio) (i : ℕ) : Type 0 where
  user : count i sio.user_port ≡ 0
  port : count i sio.msg_port ≡ 0
  sending : count i sio.send_list ≡ 0
  reading : count i sio.recv_list ≡ 0
  waiting : count i sio.wait_list ≡ 0

free-Absent :
    (sio : Sockio) (held : List ℕ) (i : ℕ) (rest : List ℕ)
    → sio.free_list ≡ i ∷ rest
    → Distinct sio held
    → Absent sio i
free-Absent sio held i rest e v = record {
  user = ground (arith, v i, ap (count i) e);
  port = ground (arith, v i, ap (count i) e);
  sending = ground (arith, v i, ap (count i) e);
  reading = ground (arith, v i, ap (count i) e);
  waiting = ground (arith, v i, ap (count i) e);
}

module _ (sio : Sockio) (i : ℕ) (a : Absent sio i) (t : Typed sio) (msgs : ℕ → SockioMsg)
    (same : (x : ℕ) → x ≢ i → is_write (msgs x).type ≡ is_write (sio.msgs x).type) where
  elsewhere :
      (xs : List ℕ)
      → count i xs ≡ 0
      → (x : ℕ) → count x xs ≢ 0
      → is_write (msgs x).type ≡ is_write (sio.msgs x).type
  elsewhere xs e x n = same x (λ eq. n (ap (λ y. count y xs) eq ∙ e))

  pick_elsewhere : (xs : List ℕ) → count i xs ≡ 0 → pick msgs xs ≡ pick sio.msgs xs
  pick_elsewhere xs e = pick_types sio.msgs msgs xs (elsewhere xs e)

  change-Typed : Typed (record sio { msgs = msgs })
  change-Typed = record {
    sends = λ j n. elsewhere sio.send_list a.sending j n ∙ t.sends j n;
    reads = λ j n. elsewhere sio.recv_list a.reading j n ∙ t.reads j n;
    waits = λ j n. elsewhere sio.wait_list a.waiting j n ∙ t.waits j n;
  }

  -- The message is no write, and goes to the handle's port.
  post_other :
      is_write (msgs i).type ≡ false
      → writes_of msgs sio.user_port sio.send_list (sio.msg_port ++ (i ∷ [])) ≡ writes sio
  post_other e =
      rw
        (
          pick-other msgs sio.msg_port i e,
          pick_elsewhere sio.user_port a.user,
          pick_elsewhere sio.msg_port a.port,
        )
        refl

  -- The message is a write, and goes to the handle's port.
  post_write :
      is_write (msgs i).type ≡ true
      → writes_of msgs sio.user_port sio.send_list (sio.msg_port ++ (i ∷ []))
        ≡ writes sio ++ (i ∷ [])
  post_write e =
      rw
        (
          pick-write msgs sio.msg_port i e,
          pick_elsewhere sio.user_port a.user,
          pick_elsewhere sio.msg_port a.port,
        )
        (sym (
          append_assoc (pick sio.msgs sio.user_port) (sio.send_list ++ pick sio.msgs sio.msg_port)
            (i ∷ [])
          ∙ ap (λ xs. pick sio.msgs sio.user_port ++ xs)
              (append_assoc sio.send_list (pick sio.msgs sio.msg_port) (i ∷ []))))

-- What an operation does to the writes: some are submitted.
pub record Submits (new : List ℕ) (sio sio' : Sockio) : Type 0 where
  pub order : writes sio' ≡ writes sio ++ new
  pub typed : Typed sio'

pub quiet-Submits : {sio sio' : Sockio} → Ordered sio sio' → Submits [] sio sio'
quiet-Submits {sio} h = record { order = h.order ∙ sym (append-nil (writes sio)); typed = h.typed }

module _ (held : List ℕ) (sio : Sockio) (v : Distinct sio held) (t : Typed sio) where
  posted_other :
      (i : ℕ) (rest : List ℕ) (msg : SockioMsg)
      → sio.free_list ≡ i ∷ rest
      → is_write msg.type ≡ false
      → Ordered sio (posted sio i rest msg)
  posted_other i rest msg e o =
      let a = free-Absent sio held i rest e v in
      let h = change-Typed sio i a t (update sio.msgs i msg) (λ x n. ground arith) in
      record {
        order =
            post_other sio i a t (update sio.msgs i msg) (λ x n. ground arith) (ground (arith, o));
        typed = record { sends = h.sends; reads = h.reads; waits = h.waits };
      }

  posted_write :
      (i : ℕ) (rest : List ℕ) (msg : SockioMsg)
      → sio.free_list ≡ i ∷ rest
      → is_write msg.type ≡ true
      → Submits (i ∷ []) sio (posted sio i rest msg)
  posted_write i rest msg e o =
      let a = free-Absent sio held i rest e v in
      let h = change-Typed sio i a t (update sio.msgs i msg) (λ x n. ground arith) in
      record {
        order =
            post_write sio i a t (update sio.msgs i msg) (λ x n. ground arith) (ground (arith, o));
        typed = record { sends = h.sends; reads = h.reads; waits = h.waits };
      }

  pub recv-Ordered :
      (buf n k : ℕ) (free : List ℕ) → sio.free_list ≡ free → Ordered sio (sockio_recv sio buf n k).1
  unfolding sockio_recv
  recv-Ordered buf n k [] e = elim (Bool-cases (is_error sio.state)) [
    | inl bad ↦ rw bad (same-Ordered sio t)
    | inr good ↦ rw (good, alloc_msg-none sio MsgType.recv buf n k e) (same-Ordered sio t)
  ]
  recv-Ordered buf n k (i ∷ rest) e = elim (Bool-cases (is_error sio.state)) [
    | inl bad ↦ rw bad (same-Ordered sio t)
    | inr good ↦
        rw (good, alloc_msg-some sio MsgType.recv buf n k e)
          (posted_other i rest (fresh_msg MsgType.recv buf n k) e refl)
  ]

  pub send-Submits :
      (buf n : ℕ) (free : List ℕ)
      → sio.free_list ≡ free
      → Submits (listed (sockio_send sio buf n).0) sio (sockio_send sio buf n).1
  unfolding sockio_send
  send-Submits buf n [] e = elim (Bool-cases (is_error sio.state)) [
    | inl bad ↦ rw bad (quiet-Submits (same-Ordered sio t))
    | inr good ↦
        rw (good, alloc_msg-none sio MsgType.send buf n n e) (quiet-Submits (same-Ordered sio t))
  ]
  send-Submits buf n (i ∷ rest) e = elim (Bool-cases (is_error sio.state)) [
    | inl bad ↦ rw bad (quiet-Submits (same-Ordered sio t))
    | inr good ↦
        rw (good, alloc_msg-some sio MsgType.send buf n n e)
          (posted_write i rest (fresh_msg MsgType.send buf n n) e refl)
  ]

  pub wait-Ordered :
      (answer : TimerAnswer) (us : ℕ) (free : List ℕ)
      → sio.free_list ≡ free
      → Ordered sio (sockio_wait_char sio answer us).1
  unfolding sockio_wait_char
  wait-Ordered answer us [] e = elim (Bool-cases (is_error sio.state)) [
    | inl bad ↦ rw bad (same-Ordered sio t)
    | inr good ↦ rw (good, alloc_msg-none sio MsgType.wait_char 0 0 0 e) (same-Ordered sio t)
  ]
  wait-Ordered answer us (i ∷ rest) e = elim (Bool-cases (is_error sio.state)) [
    | inl bad ↦ rw bad (same-Ordered sio t)
    | inr good ↦
        let sio0 = record sio {
          free_list = rest;
          msgs = update sio.msgs i (fresh_msg MsgType.wait_char 0 0 0);
        } in
        let sio' = (start_wait i sio0 answer (timeout_secs us) (timeout_micros us)).1 in
        let a = free-Absent sio held i rest e v in
        let h = change-Typed sio i a t sio'.msgs (λ x n. ground arith) in
        rw (good, alloc_msg-some sio MsgType.wait_char 0 0 0 e)
          (record {
            order = post_other sio i a t sio'.msgs (λ x n. ground arith) (ground arith);
            typed = record { sends = h.sends; reads = h.reads; waits = h.waits };
          })
  ]

  pub push_back-Ordered : (buf n : ℕ) → Ordered sio (sockio_push_back sio buf n).1
  unfolding sockio_push_back
  push_back-Ordered buf n = elim (Bool-cases (ltb sio.push_back_max n)) [
    | inl e ↦ rw e (same-Ordered sio t)
    | inr e ↦ rw e (record {
      order = refl;
      typed = record { sends = t.sends; reads = t.reads; waits = t.waits };
    })
  ]

  pub fire-Ordered : (b : ℕ) → Ordered sio (fire sio b)
  fire-Ordered b = elim (Bool-cases (is_null (find_job b sio.timer.job_list))) [
    | inl e ↦ rw e (same-Ordered sio t)
    | inr e ↦ rw e (record {
      order = refl;
      typed = record { sends = t.sends; reads = t.reads; waits = t.waits };
    })
  ]

  pub free-Ordered : (i : ℕ) → count i held ≢ 0 → Ordered sio (sockio_free_msg sio i)
  unfolding sockio_free_msg
  free-Ordered i n =
      let a : Absent sio i = record {
        user = omega (arith, v i, n);
        port = omega (arith, v i, n);
        sending = omega (arith, v i, n);
        reading = omega (arith, v i, n);
        waiting = omega (arith, v i, n);
      } in
      let msgs = (sockio_free_msg sio i).msgs in
      let same : (x : ℕ) → x ≢ i → is_write (msgs x).type ≡ is_write (sio.msgs x).type =
        λ x n. ground arith in
      let h = change-Typed sio i a t msgs same in
      record {
        order =
            rw
              (
                pick_elsewhere sio i a t msgs same sio.user_port a.user,
                pick_elsewhere sio i a t msgs same sio.msg_port a.port,
              )
              refl;
        typed = record { sends = h.sends; reads = h.reads; waits = h.waits };
      }
