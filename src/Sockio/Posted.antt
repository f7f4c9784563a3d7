-- ===== src/Sockio/Posted.antt =====
-- The submissions of sockio.c keep the messages and the links.
use rcli.Common.{
  ℕ, ◌≡◌, ◌≢◌, refl, ap, sym, subst, ◌∙◌, inl, inr, Bool, true, not, Option, none, some, List, [],
  ◌∷◌, ◌++◌, arith, ◌==◌, ◌&&◌, update, count, count-append, Bool-cases,
}
use rcli.Timer.{TimerJob, TimerAnswer, timer_start, new_job}
use rcli.Timer.Addresses.{jobs_at, jobs_at-append, find_job-none, find_job-append}
use rcli.Sockio.{Sockio, SockioMsg, MsgType, is_error}
use rcli.Sockio.Submit.{
  sockio_recv, sockio_send, sockio_wait_char, start_wait, timeout_secs, timeout_micros,
}
use rcli.Sockio.Submitted.{fresh_msg, posted, alloc_msg-some, alloc_msg-none}
use rcli.Sockio.Session.{is_fresh}
use rcli.Sockio.Links.{Distinct, is_wait, is_request, waiting, LinkOf, LinksOf, Links, Kept}
use rcli.Sockio.Transfers.{same-Kept}
use rcli.Sockio.Moves.{change-Links, alloc-Links}

-- A request at the end of the port.
post_links :
    (jobs : List TimerJob) (msgs : ℕ → SockioMsg) (wait port : List ℕ) (i : ℕ)
    → LinksOf jobs msgs wait port
    → is_request (msgs i).type ≡ true
    → LinksOf jobs msgs wait (port ++ (i ∷ []))
post_links jobs msgs wait port i l r = record {
  unshared = l.unshared;
  linked = λ a job h.
      let k = l.linked a job h in
      record {
        nonnull = k.nonnull;
        known = k.known;
        typed = k.typed;
        unanswered = λ z. k.unanswered (omega (arith, z, count-append job.user_data port (i ∷ [])));
      };
  requests = λ m h. elim (Bool-cases (i == m)) [
    | inl same ↦ let eq : i ≡ m = ground arith in ap (λ x. is_request (msgs x).type) (sym eq) ∙ r
    | inr other ↦ l.requests m (λ z. h (ground (arith, z, count-append m port (i ∷ []))))
  ];
}

-- A job for the message that was posted last.
start_links :
    (jobs : List TimerJob) (msgs : ℕ → SockioMsg) (wait port : List ℕ) (i a secs micros : ℕ)
    → LinksOf jobs msgs wait (port ++ (i ∷ []))
    → a ≢ 0
    → jobs_at a jobs ≡ 0
    → (msgs i).buf_data ≡ a
    → is_wait (msgs i).type ≡ true
    → LinksOf (jobs ++ (new_job a secs micros i ∷ [])) msgs wait (port ++ (i ∷ []))
start_links jobs msgs wait port i a secs micros l nonnull unused known typed = record {
  unshared = λ b.
      ground (arith, l.unshared b, unused, jobs_at-append b jobs (new_job a secs micros i ∷ []));
  linked = λ b job h. elim (find_job-append b jobs (new_job a secs micros i) job h) [
    | inl old ↦ l.linked b job old
    | inr (addr, same) ↦ subst (LinkOf msgs wait (port ++ (i ∷ [])) b) same (
        subst (λ x. LinkOf msgs wait (port ++ (i ∷ [])) x (new_job a secs micros i)) addr
          (record {
            nonnull = nonnull;
            known = known;
            typed = typed;
            unanswered = ground (arith, count-append i port (i ∷ []));
          }))
  ];
  requests = l.requests;
}

posted-Kept :
    (held : List ℕ) (sio : Sockio) (i : ℕ) (rest : List ℕ) (msg : SockioMsg)
    → sio.free_list ≡ i ∷ rest
    → is_request msg.type ≡ true
    → Distinct sio held
    → Links sio
    → Kept held sio (posted sio i rest msg)
posted-Kept held sio i rest msg e r v l = record {
  placed = λ m. omega (arith, ap (count m) e, count-append m sio.msg_port (i ∷ []));
  links =
      post_links sio.timer.job_list (update sio.msgs i msg) sio.wait_list sio.msg_port i
        (alloc-Links sio held i rest msg e v l) (ground (arith, r));
}

module _ (held : List ℕ) (sio : Sockio) (v : Distinct sio held) (l : Links sio) where
  pub recv-Kept :
      (buf n k : ℕ) (free : List ℕ)
      → sio.free_list ≡ free
      → Kept held sio (sockio_recv sio buf n k).1
  unfolding sockio_recv
  recv-Kept buf n k [] e = elim (Bool-cases (is_error sio.state)) [
    | inl bad ↦ rw bad (same-Kept held sio l)
    | inr good ↦ rw (good, alloc_msg-none sio MsgType.recv buf n k e) (same-Kept held sio l)
  ]
  recv-Kept buf n k (i ∷ rest) e = elim (Bool-cases (is_error sio.state)) [
    | inl bad ↦ rw bad (same-Kept held sio l)
    | inr good ↦
        rw (good, alloc_msg-some sio MsgType.recv buf n k e)
          (posted-Kept held sio i rest (fresh_msg MsgType.recv buf n k) e refl v l)
  ]

  pub send-Kept :
      (buf n : ℕ) (free : List ℕ) → sio.free_list ≡ free → Kept held sio (sockio_send sio buf n).1
  unfolding sockio_send
  send-Kept buf n [] e = elim (Bool-cases (is_error sio.state)) [
    | inl bad ↦ rw bad (same-Kept held sio l)
    | inr good ↦ rw (good, alloc_msg-none sio MsgType.send buf n n e) (same-Kept held sio l)
  ]
  send-Kept buf n (i ∷ rest) e = elim (Bool-cases (is_error sio.state)) [
    | inl bad ↦ rw bad (same-Kept held sio l)
    | inr good ↦
        rw (good, alloc_msg-some sio MsgType.send buf n n e)
          (posted-Kept held sio i rest (fresh_msg MsgType.send buf n n) e refl v l)
  ]

  -- A message that is filled twice before it is posted.
  refill_links :
      (i : ℕ) (rest : List ℕ) (m0 m1 : SockioMsg)
      → sio.free_list ≡ i ∷ rest
      → is_request m1.type ≡ true
      → LinksOf sio.timer.job_list
          (update (update sio.msgs i m0) i m1)
          sio.wait_list
          (sio.msg_port ++ (i ∷ []))
  refill_links i rest m0 m1 e r =
      let unnamed : waiting sio i ≡ 0 = ground (arith, v i, ap (count i) e) in
      let sio0 = record sio { msgs = update sio.msgs i m0 } in
      post_links sio.timer.job_list (update sio0.msgs i m1) sio.wait_list sio.msg_port i
        (change-Links sio0 i m1 unnamed (change-Links sio i m0 unnamed l)) (ground (arith, r))

  -- A wait that was taken from the free list, with the job that was started for it or none.
  wait-Links :
      (i secs micros : ℕ) (rest : List ℕ) (job : Option ℕ) (opens : Bool)
      → sio.free_list ≡ i ∷ rest
      → is_fresh sio.timer job ≡ true
      → let answer : TimerAnswer = record { job = job; opens = opens } in
        let m0 = fresh_msg MsgType.wait_char 0 0 0 in
        let sio0 = record sio { free_list = rest; msgs = update sio.msgs i m0 } in
        Links (start_wait i sio0 answer secs micros).1
  unfolding timer_start
  wait-Links i secs micros rest none opens e f =
      refill_links i rest (fresh_msg MsgType.wait_char 0 0 0) _ e (ground arith)
  wait-Links i secs micros rest (some a) opens e f =
      let m0 = fresh_msg MsgType.wait_char 0 0 0 in
      elim (Bool-cases (sio.timer.num_jobs == 0 && not opens)) [
        | inl d ↦ rw d (refill_links i rest m0 _ e (ground arith))
        | inr d ↦ rw d (
            start_links sio.timer.job_list _ sio.wait_list sio.msg_port i a secs micros
              (refill_links i rest m0 _ e (ground arith)) (ground (arith, f))
              (find_job-none a sio.timer.job_list (ground (arith, f))) (ground arith)
              (ground arith))
      ]

  pub wait-Kept :
      (answer : TimerAnswer) (us : ℕ) (free : List ℕ)
      → sio.free_list ≡ free
      → is_fresh sio.timer answer.job ≡ true
      → Kept held sio (sockio_wait_char sio answer us).1
  unfolding sockio_wait_char
  wait-Kept answer us [] e f = elim (Bool-cases (is_error sio.state)) [
    | inl bad ↦ rw bad (same-Kept held sio l)
    | inr good ↦ rw (good, alloc_msg-none sio MsgType.wait_char 0 0 0 e) (same-Kept held sio l)
  ]
  wait-Kept answer us (i ∷ rest) e f = elim (Bool-cases (is_error sio.state)) [
    | inl bad ↦ rw bad (same-Kept held sio l)
    | inr good ↦
        rw (good, alloc_msg-some sio MsgType.wait_char 0 0 0 e)
          (record {
            placed = λ m. omega (arith, ap (count m) e, count-append m sio.msg_port (i ∷ []));
            links =
                wait-Links i (timeout_secs us) (timeout_micros us) rest answer.job answer.opens e f;
          })
  ]
