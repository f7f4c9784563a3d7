-- ===== src/Sockio/Conservation.antt =====
-- A socket in use, over any sequence of events: each message stays in exactly one place, and each
-- running timer job has a wait that is still to be answered.
use rcli.Common.{
  count-remove_sub, ℕ, ◌≡◌, refl, ◌∙◌, inl, inr, some, List, [], ◌∷◌, arith, ◌==◌, ltb,
  if◌then◌else◌, count, count-append, count-range, Bool-cases, is_null, Ram,
}
use rcli.Timer.{find_job, TimerJob, timer_init}
use rcli.Sockio.{Sockio, sockio_init, sockio_free_msg}
use rcli.Sockio.Submit.{sockio_push_back}
use rcli.Sockio.Session.{
  Client, Event, reads, sends, waits, fires, handles, takes, frees, pushes, flushes, is_fresh, fire,
  step, drive, fresh,
}
use rcli.Sockio.Links.{places, Distinct, Link, Links, Kept}
use rcli.Sockio.Transfers.{same-Kept}
use rcli.Sockio.Moves.{sockio_flush-Kept, change-Links}
use rcli.Sockio.Posted.{recv-Kept, send-Kept, wait-Kept}
use rcli.Sockio.Rounds.{sockio_wait_handle-Kept}

-- What a step keeps, the messages that the client holds included.
pub record Fair (c d : Client) : Type 0 where
  pub placed : (m : ℕ) → places d.sio d.held m ≡ places c.sio c.held m
  pub links : Links d.sio

same-Fair : (c : Client) → Links c.sio → Fair c c
same-Fair c l = record { placed = λ m. refl; links = l }

inside : (c : Client) (sio : Sockio) → Kept c.held c.sio sio → Fair c (record c { sio = sio })
inside c sio k = record { placed = k.placed; links = k.links }

takes-Fair :
    (c : Client) (user : List ℕ) → c.sio.user_port ≡ user → Links c.sio → Fair c (step takes c)
unfolding step
takes-Fair c [] e l = rw (step, e) (record { placed = λ m. rw e; links = l })
takes-Fair c (i ∷ rest) e l = rw (step, e) (record { placed = λ m. omega arith; links = l })

frees-Fair : (c : Client) (i : ℕ) → Distinct c.sio c.held → Links c.sio → Fair c (step (frees i) c)
unfolding step sockio_free_msg
frees-Fair c i v l = elim (Bool-cases (count i c.held == 0)) [
  | inl e ↦ rw e (same-Fair c l)
  | inr e ↦ rw e (record {
    placed =
        λ m. ground (arith, count-remove_sub i m c.held, count-append m c.sio.free_list (i ∷ []));
    links = change-Links c.sio i _ (ground (arith, v i)) l;
  })
]

push_back-Kept :
    (held : List ℕ) (sio : Sockio) (buf n : ℕ)
    → Links sio
    → Kept held sio (sockio_push_back sio buf n).1
unfolding sockio_push_back
push_back-Kept held sio buf n l = elim (Bool-cases (ltb sio.push_back_max n)) [
  | inl e ↦ rw e (same-Kept held sio l)
  | inr e ↦ rw e (record { placed = λ m. refl; links = l })
]

fire-Kept : (held : List ℕ) (sio : Sockio) (a : ℕ) → Links sio → Kept held sio (fire sio a)
fire-Kept held sio a l = elim (Bool-cases (is_null (find_job a sio.timer.job_list))) [
  | inl e ↦ rw e (same-Kept held sio l)
  | inr e ↦ rw e (record { placed = λ m. refl; links = l })
]

pub step-Fair : (e : Event) (c : Client) → Distinct c.sio c.held → Links c.sio → Fair c (step e c)
unfolding step
step-Fair (reads buf n k) c v l =
    inside c _ (recv-Kept c.held c.sio v l buf n k c.sio.free_list refl)
step-Fair (sends buf n) c v l = inside c _ (send-Kept c.held c.sio v l buf n c.sio.free_list refl)
step-Fair (waits answer us) c v l = elim (Bool-cases (is_fresh c.sio.timer answer.job)) [
  | inl e ↦ rw e (inside c _ (wait-Kept c.held c.sio v l answer us c.sio.free_list refl e))
  | inr e ↦ rw e (same-Fair c l)
]
step-Fair (fires a) c v l = inside c _ (fire-Kept c.held c.sio a l)
step-Fair (handles mask sel) c v l = inside c _ (sockio_wait_handle-Kept c.held c.sio mask sel v l)
step-Fair takes c v l = takes-Fair c c.sio.user_port refl l
step-Fair (frees i) c v l = frees-Fair c i v l
step-Fair (pushes buf n) c v l = inside c _ (push_back-Kept c.held c.sio buf n l)
step-Fair flushes c v l = inside c _ (sockio_flush-Kept c.held c.sio v l)

drive-Fair :
    (es : List Event) (c : Client) → Distinct c.sio c.held → Links c.sio → Fair c (drive es c)
unfolding drive
drive-Fair [] c v l = same-Fair c l
drive-Fair (e ∷ es) c v l =
    let h = step-Fair e c v l in
    let k = drive-Fair es (step e c) (λ m. omega (arith, v m, h.placed m)) h.links in
    record { placed = λ m. k.placed m ∙ h.placed m; links = k.links }

module _ (max_msgs push_back_size base b1 b2 : ℕ) (ram : Ram) where
  pub fresh-places :
      (m : ℕ)
      → let c = fresh max_msgs push_back_size base b1 b2 ram in
        places c.sio c.held m ≡ (if ltb m max_msgs then 1 else 0)
  unfolding fresh sockio_init
  fresh-places m = ground (arith, count-range m 0 max_msgs)

  pub fresh-Links : Links (fresh max_msgs push_back_size base b1 b2 ram).sio
  unfolding fresh sockio_init timer_init
  fresh-Links = record {
    unshared = λ a. omega arith;
    linked = λ a job h. cc;
    requests = λ m h. absurd (h refl);
  }

  pub run_all :
      (es : List Event)
      → let c = fresh max_msgs push_back_size base b1 b2 ram in Fair c (drive es c)
  run_all es =
      drive-Fair es (fresh max_msgs push_back_size base b1 b2 ram)
        (λ m. ground (arith, fresh-places m)) fresh-Links

  -- After any sequence of submissions, timer expiries, `sockio_wait_handle` calls with any answer of
  -- the system, flushes, push backs, takes and frees on a fresh handle: each message of the pool
  -- stands in exactly one of the free list, the three lists of pending requests, the two ports and
  -- the client's hands, and nothing else does.
  pub drive-places :
      (es : List Event) (m : ℕ)
      → let c = drive es (fresh max_msgs push_back_size base b1 b2 ram) in
        places c.sio c.held m ≡ (if ltb m max_msgs then 1 else 0)
  drive-places es m = (run_all es).placed m ∙ fresh-places m

  -- After any sequence of events on a fresh handle: each timer job that runs belongs to a wait that
  -- is still to be answered, in the handle's port or in its wait list, and the wait holds the
  -- address of the job.
  pub drive-Link :
      (es : List Event) (a : ℕ) (job : TimerJob)
      → let c = drive es (fresh max_msgs push_back_size base b1 b2 ram) in
        find_job a c.sio.timer.job_list ≡ some job → Link c.sio a job
  drive-Link es a job h = (run_all es).links.linked a job h
