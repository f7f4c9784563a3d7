-- ===== src/Sockio/Answered.antt =====
-- A wait that is answered, by its timer, by a character or by a flush, keeps the links.
use rcli.Common.{
  count-remove_sub, ℕ, ◌+◌, ◌≡◌, ◌≢◌, refl, ap, sym, subst, ◌∙◌, inl, inr, some, List, [], ◌∷◌,
  ◌++◌, arith, ◌==◌, count, count-append, remove, Bool-cases, Option-cases,
}
use rcli.Timer.{
  Timer, TimerJob, find_job, timer_stop, timer_get_next_done_job, timer_job_get_user_data,
}
use rcli.Timer.Addresses.{Unshared, jobs_at-remove_job, found_after_stop}
use rcli.Sockio.{Sockio, reply_msg, set_size}
use rcli.Sockio.Wait.{
  unlink_wait, finish_wait, finish_job, handle_jobs, handle_timer, job_of, flush_waits,
}
use rcli.Sockio.Links.{Distinct, waiting, Links, Links-fewer, Kept, Kept-trans, Kept-Distinct}

-- The jobs after a stop: some of those before, and none for message `i`.
abbrev Without : Sockio → ℕ → Timer → Type 0
Without sio i th =
    Unshared th.job_list
    × ((a : ℕ) (job : TimerJob)
        → find_job a th.job_list ≡ some job
        → (find_job a sio.timer.job_list ≡ some job) × (job.user_data ≢ i))

stop_nothing :
    (sio : Sockio) (i : ℕ) → Links sio → (sio.msgs i).buf_data ≡ 0 → Without sio i sio.timer
stop_nothing sio i l e = (
  l.unshared,
  λ a job h. (
    h,
    λ same.
        let k = l.linked a job h in
        k.nonnull (sym k.known ∙ ap (λ x. (sio.msgs x).buf_data) same ∙ e),
  ),
)

stop_at :
    (sio : Sockio) (i b : ℕ)
    → Links sio
    → (sio.msgs i).buf_data ≡ b
    → Without sio i (timer_stop sio.timer (some b))
unfolding timer_stop
stop_at sio i b l e = (
  λ a. omega (arith, l.unshared a, jobs_at-remove_job b a sio.timer.job_list),
  λ a job h.
      let (other, found) = found_after_stop b a sio.timer.job_list job l.unshared h in
      let k = l.linked a job found in
      (found, λ same. other (sym k.known ∙ ap (λ x. (sio.msgs x).buf_data) same ∙ e)),
)

stop_of :
    (sio : Sockio) (i : ℕ) → Links sio → Without sio i (timer_stop sio.timer (job_of (sio.msgs i)))
unfolding timer_stop
stop_of sio i l = elim (Bool-cases ((sio.msgs i).buf_data == 0)) [
  | inl e ↦ rw e (stop_nothing sio i l (ground arith))
  | inr e ↦ rw e (stop_at sio i (sio.msgs i).buf_data l refl)
]

-- The handle with message `i` answered: off its list, its size set, and at the user's port.
abbrev answered : Sockio → ℕ → ℕ → Timer → Sockio
answered sio i size th = record (set_size sio i size) {
  timer = th;
  wait_list = remove i sio.wait_list;
  msg_port = remove i sio.msg_port;
  user_port = remove i sio.user_port ++ (i ∷ []);
}

answered-Kept :
    (held : List ℕ) (sio : Sockio) (i size : ℕ) (th : Timer)
    → Distinct sio held
    → Links sio
    → waiting sio i + count i sio.user_port ≢ 0
    → Without sio i th
    → Kept held sio (answered sio i size th)
answered-Kept held sio i size th v l there (u, w) = record {
  placed = λ m. ground (
    arith,
    v i,
    count-remove_sub i m sio.wait_list,
    count-remove_sub i m sio.msg_port,
    count-remove_sub i m sio.user_port,
    count-append m (remove i sio.user_port) (i ∷ []),
  );
  links =
      Links-fewer sio (answered sio i size th) l u (λ a job h. (w a job h).0)
        (λ a job h k.
          let other = (w a job h).1 in
          record {
            nonnull = k.nonnull;
            known = ground (arith, k.known);
            typed = ground (arith, k.typed);
            unanswered = ground (
              arith,
              k.unanswered,
              count-remove_sub i job.user_data sio.wait_list,
              count-remove_sub i job.user_data sio.msg_port,
            );
          })
        (λ m h. ground (arith, count-remove_sub i m sio.msg_port)) (λ m. ground arith);
}

-- A stop of a job that does not run.
stop_stale-Kept :
    (held : List ℕ) (sio : Sockio) (a : ℕ)
    → Links sio
    → Kept held sio (record sio { timer = timer_stop sio.timer (some a) })
unfolding timer_stop
stop_stale-Kept held sio a l = record {
  placed = λ m. refl;
  links =
      Links-fewer sio (record sio { timer = timer_stop sio.timer (some a) }) l
        (λ b. omega (arith, l.unshared b, jobs_at-remove_job a b sio.timer.job_list))
        (λ b job h. (found_after_stop a b sio.timer.job_list job l.unshared h).1)
        (λ b job h k. record {
          nonnull = k.nonnull;
          known = k.known;
          typed = k.typed;
          unanswered = k.unanswered;
        })
        (λ m h. h) (λ m. refl);
}

-- A job whose time is over: its wait, if it is there, is answered.
pub finish_job-Kept :
    (held : List ℕ) (sio : Sockio) (a : ℕ)
    → Distinct sio held
    → Links sio
    → Kept held sio (finish_job sio a)
unfolding finish_job unlink_wait timer_job_get_user_data
finish_job-Kept held sio a v l = elim (Option-cases (find_job a sio.timer.job_list)) [
  | inl e ↦ rw (finish_job, e) (stop_stale-Kept held sio a l)
  | inr (job, e) ↦
      let k = l.linked a job e in
      rw (finish_job, e)
        (answered-Kept held sio job.user_data 0 (timer_stop sio.timer (some a)) v l
          (omega (arith, k.unanswered)) (stop_at sio job.user_data a l k.known))
]

pub finish_wait-Kept :
    (held : List ℕ) (sio : Sockio) (i : ℕ)
    → Distinct sio held
    → Links sio
    → waiting sio i + count i sio.user_port ≢ 0
    → Kept held sio (finish_wait sio i)
unfolding finish_wait unlink_wait
finish_wait-Kept held sio i v l there =
    let same : job_of (sio.msgs i) ≡ job_of ((set_size sio i 1).msgs i) = ground arith in
    answered-Kept held sio i 1 (timer_stop sio.timer (job_of ((set_size sio i 1).msgs i))) v l there
      (subst (λ o. Without sio i (timer_stop sio.timer o)) same (stop_of sio i l))

pub timer_get_next_done_job_jobs :
    (th : Timer) → (timer_get_next_done_job th).1.job_list ≡ th.job_list
unfolding timer_get_next_done_job
timer_get_next_done_job_jobs th = ground arith

-- The port of the timer does not matter.
pub port-Kept :
    (held : List ℕ) (sio : Sockio) (th : Timer)
    → th.job_list ≡ sio.timer.job_list
    → Links sio
    → Kept held sio (record sio { timer = th })
port-Kept held sio th e l = record {
  placed = λ m. refl;
  links =
      Links-fewer sio (record sio { timer = th }) l (subst Unshared (sym e) l.unshared)
        (λ a job h. ap (find_job a) (sym e) ∙ h)
        (λ a job h k. record {
          nonnull = k.nonnull;
          known = k.known;
          typed = k.typed;
          unanswered = k.unanswered;
        })
        (λ m h. h) (λ m. refl);
}

handle_jobs-Kept :
    (held jobs : List ℕ) (sio : Sockio)
    → Distinct sio held
    → Links sio
    → Kept held sio (handle_jobs jobs sio)
unfolding handle_jobs
handle_jobs-Kept held [] sio v l = record { placed = λ m. refl; links = l }
handle_jobs-Kept held (a ∷ rest) sio v l =
    let next = (timer_get_next_done_job sio.timer).1 in
    let sio1 = record sio { timer = next } in
    let taken = port-Kept held sio next (timer_get_next_done_job_jobs sio.timer) l in
    let done = finish_job-Kept held sio1 a v taken.links in
    Kept-trans sio sio1 taken (
      Kept-trans sio1 (finish_job sio1 a) done (
        handle_jobs-Kept held rest (finish_job sio1 a)
          (Kept-Distinct sio1 (finish_job sio1 a) done v) done.links))

pub handle_timer-Kept :
    (held : List ℕ) (sio : Sockio)
    → Distinct sio held
    → Links sio
    → Kept held sio (handle_timer sio)
unfolding handle_timer
handle_timer-Kept held sio v l = handle_jobs-Kept held sio.timer.port sio v l

-- One wait after the other is answered by a flush.
flush_one-Kept :
    (held : List ℕ) (sio : Sockio) (i : ℕ) (is : List ℕ)
    → sio.wait_list ≡ i ∷ is
    → Distinct sio held
    → Links sio
    → Kept held sio (
        reply_msg
          (record (set_size sio i 0) {
            timer = timer_stop sio.timer (job_of (sio.msgs i));
            wait_list = is;
          })
          i)
flush_one-Kept held sio i is e v l =
    let (u, w) = stop_of sio i l in
    record {
      placed = λ m. omega (arith, ap (count m) e, count-append m sio.user_port (i ∷ []));
      links =
          Links-fewer sio
            (reply_msg
              (record (set_size sio i 0) {
                timer = timer_stop sio.timer (job_of (sio.msgs i));
                wait_list = is;
              })
              i)
            l u (λ a job h. (w a job h).0)
            (λ a job h k. record {
              nonnull = k.nonnull;
              known = ground (arith, k.known);
              typed = ground (arith, k.typed);
              unanswered = ground (arith, k.unanswered, (w a job h).1, ap (count job.user_data) e);
            })
            (λ m h. h) (λ m. ground arith);
    }

pub flush_waits-Kept :
    (held is : List ℕ) (sio : Sockio)
    → sio.wait_list ≡ is
    → Distinct sio held
    → Links sio
    → Kept held sio (flush_waits is sio)
unfolding flush_waits
flush_waits-Kept held [] sio e v l = record { placed = λ m. refl; links = l }
flush_waits-Kept held (i ∷ is) sio e v l =
    let sio1 =
      reply_msg
        (record (set_size sio i 0) {
          timer = timer_stop sio.timer (job_of (sio.msgs i));
          wait_list = is;
        })
        i in
    let one = flush_one-Kept held sio i is e v l in
    Kept-trans sio sio1 one
      (flush_waits-Kept held is sio1 refl (Kept-Distinct sio sio1 one v) one.links)
