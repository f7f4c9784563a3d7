-- ===== src/Timer/Jobs.antt =====
-- The count of jobs in timer.c: it opens and closes the device.
use rcli.Common.{
  ℕ, ◌+◌, ◌^◌, ◌<◌, ◌≡◌, refl, ap, ◌∙◌, Bool, false, Option, none, some, List, [], ◌∷◌, arith, ltb,
  length, length-append, is_null,
}
use rcli.Timer.{
  Timer, TimerJob, timer_start, timer_stop, timer_init, timer_exit, stop_all, remove_job, find_job,
  new_job,
}

-- The count is the number of jobs, and the device is open exactly while there is one.
pub record IsValid (th : Timer) : Type 0 where
  pub counted : th.num_jobs ≡ length th.job_list
  pub open_device : th.device ≡ ltb 0 (length th.job_list)

length-remove_job :
    (a : ℕ) (js : List TimerJob)
    → is_null (find_job a js) ≡ false
    → length (remove_job a js) + 1 ≡ length js
length-remove_job a [] h = cc
length-remove_job a (j ∷ js) h = ground (arith, length-remove_job a js)

timer_init-IsValid : IsValid timer_init
unfolding timer_init
timer_init-IsValid = record { counted = refl; open_device = refl }

-- A start keeps the count of jobs right and the device open exactly while there is a job, whatever
-- memory and the device answer, as long as the count of 16 bits does not wrap.
timer_start-IsValid :
    (th : Timer) (job : Option ℕ) (opens : Bool) (secs micros user : ℕ)
    → IsValid th
    → th.num_jobs + 1 < 2 ^ 16
    → IsValid (timer_start th (record { job = job; opens = opens }) secs micros user).1
unfolding timer_start
timer_start-IsValid th none opens secs micros user v room = v
timer_start-IsValid th (some a) opens secs micros user v room =
    ground (arith, length-append th.job_list (new_job a secs micros user ∷ []))

-- A stop of a job that is in the list keeps the count of jobs right and the device open exactly
-- while there is a job.
timer_stop-IsValid :
    (th : Timer) (a : ℕ)
    → IsValid th
    → th.num_jobs < 2 ^ 16
    → is_null (find_job a th.job_list) ≡ false
    → IsValid (timer_stop th (some a))
unfolding timer_stop
timer_stop-IsValid th a v small h = ground (arith, length-remove_job a th.job_list h)

-- Stopping the first job leaves the others.
stop_first :
    (th : Timer) (j : TimerJob) (js : List TimerJob)
    → th.job_list ≡ j ∷ js
    → IsValid th
    → th.num_jobs < 2 ^ 16
    → let th' = timer_stop th (some j.address) in (th'.job_list ≡ js) × (th'.num_jobs < 2 ^ 16)
unfolding timer_stop
stop_first th j js e v small = (ap (remove_job j.address) e ∙ ground arith, omega arith)

stop_all-closes :
    (js : List TimerJob) (th : Timer)
    → th.job_list ≡ js
    → IsValid th
    → th.num_jobs < 2 ^ 16
    → let th' = stop_all js th in (th'.job_list ≡ []) × (th'.num_jobs ≡ 0) × (th'.device ≡ false)
unfolding stop_all
stop_all-closes [] th e v small =
    (e, v.counted ∙ ap length e, v.open_device ∙ ap (λ l. ltb 0 (length l)) e)
stop_all-closes (j ∷ js) th e v small =
    let found : is_null (find_job j.address th.job_list) ≡ false = rw e (ground arith) in
    let (list, fewer) = stop_first th j js e v small in
    stop_all-closes js (timer_stop th (some j.address)) list
      (timer_stop-IsValid th j.address v small found) fewer

-- Where the count of jobs is right, `timer_exit` stops every job: none is left, the count is 0, and
-- the device is closed.
timer_exit-closes :
    (th : Timer)
    → IsValid th
    → th.num_jobs < 2 ^ 16
    → let th' = timer_exit th in (th'.job_list ≡ []) × (th'.num_jobs ≡ 0) × (th'.device ≡ false)
unfolding timer_exit
timer_exit-closes th v small = stop_all-closes th.job_list th refl v small
