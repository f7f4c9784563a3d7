-- ===== src/Timer.antt =====
-- amiga/rclid/timer.c, timer.h: timer jobs over timer.device. A job is named by its address; what
-- the allocator and `OpenDevice` answer are arguments.
pub mod Jobs
pub mod Addresses
pub mod Memory
use rcli.Common.{
  ℕ, ◌+◌, ◌-◌, ◌^◌, ◌%◌, Bool, true, false, not, ◌&&◌, ◌||◌, Option, none, some, List, [], ◌∷◌,
  ◌++◌, ◌==◌, if◌then◌else◌, remove,
}

-- `timer_job`. `tr_secs` and `tr_micro` are the request's time.
pub record TimerJob : Type 0 where
  pub address : ℕ
  pub tr_secs : ℕ
  pub tr_micro : ℕ
  pub user_data : ℕ
  pub wait_s : ℕ
  pub wait_us : ℕ

-- `timer_handle`. `port` holds the requests that the device has finished with, by their jobs.
pub record Timer : Type 0 where
  pub port : List ℕ
  pub job_list : List TimerJob
  pub device : Bool
  pub num_jobs : ℕ

unfoldable pub timer_init : Timer
timer_init = record { port = []; job_list = []; device = false; num_jobs = 0 }

-- The oldest finished request, taken off the port.
unfoldable pub timer_get_next_done_job : Timer → Option ℕ × Timer
timer_get_next_done_job th = elim th.port [
  | [] ↦ (none, th)
  | a ∷ rest ↦ (some a, record th { port = rest })
]

unfoldable pub timer_get_first_job : Timer → Option TimerJob
timer_get_first_job th = elim th.job_list [ [] ↦ none | j ∷ js ↦ some j ]

unfoldable pub timer_has_jobs : Timer → Bool
timer_has_jobs th = elim th.job_list [ [] ↦ false | j ∷ js ↦ true ]

-- What `timer_start` asks of the system: memory for a job, and the device.
pub record TimerAnswer : Type 0 where
  pub job : Option ℕ
  pub opens : Bool

abbrev pub new_job : ℕ → ℕ → ℕ → ℕ → TimerJob
new_job a secs micros user_data = record {
  address = a;
  tr_secs = secs;
  tr_micro = micros;
  user_data = user_data;
  wait_s = secs;
  wait_us = micros;
}

-- The device is opened for the first job only.
unfoldable pub timer_start : Timer → TimerAnswer → ℕ → ℕ → ℕ → Option ℕ × Timer
timer_start th answer secs micros user_data = elim answer.job [
  | none ↦ (none, th)
  | some a ↦ if th.num_jobs == 0 && not answer.opens then (none, th) else (
    some a,
    record th {
      device = th.num_jobs == 0 || th.device;
      num_jobs = (th.num_jobs + 1) % 2 ^ 16;
      job_list = th.job_list ++ (new_job a secs micros user_data ∷ []);
    },
  )
]

abbrev pub remove_job : ℕ → List TimerJob → List TimerJob
remove_job a [] = []
remove_job a (j ∷ js) = if j.address == a then js else j ∷ remove_job a js

-- `WaitIO` takes the request off the port, whether it was aborted or had finished.
unfoldable pub timer_stop : Timer → Option ℕ → Timer
timer_stop th none = th
timer_stop th (some a) =
    let n = (th.num_jobs + 2 ^ 16 - 1) % 2 ^ 16 in
    record {
      port = remove a th.port;
      job_list = remove_job a th.job_list;
      device = if n == 0 then false else th.device;
      num_jobs = n;
    }

-- `timer_exit`: every job is stopped.
unfoldable pub stop_all : List TimerJob → Timer → Timer
stop_all [] th = th
stop_all (j ∷ js) th = stop_all js (timer_stop th (some j.address))

unfoldable pub timer_exit : Timer → Timer
timer_exit th = stop_all th.job_list th

-- A job's fields, by its address.
abbrev pub find_job : ℕ → List TimerJob → Option TimerJob
find_job a [] = none
find_job a (j ∷ js) = if j.address == a then some j else find_job a js

unfoldable pub timer_job_get_user_data : Timer → Option ℕ → Option ℕ
timer_job_get_user_data th none = none
timer_job_get_user_data th (some a) = elim (find_job a th.job_list) [
  | none ↦ none
  | some j ↦ some j.user_data
]

-- `timer_job_get_wait_time`: seconds and microseconds, if the job is there.
abbrev timer_job_get_wait_time : Timer → ℕ → Option (ℕ × ℕ)
timer_job_get_wait_time th a = elim (find_job a th.job_list) [
  | none ↦ none
  | some job ↦ some (job.wait_s, job.wait_us)
]
