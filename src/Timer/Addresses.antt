-- ===== src/Timer/Addresses.antt =====
-- The jobs of timer.c by their addresses: a stop takes one off, a start adds one.
use rcli.Common.{
  ℕ, ◌+◌, ◌≤◌, ◌≡◌, ◌≢◌, ◌⊎◌, refl, true, some, List, [], ◌∷◌, ◌++◌, arith, ◌==◌, if◌then◌else◌,
  is_null,
}
use rcli.Timer.{TimerJob, remove_job, find_job}

-- How many jobs stand at the address.
abbrev pub jobs_at : ℕ → List TimerJob → ℕ
jobs_at a [] = 0
jobs_at a (j ∷ js) = (if j.address == a then 1 else 0) + jobs_at a js

-- No two jobs share their memory.
abbrev pub Unshared : List TimerJob → Type 0
Unshared js = (a : ℕ) → jobs_at a js ≤ 1

pub jobs_at-append :
    (a : ℕ) (js ks : List TimerJob) → jobs_at a (js ++ ks) ≡ jobs_at a js + jobs_at a ks
jobs_at-append a [] ks = omega arith
jobs_at-append a (j ∷ js) ks = ground (arith, jobs_at-append a js ks)

pub jobs_at-remove_job : (a b : ℕ) (js : List TimerJob) → jobs_at b (remove_job a js) ≤ jobs_at b js
jobs_at-remove_job a b [] = omega arith
jobs_at-remove_job a b (j ∷ js) = ground (arith, jobs_at-remove_job a b js)

pub find_job-none : (a : ℕ) (js : List TimerJob) → is_null (find_job a js) ≡ true → jobs_at a js ≡ 0
find_job-none a [] h = refl
find_job-none a (j ∷ js) h = ground (arith, find_job-none a js)

jobs_at-find_job :
    (a : ℕ) (js : List TimerJob) (k : TimerJob) → find_job a js ≡ some k → jobs_at a js ≢ 0
jobs_at-find_job a [] k h = cc
jobs_at-find_job a (j ∷ js) k h = ground (arith, jobs_at-find_job a js k)

-- What is found after a stop was there before.
find_job-remove_job :
    (a b : ℕ) (js : List TimerJob) (k : TimerJob)
    → jobs_at b js ≤ 1
    → find_job b (remove_job a js) ≡ some k
    → (b ≢ a) × (find_job b js ≡ some k)
find_job-remove_job a b [] k u h = cc
find_job-remove_job a b (j ∷ js) k u h =
    ground (arith, find_job-remove_job a b js k, jobs_at-find_job b js k)

pub found_after_stop :
    (a b : ℕ) (js : List TimerJob) (k : TimerJob)
    → Unshared js
    → find_job b (remove_job a js) ≡ some k
    → (b ≢ a) × (find_job b js ≡ some k)
found_after_stop a b js k u h = find_job-remove_job a b js k (u b) h

-- What is found after a start was there before, or is the new job.
pub find_job-append :
    (b : ℕ) (js : List TimerJob) (j k : TimerJob)
    → find_job b (js ++ (j ∷ [])) ≡ some k
    → (find_job b js ≡ some k) ⊎ ((j.address ≡ b) × (j ≡ k))
find_job-append b [] j k h = ground arith
find_job-append b (x ∷ js) j k h = ground (arith, find_job-append b js j k)
