-- ===== src/Sockio/Links.antt =====
-- Where the messages of a handle of sockio.c are, and which of them the running timer jobs name.
use rcli.Common.{ℕ, ◌+◌, ◌≤◌, ◌≡◌, ◌≢◌, ap, ◌∙◌, Bool, true, false, some, List, arith, count}
use rcli.Timer.{TimerJob, find_job}
use rcli.Timer.Addresses.{Unshared}
use rcli.Sockio.{Sockio, SockioMsg, MsgType}

-- Where message `m` is: the number of its places in the handle and at the client.
abbrev pub places : Sockio → List ℕ → ℕ → ℕ
places sio held m =
    count m sio.free_list
    + count m sio.recv_list
    + count m sio.send_list
    + count m sio.wait_list
    + count m sio.msg_port
    + count m sio.user_port
    + count m held

-- No message is in two places.
abbrev pub Distinct : Sockio → List ℕ → Type 0
Distinct sio held = (m : ℕ) → places sio held m ≤ 1

abbrev pub is_wait : MsgType → Bool
is_wait MsgType.wait_char = true
is_wait _ = false

-- The types of messages that `handle_msg` puts on a list.
abbrev pub is_request : MsgType → Bool
is_request MsgType.recv = true
is_request MsgType.send = true
is_request MsgType.wait_char = true
is_request _ = false

-- The job at address `a` belongs to a wait that is still to be answered and knows the address.
pub record LinkOf (msgs : ℕ → SockioMsg) (wait port : List ℕ) (a : ℕ) (job : TimerJob)
    : Type 0 where
  pub nonnull : a ≢ 0
  pub known : (msgs job.user_data).buf_data ≡ a
  pub typed : is_wait (msgs job.user_data).type ≡ true
  pub unanswered : count job.user_data wait + count job.user_data port ≢ 0

-- Each running job has its wait, and what was submitted has a type that the handle knows.
pub record LinksOf (jobs : List TimerJob) (msgs : ℕ → SockioMsg) (wait port : List ℕ) : Type 0 where
  pub unshared : Unshared jobs
  pub linked : (a : ℕ) (job : TimerJob) → find_job a jobs ≡ some job → LinkOf msgs wait port a job
  pub requests : (m : ℕ) → count m port ≢ 0 → is_request (msgs m).type ≡ true

-- How often a message waits for its timer.
abbrev pub waiting : Sockio → ℕ → ℕ
waiting sio m = count m sio.wait_list + count m sio.msg_port

abbrev pub Link : Sockio → ℕ → TimerJob → Type 0
Link sio a job = LinkOf sio.msgs sio.wait_list sio.msg_port a job

abbrev pub Links : Sockio → Type 0
Links sio = LinksOf sio.timer.job_list sio.msgs sio.wait_list sio.msg_port

-- What every operation keeps: the places of each message, and the links.
pub record Kept (held : List ℕ) (sio sio' : Sockio) : Type 0 where
  pub placed : (m : ℕ) → places sio' held m ≡ places sio held m
  pub links : Links sio'

pub Kept-trans :
    {held : List ℕ} (a b : Sockio) {c : Sockio} → Kept held a b → Kept held b c → Kept held a c
Kept-trans a b h k = record { placed = λ m. k.placed m ∙ h.placed m; links = k.links }

pub Kept-Distinct :
    {held : List ℕ} (a b : Sockio) → Kept held a b → Distinct a held → Distinct b held
Kept-Distinct a b h v = λ m. omega (arith, v m, h.placed m)

-- The links of a handle whose jobs are some of those before, each with its wait still waiting.
pub Links-fewer :
    (sio sio' : Sockio)
    → Links sio
    → Unshared sio'.timer.job_list
    → ((a : ℕ) (job : TimerJob)
        → find_job a sio'.timer.job_list ≡ some job
        → find_job a sio.timer.job_list ≡ some job)
    → ((a : ℕ) (job : TimerJob)
        → find_job a sio'.timer.job_list ≡ some job
        → Link sio a job
        → Link sio' a job)
    → ((m : ℕ) → count m sio'.msg_port ≢ 0 → count m sio.msg_port ≢ 0)
    → ((m : ℕ) → (sio'.msgs m).type ≡ (sio.msgs m).type)
    → Links sio'
Links-fewer sio sio' l u fewer same port type = record {
  unshared = u;
  linked = λ a job h. same a job h (l.linked a job (fewer a job h));
  requests = λ m h. ap is_request (type m) ∙ l.requests m (port m h);
}
