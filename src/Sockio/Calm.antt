-- ===== src/Sockio/Calm.antt =====
-- Own messages and finished timers in `sockio_wait_handle`: what they leave of what was picked before.
use rcli.Common.{
  count-remove_sub, ℕ, ◌+◌, ◌≡◌, ◌≢◌, refl, inl, inr, some, List, [], ◌∷◌, ◌++◌, arith, ◌==◌,
  if◌then◌else◌, count, count-append, remove, Bool-cases, Option-cases, bit_and,
}
use rcli.Timer.{find_job, timer_job_get_user_data, timer_get_next_done_job}
use rcli.Sockio.{Sockio, MsgType, head?}
use rcli.Sockio.Wait.{
  finish_job, handle_jobs, handle_timer, unlink_wait, handle_msg, handle_msgs, enlist,
}
use rcli.Sockio.Handle.{handle_signals}
use rcli.Sockio.Links.{Distinct, Links, Kept, Kept-trans, Kept-Distinct}
use rcli.Sockio.Answered.{handle_timer-Kept}
use rcli.Sockio.Moves.{handle_msgs-Kept}
use rcli.Sockio.Transfers.{same-Kept}

-- What the signals leave of the messages that were picked before: the first read and the first
-- send stay first, and a wait is on its list or at the user's port.
pub record Calm (sio sio' : Sockio) : Type 0 where
  pub reads : (i : ℕ) → head? sio.recv_list ≡ some i → head? sio'.recv_list ≡ some i
  pub sends : (i : ℕ) → head? sio.send_list ≡ some i → head? sio'.send_list ≡ some i
  pub waits :
      (i : ℕ)
      → count i sio.wait_list + count i sio.user_port ≢ 0
      → count i sio'.wait_list + count i sio'.user_port ≢ 0

Calm-trans : (a b c : Sockio) → Calm a b → Calm b c → Calm a c
Calm-trans a b c h k = record {
  reads = λ i e. k.reads i (h.reads i e);
  sends = λ i e. k.sends i (h.sends i e);
  waits = λ i e. k.waits i (h.waits i e);
}

same-Calm : (sio : Sockio) → Calm sio sio
same-Calm sio = record { reads = λ i e. e; sends = λ i e. e; waits = λ i e. e }

head?-append : (i j : ℕ) (xs : List ℕ) → head? xs ≡ some i → head? (xs ++ (j ∷ [])) ≡ some i
head?-append i j [] e = cc
head?-append i j (x ∷ xs) e = e

enlist-Calm : (type : MsgType) (sio : Sockio) (j : ℕ) → Calm sio (enlist type sio j)
enlist-Calm MsgType.recv sio j = record {
  reads = λ i e. head?-append i j sio.recv_list e;
  sends = λ i e. e;
  waits = λ i e. e;
}
enlist-Calm MsgType.send sio j = record {
  reads = λ i e. e;
  sends = λ i e. head?-append i j sio.send_list e;
  waits = λ i e. e;
}
enlist-Calm MsgType.wait_char sio j = record {
  reads = λ i e. e;
  sends = λ i e. e;
  waits = λ i e. ground (arith, count-append i sio.wait_list (j ∷ []));
}
enlist-Calm MsgType.error sio j = same-Calm sio
enlist-Calm MsgType.free sio j = same-Calm sio

handle_msgs-Calm : (is : List ℕ) (sio : Sockio) → Calm sio (handle_msgs is sio)
unfolding handle_msgs handle_msg
handle_msgs-Calm [] sio = record { reads = λ i e. e; sends = λ i e. e; waits = λ i e. e }
handle_msgs-Calm (j ∷ js) sio =
    let sio1 = handle_msg (record sio { msg_port = js }) j in
    let one = enlist-Calm (sio.msgs j).type (record sio { msg_port = js }) j in
    let rest = handle_msgs-Calm js sio1 in
    record {
      reads = λ i e. rest.reads i (one.reads i e);
      sends = λ i e. rest.sends i (one.sends i e);
      waits = λ i e. rest.waits i (one.waits i e);
    }

finish_job-Calm : (sio : Sockio) (a : ℕ) → Calm sio (finish_job sio a)
unfolding finish_job unlink_wait timer_job_get_user_data
finish_job-Calm sio a = elim (Option-cases (find_job a sio.timer.job_list)) [
  | inl e ↦ rw (finish_job, e) (record { reads = λ i h. h; sends = λ i h. h; waits = λ i h. h })
  | inr (job, e) ↦
      rw (finish_job, e)
        (record {
          reads = λ i h. h;
          sends = λ i h. h;
          waits = λ i h. ground (
            arith,
            h,
            count-remove_sub job.user_data i sio.wait_list,
            count-remove_sub job.user_data i sio.user_port,
            count-append i (remove job.user_data sio.user_port) (job.user_data ∷ []),
          );
        })
]

handle_jobs-Calm : (jobs : List ℕ) (sio : Sockio) → Calm sio (handle_jobs jobs sio)
unfolding handle_jobs
handle_jobs-Calm [] sio = same-Calm sio
handle_jobs-Calm (a ∷ rest) sio =
    let sio1 = record sio { timer = (timer_get_next_done_job sio.timer).1 } in
    let one = finish_job-Calm sio1 a in
    let more = handle_jobs-Calm rest (finish_job sio1 a) in
    record {
      reads = λ i e. more.reads i (one.reads i e);
      sends = λ i e. more.sends i (one.sends i e);
      waits = λ i e. more.waits i (one.waits i e);
    }

-- Own messages and finished timers.
pub handle_signals-Kept :
    (held : List ℕ) (got : ℕ) (sio : Sockio)
    → Distinct sio held
    → Links sio
    → Kept held sio (handle_signals got sio)
unfolding handle_signals
handle_signals-Kept held got sio v l =
    let sio1 = if bit_and got sio.msg_mask == 0 then sio else handle_msgs sio.msg_port sio in
    let one : Kept held sio sio1 = elim (Bool-cases (bit_and got sio.msg_mask == 0)) [
      | inl e ↦ rw e (same-Kept held sio l)
      | inr e ↦ rw e (handle_msgs-Kept held sio.msg_port sio refl l)
    ] in
    elim (Bool-cases (bit_and got sio1.timer_mask == 0)) [
      | inl e ↦ rw e one
      | inr e ↦ rw e (
          Kept-trans sio sio1 one
            (handle_timer-Kept held sio1 (Kept-Distinct sio sio1 one v) one.links))
    ]

pub handle_signals-Calm : (got : ℕ) (sio : Sockio) → Calm sio (handle_signals got sio)
unfolding handle_signals handle_timer
handle_signals-Calm got sio =
    let sio1 = if bit_and got sio.msg_mask == 0 then sio else handle_msgs sio.msg_port sio in
    let one : Calm sio sio1 = elim (Bool-cases (bit_and got sio.msg_mask == 0)) [
      | inl e ↦ rw e (same-Calm sio)
      | inr e ↦ rw e (handle_msgs-Calm sio.msg_port sio)
    ] in
    elim (Bool-cases (bit_and got sio1.timer_mask == 0)) [
      | inl e ↦ rw e one
      | inr e ↦ rw e (Calm-trans sio sio1 _ one (handle_jobs-Calm sio1.timer.port sio1))
    ]
