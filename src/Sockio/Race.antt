-- ===== src/Sockio/Race.antt =====
-- A wait whose timer runs out in the round of `sockio_wait_handle` in which its character arrives.
use rcli.Common.{
  ℕ, ◌-◌, ◌^◌, ◌≡◌, ◌≢◌, ap, ◌∙◌, some, none, [], ◌∷◌, arith, refl, suc, true, false, bit_and, ◌==◌,
}
use rcli.Timer.{
  TimerAnswer, timer_start, timer_get_next_done_job, Timer, TimerJob, timer_stop, remove_job,
}
use rcli.Sockio.{Sockio, State, set_size}
use rcli.Sockio.Wait.{Selected, finish_job, finish_wait, unlink_wait, handle_jobs, handle_timer}
use rcli.Sockio.Handle.{
  sockio_wait_handle, prepare, flush_by_state, push_back_first, handle_signals, transfer, wait_step,
  rx_step, tx_step,
}

unlink_wait_keeps :
    (sio : Sockio) (i : ℕ)
    → ((unlink_wait sio i).timer ≡ sio.timer) × ((unlink_wait sio i).msgs ≡ sio.msgs)
unfolding unlink_wait
unlink_wait_keeps sio i = ground arith

finish_job_keeps :
    (sio : Sockio) (job i : ℕ)
    → let sio' = finish_job sio job in
      (sio'.timer ≡ timer_stop sio.timer (some job))
      × ((sio'.msgs i).buf_data ≡ (sio.msgs i).buf_data)
unfolding finish_job unlink_wait
finish_job_keeps sio job i = ground arith

finish_wait_timer :
    (sio : Sockio) (i job : ℕ)
    → (sio.msgs i).buf_data ≡ job
    → job ≢ 0
    → (finish_wait sio i).timer ≡ timer_stop sio.timer (some job)
unfolding finish_wait
finish_wait_timer sio i job e h =
    let (timer, msgs) = unlink_wait_keeps (set_size sio i 1) i in rw (timer, msgs) (ground arith)

-- A job that is alone in the list, stopped twice.
stop_twice :
    (th : Timer) (job : TimerJob)
    → th.job_list ≡ job ∷ []
    → th.num_jobs ≡ 1
    → let th' = timer_stop (timer_stop th (some job.address)) (some job.address) in
      (th'.job_list ≡ []) × (th'.device ≡ false) × (th'.num_jobs ≡ 2 ^ 16 - 1)
unfolding timer_stop
stop_twice th job list one = (
  ap (λ l. remove_job job.address (remove_job job.address l)) list ∙ ground arith,
  ground arith,
  ground arith,
)

-- One wait with the only timer job, and neither a read nor a write.
pub record OnlyWait (sio : Sockio) (i : ℕ) (job : TimerJob) : Type 0 where
  pub state : sio.state ≡ State.ok
  pub recvs : sio.recv_list ≡ []
  pub sends : sio.send_list ≡ []
  pub waits : sio.wait_list ≡ i ∷ []
  pub jobs : sio.timer.job_list ≡ job ∷ []
  pub num_jobs : sio.timer.num_jobs ≡ 1
  pub user_data : job.user_data ≡ i
  pub buf_data : (sio.msgs i).buf_data ≡ job.address
  pub nonnull : job.address ≢ 0

-- In this round the timer's port and the socket are signalled, and the handle's own port is not.
pub record BothReady (sio : Sockio) (job : TimerJob) (sel : Selected) (n : ℕ) : Type 0 where
  pub port : sio.timer.port ≡ job.address ∷ []
  pub result : sel.result ≡ some (suc n)
  pub rx_set : sel.rx_set ≡ true
  pub timer_signal : (bit_and sel.got_mask sio.timer_mask == 0) ≡ false
  pub no_msg_signal : (bit_and sel.got_mask sio.msg_mask == 0) ≡ true

prepare_wait :
    (sio : Sockio) (i : ℕ) (job : TimerJob)
    → OnlyWait sio i job
    → prepare sio ≡ record {
      sio = sio;
      rx_msg = none;
      tx_msg = none;
      wait_msg = some i;
      rx_pending = false;
      tx_pending = false;
    }
unfolding prepare flush_by_state push_back_first
prepare_wait sio i job h =
    let still : flush_by_state sio.state sio ≡ sio = ap (λ s. flush_by_state s sio) h.state in
    rw (prepare, still) (simp (h.recvs, h.sends, h.waits, push_back_first))

next_job_keeps :
    (th : Timer)
    → let th' = (timer_get_next_done_job th).1 in
      (th'.job_list ≡ th.job_list) × (th'.num_jobs ≡ th.num_jobs)
unfolding timer_get_next_done_job
next_job_keeps th = (ground arith, ground arith)

-- The timer's port is read.
abbrev after_port : Sockio → Sockio
after_port sio = record sio { timer = (timer_get_next_done_job sio.timer).1 }

signals_timer :
    (sio : Sockio) (job : TimerJob) (sel : Selected) (n : ℕ)
    → BothReady sio job sel n
    → handle_signals sel.got_mask sio ≡ finish_job (after_port sio) job.address
unfolding handle_signals handle_timer handle_jobs
signals_timer sio job sel n b =
    rw (handle_signals, b.no_msg_signal, b.timer_signal) (ap (λ l. handle_jobs l sio) b.port)

transfer_wait :
    (sio sio1 : Sockio) (i : ℕ) (sel : Selected)
    → sel.rx_set ≡ true
    → transfer
        (record {
          sio = sio;
          rx_msg = none;
          tx_msg = none;
          wait_msg = some i;
          rx_pending = false;
          tx_pending = false;
        })
        sel
        sio1
      ≡ finish_wait sio1 i
unfolding transfer wait_step rx_step tx_step
transfer_wait sio sio1 i sel e = rw e refl

round_both :
    (sio : Sockio) (i : ℕ) (job : TimerJob) (mask n : ℕ) (sel : Selected)
    → OnlyWait sio i job
    → BothReady sio job sel n
    → (sockio_wait_handle sio mask sel).0 ≡ finish_wait (finish_job (after_port sio) job.address) i
unfolding sockio_wait_handle
round_both sio i job mask n sel h b =
    let some_ready : (suc n == 0) ≡ false = ground arith in
    rw (b.result, prepare_wait sio i job h, signals_timer sio job sel n b, some_ready)
      (transfer_wait sio (finish_job (after_port sio) job.address) i
        (record sel { result = some (suc n) }) b.rx_set)

-- A round of `sockio_wait_handle` without a read or a write, in which the only wait, with the only
-- timer job, gets its timer's answer and the socket's character at once: the job is stopped twice.
-- No job is left and the timer device is closed, but the count of jobs has dropped below zero and
-- wrapped to the largest number, so that the job that is started next does not open the device.
pub sockio_wait_handle-timer_start :
    (sio : Sockio) (i : ℕ) (job : TimerJob) (mask n : ℕ) (sel : Selected) (answer : TimerAnswer)
    (secs micros user_data : ℕ)
    → OnlyWait sio i job
    → BothReady sio job sel n
    → let timer' = (sockio_wait_handle sio mask sel).0.timer in
      (timer'.job_list ≡ [])
      × (timer'.device ≡ false)
      × (timer'.num_jobs ≡ 2 ^ 16 - 1)
      × ((timer_start timer' answer secs micros user_data).1.device ≡ false)
unfolding timer_start
sockio_wait_handle-timer_start sio i job mask n sel answer secs micros user_data h b =
    let sio1 = after_port sio in
    let (timer, buf) = finish_job_keeps sio1 job.address i in
    let again =
      finish_wait_timer (finish_job sio1 job.address) i job.address (buf ∙ h.buf_data) h.nonnull in
    let (keeps_list, keeps_count) = next_job_keeps sio.timer in
    let (list, device, count) =
      stop_twice sio1.timer job (keeps_list ∙ h.jobs) (keeps_count ∙ h.num_jobs) in
    let e =
      ap (λ s. s.timer) (round_both sio i job mask n sel h b)
      ∙ again
      ∙ ap (λ t. timer_stop t (some job.address)) timer in
    rw e (list, device, count, ground arith)
