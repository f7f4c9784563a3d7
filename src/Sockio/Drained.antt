-- ===== src/Sockio/Drained.antt =====
-- The two loops of `sockio_wait_handle` over message ports end.
use rcli.Common.{
  ℕ, suc, ◌≤◌, ◌≡◌, refl, ap, sym, ◌∙◌, some, List, [], ◌∷◌, arith, length, count, remove,
  while_get, while_get-ends,
}
use rcli.Timer.{Timer, timer_get_next_done_job, timer_job_get_user_data, timer_stop}
use rcli.Sockio.{Sockio, MsgType}
use rcli.Sockio.Wait.{
  handle_msg, handle_msgs, enlist, finish_job, unlink_wait, handle_jobs, handle_timer,
}

enlist-port : (type : MsgType) (sio : Sockio) (i : ℕ) → (enlist type sio i).msg_port ≡ sio.msg_port
enlist-port MsgType.recv sio i = refl
enlist-port MsgType.send sio i = refl
enlist-port MsgType.wait_char sio i = refl
enlist-port MsgType.error sio i = refl
enlist-port MsgType.free sio i = refl

remove-absent : (x : ℕ) (xs : List ℕ) → count x xs ≡ 0 → remove x xs ≡ xs
remove-absent x [] h = refl
remove-absent x (y ∷ ys) h = ground (arith, remove-absent x ys)

finish_job-port : (sio : Sockio) (a : ℕ) → (finish_job sio a).timer.port ≡ remove a sio.timer.port
unfolding finish_job timer_stop timer_job_get_user_data unlink_wait
finish_job-port sio a = ground arith

next_job :
    (th : Timer) (a : ℕ) (rest : List ℕ)
    → th.port ≡ a ∷ rest
    → (timer_get_next_done_job th).1 ≡ record th { port = rest }
unfolding timer_get_next_done_job
next_job th a rest e = rw (timer_get_next_done_job, e) refl

-- No job is in the port twice.
abbrev pub Once : List ℕ → Type 0
Once jobs = (a : ℕ) → count a jobs ≤ 1

abbrev pub get_msg : ℕ → List ℕ → Sockio → Sockio
get_msg i rest sio = handle_msg (record sio { msg_port = rest }) i

abbrev pub get_job : ℕ → List ℕ → Sockio → Sockio
get_job a rest sio = finish_job (record sio { timer = record (sio.timer) { port = rest } }) a

-- Where no timer job has come back twice, the loops over submitted messages and over finished timer
-- jobs that ask their port again each time end one round after as many as the port holds; the port
-- is empty then, and the handle is what one pass over what the port held makes of it.
pub handle_msgs-handle_timer :
    (sio : Sockio)
    → Once sio.timer.port
    → ((while_get (λ s. s.msg_port) get_msg (suc (length sio.msg_port)) sio
          ≡ some (handle_msgs sio.msg_port sio))
        × ((handle_msgs sio.msg_port sio).msg_port ≡ []))
      × ((while_get (λ s. s.timer.port) get_job (suc (length sio.timer.port)) sio
            ≡ some (handle_timer sio))
          × ((handle_timer sio).timer.port ≡ []))
unfolding handle_msgs handle_msg handle_timer handle_jobs timer_get_next_done_job
handle_msgs-handle_timer sio once = (
  while_get-ends (λ s. s.msg_port) get_msg (λ is. Unit {0}) handle_msgs (λ i rest h. tt)
      (λ i rest s h. enlist-port (s.msgs i).type (record s { msg_port = rest }) i)
      (λ s e. ap (λ p. record s { msg_port = p }) (sym e)) (λ i rest s e. refl) sio.msg_port sio tt
      refl,
  while_get-ends (λ s. s.timer.port) get_job Once handle_jobs (λ a rest h x. omega (arith, h x))
      (λ a rest s h.
        finish_job-port (record s { timer = record (s.timer) { port = rest } }) a
        ∙ remove-absent a rest (ground (arith, h a)))
      (λ s e. refl)
      (λ a rest s e.
        ap (λ th. handle_jobs rest (finish_job (record s { timer = th }) a))
          (next_job s.timer a rest e))
      sio.timer.port sio once refl,
)
