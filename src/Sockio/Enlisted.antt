-- ===== src/Sockio/Enlisted.antt =====
-- Own messages, finished timers, waits and errors leave the order of the writes.
use rcli.Common.{
  ℕ, ◌+◌, ◌≡◌, ◌≢◌, refl, ap, sym, ◌∙◌, inl, inr, Bool, true, false, some, List, [], ◌∷◌, ◌++◌,
  arith, ◌==◌, update, count, count-append, count-remove_sub, remove, Bool-cases, Option-cases,
  append_assoc, bit_and, if◌then◌else◌,
}
use rcli.Timer.{Timer, find_job, timer_stop, timer_get_next_done_job, timer_job_get_user_data}
use rcli.Sockio.{Sockio, SockioMsg, MsgType, set_size}
use rcli.Sockio.Wait.{
  reply_error_msg, handle_msg, handle_msgs, enlist, unlink_wait, finish_job, finish_wait,
  handle_jobs, handle_timer,
}
use rcli.Sockio.Handle.{handle_signals}
use rcli.Sockio.Links.{Distinct, is_wait, Links, Kept, Kept-Distinct}
use rcli.Sockio.Submitted.{fresh_msg, alloc_msg-some, alloc_msg-none}
use rcli.Sockio.Answered.{finish_job-Kept, port-Kept, timer_get_next_done_job_jobs}
use rcli.Sockio.Moves.{handle_msgs-Kept}
use rcli.Sockio.Transfers.{same-Kept}
use rcli.Sockio.Writes.{
  is_write, pick, Typed, Ordered, Ordered-trans, pick-remove, pick-update, pick-other,
}
use rcli.Sockio.Ordered.{same-Ordered, set_size-pick, set_size-type}

-- A free message may change.
change-Typed :
    (sio : Sockio) (i : ℕ) (msg : SockioMsg)
    → count i sio.send_list + count i sio.recv_list + count i sio.wait_list ≡ 0
    → Typed sio
    → Typed (record sio { msgs = update sio.msgs i msg })
change-Typed sio i msg e t = record {
  sends = λ j n.
      (let other : j ≢ i = λ eq. n (ap (λ x. count x sio.send_list) eq ∙ omega (arith, e)) in
        ground (arith, t.sends j n));
  reads = λ j n.
      (let other : j ≢ i = λ eq. n (ap (λ x. count x sio.recv_list) eq ∙ omega (arith, e)) in
        ground (arith, t.reads j n));
  waits = λ j n.
      (let other : j ≢ i = λ eq. n (ap (λ x. count x sio.wait_list) eq ∙ omega (arith, e)) in
        ground (arith, t.waits j n));
}

pub reply_error_msg-Ordered :
    (held : List ℕ) (sio : Sockio) (code : ℕ) (free : List ℕ)
    → sio.free_list ≡ free
    → Distinct sio held
    → Typed sio
    → Ordered sio (reply_error_msg sio code).1
unfolding reply_error_msg
reply_error_msg-Ordered held sio code [] e v t =
    rw (reply_error_msg, alloc_msg-none sio MsgType.error 0 0 code e) (same-Ordered sio t)
reply_error_msg-Ordered held sio code (i ∷ rest) e v t =
    let a : count i sio.user_port ≡ 0 = ground (arith, v i, ap (count i) e) in
    let b : count i sio.msg_port ≡ 0 = ground (arith, v i, ap (count i) e) in
    let c : count i sio.send_list + count i sio.recv_list + count i sio.wait_list ≡ 0 =
      ground (arith, v i, ap (count i) e) in
    let msg = fresh_msg MsgType.error 0 0 code in
    let msgs' = update sio.msgs i msg in
    let other : is_write (msgs' i).type ≡ false = ground arith in
    let h = change-Typed sio i msg c t in
    rw (reply_error_msg, alloc_msg-some sio MsgType.error 0 0 code e)
      (record {
        order =
            rw
              (
                pick-other msgs' sio.user_port i other,
                pick-update sio.msgs i msg sio.user_port a,
                pick-update sio.msgs i msg sio.msg_port b,
              )
              refl;
        typed = record { sends = h.sends; reads = h.reads; waits = h.waits };
      })

-- A message at the end of a list of messages of its kind.
appended :
    (msgs : ℕ → SockioMsg) (xs : List ℕ) (i : ℕ) (b : Bool)
    → ((j : ℕ) → count j xs ≢ 0 → is_write (msgs j).type ≡ b)
    → is_write (msgs i).type ≡ b
    → (j : ℕ) → count j (xs ++ (i ∷ [])) ≢ 0
    → is_write (msgs j).type ≡ b
appended msgs xs i b h e j n = elim (Bool-cases (i == j)) [
  | inl same ↦ let eq : i ≡ j = ground arith in ap (λ x. is_write (msgs x).type) (sym eq) ∙ e
  | inr other ↦ h j (λ z. n (ground (arith, z, count-append j xs (i ∷ []))))
]

handle_msg-Ordered :
    (sio : Sockio) (i : ℕ) (is : List ℕ) (type : MsgType)
    → sio.msg_port ≡ i ∷ is
    → (sio.msgs i).type ≡ type
    → Typed sio
    → Ordered sio (enlist type (record sio { msg_port = is }) i)
handle_msg-Ordered sio i is MsgType.send e k t = record {
  order =
      rw (e, k)
        (ap (λ xs. pick sio.msgs sio.user_port ++ xs)
          (append_assoc sio.send_list (i ∷ []) (pick sio.msgs is)));
  typed = record {
    sends = appended sio.msgs sio.send_list i true t.sends (ap is_write k);
    reads = t.reads;
    waits = t.waits;
  };
}
handle_msg-Ordered sio i is MsgType.recv e k t = record {
  order = rw (e, k) refl;
  typed = record {
    sends = t.sends;
    reads = appended sio.msgs sio.recv_list i false t.reads (ap is_write k);
    waits = t.waits;
  };
}
handle_msg-Ordered sio i is MsgType.wait_char e k t = record {
  order = rw (e, k) refl;
  typed = record {
    sends = t.sends;
    reads = t.reads;
    waits = appended sio.msgs sio.wait_list i false t.waits (ap is_write k);
  };
}
handle_msg-Ordered sio i is MsgType.error e k t = record {
  order = rw (e, k) refl;
  typed = record { sends = t.sends; reads = t.reads; waits = t.waits };
}
handle_msg-Ordered sio i is MsgType.free e k t = record {
  order = rw (e, k) refl;
  typed = record { sends = t.sends; reads = t.reads; waits = t.waits };
}

enlist_port : (type : MsgType) (sio : Sockio) (i : ℕ) → (enlist type sio i).msg_port ≡ sio.msg_port
enlist_port MsgType.recv sio i = refl
enlist_port MsgType.send sio i = refl
enlist_port MsgType.wait_char sio i = refl
enlist_port MsgType.error sio i = refl
enlist_port MsgType.free sio i = refl

handle_msgs-Ordered :
    (is : List ℕ) (sio : Sockio) → sio.msg_port ≡ is → Typed sio → Ordered sio (handle_msgs is sio)
unfolding handle_msgs handle_msg
handle_msgs-Ordered [] sio e t = record {
  order = rw e refl;
  typed = record { sends = t.sends; reads = t.reads; waits = t.waits };
}
handle_msgs-Ordered (i ∷ is) sio e t =
    let sio1 = handle_msg (record sio { msg_port = is }) i in
    let one : Ordered sio sio1 = handle_msg-Ordered sio i is (sio.msgs i).type e refl t in
    Ordered-trans sio sio1 one (
      handle_msgs-Ordered is sio1 (enlist_port (sio.msgs i).type (record sio { msg_port = is }) i)
        one.typed)

-- A wait is answered, wherever it is.
answered-Ordered :
    (sio : Sockio) (i size : ℕ) (th : Timer)
    → is_write (sio.msgs i).type ≡ false
    → Typed sio
    → Ordered sio (record (set_size sio i size) {
      timer = th;
      wait_list = remove i sio.wait_list;
      msg_port = remove i sio.msg_port;
      user_port = remove i sio.user_port ++ (i ∷ []);
    })
answered-Ordered sio i size th e t = record {
  order =
      rw
        (
          set_size-pick sio i size (remove i sio.user_port ++ (i ∷ [])),
          set_size-pick sio i size (remove i sio.msg_port),
          pick-other sio.msgs (remove i sio.user_port) i e,
          pick-remove sio.msgs i sio.user_port e,
          pick-remove sio.msgs i sio.msg_port e,
        )
        refl;
  typed = record {
    sends = λ j n. set_size-type sio i size j ∙ t.sends j n;
    reads = λ j n. set_size-type sio i size j ∙ t.reads j n;
    waits = λ j n.
        set_size-type sio i size j
        ∙ t.waits j (λ z. n (omega (arith, z, count-remove_sub i j sio.wait_list)));
  };
}

is_wait-write : (type : MsgType) → is_wait type ≡ true → is_write type ≡ false
is_wait-write MsgType.recv e = refl
is_wait-write MsgType.send e = cc
is_wait-write MsgType.wait_char e = refl
is_wait-write MsgType.error e = refl
is_wait-write MsgType.free e = refl

finish_job-Ordered : (sio : Sockio) (a : ℕ) → Links sio → Typed sio → Ordered sio (finish_job sio a)
unfolding finish_job unlink_wait timer_job_get_user_data
finish_job-Ordered sio a l t = elim (Option-cases (find_job a sio.timer.job_list)) [
  | inl e ↦
      rw (finish_job, e)
        (record {
          order = refl;
          typed = record { sends = t.sends; reads = t.reads; waits = t.waits };
        })
  | inr (job, e) ↦
      rw (finish_job, e)
        (answered-Ordered sio job.user_data 0 (timer_stop sio.timer (some a))
          (is_wait-write _ (l.linked a job e).typed) t)
]

pub finish_wait-Ordered :
    (sio : Sockio) (i : ℕ)
    → is_write (sio.msgs i).type ≡ false
    → Typed sio
    → Ordered sio (finish_wait sio i)
unfolding finish_wait unlink_wait
finish_wait-Ordered sio i e t = answered-Ordered sio i 1 _ e t

handle_jobs-Ordered :
    (held jobs : List ℕ) (sio : Sockio)
    → Distinct sio held
    → Links sio
    → Typed sio
    → Ordered sio (handle_jobs jobs sio)
unfolding handle_jobs
handle_jobs-Ordered held [] sio v l t = same-Ordered sio t
handle_jobs-Ordered held (a ∷ rest) sio v l t =
    let next = (timer_get_next_done_job sio.timer).1 in
    let sio1 = record sio { timer = next } in
    let taken = port-Kept held sio next (timer_get_next_done_job_jobs sio.timer) l in
    let done = finish_job-Kept held sio1 a v taken.links in
    let one =
      finish_job-Ordered sio1 a taken.links
        (record { sends = t.sends; reads = t.reads; waits = t.waits }) in
    let more =
      handle_jobs-Ordered held rest (finish_job sio1 a)
        (Kept-Distinct sio1 (finish_job sio1 a) done v) done.links one.typed in
    record { order = more.order ∙ one.order; typed = more.typed }

pub handle_signals-Ordered :
    (held : List ℕ) (got : ℕ) (sio : Sockio)
    → Distinct sio held
    → Links sio
    → Typed sio
    → Ordered sio (handle_signals got sio)
unfolding handle_signals handle_timer
handle_signals-Ordered held got sio v l t =
    let sio1 = if bit_and got sio.msg_mask == 0 then sio else handle_msgs sio.msg_port sio in
    let kept : Kept held sio sio1 = elim (Bool-cases (bit_and got sio.msg_mask == 0)) [
      | inl e ↦ rw e (same-Kept held sio l)
      | inr e ↦ rw e (handle_msgs-Kept held sio.msg_port sio refl l)
    ] in
    let one : Ordered sio sio1 = elim (Bool-cases (bit_and got sio.msg_mask == 0)) [
      | inl e ↦ rw e (same-Ordered sio t)
      | inr e ↦ rw e (handle_msgs-Ordered sio.msg_port sio refl t)
    ] in
    elim (Bool-cases (bit_and got sio1.timer_mask == 0)) [
      | inl e ↦ rw e one
      | inr e ↦ rw e (
          Ordered-trans sio sio1 one (
            handle_jobs-Ordered held sio1.timer.port sio1 (Kept-Distinct sio sio1 kept v) kept.links
              one.typed))
    ]
