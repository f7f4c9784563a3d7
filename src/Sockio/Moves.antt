-- ===== src/Sockio/Moves.antt =====
-- The moves of messages of sockio.c that have nothing to do with timers.
use rcli.Common.{
  ℕ, ◌≡◌, ◌≢◌, refl, ap, sym, subst, ◌∙◌, inl, inr, true, false, List, [], ◌∷◌, ◌++◌, arith, ◌==◌,
  update, count, count-append, Bool-cases, leb,
}
use rcli.Sockio.{Sockio, SockioMsg, MsgType, reply_msg, set_size, rest_of}
use rcli.Sockio.Wait.{
  flush_recvs, flush_sends, sockio_flush, sockio_flush_recv, sockio_flush_send, reply_error_msg,
  handle_msg, handle_msgs, enlist, finish_recv, finish_send,
}
use rcli.Sockio.Links.{
  Distinct, is_wait, is_request, waiting, LinksOf, Links, Kept, Kept-trans, Kept-Distinct,
}
use rcli.Sockio.Answered.{flush_waits-Kept}
use rcli.Sockio.Submitted.{alloc_msg-some, alloc_msg-none}

-- A size matters to no link.
Links-set_size : (sio : Sockio) (i size : ℕ) → Links sio → Links (set_size sio i size)
Links-set_size sio i size l = record {
  unshared = l.unshared;
  linked = λ a job h.
      let k = l.linked a job h in
      record {
        nonnull = k.nonnull;
        known = ground (arith, k.known);
        typed = ground (arith, k.typed);
        unanswered = k.unanswered;
      };
  requests = λ m h. ground (arith, l.requests m h);
}

flush_recvs-Kept :
    (held is : List ℕ) (sio : Sockio)
    → sio.recv_list ≡ is
    → Links sio
    → Kept held sio (flush_recvs is sio)
unfolding flush_recvs
flush_recvs-Kept held [] sio e l = record { placed = λ m. refl; links = l }
flush_recvs-Kept held (i ∷ is) sio e l =
    let sio1 = reply_msg (record (set_size sio i 0) { recv_list = is }) i in
    let one : Kept held sio sio1 = record {
      placed = λ m. omega (arith, ap (count m) e, count-append m sio.user_port (i ∷ []));
      links = Links-set_size sio i 0 l;
    } in
    Kept-trans sio sio1 one (flush_recvs-Kept held is sio1 refl one.links)

flush_sends-Kept :
    (held is : List ℕ) (sio : Sockio)
    → sio.send_list ≡ is
    → Links sio
    → Kept held sio (flush_sends is sio)
unfolding flush_sends
flush_sends-Kept held [] sio e l = record { placed = λ m. refl; links = l }
flush_sends-Kept held (i ∷ is) sio e l =
    let sio1 = reply_msg (record sio { send_list = is }) i in
    let one : Kept held sio sio1 = record {
      placed = λ m. omega (arith, ap (count m) e, count-append m sio.user_port (i ∷ []));
      links = l;
    } in
    Kept-trans sio sio1 one (flush_sends-Kept held is sio1 refl one.links)

pub sockio_flush_recv-Kept :
    (held : List ℕ) (sio : Sockio)
    → Distinct sio held
    → Links sio
    → Kept held sio (sockio_flush_recv sio)
unfolding sockio_flush_recv
sockio_flush_recv-Kept held sio v l =
    let sio1 = flush_recvs sio.recv_list sio in
    let one = flush_recvs-Kept held sio.recv_list sio refl l in
    Kept-trans sio sio1 one
      (flush_waits-Kept held sio1.wait_list sio1 refl (Kept-Distinct sio sio1 one v) one.links)

pub sockio_flush-Kept :
    (held : List ℕ) (sio : Sockio)
    → Distinct sio held
    → Links sio
    → Kept held sio (sockio_flush sio)
unfolding sockio_flush sockio_flush_send
sockio_flush-Kept held sio v l =
    let sio1 = flush_sends sio.send_list sio in
    let one = flush_sends-Kept held sio.send_list sio refl l in
    Kept-trans sio sio1 one
      (sockio_flush_recv-Kept held sio1 (Kept-Distinct sio sio1 one v) one.links)

-- A message that no job names may change.
pub change-Links :
    (sio : Sockio) (i : ℕ) (msg : SockioMsg)
    → waiting sio i ≡ 0
    → Links sio
    → LinksOf sio.timer.job_list (update sio.msgs i msg) sio.wait_list sio.msg_port
change-Links sio i msg unnamed l = record {
  unshared = l.unshared;
  linked = λ a job h.
      let k = l.linked a job h in
      let other : job.user_data ≢ i = λ same. k.unanswered (ap (waiting sio) same ∙ unnamed) in
      record {
        nonnull = k.nonnull;
        known = ground (arith, k.known);
        typed = ground (arith, k.typed);
        unanswered = k.unanswered;
      };
  requests = λ m h.
      let other : m ≢ i = λ same. omega (arith, h, unnamed, ap (λ x. count x sio.msg_port) same) in
      ground (arith, l.requests m h);
}

-- A message that is taken from the free list is named by no job.
pub alloc-Links :
    (sio : Sockio) (held : List ℕ) (i : ℕ) (rest : List ℕ) (msg : SockioMsg)
    → sio.free_list ≡ i ∷ rest
    → Distinct sio held
    → Links sio
    → LinksOf sio.timer.job_list (update sio.msgs i msg) sio.wait_list sio.msg_port
alloc-Links sio held i rest msg e v l =
    change-Links sio i msg (ground (arith, v i, ap (count i) e)) l

pub reply_error_msg-Kept :
    (held : List ℕ) (sio : Sockio) (code : ℕ) (free : List ℕ)
    → sio.free_list ≡ free
    → Distinct sio held
    → Links sio
    → Kept held sio (reply_error_msg sio code).1
unfolding reply_error_msg
reply_error_msg-Kept held sio code [] e v l =
    rw (reply_error_msg, alloc_msg-none sio MsgType.error 0 0 code e)
      (record { placed = λ m. refl; links = l })
reply_error_msg-Kept held sio code (i ∷ rest) e v l =
    rw (reply_error_msg, alloc_msg-some sio MsgType.error 0 0 code e)
      (record {
        placed = λ m. omega (arith, ap (count m) e, count-append m sio.user_port (i ∷ []));
        links = alloc-Links sio held i rest _ e v l;
      })

-- A message that leaves the port and is no wait takes no link away.
leave-Links :
    (sio : Sockio) (i : ℕ) (is : List ℕ)
    → sio.msg_port ≡ i ∷ is
    → is_wait (sio.msgs i).type ≡ false
    → Links sio
    → LinksOf sio.timer.job_list sio.msgs sio.wait_list is
leave-Links sio i is e t l = record {
  unshared = l.unshared;
  linked = λ a job h.
      let k = l.linked a job h in
      let other : job.user_data ≢ i =
        λ same. ground (arith, sym k.typed ∙ ap (λ x. is_wait (sio.msgs x).type) same ∙ t) in
      record {
        nonnull = k.nonnull;
        known = k.known;
        typed = k.typed;
        unanswered = ground (arith, k.unanswered, ap (count job.user_data) e, other);
      };
  requests = λ m h. l.requests m (λ z. h (omega (arith, ap (count m) e, z)));
}

-- A wait goes from the port to its list.
wait-Links :
    (sio : Sockio) (i : ℕ) (is : List ℕ)
    → sio.msg_port ≡ i ∷ is
    → Links sio
    → LinksOf sio.timer.job_list sio.msgs (sio.wait_list ++ (i ∷ [])) is
wait-Links sio i is e l = record {
  unshared = l.unshared;
  linked = λ a job h.
      let k = l.linked a job h in
      record {
        nonnull = k.nonnull;
        known = k.known;
        typed = k.typed;
        unanswered = λ z. k.unanswered (
            omega (
              arith,
              z,
              ap (count job.user_data) e,
              count-append job.user_data sio.wait_list (i ∷ []),
            ));
      };
  requests = λ m h. l.requests m (λ z. h (omega (arith, ap (count m) e, z)));
}

handle_msg-Kept :
    (held : List ℕ) (sio : Sockio) (i : ℕ) (is : List ℕ) (type : MsgType)
    → sio.msg_port ≡ i ∷ is
    → (sio.msgs i).type ≡ type
    → is_request type ≡ true
    → Links sio
    → Kept held sio (enlist type (record sio { msg_port = is }) i)
handle_msg-Kept held sio i is MsgType.recv e t r l = record {
  placed = λ m. omega (arith, ap (count m) e, count-append m sio.recv_list (i ∷ []));
  links = leave-Links sio i is e (ap is_wait t) l;
}
handle_msg-Kept held sio i is MsgType.send e t r l = record {
  placed = λ m. omega (arith, ap (count m) e, count-append m sio.send_list (i ∷ []));
  links = leave-Links sio i is e (ap is_wait t) l;
}
handle_msg-Kept held sio i is MsgType.wait_char e t r l = record {
  placed = λ m. omega (arith, ap (count m) e, count-append m sio.wait_list (i ∷ []));
  links = wait-Links sio i is e l;
}
handle_msg-Kept held sio i is MsgType.error e t r l = cc
handle_msg-Kept held sio i is MsgType.free e t r l = cc

enlist_port : (type : MsgType) (sio : Sockio) (i : ℕ) → (enlist type sio i).msg_port ≡ sio.msg_port
enlist_port MsgType.recv sio i = refl
enlist_port MsgType.send sio i = refl
enlist_port MsgType.wait_char sio i = refl
enlist_port MsgType.error sio i = refl
enlist_port MsgType.free sio i = refl

pub handle_msgs-Kept :
    (held is : List ℕ) (sio : Sockio)
    → sio.msg_port ≡ is
    → Links sio
    → Kept held sio (handle_msgs is sio)
unfolding handle_msgs handle_msg
handle_msgs-Kept held [] sio e l = record {
  placed = λ m. omega (arith, ap (count m) e);
  links = subst (LinksOf sio.timer.job_list sio.msgs sio.wait_list) e l;
}
handle_msgs-Kept held (i ∷ is) sio e l =
    let sio1 = handle_msg (record sio { msg_port = is }) i in
    let there : count i sio.msg_port ≢ 0 = ground (arith, ap (count i) e) in
    let one : Kept held sio sio1 =
      handle_msg-Kept held sio i is (sio.msgs i).type e refl (l.requests i there) l in
    Kept-trans sio sio1 one (
      handle_msgs-Kept held is sio1 (enlist_port (sio.msgs i).type (record sio { msg_port = is }) i)
        one.links)

-- The first read is done, and goes to the user.
pub first_read-Kept :
    (held : List ℕ) (sio : Sockio) (i size : ℕ) (is : List ℕ)
    → sio.recv_list ≡ i ∷ is
    → Links sio
    → Kept held sio (
        reply_msg
          (record (set_size sio i size) { recv_list = rest_of sio.recv_list; rx_actual = 0 })
          i)
first_read-Kept held sio i size is e l = record {
  placed = λ m. omega (
    arith,
    ap (count m) e,
    ap (λ xs. count m (rest_of xs)) e,
    count-append m sio.user_port (i ∷ []),
  );
  links = Links-set_size sio i size l;
}

pub finish_recv-Kept :
    (held : List ℕ) (sio : Sockio) (i : ℕ) (is : List ℕ)
    → sio.recv_list ≡ i ∷ is
    → Links sio
    → Kept held sio (finish_recv sio i).1
unfolding finish_recv
finish_recv-Kept held sio i is e l = elim (Bool-cases (leb (sio.msgs i).min_size sio.rx_actual)) [
  | inl d ↦ rw d (first_read-Kept held sio i sio.rx_actual is e l)
  | inr d ↦ rw d (record { placed = λ m. refl; links = l })
]

pub finish_send-Kept :
    (held : List ℕ) (sio : Sockio) (i : ℕ) (is : List ℕ)
    → sio.send_list ≡ i ∷ is
    → Links sio
    → Kept held sio (finish_send sio i)
unfolding finish_send
finish_send-Kept held sio i is e l = elim (Bool-cases ((sio.msgs i).size == sio.tx_actual)) [
  | inl d ↦ rw d (record {
    placed = λ m. omega (
      arith,
      ap (count m) e,
      ap (λ xs. count m (rest_of xs)) e,
      count-append m sio.user_port (i ∷ []),
    );
    links = l;
  })
  | inr d ↦ rw d (record { placed = λ m. refl; links = l })
]
