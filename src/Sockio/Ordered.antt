-- ===== src/Sockio/Ordered.antt =====
-- What `sockio_wait_handle` does to a message leaves the order of the writes.
use rcli.Common.{ℕ, ◌≡◌, refl, ap, ◌∙◌, false, List, [], ◌∷◌, ◌++◌, arith, count, append_assoc}
use rcli.Timer.{Timer, timer_stop}
use rcli.Sockio.{Sockio, reply_msg, set_size}
use rcli.Sockio.Wait.{
  flush_recvs, flush_waits, flush_sends, sockio_flush, sockio_flush_recv, sockio_flush_send, job_of,
}
use rcli.Sockio.Writes.{
  is_write, pick, writes_of, writes, Typed, Ordered, Ordered-trans, pick_types, pick-other,
  pick-write,
}

pub same-Ordered : (sio : Sockio) → Typed sio → Ordered sio sio
same-Ordered sio t = record { order = refl; typed = t }

pub set_size-pick :
    (sio : Sockio) (i size : ℕ) (xs : List ℕ)
    → pick (set_size sio i size).msgs xs ≡ pick sio.msgs xs
set_size-pick sio i size xs =
    pick_types sio.msgs (set_size sio i size).msgs xs (λ x n. ground arith)

pub set_size-type :
    (sio : Sockio) (i size x : ℕ)
    → is_write ((set_size sio i size).msgs x).type ≡ is_write (sio.msgs x).type
set_size-type sio i size x = ground arith

-- A message that is no write, with its size set, goes to the user.
pub other-order :
    (sio : Sockio) (i size : ℕ)
    → is_write (sio.msgs i).type ≡ false
    → writes_of (set_size sio i size).msgs (sio.user_port ++ (i ∷ [])) sio.send_list sio.msg_port
      ≡ writes sio
other-order sio i size e =
    rw
      (
        set_size-pick sio i size (sio.user_port ++ (i ∷ [])),
        set_size-pick sio i size sio.msg_port,
        pick-other sio.msgs sio.user_port i e,
      )
      refl

pub first_read-Ordered :
    (sio : Sockio) (i size : ℕ) (is : List ℕ)
    → sio.recv_list ≡ i ∷ is
    → Typed sio
    → Ordered sio (reply_msg (record (set_size sio i size) { recv_list = is }) i)
first_read-Ordered sio i size is e t = record {
  order = other-order sio i size (t.reads i (ground (arith, ap (count i) e)));
  typed = record {
    sends = λ j n. set_size-type sio i size j ∙ t.sends j n;
    reads = λ j n. set_size-type sio i size j ∙ t.reads j (ground (arith, n, ap (count j) e));
    waits = λ j n. set_size-type sio i size j ∙ t.waits j n;
  };
}

flush_recvs-Ordered :
    (is : List ℕ) (sio : Sockio) → sio.recv_list ≡ is → Typed sio → Ordered sio (flush_recvs is sio)
unfolding flush_recvs
flush_recvs-Ordered [] sio e t = same-Ordered sio t
flush_recvs-Ordered (i ∷ is) sio e t =
    let one = first_read-Ordered sio i 0 is e t in
    Ordered-trans sio (reply_msg (record (set_size sio i 0) { recv_list = is }) i) one
      (flush_recvs-Ordered is _ refl one.typed)

flush_wait-Ordered :
    (sio : Sockio) (i : ℕ) (is : List ℕ) (th : Timer)
    → sio.wait_list ≡ i ∷ is
    → Typed sio
    → Ordered sio (reply_msg (record (set_size sio i 0) { timer = th; wait_list = is }) i)
flush_wait-Ordered sio i is th e t = record {
  order = other-order sio i 0 (t.waits i (ground (arith, ap (count i) e)));
  typed = record {
    sends = λ j n. set_size-type sio i 0 j ∙ t.sends j n;
    reads = λ j n. set_size-type sio i 0 j ∙ t.reads j n;
    waits = λ j n. set_size-type sio i 0 j ∙ t.waits j (ground (arith, n, ap (count j) e));
  };
}

flush_waits-Ordered :
    (is : List ℕ) (sio : Sockio) → sio.wait_list ≡ is → Typed sio → Ordered sio (flush_waits is sio)
unfolding flush_waits
flush_waits-Ordered [] sio e t = same-Ordered sio t
flush_waits-Ordered (i ∷ is) sio e t =
    let th = timer_stop sio.timer (job_of (sio.msgs i)) in
    let one = flush_wait-Ordered sio i is th e t in
    Ordered-trans sio (reply_msg (record (set_size sio i 0) { timer = th; wait_list = is }) i) one
      (flush_waits-Ordered is _ refl one.typed)

-- The first write goes to the user.
pub first_write-Ordered :
    (sio : Sockio) (i : ℕ) (is : List ℕ)
    → sio.send_list ≡ i ∷ is
    → Typed sio
    → Ordered sio (reply_msg (record sio { send_list = is }) i)
first_write-Ordered sio i is e t = record {
  order =
      rw (pick-write sio.msgs sio.user_port i (t.sends i (ground (arith, ap (count i) e))), e)
        (append_assoc (pick sio.msgs sio.user_port) (i ∷ []) (is ++ pick sio.msgs sio.msg_port));
  typed = record {
    sends = λ j n. t.sends j (ground (arith, n, ap (count j) e));
    reads = t.reads;
    waits = t.waits;
  };
}

flush_sends-Ordered :
    (is : List ℕ) (sio : Sockio) → sio.send_list ≡ is → Typed sio → Ordered sio (flush_sends is sio)
unfolding flush_sends
flush_sends-Ordered [] sio e t = same-Ordered sio t
flush_sends-Ordered (i ∷ is) sio e t =
    let one = first_write-Ordered sio i is e t in
    Ordered-trans sio (reply_msg (record sio { send_list = is }) i) one
      (flush_sends-Ordered is _ refl one.typed)

pub sockio_flush_recv-Ordered : (sio : Sockio) → Typed sio → Ordered sio (sockio_flush_recv sio)
unfolding sockio_flush_recv
sockio_flush_recv-Ordered sio t =
    let sio1 = flush_recvs sio.recv_list sio in
    let one = flush_recvs-Ordered sio.recv_list sio refl t in
    Ordered-trans sio sio1 one (flush_waits-Ordered sio1.wait_list sio1 refl one.typed)

pub sockio_flush-Ordered : (sio : Sockio) → Typed sio → Ordered sio (sockio_flush sio)
unfolding sockio_flush sockio_flush_send
sockio_flush-Ordered sio t =
    let sio1 = flush_sends sio.send_list sio in
    let one = flush_sends-Ordered sio.send_list sio refl t in
    Ordered-trans sio sio1 one (sockio_flush_recv-Ordered sio1 one.typed)
