-- ===== src/Sockio/Flush.antt =====
-- The flushes of sockio.c: every pending message goes back to the user, in order, and none stays.
use rcli.Common.{ℕ, ◌≡◌, refl, ap, ap₂, sym, ◌∙◌, List, [], ◌∷◌, ◌++◌, append-nil, append_assoc}
use rcli.Sockio.{Sockio}
use rcli.Sockio.Wait.{
  flush_recvs, flush_waits, flush_sends, sockio_flush, sockio_flush_recv, sockio_flush_send,
}

-- The lists of the handle after a flush that sends `is` to the user and leaves these lists.
record After (sio sio' : Sockio) (is recv send wait : List ℕ) : Type 0 where
  user : sio'.user_port ≡ sio.user_port ++ is
  reads : sio'.recv_list ≡ recv
  sends : sio'.send_list ≡ send
  waits : sio'.wait_list ≡ wait
  free : sio'.free_list ≡ sio.free_list
  port : sio'.msg_port ≡ sio.msg_port

-- One more message at the front.
After-cons :
    (sio : Sockio) {mid sio' : Sockio} (i : ℕ) (is recv send wait : List ℕ)
    → mid.user_port ≡ sio.user_port ++ (i ∷ [])
    → mid.free_list ≡ sio.free_list
    → mid.msg_port ≡ sio.msg_port
    → After mid sio' is recv send wait
    → After sio sio' (i ∷ is) recv send wait
After-cons sio i is recv send wait u f p a = record {
  user = a.user ∙ ap (λ l. l ++ is) u ∙ append_assoc sio.user_port (i ∷ []) is;
  reads = a.reads;
  sends = a.sends;
  waits = a.waits;
  free = a.free ∙ f;
  port = a.port ∙ p;
}

flush_recvs-After :
    (is : List ℕ) (sio : Sockio)
    → sio.recv_list ≡ is
    → After sio (flush_recvs is sio) is [] sio.send_list sio.wait_list
unfolding flush_recvs
flush_recvs-After [] sio e = record {
  user = sym (append-nil sio.user_port);
  reads = e;
  sends = refl;
  waits = refl;
  free = refl;
  port = refl;
}
flush_recvs-After (i ∷ is) sio e =
    After-cons sio i is [] sio.send_list sio.wait_list refl refl refl (flush_recvs-After is _ refl)

flush_waits-After :
    (is : List ℕ) (sio : Sockio)
    → sio.wait_list ≡ is
    → After sio (flush_waits is sio) is sio.recv_list sio.send_list []
unfolding flush_waits
flush_waits-After [] sio e = record {
  user = sym (append-nil sio.user_port);
  reads = refl;
  sends = refl;
  waits = e;
  free = refl;
  port = refl;
}
flush_waits-After (i ∷ is) sio e =
    After-cons sio i is sio.recv_list sio.send_list [] refl refl refl (flush_waits-After is _ refl)

flush_sends-After :
    (is : List ℕ) (sio : Sockio)
    → sio.send_list ≡ is
    → After sio (flush_sends is sio) is sio.recv_list [] sio.wait_list
unfolding flush_sends
flush_sends-After [] sio e = record {
  user = sym (append-nil sio.user_port);
  reads = refl;
  sends = e;
  waits = refl;
  free = refl;
  port = refl;
}
flush_sends-After (i ∷ is) sio e =
    After-cons sio i is sio.recv_list [] sio.wait_list refl refl refl (flush_sends-After is _ refl)

After-trans :
    {a b c : Sockio} {is js r1 s1 w1 r2 s2 w2 : List ℕ}
    → After a b is r1 s1 w1
    → After b c js r2 s2 w2
    → After a c (is ++ js) r2 s2 w2
After-trans {a} {is = is} {js = js} h k = record {
  user = k.user ∙ ap (λ l. l ++ js) h.user ∙ append_assoc a.user_port is js;
  reads = k.reads;
  sends = k.sends;
  waits = k.waits;
  free = k.free ∙ h.free;
  port = k.port ∙ h.port;
}

-- `sockio_flush` sends every pending send, read and wait back to the user, in this order and each
-- kind in the order of its list, leaves the three lists empty, and moves no other message.
pub sockio_flush-After :
    (sio : Sockio)
    → let sio' = sockio_flush sio in
      (sio'.user_port ≡ sio.user_port ++ (sio.send_list ++ (sio.recv_list ++ sio.wait_list)))
      × (sio'.recv_list ≡ [])
      × (sio'.send_list ≡ [])
      × (sio'.wait_list ≡ [])
      × (sio'.free_list ≡ sio.free_list)
      × (sio'.msg_port ≡ sio.msg_port)
unfolding sockio_flush sockio_flush_send sockio_flush_recv
sockio_flush-After sio =
    let a = flush_sends-After sio.send_list sio refl in
    let sio1 = flush_sends sio.send_list sio in
    let b = flush_recvs-After sio1.recv_list sio1 refl in
    let sio2 = flush_recvs sio1.recv_list sio1 in
    let c = flush_waits-After sio2.wait_list sio2 refl in
    let all = After-trans a (After-trans b c) in
    (
      all.user
          ∙ ap₂ (λ r w. sio.user_port ++ (sio.send_list ++ (r ++ w))) a.reads (b.waits ∙ a.waits),
      all.reads ∙ b.reads,
      all.sends ∙ b.sends ∙ a.sends,
      all.waits,
      all.free,
      all.port,
    )
