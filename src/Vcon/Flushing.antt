-- ===== src/Vcon/Flushing.antt =====
-- `vcon_flush` of vcon.c, and what becomes of a message that it has flushed.
use rcli.Common.{
  ℕ, zero, suc, ◌+◌, ◌≤◌, ◌<◌, ◌≡◌, ◌≢◌, refl, ap, ◌∙◌, inl, inr, false, some, arith, Bool-cases,
  dec_lt,
}
use rcli.Vcon.{Vcon, State, is_flush, reply_pkt, free_vmsg}
use rcli.Vcon.Packets.{address_or_null}
use rcli.Vcon.Signals.{flush_msg, flush_from, vcon_flush, handle_vmsg_reply, is_free}
use rcli.Vcon.Books.{replied, replied-append}

-- A round replies at most, and touches one message and the replies only.
flush_msg_other : (sh : Vcon) (i j : ℕ) → i ≢ j → (flush_msg sh i).vmsgs j ≡ sh.vmsgs j
unfolding flush_msg reply_pkt
flush_msg_other sh i j h = ground arith

flush_msg_private :
    (sh : Vcon) (i j : ℕ) → ((flush_msg sh i).vmsgs j).private ≡ (sh.vmsgs j).private
unfolding flush_msg reply_pkt
flush_msg_private sh i j = ground arith

flush_msg_grows : (sh : Vcon) (i p : ℕ) → replied p sh.replies ≤ replied p (flush_msg sh i).replies
unfolding flush_msg reply_pkt
flush_msg_grows sh i p = elim (Bool-cases (is_free (sh.vmsgs i).type)) [
  | inl e ↦ rw e (omega arith)
  | inr e ↦ rw e (omega (arith, replied-append p sh.replies))
]

flush_msg_replies :
    (sh : Vcon) (i p : ℕ)
    → is_free (sh.vmsgs i).type ≡ false
    → (sh.vmsgs i).private ≡ some p
    → replied p (flush_msg sh i).replies ≡ replied p sh.replies + 1
unfolding flush_msg reply_pkt
flush_msg_replies sh i p e h = rw (e, replied-append) (ground (arith, ap address_or_null h))

flush_from_private :
    (i n : ℕ) (sh : Vcon) (j : ℕ) → ((flush_from i n sh).vmsgs j).private ≡ (sh.vmsgs j).private
unfolding flush_from
flush_from_private i zero sh j = refl
flush_from_private i (suc n) sh j =
    flush_from_private (suc i) n (flush_msg sh i) j ∙ flush_msg_private sh i j

flush_from_grows :
    (i n : ℕ) (sh : Vcon) (p : ℕ) → replied p sh.replies ≤ replied p (flush_from i n sh).replies
unfolding flush_from
flush_from_grows i zero sh p = omega arith
flush_from_grows i (suc n) sh p =
    omega (arith, flush_msg_grows sh i p, flush_from_grows (suc i) n (flush_msg sh i) p)

flush_from_replies :
    (i n : ℕ) (sh : Vcon) (j p : ℕ)
    → i ≤ j
    → j < i + n
    → is_free (sh.vmsgs j).type ≡ false
    → (sh.vmsgs j).private ≡ some p
    → replied p sh.replies + 1 ≤ replied p (flush_from i n sh).replies
unfolding flush_from
flush_from_replies i zero sh j p a b e h = absurd (omega arith)
flush_from_replies i (suc n) sh j p a b e h = elim (dec_lt i j) [
  | yes later ↦
      let same = flush_msg_other sh i j (λ q. omega arith) in
      omega (
        arith,
        flush_msg_grows sh i p,
        flush_from_replies (suc i) n (flush_msg sh i) j p (omega arith) (omega arith) (rw same e)
            (rw same h),
      )
  | no here ↦
      let same : j ≡ i = omega arith in
      omega (
        arith,
        flush_msg_replies sh i p (rw same at e) (rw same at h),
        flush_from_grows (suc i) n (flush_msg sh i) p,
      )
]

handle_vmsg_reply_replies :
    (sh : Vcon) (j p : ℕ)
    → (sh.vmsgs j).private ≡ some p
    → replied p (handle_vmsg_reply sh j).replies ≡ replied p sh.replies + 1
unfolding handle_vmsg_reply free_vmsg reply_pkt
handle_vmsg_reply_replies sh j p h = rw (h, replied-append) (ground arith)

-- Before any flush, a message that is not free and stands for a packet has this packet answered by
-- the flush, and answered a second time when the client replies the message.
pub flush_answers_twice :
    (sh : Vcon) (j p : ℕ)
    → is_flush sh.state ≡ false
    → j < sh.max_msgs
    → is_free (sh.vmsgs j).type ≡ false
    → (sh.vmsgs j).private ≡ some p
    → replied p sh.replies + 2 ≤ replied p (handle_vmsg_reply (vcon_flush sh) j).replies
unfolding vcon_flush
flush_answers_twice sh j p running inside lent h =
    let flushed = record (flush_from 0 sh.max_msgs sh) { state = State.flush } in
    rw running (
      omega (
        arith,
        flush_from_replies 0 sh.max_msgs sh j p (omega arith) (omega arith) lent h,
        handle_vmsg_reply_replies flushed j p (flush_from_private 0 sh.max_msgs sh j ∙ h),
      ))
