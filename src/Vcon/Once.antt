-- ===== src/Vcon/Once.antt =====
-- Every step of a console in use keeps the books: messages stay in exactly one place each, and
-- every packet is answered once.
use rcli.Common.{
  ℕ, ◌+◌, ◌≡◌, refl, ap, ◌∙◌, inl, inr, Option, none, some, List, [], ◌∷◌, ◌++◌, arith, ◌==◌,
  update, count, count-append, Bool-cases, bit_and,
}
use rcli.Vcon.{Vcon, VconMsg, MsgType, DosPacket, reply_pkt, free_vmsg}
use rcli.Vcon.Packets.{handle_dos_pkt}
use rcli.Vcon.Signals.{
  Results, reply_if, reply_results, handle_vmsg_reply, handle_pkts, handle_replies, on_mask,
  vcon_handle_sigmask,
}
use rcli.Vcon.Books.{
  owes, owed, queued, replied-append, owed-update_private, places, answers_for, Distinct,
}
use rcli.Vcon.Handled.{handle_dos_pkt-Handled}

-- What every step keeps: the places of each message, and for each packet the number of its copies
-- in the port and of its answers, sent or still to come.
pub record Kept (held : List ℕ) (sh sh' : Vcon) : Type 0 where
  pub placed : (m : ℕ) → places sh' held m ≡ places sh held m
  pub owing :
      (p : ℕ)
      → queued p sh'.pkt_port + answers_for sh' held p
        ≡ queued p sh.pkt_port + answers_for sh held p

Kept-trans : {held : List ℕ} {a b c : Vcon} → Kept held a b → Kept held b c → Kept held a c
Kept-trans h k = record {
  placed = λ m. k.placed m ∙ h.placed m;
  owing = λ p. k.owing p ∙ h.owing p;
}

Kept-Distinct : {held : List ℕ} {a b : Vcon} → Kept held a b → Distinct a held → Distinct b held
Kept-Distinct h v = λ m. omega (arith, v m, h.placed m)

handle_pkts-Kept :
    (held : List ℕ) (pkts : List DosPacket) (sh : Vcon)
    → sh.pkt_port ≡ pkts
    → Distinct sh held
    → Kept held sh (handle_pkts pkts sh)
unfolding handle_pkts
handle_pkts-Kept held [] sh e v = record { placed = λ m. refl; owing = λ p. rw e }
handle_pkts-Kept held (pkt ∷ pkts) sh e v =
    let rest = record sh { pkt_port = pkts } in
    let h = handle_dos_pkt-Handled held rest pkt v in
    let one : Kept held sh (handle_dos_pkt rest pkt) = record {
      placed = h.kept;
      owing = λ p. omega (arith, ap (queued p) e, ap (queued p) h.port, h.answered p);
    } in
    Kept-trans one
      (handle_pkts-Kept held pkts (handle_dos_pkt rest pkt) h.port (Kept-Distinct one v))

-- The message that comes back is freed, and its packet, if it has one, is answered now.
module _ (held : List ℕ) (i : ℕ) (is : List ℕ) (sh : Vcon) (e : sh.vmsg_port ≡ i ∷ is) where
  freed_places :
      (m : ℕ)
      → count m (sh.free_vmsg_list ++ (i ∷ [])) + count m sh.user_port + count m is + count m held
        ≡ places sh held m
  freed_places m = omega (arith, count-append m sh.free_vmsg_list (i ∷ []), ap (count m) e)

  freed_owed :
      (p : ℕ) (v : VconMsg)
      → v.private ≡ (sh.vmsgs i).private
      → let f = update sh.vmsgs i v in
        owes p v.private + (owed p f sh.user_port + owed p f is + owed p f held)
        ≡ owed p sh.vmsgs sh.user_port + owed p sh.vmsgs sh.vmsg_port + owed p sh.vmsgs held
  freed_owed p v same = omega (
    arith,
    owed-update_private p i v sh.vmsgs sh.user_port same,
    owed-update_private p i v sh.vmsgs is same,
    owed-update_private p i v sh.vmsgs held same,
    ap (owed p sh.vmsgs) e,
    ap (owes p) same,
  )

  release-Kept :
      (o : Option ℕ) (r : Results)
      → (sh.vmsgs i).private ≡ o
      → Kept held sh (free_vmsg (reply_if (record sh { vmsg_port = is }) o r) i)
  unfolding free_vmsg reply_pkt
  release-Kept none r h = record {
    placed = freed_places;
    owing = λ p.
        omega
          (arith, freed_owed p (record (sh.vmsgs i) { type = MsgType.free }) refl, ap (owes p) h);
  }
  release-Kept (some pkt) r h = record {
    placed = freed_places;
    owing = λ p. omega (
      arith,
      freed_owed p (record (sh.vmsgs i) { type = MsgType.free }) refl,
      ap (owes p) h,
      replied-append p sh.replies (record { pkt = pkt; res1 = r.0; res2 = r.1 } ∷ []),
    );
  }

  handle_vmsg_reply-Kept : Kept held sh (handle_vmsg_reply (record sh { vmsg_port = is }) i)
  unfolding handle_vmsg_reply
  handle_vmsg_reply-Kept =
      release-Kept (sh.vmsgs i).private (reply_results (sh.vmsgs i) (sh.vmsgs i).type) refl

vmsg_port-reply_if :
    (sh : Vcon) (o : Option ℕ) (r : Results) → (reply_if sh o r).vmsg_port ≡ sh.vmsg_port
unfolding reply_pkt
vmsg_port-reply_if sh none r = refl
vmsg_port-reply_if sh (some a) r = refl

pub vmsg_port-handle_vmsg_reply :
    (sh : Vcon) (i : ℕ) → (handle_vmsg_reply sh i).vmsg_port ≡ sh.vmsg_port
unfolding handle_vmsg_reply free_vmsg
vmsg_port-handle_vmsg_reply sh i =
    vmsg_port-reply_if sh (sh.vmsgs i).private (reply_results (sh.vmsgs i) (sh.vmsgs i).type)

handle_replies-Kept :
    (held is : List ℕ) (sh : Vcon) → sh.vmsg_port ≡ is → Kept held sh (handle_replies is sh)
unfolding handle_replies
handle_replies-Kept held [] sh e = record { placed = λ m. rw e; owing = λ p. rw e }
handle_replies-Kept held (i ∷ is) sh e =
    Kept-trans (handle_vmsg_reply-Kept held i is sh e)
      (handle_replies-Kept held is _ (vmsg_port-handle_vmsg_reply (record sh { vmsg_port = is }) i))

on_mask-Kept :
    (held : List ℕ) (got bit : ℕ) (f : Vcon → Vcon) (sh : Vcon)
    → Kept held sh (f sh)
    → Kept held sh (on_mask got bit f sh)
on_mask-Kept held got bit f sh h = elim (Bool-cases (bit_and got bit == 0)) [
  | inl e ↦ rw e (record { placed = λ m. refl; owing = λ p. refl })
  | inr e ↦ rw e h
]

pub vcon_handle_sigmask-Kept :
    (held : List ℕ) (mask : ℕ) (sh : Vcon)
    → Distinct sh held
    → Kept held sh (vcon_handle_sigmask sh mask).0
unfolding vcon_handle_sigmask
vcon_handle_sigmask-Kept held mask sh v =
    let sh1 = on_mask mask sh.pkt_sigmask (λ s. handle_pkts s.pkt_port s) sh in
    Kept-trans
      (on_mask-Kept held mask sh.pkt_sigmask (λ s. handle_pkts s.pkt_port s) sh
        (handle_pkts-Kept held sh.pkt_port sh refl v))
      (on_mask-Kept held mask sh1.vmsg_sigmask (λ s. handle_replies s.vmsg_port s) sh1
        (handle_replies-Kept held sh1.vmsg_port sh1 refl))
