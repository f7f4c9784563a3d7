-- ===== src/Vcon/Drained.antt =====
-- The two loops of `vcon_handle_sigmask` over message ports end.
use rcli.Common.{
  ℕ, suc, ◌≡◌, refl, ap, sym, subst, ◌∙◌, Option, none, some, List, [], ◌∷◌, arith, length,
  while_get, while_get-ends, false, bit_and, ◌==◌, Bool-cases, inl, inr,
}
use rcli.Vcon.{free_vmsg, Vcon, MsgType, State, Action, DosPacket, alloc_vmsg, reply_pkt}
use rcli.Vcon.Packets.{
  Outcome, reply, defer, lend, on_open, post_end, on_end, on_change_signal, on_screen_mode,
  on_disk_info, on_write, on_read, on_wait_char, dispatch, settle, handle_dos_pkt, screen_mode_of,
  with_write_port, with_read_port,
}
use rcli.Vcon.Signals.{
  Results, reply_if, reply_results, vcon_handle_sigmask, on_mask, handle_pkts, handle_replies,
  handle_vmsg_reply,
}
use rcli.Vcon.Once.{vmsg_port-handle_vmsg_reply}

-- What the outcome leaves in the packet port.
abbrev left : Outcome → List DosPacket
left (reply sh res1 res2) = sh.pkt_port
left (defer sh) = sh.pkt_port

settle-left : (pkt : DosPacket) (o : Outcome) → (settle pkt o).pkt_port ≡ left o
unfolding settle reply_pkt
settle-left pkt (reply sh res1 res2) = refl
settle-left pkt (defer sh) = refl

lend-left :
    (sh : Vcon) (pkt : DosPacket) (type : MsgType) (d n : ℕ) (failed : State)
    → left (lend sh pkt type d n failed) ≡ sh.pkt_port
unfolding lend alloc_vmsg
lend-left sh pkt type d n failed = ground arith

end-left : (sh : Vcon) → left (on_end sh) ≡ sh.pkt_port
unfolding on_end post_end alloc_vmsg
end-left sh = ground arith

dispatch-left : (a : Action) (sh : Vcon) (pkt : DosPacket) → left (dispatch a sh pkt) ≡ sh.pkt_port
unfolding dispatch on_open on_change_signal on_screen_mode on_disk_info on_write on_read
    on_wait_char
dispatch-left Action.findinput sh pkt = refl
dispatch-left Action.findoutput sh pkt = refl
dispatch-left Action.findupdate sh pkt = refl
dispatch-left Action.change_signal sh pkt = refl
dispatch-left Action.disk_info sh pkt = refl
dispatch-left Action.end sh pkt = end-left sh
dispatch-left Action.screen_mode sh pkt =
    lend-left (screen_mode_of sh pkt) pkt MsgType.buffer_mode 0 0 sh.state
dispatch-left Action.write sh pkt = ground (
  arith,
  lend-left (with_write_port pkt sh) pkt MsgType.write pkt.dp_arg2 pkt.dp_arg3 State.error,
)
dispatch-left Action.read sh pkt =
    ground (
      arith,
      lend-left (with_read_port pkt sh) pkt MsgType.read pkt.dp_arg2 pkt.dp_arg3 State.error,
    )
dispatch-left Action.wait_char sh pkt =
    ground (arith, lend-left sh pkt MsgType.wait_char 0 pkt.dp_arg1 State.error)
dispatch-left _ sh pkt = refl

pkt_port-handle_dos_pkt :
    (sh : Vcon) (pkt : DosPacket) → (handle_dos_pkt sh pkt).pkt_port ≡ sh.pkt_port
unfolding handle_dos_pkt
pkt_port-handle_dos_pkt sh pkt =
    settle-left pkt (dispatch pkt.dp_type sh pkt) ∙ dispatch-left pkt.dp_type sh pkt

abbrev pub get_pkt : DosPacket → List DosPacket → Vcon → Vcon
get_pkt pkt rest sh = handle_dos_pkt (record sh { pkt_port = rest }) pkt

abbrev pub get_reply : ℕ → List ℕ → Vcon → Vcon
get_reply i rest sh = handle_vmsg_reply (record sh { vmsg_port = rest }) i

-- Whatever stands in the packet port and in the port of replies, the loops that ask their port again
-- for each message end one round after as many as the port holds, the port is empty then, and the
-- console is what one pass over the messages held at the start makes of it: handling a message puts
-- none to the port that it came from.
pub handle_pkts-handle_replies :
    (sh : Vcon)
    → ((while_get (λ s. s.pkt_port) get_pkt (suc (length sh.pkt_port)) sh
          ≡ some (handle_pkts sh.pkt_port sh))
        × ((handle_pkts sh.pkt_port sh).pkt_port ≡ []))
      × ((while_get (λ s. s.vmsg_port) get_reply (suc (length sh.vmsg_port)) sh
            ≡ some (handle_replies sh.vmsg_port sh))
          × ((handle_replies sh.vmsg_port sh).vmsg_port ≡ []))
unfolding handle_pkts handle_replies
handle_pkts-handle_replies sh = (
  while_get-ends (λ s. s.pkt_port) get_pkt (λ pkts. Unit {0}) handle_pkts (λ pkt rest h. tt)
      (λ pkt rest s h. pkt_port-handle_dos_pkt (record s { pkt_port = rest }) pkt)
      (λ s e. ap (λ p. record s { pkt_port = p }) (sym e)) (λ pkt rest s e. refl) sh.pkt_port sh tt
      refl,
  while_get-ends (λ s. s.vmsg_port) get_reply (λ is. Unit {0}) handle_replies (λ i rest h. tt)
      (λ i rest s h. vmsg_port-handle_vmsg_reply (record s { vmsg_port = rest }) i)
      (λ s e. ap (λ p. record s { vmsg_port = p }) (sym e)) (λ i rest s e. refl) sh.vmsg_port sh tt
      refl,
)

-- The other two ports, as the loop over replies leaves them.
abbrev SamePorts : Vcon → Vcon → Type 0
SamePorts a b = (b.pkt_port ≡ a.pkt_port) × (b.user_port ≡ a.user_port)

reply_if-SamePorts : (sh : Vcon) (o : Option ℕ) (r : Results) → SamePorts sh (reply_if sh o r)
unfolding reply_pkt
reply_if-SamePorts sh none r = (refl, refl)
reply_if-SamePorts sh (some a) r = (refl, refl)

handle_replies-SamePorts : (is : List ℕ) (sh : Vcon) → SamePorts sh (handle_replies is sh)
unfolding handle_replies handle_vmsg_reply free_vmsg
handle_replies-SamePorts [] sh = (refl, refl)
handle_replies-SamePorts (i ∷ is) sh =
    let (p, u) =
      reply_if-SamePorts (record sh { vmsg_port = is }) (sh.vmsgs i).private
        (reply_results (sh.vmsgs i) (sh.vmsgs i).type) in
    let (p', u') =
      handle_replies-SamePorts is (handle_vmsg_reply (record sh { vmsg_port = is }) i) in
    (p' ∙ p, u' ∙ u)

-- Where the packet signal came, no packet waits any more.
pub sigmask-pkt_port :
    (sh : Vcon) (got : ℕ)
    → (bit_and got sh.pkt_sigmask == 0) ≡ false
    → (vcon_handle_sigmask sh got).0.pkt_port ≡ []
unfolding vcon_handle_sigmask
sigmask-pkt_port sh got e =
    let sh1 = handle_pkts sh.pkt_port sh in
    let ((loop, empty), replies) = handle_pkts-handle_replies sh in
    let (p, u) = handle_replies-SamePorts sh1.vmsg_port sh1 in
    rw e (elim (Bool-cases (bit_and got sh1.vmsg_sigmask == 0)) [
      | inl f ↦ rw f empty
      | inr f ↦ rw f (p ∙ empty)
    ])

handle_pkts-none : (sh : Vcon) → sh.pkt_port ≡ [] → handle_pkts sh.pkt_port sh ≡ sh
unfolding handle_pkts
handle_pkts-none sh e = ap (λ p. handle_pkts p sh) e ∙ ap (λ p. record sh { pkt_port = p }) (sym e)

-- Where no packet waits and the signal of replies came, no reply waits any more, and the user's
-- port is left alone.
pub sigmask-vmsg_port :
    (sh : Vcon) (got : ℕ)
    → sh.pkt_port ≡ []
    → (bit_and got sh.vmsg_sigmask == 0) ≡ false
    → let v = (vcon_handle_sigmask sh got).0 in
      (v.pkt_port ≡ []) × (v.vmsg_port ≡ []) × (v.user_port ≡ sh.user_port)
unfolding vcon_handle_sigmask
sigmask-vmsg_port sh got e f =
    let (pkts, (loop, empty)) = handle_pkts-handle_replies sh in
    let (p, u) = handle_replies-SamePorts sh.vmsg_port sh in
    elim (Bool-cases (bit_and got sh.pkt_sigmask == 0)) [
      | inl g ↦ rw (g, f) (p ∙ e, empty, u)
      | inr g ↦ rw g (
          subst
            (λ (s : Vcon).
              let v = on_mask got s.vmsg_sigmask (λ x. handle_replies x.vmsg_port x) s in
              (v.pkt_port ≡ []) × (v.vmsg_port ≡ []) × (v.user_port ≡ sh.user_port))
            (sym (handle_pkts-none sh e)) (rw f (p ∙ e, empty, u)))
    ]
