-- ===== src/Vcon/Handled.antt =====
-- One DOS packet or one client reply, and what it does to the books of the console.
use rcli.Common.{
  ℕ, ◌+◌, ◌≡◌, refl, Option, none, some, List, [], ◌∷◌, ◌++◌, arith, ◌==◌, if◌then◌else◌, update,
  count, count-append, Bool, true, false, ap, Bool-cases, inl, inr, ◌∙◌, ◌-◌, ◌%◌, ◌^◌,
}
use rcli.Vcon.{Vcon, VconMsg, MsgType, State, Action, DosPacket, alloc_vmsg, reply_pkt, is_flush}
use rcli.Vcon.Packets.{
  reply, lend, on_open, post_end, on_end, on_change_signal, on_screen_mode, on_disk_info, on_write,
  on_read, on_wait_char, dispatch, settle, handle_dos_pkt, screen_mode_of, with_write_port,
  with_read_port,
}
use rcli.Vcon.Books.{
  owes, owed, owed-append, replied-append, owed-update, places, answers_for, Distinct,
}

-- The messages keep their number of places, packet `p` gets `gain` answers more, and the packet
-- port is left alone.
pub record Handled (held : List ℕ) (sh sh' : Vcon) (gain : ℕ → ℕ) : Type 0 where
  pub kept : (m : ℕ) → places sh' held m ≡ places sh held m
  pub answered : (p : ℕ) → answers_for sh' held p ≡ answers_for sh held p + gain p
  pub port : sh'.pkt_port ≡ sh.pkt_port
  pub masks : sh'.vmsg_sigmask ≡ sh.vmsg_sigmask

abbrev pub one : ℕ → ℕ → ℕ
one a p = if a == p then 1 else 0

abbrev lent_msg : Vcon → MsgType → ℕ → ℕ → Option ℕ → VconMsg
lent_msg sh type d n private = record {
  private = private;
  buf_data = d;
  size = n;
  type = type;
  buffer_mode = sh.buffer_mode;
}

-- The two ways in which `alloc_vmsg` ends.
alloc_vmsg-none :
    (sh : Vcon) (type : MsgType) (d n : ℕ) (private : Option ℕ)
    → sh.free_vmsg_list ≡ []
    → alloc_vmsg sh type d n private ≡ none
unfolding alloc_vmsg
alloc_vmsg-none sh type d n private e = rw (e, alloc_vmsg)

alloc_vmsg-some :
    (sh : Vcon) (type : MsgType) (d n : ℕ) (private : Option ℕ) {i : ℕ} {rest : List ℕ}
    → sh.free_vmsg_list ≡ i ∷ rest
    → alloc_vmsg sh type d n private
      ≡ some (
        i,
        record sh {
          free_vmsg_list = rest;
          vmsgs = update sh.vmsgs i (lent_msg sh type d n private);
        },
      )
unfolding alloc_vmsg
alloc_vmsg-some sh type d n private e = rw (e, alloc_vmsg)

module _ (held : List ℕ) where
  -- A reply alone, after changes that the books do not see.
  reply-Handled :
      (sh sh' : Vcon) (pkt res1 res2 : ℕ)
      → ((m : ℕ) → places sh' held m ≡ places sh held m)
      → ((p : ℕ) → answers_for sh' held p ≡ answers_for sh held p)
      → sh'.pkt_port ≡ sh.pkt_port
      → sh'.vmsg_sigmask ≡ sh.vmsg_sigmask
      → Handled held sh (reply_pkt sh' pkt res1 res2) (one pkt)
  unfolding reply_pkt
  reply-Handled sh sh' pkt res1 res2 kept answered port masks = record {
    kept = kept;
    answered = λ p. omega (
      arith,
      answered p,
      replied-append p sh'.replies (record { pkt = pkt; res1 = res1; res2 = res2 } ∷ []),
    );
    port = port;
    masks = masks;
  }

  -- Two handles that differ in other fields only.
  abbrev SameBooks : Vcon → Vcon → Type 0
  SameBooks sh sh' =
      (sh'.free_vmsg_list ≡ sh.free_vmsg_list)
      × (sh'.user_port ≡ sh.user_port)
      × (sh'.vmsg_port ≡ sh.vmsg_port)
      × (sh'.vmsgs ≡ sh.vmsgs)
      × (sh'.replies ≡ sh.replies)
      × (sh'.pkt_port ≡ sh.pkt_port)
      × (sh'.vmsg_sigmask ≡ sh.vmsg_sigmask)

  same-Handled :
      (sh sh' : Vcon) (pkt res1 res2 : ℕ)
      → SameBooks sh sh'
      → Handled held sh (reply_pkt sh' pkt res1 res2) (one pkt)
  same-Handled sh sh' pkt res1 res2 (a, b, c, d, e, port, masks) =
      reply-Handled sh sh' pkt res1 res2 (λ m. rw (a, b, c)) (λ p. rw (b, c, d, e)) port masks

  from-Handled :
      (sh sh' : Vcon) {t : Vcon} {gain : ℕ → ℕ}
      → SameBooks sh sh'
      → Handled held sh' t gain
      → Handled held sh t gain
  from-Handled sh sh' (a, b, c, d, e, port, masks) h = record {
    kept = λ m. h.kept m ∙ rw (a, b, c);
    answered = λ p. h.answered p ∙ rw (b, c, d, e);
    port = h.port ∙ port;
    masks = h.masks ∙ masks;
  }

  -- A message from the head of the free list goes to the client. It stands for `private`.
  module _ (sh : Vcon) (i : ℕ) (rest : List ℕ) (e : sh.free_vmsg_list ≡ i ∷ rest) where
    lent-apart :
        Distinct sh held
        → (count i sh.user_port ≡ 0) × (count i sh.vmsg_port ≡ 0) × (count i held ≡ 0)
    lent-apart v = ground (arith, v i, ap (count i) e)

    lent-kept :
        (m : ℕ)
        → count m rest + count m (sh.user_port ++ (i ∷ [])) + count m sh.vmsg_port + count m held
          ≡ places sh held m
    lent-kept m = omega (arith, count-append m sh.user_port (i ∷ []), ap (count m) e)

    lent-answered :
        (vmsg : VconMsg) (p : ℕ)
        → Distinct sh held
        → let f = update sh.vmsgs i vmsg in
          owed p f (sh.user_port ++ (i ∷ [])) + owed p f sh.vmsg_port + owed p f held
          ≡ owed p sh.vmsgs sh.user_port
            + owed p sh.vmsgs sh.vmsg_port
            + owed p sh.vmsgs held
            + owes p vmsg.private
    lent-answered vmsg p v =
        let (a, b, c) = lent-apart v in
        ground (
          arith,
          owed-append p (update sh.vmsgs i vmsg) sh.user_port (i ∷ []),
          owed-update p i vmsg sh.vmsgs sh.user_port a,
          owed-update p i vmsg sh.vmsgs sh.vmsg_port b,
          owed-update p i vmsg sh.vmsgs held c,
        )

  lend-Handled :
      (sh : Vcon) (free : List ℕ) (pkt : DosPacket) (type : MsgType) (d n : ℕ) (failed : State)
      → sh.free_vmsg_list ≡ free
      → Distinct sh held
      → Handled held sh (settle pkt (lend sh pkt type d n failed)) (one pkt.address)
  unfolding lend settle
  lend-Handled sh [] pkt type d n failed e v =
      rw (alloc_vmsg-none sh type d n (some pkt.address) e, lend)
        (same-Handled sh (record sh { state = failed }) pkt.address _ _
          (refl, refl, refl, refl, refl, refl, refl))
  lend-Handled sh (i ∷ rest) pkt type d n failed e v =
      rw (alloc_vmsg-some sh type d n (some pkt.address) e, lend)
        (record {
          kept = lent-kept sh i rest e;
          answered = λ p.
              omega
                (arith, lent-answered sh i rest e (lent_msg sh type d n (some pkt.address)) p v);
          port = refl;
          masks = refl;
        })

  post_end-Handled :
      (sh : Vcon) (free : List ℕ) (pkt : DosPacket)
      → sh.free_vmsg_list ≡ free
      → Distinct sh held
      → Handled held sh (settle pkt (post_end sh)) (one pkt.address)
  unfolding post_end settle
  post_end-Handled sh [] pkt e v =
      rw (alloc_vmsg-none sh MsgType.end 0 0 none e, post_end)
        (same-Handled sh sh pkt.address _ _ (refl, refl, refl, refl, refl, refl, refl))
  post_end-Handled sh (i ∷ rest) pkt e v =
      rw (alloc_vmsg-some sh MsgType.end 0 0 none e, post_end)
        (reply-Handled sh _ pkt.address _ _ (lent-kept sh i rest e)
          (λ p. omega (arith, lent-answered sh i rest e (lent_msg sh MsgType.end 0 0 none) p v))
          refl refl)

  on_end-Handled :
      (sh : Vcon) (pkt : DosPacket)
      → Distinct sh held
      → Handled held sh (settle pkt (on_end sh)) (one pkt.address)
  unfolding on_end settle
  on_end-Handled sh pkt v = elim (Bool-cases ((sh.open_cnt + 2 ^ 32 - 1) % 2 ^ 32 == 0)) [
    | inl e ↦ rw e (
        from-Handled sh _ (refl, refl, refl, refl, refl, refl, refl)
          (post_end-Handled
            (record sh { open_cnt = (sh.open_cnt + 2 ^ 32 - 1) % 2 ^ 32; state = State.close })
            sh.free_vmsg_list pkt refl v))
    | inr e ↦ rw e (same-Handled sh _ pkt.address _ _ (refl, refl, refl, refl, refl, refl, refl))
  ]

  -- A packet that the console flushes is answered at once, any other through a message.
  flush_or_lend-Handled :
      (b : Bool) (sh sh' : Vcon) (pkt : DosPacket) (type : MsgType) (d n res1 res2 : ℕ)
      → SameBooks sh sh'
      → Distinct sh' held
      → let o = if b then reply sh' res1 res2 else lend sh' pkt type d n State.error in
        Handled held sh (settle pkt o) (one pkt.address)
  unfolding settle
  flush_or_lend-Handled true sh sh' pkt type d n res1 res2 same v =
      same-Handled sh sh' pkt.address res1 res2 same
  flush_or_lend-Handled false sh sh' pkt type d n res1 res2 same v =
      from-Handled sh sh' same (lend-Handled sh' sh'.free_vmsg_list pkt type d n State.error refl v)

  dispatch-Handled :
      (a : Action) (sh : Vcon) (pkt : DosPacket)
      → Distinct sh held
      → Handled held sh (settle pkt (dispatch a sh pkt)) (one pkt.address)
  unfolding dispatch on_open on_change_signal on_screen_mode on_disk_info on_write on_read
      on_wait_char settle
  dispatch-Handled Action.findinput sh pkt v =
      same-Handled sh _ pkt.address _ _ (refl, refl, refl, refl, refl, refl, refl)
  dispatch-Handled Action.findoutput sh pkt v =
      same-Handled sh _ pkt.address _ _ (refl, refl, refl, refl, refl, refl, refl)
  dispatch-Handled Action.findupdate sh pkt v =
      same-Handled sh _ pkt.address _ _ (refl, refl, refl, refl, refl, refl, refl)
  dispatch-Handled Action.change_signal sh pkt v =
      same-Handled sh _ pkt.address _ _ (refl, refl, refl, refl, refl, refl, refl)
  dispatch-Handled Action.disk_info sh pkt v =
      same-Handled sh _ pkt.address _ _ (refl, refl, refl, refl, refl, refl, refl)
  dispatch-Handled Action.end sh pkt v = on_end-Handled sh pkt v
  dispatch-Handled Action.screen_mode sh pkt v =
      from-Handled sh (screen_mode_of sh pkt) (refl, refl, refl, refl, refl, refl, refl)
        (lend-Handled (screen_mode_of sh pkt) sh.free_vmsg_list pkt MsgType.buffer_mode 0 0 sh.state
          refl v)
  dispatch-Handled Action.write sh pkt v =
      flush_or_lend-Handled (is_flush sh.state) sh (with_write_port pkt sh) pkt MsgType.write
        pkt.dp_arg2 pkt.dp_arg3 pkt.dp_arg3 0 (refl, refl, refl, refl, refl, refl, refl) v
  dispatch-Handled Action.read sh pkt v =
      flush_or_lend-Handled (is_flush sh.state) sh (with_read_port pkt sh) pkt MsgType.read
        pkt.dp_arg2 pkt.dp_arg3 0 0 (refl, refl, refl, refl, refl, refl, refl) v
  dispatch-Handled Action.wait_char sh pkt v =
      flush_or_lend-Handled (is_flush sh.state) sh sh pkt MsgType.wait_char 0 pkt.dp_arg1 0 0
        (refl, refl, refl, refl, refl, refl, refl) v
  dispatch-Handled _ sh pkt v =
      same-Handled sh _ pkt.address _ _ (refl, refl, refl, refl, refl, refl, refl)

  -- A DOS packet gets exactly one answer: at once, or later through one message.
  pub handle_dos_pkt-Handled :
      (sh : Vcon) (pkt : DosPacket)
      → Distinct sh held
      → Handled held sh (handle_dos_pkt sh pkt) (one pkt.address)
  unfolding handle_dos_pkt
  handle_dos_pkt-Handled sh pkt v = dispatch-Handled pkt.dp_type sh pkt v
