-- ===== src/Rclid/Ledger/Quiet.antt =====
-- `main_loop` of rclid.c once the socket is gone and nothing is in flight: the socket has no part in
-- what the console asks.
use rcli.Common.{
  ℕ, ◌+◌, ◌≡◌, refl, ap, sym, subst, ◌∙◌, inl, inr, false, Option, none, List, [], ◌∷◌, arith, ◌&&◌,
  not, Bool-cases, Option-cases, count, count-append,
}
use rcli.Timer.{TimerAnswer}
use rcli.Vcon
use rcli.Vcon.{Vcon, vcon_get_sigmask}
use rcli.Sockio.{Sockio, MsgType, sockio_free_msg}
use rcli.Rclid.{ServData, HandleResult}
use rcli.Rclid.Console.{on_vcon_msg, handle_vcon_msg}
use rcli.Rclid.Socket.{on_sockio_msg, handle_sockio_msg}
use rcli.Rclid.Loop.{
  Loop, Masks, is_sockio_idle, has_signal, sockio_msgs, one_sockio_msg, do_sockio, after_vcon_msg,
  one_vcon_msg, vcon_msgs,
}
use rcli.Rclid.Cargo.{carried, user_of}
use rcli.Rclid.Ledger.{Stock, Sound}
use rcli.Rclid.Ledger.Moves.{in_hand}
use rcli.Rclid.Ledger.Messages.{take_msg-Sound}
use rcli.Rclid.Ledger.Answers.{handle_sockio_msg-Sound}
use rcli.Rclid.Ledger.Ports.{handle_sockio_msg-port}
use rcli.Rclid.Ledger.Rounds.{one_vcon_msg_data}

-- No socket message in flight carries a request.
abbrev pub Unused : Sockio → Type 0
Unused sio = (m : ℕ) → count m (carried sio) ≡ 0

-- A message that carries nothing is freed, and that is all.
handle_sockio_msg-freed :
    (type : MsgType) (task_of : ℕ → Option ℕ) (sd : ServData) (m : ℕ)
    → (sd.sockio.msgs m).type ≡ type
    → user_of sd.sockio m ≡ none
    → (handle_sockio_msg task_of sd m).1 ≡ record sd { sockio = sockio_free_msg sd.sockio m }
unfolding handle_sockio_msg on_sockio_msg
handle_sockio_msg-freed MsgType.recv task_of sd m t u = rw (handle_sockio_msg, t, u) refl
handle_sockio_msg-freed MsgType.send task_of sd m t u = rw (handle_sockio_msg, t, u) refl
handle_sockio_msg-freed MsgType.wait_char task_of sd m t u = rw (handle_sockio_msg, t, u) refl
handle_sockio_msg-freed MsgType.error task_of sd m t u = rw (handle_sockio_msg, t, u) refl
handle_sockio_msg-freed MsgType.free task_of sd m t u = rw (handle_sockio_msg, t, u) refl

-- The books say what is carried: the same as long as the console is the same.
pub Unused-same :
    {k : Stock} (a b : ServData)
    → b.vcon ≡ a.vcon
    → Sound k [] [] a
    → Sound k [] [] b
    → Unused a.sockio
    → Unused b.sockio
Unused-same a b e s t u m =
    let same =
      ap (λ (v : Vcon). count m v.free_vmsg_list + count m v.user_port + count m v.vmsg_port) e in
    omega (arith, s.book.placed m, t.book.placed m, u m, same)

module _ {k : Stock} (task_of : ℕ → Option ℕ) where
  unloaded :
      (m : ℕ) (rest : List ℕ) (sd : ServData)
      → sd.sockio.user_port ≡ m ∷ rest
      → Sound k [] [] sd
      → Unused sd.sockio
      → user_of sd.sockio m ≡ none
  unloaded m rest sd e s u = elim (Option-cases (user_of sd.sockio m)) [
    | inl n ↦ n
    | inr (i, n) ↦
        let t = take_msg-Sound sd m rest e s in
        absurd (
          ground (
            arith,
            s.book.placed i,
            t.book.placed i,
            u i,
            count-append i (in_hand (user_of sd.sockio m))
                (carried (record (sd.sockio) { user_port = rest })),
            ap (λ o. count i (in_hand o)) n,
          ))
  ]

  sockio_msgs-vcon :
      (ms : List ℕ) (l : Loop)
      → l.sd.sockio.user_port ≡ ms
      → Sound k [] [] l.sd
      → Unused l.sd.sockio
      → (sockio_msgs task_of ms l).sd.vcon ≡ l.sd.vcon
  unfolding sockio_msgs
  sockio_msgs-vcon [] l e s u = refl
  sockio_msgs-vcon (m ∷ ms) l e s u =
      let taken = record (l.sd) { sockio = record (l.sd.sockio) { user_port = ms } } in
      let l1 = one_sockio_msg task_of m ms l in
      let same =
        ap (λ sd. sd.vcon)
          (handle_sockio_msg-freed (taken.sockio.msgs m).type task_of taken m refl
            (unloaded m ms l.sd e s u)) in
      let next = handle_sockio_msg-Sound task_of taken m (take_msg-Sound l.sd m ms e s) in
      sockio_msgs-vcon ms l1 (handle_sockio_msg-port task_of taken m) next
        (Unused-same l.sd l1.sd same s next u)
      ∙ same

pub do_sockio-vcon :
    {k : Stock} (masks : Masks) (got : ℕ) (l : Loop)
    → Sound k [] [] l.sd
    → Unused l.sd.sockio
    → (do_sockio masks got l).sd.vcon ≡ l.sd.vcon
unfolding do_sockio
do_sockio-vcon masks got l s u =
    let l1 = sockio_msgs masks.task_of l.sd.sockio.user_port l in
    let same = sockio_msgs-vcon masks.task_of l.sd.sockio.user_port l refl s u in
    elim (Bool-cases (has_signal masks.sport_mask got)) [
      | inl e ↦ elim (Bool-cases (is_sockio_idle l1.sd.sockio && not l1.vcon_active)) [
        | inl d ↦ rw (e, d) same
        | inr d ↦ rw (e, d) same
      ]
      | inr e ↦ rw e refl
    ]

-- What the console's requests leave alone while the socket is inactive.
pub record Apart (a b : ServData) : Type 0 where
  pub sockio : b.sockio ≡ a.sockio
  pub pkt_port : b.vcon.pkt_port ≡ a.vcon.pkt_port

request-Apart :
    (type : Vcon.MsgType) (sd : ServData) (i : ℕ) (answer : TimerAnswer)
    → Apart sd (on_vcon_msg type sd i false answer).sd
unfolding on_vcon_msg
request-Apart Vcon.MsgType.write sd i answer = record { sockio = refl; pkt_port = refl }
request-Apart Vcon.MsgType.read sd i answer = record { sockio = refl; pkt_port = refl }
request-Apart Vcon.MsgType.wait_char sd i answer = record { sockio = refl; pkt_port = refl }
request-Apart Vcon.MsgType.buffer_mode sd i answer = record { sockio = refl; pkt_port = refl }
request-Apart _ sd i answer = record { sockio = refl; pkt_port = refl }

handle_vcon_msg-Apart :
    (sd : ServData) (i : ℕ) (answer : TimerAnswer) → Apart sd (handle_vcon_msg sd i false answer).1
unfolding handle_vcon_msg
handle_vcon_msg-Apart sd i answer =
    let h = on_vcon_msg (sd.vcon.vmsgs i).type sd i false answer in
    let a = request-Apart (sd.vcon.vmsgs i).type sd i answer in
    elim (Bool-cases h.reply) [
      | inl e ↦ rw e (record { sockio = a.sockio; pkt_port = a.pkt_port })
      | inr e ↦ rw e a
    ]

after_vcon_msg_inactive :
    (r : HandleResult) (l : Loop)
    → l.socket_active ≡ false
    → (after_vcon_msg r l).socket_active ≡ false
unfolding after_vcon_msg
after_vcon_msg_inactive HandleResult.end l e = ground (arith, e)
after_vcon_msg_inactive HandleResult.ok l e = e
after_vcon_msg_inactive HandleResult.error l e = e

one_vcon_msg_inactive :
    (answer : TimerAnswer) (i : ℕ) (rest : List ℕ) (l : Loop)
    → l.socket_active ≡ false
    → (one_vcon_msg answer i rest l).socket_active ≡ false
unfolding one_vcon_msg
one_vcon_msg_inactive answer i rest l e =
    let taken = record (l.sd) { vcon = record (l.sd.vcon) { user_port = rest } } in
    let h = handle_vcon_msg taken i l.socket_active answer in
    after_vcon_msg_inactive h.0 (record l { sd = h.1 }) e

module _ (answer : ℕ → TimerAnswer) where
  one_vcon_msg-Apart :
      (i : ℕ) (rest : List ℕ) (l : Loop)
      → l.socket_active ≡ false
      → Apart l.sd (one_vcon_msg (answer i) i rest l).sd
  one_vcon_msg-Apart i rest l e =
      let taken = record (l.sd) { vcon = record (l.sd.vcon) { user_port = rest } } in
      let a = handle_vcon_msg-Apart taken i (answer i) in
      let b : Apart l.sd (handle_vcon_msg taken i false (answer i)).1 = record {
        sockio = a.sockio;
        pkt_port = a.pkt_port;
      } in
      subst (λ x. Apart l.sd x) (sym (one_vcon_msg_data (answer i) i rest l))
        (subst (λ x. Apart l.sd (handle_vcon_msg taken i x (answer i)).1) (sym e) b)

  pub vcon_msgs-Apart :
      (is : List ℕ) (l : Loop)
      → l.socket_active ≡ false
      → Apart l.sd (vcon_msgs answer is l).sd × ((vcon_msgs answer is l).socket_active ≡ false)
  unfolding vcon_msgs
  vcon_msgs-Apart [] l e = (record { sockio = refl; pkt_port = refl }, e)
  vcon_msgs-Apart (i ∷ is) l e =
      let l1 = one_vcon_msg (answer i) i is l in
      let a = one_vcon_msg-Apart i is l e in
      let off : l1.socket_active ≡ false = one_vcon_msg_inactive (answer i) i is l e in
      let (b, f) = vcon_msgs-Apart is l1 off in
      (record { sockio = b.sockio ∙ a.sockio; pkt_port = b.pkt_port ∙ a.pkt_port }, f)
