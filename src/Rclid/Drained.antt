-- ===== src/Rclid/Drained.antt =====
-- The two loops of `main_loop` over message ports end.
use rcli.Common.{
  ℕ, suc, ◌≡◌, refl, ap, sym, ◌∙◌, Option, some, [], length, while_get, while_get-ends,
}
use rcli.Timer.{TimerAnswer}
use rcli.Rclid.Loop.{Loop, sockio_msgs, one_sockio_msg, vcon_msgs, one_vcon_msg}
use rcli.Rclid.Ledger.Ports.{handle_sockio_msg-port, handle_vcon_msg-port}
use rcli.Rclid.Ledger.Rounds.{one_vcon_msg_data}

-- With what comes back from the socket and what the console asks, whatever memory the timer gets:
-- the loops of `main_loop` that ask their port again for each message end one round after as many
-- as the port holds, the port is empty then, and the data are what one pass over the messages held at
-- the start makes of them.
pub sockio_msgs-vcon_msgs :
    (task_of : ℕ → Option ℕ) (answer : ℕ → TimerAnswer) (l : Loop)
    → ((while_get
            (λ x. x.sd.sockio.user_port)
            (one_sockio_msg task_of)
            (suc (length l.sd.sockio.user_port))
            l
          ≡ some (sockio_msgs task_of l.sd.sockio.user_port l))
        × ((sockio_msgs task_of l.sd.sockio.user_port l).sd.sockio.user_port ≡ []))
      × ((while_get
              (λ x. x.sd.vcon.user_port)
              (λ i. one_vcon_msg (answer i) i)
              (suc (length l.sd.vcon.user_port))
              l
            ≡ some (vcon_msgs answer l.sd.vcon.user_port l))
          × ((vcon_msgs answer l.sd.vcon.user_port l).sd.vcon.user_port ≡ []))
unfolding sockio_msgs vcon_msgs
sockio_msgs-vcon_msgs task_of answer l = (
  while_get-ends (λ x. x.sd.sockio.user_port) (one_sockio_msg task_of) (λ ms. Unit {0})
      (sockio_msgs task_of) (λ m rest h. tt)
      (λ m rest x h.
        handle_sockio_msg-port task_of
          (record (x.sd) { sockio = record (x.sd.sockio) { user_port = rest } }) m)
      (λ x e.
        ap
          (λ p. record x { sd = record (x.sd) { sockio = record (x.sd.sockio) { user_port = p } } })
          (sym e))
      (λ m rest x e. refl) l.sd.sockio.user_port l tt refl,
  while_get-ends (λ x. x.sd.vcon.user_port) (λ i. one_vcon_msg (answer i) i) (λ is. Unit {0})
      (vcon_msgs answer) (λ i rest h. tt)
      (λ i rest x h.
        ap (λ sd. sd.vcon.user_port) (one_vcon_msg_data (answer i) i rest x)
        ∙ handle_vcon_msg-port (record (x.sd) { vcon = record (x.sd.vcon) { user_port = rest } }) i
            x.socket_active (answer i))
      (λ x e.
        ap (λ p. record x { sd = record (x.sd) { vcon = record (x.sd.vcon) { user_port = p } } })
          (sym e))
      (λ i rest x e. refl) l.sd.vcon.user_port l tt refl,
)
