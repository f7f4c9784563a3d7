-- ===== src/Rclid/Ledger/Requests.antt =====
-- `handle_vcon_msg` of rclid.c keeps the books: the request is replied, or a socket message has it.
use rcli.Common.{
  ℕ, ◌≡◌, refl, inl, inr, Bool, true, false, Option, none, some, [], ◌∷◌, if◌then◌else◌, Bool-cases,
}
use rcli.Timer.{TimerAnswer}
use rcli.Vcon
use rcli.Vcon.{VconMsg}
use rcli.Sockio.{Sockio}
use rcli.Sockio.Submit.{sockio_send}
use rcli.Sockio.Session.{is_fresh}
use rcli.Sockio.Sent.{Sent, send-Sent, recv-Sent, wait-Sent}
use rcli.Rclid.{ServData, ErrorText, error_out, has_flag, flag_send_mode}
use rcli.Rclid.Console.{
  Handling, submitted, handle_buffer_mode, on_vcon_msg, handle_vcon_msg, accepts_mode, write_mode,
}
use rcli.Rclid.Ledger.{Stock, Sound, Sound-Distinct}
use rcli.Rclid.Ledger.Moves.{socket-Sound, rest-Sound, ram-Sound, set_vmsg-Sound, reply_vmsg-Sound}
use rcli.Rclid.Ledger.Messages.{link-Sound}

-- The request is still in hand if it is to be replied.
abbrev Settled : Stock → ℕ → Handling → Type 0
Settled k i h = Sound k [] (if h.reply then i ∷ [] else []) h.sd

submitted-Settled :
    {k : Stock} (sd : ServData) (a : Sockio) (i : ℕ) (text : ErrorText) (p : Option ℕ × Sockio)
    → Sent [] a p
    → Sound k [] (i ∷ []) (record sd { sockio = a })
    → Settled k i (submitted sd i text p)
unfolding submitted
submitted-Settled sd a i text (none, b) sent s =
    let sd1 = record sd { sockio = b } in
    rest-Sound sd1 (error_out sd1 text) refl refl
      (socket-Sound (record sd { sockio = a }) b sent.kept sent.frames s)
submitted-Settled sd a i text (some m, b) sent s =
    let (there, free) = sent.handed in
    link-Sound (record sd { sockio = b }) m i there free
      (socket-Sound (record sd { sockio = a }) b sent.kept sent.frames s)

module _ {k : Stock} (sd : ServData) (i : ℕ) (s : Sound k [] (i ∷ []) sd) where
  buffer_mode-Settled : Settled k i (handle_buffer_mode sd i)
  unfolding handle_buffer_mode
  buffer_mode-Settled =
      let mode = (sd.vcon.vmsgs i).buffer_mode in
      let sd1 = record sd { buffer_mode = mode } in
      let one = rest-Sound sd sd1 refl refl s in
      let a = write_mode sd1.sockio sd1.tmp_tx_buf mode in
      let two = ram-Sound sd1 a.ram one in
      elim (Bool-cases (accepts_mode sd mode)) [
        | inr no_mode ↦ rw no_mode (set_vmsg-Sound sd i _ refl s)
        | inl mode_ok ↦ elim (Bool-cases (has_flag sd.flags flag_send_mode)) [
          | inl passive ↦ rw (mode_ok, passive) one
          | inr active ↦
              rw (mode_ok, active)
                (submitted-Settled sd1 a i ErrorText.buffer_mode_send
                  (sockio_send a sd1.tmp_tx_buf 3)
                  (send-Sent a [] (Sound-Distinct (record sd1 { sockio = a }) two) two.links
                    sd1.tmp_tx_buf 3)
                  two)
        ]
      ]

  module _ (answer : TimerAnswer) (fresh : is_fresh sd.sockio.timer answer.job ≡ true) where
    request-Settled :
        (type : Vcon.MsgType) (active : Bool) → Settled k i (on_vcon_msg type sd i active answer)
    unfolding on_vcon_msg
    request-Settled Vcon.MsgType.write true =
        submitted-Settled sd sd.sockio i ErrorText.send_failed _
          (send-Sent sd.sockio [] (Sound-Distinct sd s) s.links _ _) s
    request-Settled Vcon.MsgType.read true =
        submitted-Settled sd sd.sockio i ErrorText.recv_failed _
          (recv-Sent sd.sockio [] (Sound-Distinct sd s) s.links _ _ 1) s
    request-Settled Vcon.MsgType.wait_char true =
        submitted-Settled sd sd.sockio i ErrorText.wait_failed _
          (wait-Sent sd.sockio [] (Sound-Distinct sd s) s.links answer _ fresh) s
    request-Settled Vcon.MsgType.buffer_mode true = buffer_mode-Settled
    request-Settled Vcon.MsgType.write false = set_vmsg-Sound sd i _ refl s
    request-Settled Vcon.MsgType.read false = set_vmsg-Sound sd i _ refl s
    request-Settled Vcon.MsgType.wait_char false = set_vmsg-Sound sd i _ refl s
    request-Settled Vcon.MsgType.buffer_mode false = set_vmsg-Sound sd i _ refl s
    request-Settled Vcon.MsgType.end active = s
    request-Settled Vcon.MsgType.error active = s
    request-Settled Vcon.MsgType.free active = s

    pub handle_vcon_msg-Sound :
        (active : Bool) → Sound k [] [] (handle_vcon_msg sd i active answer).1
    unfolding handle_vcon_msg
    handle_vcon_msg-Sound active =
        let type = (sd.vcon.vmsgs i).type in
        let h = on_vcon_msg type sd i active answer in
        let settled = request-Settled type active in
        elim (Bool-cases h.reply) [
          | inl e ↦ rw e (reply_vmsg-Sound h.sd i (rw e at settled))
          | inr e ↦ rw e (rw e at settled)
        ]
