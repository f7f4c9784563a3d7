-- ===== src/Line/Ends.antt =====
-- Where a line ends, what is pushed back behind it, and where the next read goes.
use rcli.Common.{
  ℕ, suc, ◌+◌, ◌-◌, ◌≤◌, ◌<◌, ◌≡◌, ap, ap₂, ◌∙◌, true, false, List, ◌∷◌, arith, ltb, store, bytes,
  bytes_eq,
}
use rcli.Timer.{TimerAnswer}
use rcli.Sockio.{SockioMsg, MsgType, is_error}
use rcli.Sockio.Submit.{sockio_push_back}
use rcli.Sockio.Receive.{push_back_keeps}
use rcli.Sockio.Submitted.{sockio_recv-posted}
use rcli.Line.{Reading, end_line, line_msg}

-- Where bytes follow the line feed and fit into the push back buffer, what is pushed back is a NUL
-- and all of them but the last: the rest is taken from one byte too early.
end_line-shifted :
    (ptr pos size : ℕ) (r : Reading)
    → pos + 1 < size
    → size - (pos + 1) ≤ r.sio.push_back_max
    → let sio' = (end_line ptr pos size r).sio in
      bytes sio'.ram sio'.push_back_buf sio'.push_back_size
      ≡ 0 ∷ bytes r.sio.ram (ptr + pos + 1) (size - (pos + 2))
unfolding end_line
end_line-shifted ptr pos size r more fits =
    let follows : ltb (pos + 1) size ≡ true = ground arith in
    let sio1 = record (r.sio) { ram = store r.sio.ram (ptr + pos) 0 } in
    let n = size - (pos + 1) in
    let (ok, len, kept) = push_back_keeps sio1 (ptr + pos) n in
    let taken : (sockio_push_back sio1 (ptr + pos) n).0 ≡ true = ok ∙ ground arith in
    let parts : n ≡ suc (size - (pos + 2)) = omega arith in
    rw follows (
      kept
      ∙ rw taken (
          ap (bytes sio1.ram (ptr + pos)) parts
          ∙ ap₂ ◌∷◌ (ground arith) (
              bytes_eq sio1.ram r.sio.ram (ptr + pos + 1) (size - (pos + 2))
                (λ x a b. ground arith))))

-- Without an error and with a free message, once two bytes or more of a line are read: the next
-- read may go past the end of the buffer of `max_size` bytes.
pub line_msg-overrun :
    (buf max_size us m : ℕ) (rest : List ℕ) (answer : TimerAnswer) (r : Reading) (msg : SockioMsg)
    → is_error r.sio.state ≡ false
    → r.sio.free_list ≡ m ∷ rest
    → msg.size ≡ 1
    → 0 < max_size
    → 1 < r.got
    → let read = (line_msg buf (max_size - 1) us answer r msg MsgType.wait_char).sio.msgs m in
      (read.type ≡ MsgType.recv) × (buf + max_size < read.buf_data + read.size)
unfolding line_msg
line_msg-overrun buf max_size us m rest answer r msg ok free one big got =
    rw (one, sockio_recv-posted r.sio (buf + r.got) (max_size - 1) 1 ok free)
      (ground arith, ground arith)
