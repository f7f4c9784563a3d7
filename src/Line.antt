-- ===== src/Line.antt =====
-- amiga/rclid/line.c, line.h: the first character and the first line of a session, read through
-- sockio before the console exists.
pub mod Ends
use rcli.Common.{
  ℕ, zero, suc, ◌+◌, ◌-◌, ◌*◌, ◌%◌, ◌^◌, Bool, true, false, Option, none, some, List, [], ◌∷◌, ltb,
  ◌==◌, if◌then◌else◌, Ram, store, bit_and,
}
use rcli.Timer.{TimerAnswer}
use rcli.Sockio.{Sockio, SockioMsg, MsgType, sockio_free_msg}
use rcli.Sockio.Submit.{sockio_recv, sockio_push_back, sockio_wait_char}
use rcli.Sockio.Wait.{Selected}
use rcli.Sockio.Handle.{sockio_wait_handle}

-- `LINE_RET_*`, a special character, or the length of a line.
pub data LineResult : Type 0 where
  timeout error ok : LineResult
  char line : ℕ → LineResult

-- The variables of both loops. `got` serves the second.
pub record Reading : Type 0 where
  pub sio : Sockio
  pub result : LineResult
  pub stay : Bool
  pub got : ℕ

abbrev pub timeout_us : ℕ → ℕ
timeout_us timeout_ms = 1000 * timeout_ms % 2 ^ 32

-- A submission that fails ends the loop.
abbrev pub go_on : Reading → Option ℕ × Sockio → Reading
go_on r (none, sio) = record r { sio = sio; stay = false }
go_on r (some m, sio) = record r { sio = sio }

abbrev pub give_up : Reading → LineResult → Reading
give_up r result = record r { stay = false; result = result }

-- The result for a character: itself if it is special.
abbrev pub special_or_ok : List ℕ → ℕ → LineResult
special_or_ok [] c = LineResult.ok
special_or_ok (s ∷ ss) c = if c == s then char s else special_or_ok ss c

abbrev pub is_ok : LineResult → Bool
is_ok LineResult.ok = true
is_ok _ = false

-- One message of `line_check_char`, before it is freed. A character that is not special is pushed
-- back.
unfoldable pub check_msg : List ℕ → ℕ → Reading → SockioMsg → MsgType → Reading
check_msg special buf r msg MsgType.wait_char =
    if msg.size == 1 then go_on r (sockio_recv r.sio buf 1 1) else give_up r LineResult.timeout
check_msg special buf r msg MsgType.recv =
    let result = special_or_ok special (r.sio.ram buf) in
    let sio = if is_ok result then (sockio_push_back r.sio buf 1).1 else r.sio in
    record r { sio = sio; stay = false; result = result }
check_msg special buf r msg MsgType.error = record r { stay = false }
check_msg special buf r msg _ = r

-- The position of the first line feed in `n` bytes from `base + i` on, or the end.
unfoldable pub newline_at : Ram → ℕ → ℕ → ℕ → ℕ
newline_at ram base i zero = i
newline_at ram base i (suc n) =
    let rest = newline_at ram base (i + 1) n in if ram (base + i) == 0x0a then i else rest

-- A line feed at `pos` of what was read at `ptr`: it becomes NUL. If bytes follow it, as many are
-- pushed back, from the NUL on.
unfoldable pub end_line : ℕ → ℕ → ℕ → Reading → Reading
end_line ptr pos size r =
    let sio1 = record (r.sio) { ram = store r.sio.ram (ptr + pos) 0 } in
    let sio2 =
      if ltb (pos + 1) size
      then (sockio_push_back sio1 (ptr + pos) (size - (pos + 1))).1
      else sio1 in
    record { sio = sio2; result = line (r.got + pos); stay = false; got = r.got + pos }

-- One message of `line_read_line`, before it is freed. `left` is the same for every read.
unfoldable pub line_msg : ℕ → ℕ → ℕ → TimerAnswer → Reading → SockioMsg → MsgType → Reading
line_msg buf left us answer r msg MsgType.wait_char =
    if msg.size == 1
    then go_on r (sockio_recv r.sio (buf + r.got) left 1)
    else give_up r LineResult.timeout
line_msg buf left us answer r msg MsgType.recv =
    let ptr = buf + r.got in
    let pos = newline_at r.sio.ram ptr 0 msg.size in
    if ltb pos msg.size
    then end_line ptr pos msg.size r
    else (let more = record r { got = r.got + msg.size } in
        go_on more (sockio_wait_char more.sio answer us))
line_msg buf left us answer r msg MsgType.error = record r { stay = false }
line_msg buf left us answer r msg _ = r

-- The inner loop over what the port held. Each message is freed.
unfoldable pub each_msg : (Reading → SockioMsg → MsgType → Reading) → List ℕ → Reading → Reading
each_msg handle [] r = record r { sio = record (r.sio) { user_port = [] } }
each_msg handle (m ∷ ms) r =
    let taken = record r { sio = record (r.sio) { user_port = ms } } in
    let msg = r.sio.msgs m in
    let r' = handle taken msg msg.type in
    each_msg handle ms (record r' { sio = sockio_free_msg r'.sio m })

unfoldable pub read_round :
    (Reading → SockioMsg → MsgType → Reading) → ℕ → Selected → Reading → Reading
read_round handle port_mask sel r =
    let (sio, got) = sockio_wait_handle r.sio port_mask sel in
    let r1 = record r { sio = sio } in
    if bit_and got port_mask == 0 then r1 else each_msg handle sio.user_port r1

-- `while(stay)`, over the answers of the system. `none`: the loop still waits when they end.
unfoldable pub read_loop :
    (Reading → SockioMsg → MsgType → Reading)
    → ℕ
    → List Selected
    → Reading
    → Option (LineResult × Sockio)
read_loop handle port_mask [] r = if r.stay then none else some (r.result, r.sio)
read_loop handle port_mask (sel ∷ sels) r =
    let rest = read_loop handle port_mask sels (read_round handle port_mask sel r) in
    if r.stay then rest else some (r.result, r.sio)

abbrev pub start_reading : Sockio → Reading
start_reading sio = record { sio = sio; result = LineResult.error; stay = true; got = 0 }

abbrev pub begin_loop :
    (Reading → SockioMsg → MsgType → Reading)
    → ℕ
    → List Selected
    → Option ℕ × Sockio
    → Option (LineResult × Sockio)
begin_loop handle port_mask sels (none, sio) = some (LineResult.error, sio)
begin_loop handle port_mask sels (some m, sio) = read_loop handle port_mask sels (start_reading sio)

-- `buf` is the address of the two bytes on the stack.
unfoldable pub line_check_char :
    List ℕ → ℕ → ℕ → ℕ → TimerAnswer → List Selected → Sockio → Option (LineResult × Sockio)
line_check_char special buf port_mask timeout_ms answer sels sio =
    begin_loop (check_msg special buf) port_mask sels
      (sockio_wait_char sio answer (timeout_us timeout_ms))

-- One byte of the buffer is kept for the terminating NUL.
unfoldable pub line_read_line :
    ℕ → ℕ → ℕ → ℕ → TimerAnswer → List Selected → Sockio → Option (LineResult × Sockio)
line_read_line buf max_size port_mask timeout_ms answer sels sio =
    begin_loop (line_msg buf (max_size - 1) (timeout_us timeout_ms) answer) port_mask sels
      (sockio_wait_char sio answer (timeout_us timeout_ms))
