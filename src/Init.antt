-- ===== src/Init.antt =====
-- amiga/rclid/init.c: the handshake that chooses shell or command mode and reads the argument line.
pub mod Outcome
use rcli.Common.{ℕ, Bool, true, false, Option, none, some, List, [], ◌∷◌, ◌==◌, if◌then◌else◌}
use rcli.Timer.{TimerAnswer}
use rcli.Sockio.{Sockio}
use rcli.Sockio.Wait.{Selected}
use rcli.Line.{LineResult, line_check_char, line_read_line}
use rcli.Rclid.{ServData, Mode, shell, command}

abbrev pub special_chars : List ℕ
special_chars = b'#' ∷ b';' ∷ []

-- What the system answers during the handshake: the address of two bytes of stack, the port's
-- mask, the rounds of the two loops, and the argument buffer.
pub record Answers : Type 0 where
  pub stack_buf : ℕ
  pub port_mask : ℕ
  pub answer : TimerAnswer
  pub check_rounds : List Selected
  pub line_rounds : List Selected
  pub arg_buf : Option ℕ

-- How the check of the first character goes on: an end of the handshake, or the argument line in
-- a mode.
pub data Choice : Type 0 where
  fails starts_shell : Choice
  reads : Mode → Choice

unfoldable pub choose : LineResult → Choice
choose LineResult.error = fails
choose LineResult.timeout = starts_shell
choose LineResult.ok = reads command
choose (LineResult.char c) =
    if c == b'#' then reads shell else if c == b';' then reads command else fails
choose (LineResult.line n) = fails

abbrev pub with_sockio : ServData → Sockio → ServData
with_sockio sd sio = record sd { sockio = sio }

-- The end of the handshake on the result of the line.
unfoldable pub take_line : ServData → ℕ → LineResult → Bool × ServData
take_line sd buf (LineResult.line n) =
    if n == 0
    then (true, record sd { arg_line = none; arg_len = 0 })
    else (true, record sd { arg_line = some buf; arg_len = n })
take_line sd buf _ = (false, record sd { arg_line = some buf })

-- `none` is a handshake that still waits when the rounds end.
unfoldable pub read_args : ServData → Answers → Option (Bool × ServData)
read_args sd a = elim a.arg_buf [
  | none ↦ some (false, record sd { arg_line = none })
  | some buf ↦
      elim (line_read_line buf sd.options.arg_len a.port_mask sd.options.init_wait a.answer
        a.line_rounds sd.sockio) [
          | none ↦ none
          | some (res, sio) ↦ some (take_line (with_sockio sd sio) buf res)
        ]
]

unfoldable pub follow : Choice → ServData → Answers → Option (Bool × ServData)
follow fails sd a = some (false, sd)
follow starts_shell sd a = some (true, record sd { mode = shell })
follow (reads mode) sd a = read_args (record sd { mode = mode }) a

unfoldable pub init_handshake : ServData → Answers → Option (Bool × ServData)
init_handshake sd a =
    elim (line_check_char special_chars a.stack_buf a.port_mask sd.options.init_wait a.answer
      a.check_rounds sd.sockio) [
        | none ↦ none
        | some (res, sio) ↦ follow (choose res) (with_sockio sd sio) a
      ]
