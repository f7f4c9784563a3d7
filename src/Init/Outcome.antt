-- ===== src/Init/Outcome.antt =====
-- What a handshake of init.c that succeeds leaves to the server.
use rcli.Common.{ℕ, ◌≡◌, ◌⊎◌, Bool, true, false, Option, none, some, ◌==◌, if◌then◌else◌}
use rcli.Line.{LineResult, line_check_char, line_read_line}
use rcli.Sockio.{Sockio}
use rcli.Rclid.{ServData, Mode}
use rcli.Init.{Answers, special_chars}

-- The results of the check of the first character that lead to a mode with an argument line.
abbrev pub Picks : LineResult → Mode → Type 0
Picks res mode =
    ((mode ≡ Mode.shell) × (res ≡ LineResult.char b'#'))
    ⊎ ((mode ≡ Mode.command) × ((res ≡ LineResult.ok) ⊎ (res ≡ LineResult.char b';')))

-- With `sio` after the check: a line of `len` bytes was read into the buffer at `buf`. An empty
-- line is none, and the server takes over the line and the socket as it was left.
pub record TakesLine (sd : ServData) (a : Answers) (sio : Sockio) (sd' : ServData) : Type 0 where
  pub buf : ℕ
  pub len : ℕ
  pub buffer : a.arg_buf ≡ some buf
  pub read :
      line_read_line buf sd.options.arg_len a.port_mask sd.options.init_wait a.answer a.line_rounds
        sio
      ≡ some (LineResult.line len, sd'.sockio)
  pub arg_line : sd'.arg_line ≡ (if len == 0 then none else some buf)
  pub arg_len : sd'.arg_len ≡ len

-- What follows the check of the first character.
abbrev pub Follows : LineResult → Sockio → ServData → Answers → ServData → Type 0
Follows res sio sd a sd' =
    ((res ≡ LineResult.timeout) × (sd' ≡ record sd { sockio = sio; mode = Mode.shell }))
    ⊎ (Picks res sd'.mode × TakesLine sd a sio sd')

abbrev pub Success : ServData → Answers → ServData → Type 0
Success sd a sd' =
    (res : LineResult) × (sio : Sockio) × (line_check_char special_chars a.stack_buf a.port_mask
        sd.options.init_wait a.answer a.check_rounds sd.sockio
      ≡ some (res, sio))
    × Follows res sio sd a sd'

-- A result that is there and a success has the property.
abbrev Ends : (ServData → Type 0) → Option (Bool × ServData) → Type 0
Ends P none = Unit {0}
Ends P (some (true, sd)) = P sd
Ends P (some (false, sd)) = Unit {0}
