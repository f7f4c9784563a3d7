-- ===== src/Tools.antt =====
-- amiga/tools/tget.c, tput.c, tsig.c: the tools that read keys, print control sequences, and wait for
-- a signal.
pub mod ReadBuf
pub mod Main
use Prim.Native.String.{String}
use rcli.Common.{
  ℕ, zero, suc, ◌+◌, ◌-◌, ◌^◌, Bool, true, false, Option, none, some, List, [], ◌∷◌, ◌==◌,
  if◌then◌else◌, bit_and, ltb, Ram, store, bytes, length, get_or, not,
}
use rcli.Termio.{CmdCode, CmdSeq, Error, Result, ok, err, termio_parse_csi, termio_expand_cmd_code}
use rcli.Termio.Tables.{KeyCode, termio_find_key_code, termio_find_cmd_code}

-- One call of `Read`, with its byte (`none` for less than one), and `WaitForChar` after it.
pub record ReadAnswer : Type 0 where
  pub got : Option ℕ
  pub more : Bool

-- The local variables of `read_buf`, and the memory.
pub record Reading : Type 0 where
  pub buf : ℕ
  pub size : ℕ
  pub ram : Ram

-- Both `buf` and `size` go on with a byte.
abbrev pub read_byte : ℕ → Reading → Reading
read_byte b r = record { buf = r.buf + 1; size = r.size + 1; ram = store r.ram r.buf b }

-- The loop while `room` bytes are free; the input ends where the answers end.
unfoldable pub read_loop : ℕ → List ReadAnswer → Reading → Reading
read_loop zero keys r = r
read_loop (suc room) [] r = r
read_loop (suc room) (key ∷ keys) r = elim key.got [
  | none ↦ r
  | some b ↦
      let rest = read_loop room keys (read_byte b r) in if key.more then rest else read_byte b r
]

-- The size and the memory. The NUL is written at `buf[size]`, from the `buf` that has gone on.
unfoldable pub read_buf : ℕ → ℕ → List ReadAnswer → Ram → ℕ × Ram
read_buf buf max_size keys ram =
    let r = read_loop (max_size - 1) keys (record { buf = buf; size = 0; ram = ram }) in
    (r.size, store r.ram (r.buf + r.size) 0)

-- What `tget` prints.
pub data Report : Type 0 where
  special : KeyCode → Report
  csi_seq : CmdSeq → Report
  normal : ℕ → Report
  parse_error : Error → Report

abbrev pub report_of : List ℕ → Result ℕ × CmdSeq → Report
report_of buf (ok n, seq) = csi_seq seq
report_of buf (err Error.no_csi, seq) = normal (get_or buf 0 0)
report_of buf (err e, seq) = parse_error e

-- `tget` with its buffer of 32 bytes at `buffer`; `seq` is the structure before the call. What the
-- memory held behind the bytes that were read is still there, and looked at by the key lookup.
unfoldable pub tget : ℕ → List ReadAnswer → CmdSeq → Ram → Report
tget buffer keys seq ram =
    let (len, ram') = read_buf buffer 32 keys ram in
    let buf = bytes ram' buffer 32 in
    elim (termio_find_key_code buf) [
      | some code ↦ special code
      | none ↦ report_of buf (termio_parse_csi buf len seq)
    ]

abbrev pub max_buf : ℕ
max_buf = 128

-- What `tput` gives: RETURN_WARN, RETURN_ERROR, or RETURN_OK with the bytes of the sequence.
pub data Put : Type 0 where
  no_command not_found : Put
  invalid_params : Error → Put
  printed : List ℕ → Put

abbrev pub put_of : Result (List ℕ) → Put
put_of (ok output) = printed output
put_of (err e) = invalid_params e

abbrev pub put_code : CmdCode → List (List ℕ) → Put
put_code code [] = printed code.seq
put_code code (arg ∷ args) = elim code.params [
  | none ↦ printed code.seq
  | some params ↦ put_of (termio_expand_cmd_code code.seq params (arg ∷ args) max_buf)
]

-- `cmd` is the name and the arguments, if there are any.
unfoldable pub tput : Option (String × List (List ℕ)) → Put
tput none = no_command
tput (some (name, args)) = elim (termio_find_cmd_code name) [
  | none ↦ not_found
  | some code ↦ put_code code args
]

-- `CheckSignal` up to five times: the first mask that is not zero.
unfoldable pub check_signals : ℕ → List ℕ → ℕ
check_signals zero masks = 0
check_signals (suc n) [] = 0
check_signals (suc n) (res ∷ masks) =
    let rest = check_signals n masks in if res == 0 then rest else res

abbrev pub has_bit : ℕ → ℕ → Bool
has_bit res n = not (bit_and res (2 ^ n) == 0)

-- The exit code of `tsig`: a bit for each of Ctrl-C, D, E and F.
unfoldable pub exit_code : ℕ → ℕ
exit_code res =
    (if has_bit res 12 then 1 else 0)
    + (if has_bit res 13 then 2 else 0)
    + (if has_bit res 14 then 4 else 0)
    + (if has_bit res 15 then 8 else 0)

-- `main` of tsig.c, over the masks that `CheckSignal` gives one after the other.
unfoldable pub tsig : List ℕ → ℕ
tsig masks = exit_code (check_signals 5 masks)
