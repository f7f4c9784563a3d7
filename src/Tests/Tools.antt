-- ===== src/Tests/Tools.antt =====
-- Sequences of amiga/tools/termio.c.
use rcli.Common.{
  ℕ, ◌+◌, ◌*◌, ◌≤◌, ◌<◌, ◌≡◌, ◌≢◌, ◌⊎◌, refl, some, true, false, List, [], ◌∷◌, arith, Ram, bytes,
}
use rcli.Tools.{ReadAnswer, read_buf, read_loop, tput, printed, tsig, check_signals, exit_code}
use rcli.Tools.ReadBuf.{read_buf-typed}
use rcli.Termio.{
  CmdSeq, ok, termio_expand_cmd_code, expand_to_buf, termio_parse_csi, expand_args, expand_param,
  copy_param, get_digit, copy_seq,
}
use rcli.Termio.Tables.{KeyCode, termio_find_cmd_code, find_cmd_in, cmd_codes}
use rcli.Termio.RoundTrip.{parse-expand, expand-full, filled}

abbrev no_ram : Ram
no_ram a = 7

abbrev empty_seq : CmdSeq
empty_seq = record {
  cmd = 0;
  num_args = 0;
  args = 0 ∷ 0 ∷ 0 ∷ 0 ∷ 0 ∷ 0 ∷ 0 ∷ 0 ∷ [];
  len_bytes = 0;
}

abbrev position : List (List ℕ)
position = (b'1' ∷ b'2' ∷ []) ∷ (b'7' ∷ []) ∷ []

-- `set_cursor` with 12 and 7
parse-expand_example :
    (termio_expand_cmd_code (0x9b ∷ b'H' ∷ []) (b'n' ∷ b'n' ∷ []) position 128
      ≡ ok (0x9b ∷ b'1' ∷ b'2' ∷ b';' ∷ b'7' ∷ b'H' ∷ []))
    × (termio_parse_csi (0x9b ∷ b'1' ∷ b'2' ∷ b';' ∷ b'7' ∷ b'H' ∷ []) 6 empty_seq ≡ (
      ok 5,
      record {
        cmd = b'H';
        num_args = 2;
        args = 12 ∷ 7 ∷ 0 ∷ 0 ∷ 0 ∷ 0 ∷ 0 ∷ 0 ∷ [];
        len_bytes = 5;
      },
    ))
parse-expand_example =
    parse-expand (b'n' ∷ b'n' ∷ []) position b'H' 128 empty_seq refl refl refl (omega arith)
      (omega arith) (omega arith) (omega arith)

expand-full_example :
    let out : List ℕ = 0x9b ∷ b'1' ∷ b'2' ∷ b';' ∷ b'7' ∷ [] in
    let ram' = filled no_ram 600 out in
    (expand_to_buf no_ram 600 (0x9b ∷ b'H' ∷ []) (b'n' ∷ b'n' ∷ []) position 5 ≡ ok (5, ram'))
    × (bytes ram' 600 5 ≡ out)
    × (ram' 605 ≡ 0)
    × ((x : ℕ) → (x < 600) ⊎ (605 < x) → ram' x ≡ no_ram x)
expand-full_example =
    expand-full no_ram 600 (b'n' ∷ b'n' ∷ []) position b'H' 5 refl refl (omega arith) refl

abbrev f2_key : KeyCode
f2_key = record { name = "F2"; seq = 0x9b ∷ b'1' ∷ b'~' ∷ [] }

abbrev quick : ℕ → ReadAnswer
quick b = record { got = some b; more = true }

abbrev escape : List ReadAnswer
escape = quick 0x1b ∷ quick b'[' ∷ record { got = some b'A'; more = false } ∷ quick b'x' ∷ []

read_buf-typed_example :
    let (size, ram') = read_buf 100 32 escape no_ram in
    (size ≡ 3)
    × (size < 32)
    × (bytes ram' 100 size ≡ 0x1b ∷ b'[' ∷ b'A' ∷ [])
    × (ram' (100 + 2 * size) ≡ 0)
    × ((x : ℕ) → (x < 100) ⊎ (100 + size ≤ x) → x ≢ 100 + 2 * size → ram' x ≡ no_ram x)
unfolding read_buf read_loop
read_buf-typed_example = read_buf-typed 100 32 escape no_ram (omega arith)

abbrev four : List ReadAnswer → List ReadAnswer
four rest = quick b'a' ∷ quick b'a' ∷ quick b'a' ∷ quick b'a' ∷ rest

-- Sixteen bytes: the NUL is written behind the buffer.
read_buf_overrun : (read_buf 100 32 (four (four (four (four [])))) no_ram).1 132 ≡ 0
unfolding read_buf read_loop
read_buf_overrun = refl

tput_cursor :
    tput (some ("set_cursor", position)) ≡ printed (0x9b ∷ b'1' ∷ b'2' ∷ b';' ∷ b'7' ∷ b'H' ∷ [])
unfolding tput termio_find_cmd_code find_cmd_in termio_expand_cmd_code cmd_codes expand_args
    expand_param copy_param get_digit copy_seq
tput_cursor = refl

tsig_after : tsig (0 ∷ 0 ∷ 0x3000 ∷ 0x8000 ∷ []) ≡ 3
unfolding tsig check_signals exit_code
tsig_after = refl
