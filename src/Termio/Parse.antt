-- ===== src/Termio/Parse.antt =====
-- A sequence that `termio_expand_cmd_code` writes is read back by `termio_parse_csi`.
use rcli.Common.{
  ℕ, suc, ◌+◌, ◌-◌, ◌*◌, ◌%◌, ◌^◌, ◌≤◌, ◌<◌, ◌≡◌, refl, ap, ap₂, ◌∙◌, Bool, true, false, List, [],
  ◌∷◌, ◌++◌, arith, ◌&&◌, set, length, length-append, append_assoc,
}
use rcli.Termio.{
  ok, CmdSeq, Scan, stop, more, is_cmd, is_num, store_param, add_digit, end_param, classify,
  scan_byte, scan, termio_parse_csi, csi_code, max_cmd_args,
}

-- The number that digits spell, on top of `acc`.
abbrev pub decimal : ℕ → List ℕ → ℕ
decimal acc [] = acc
decimal acc (d ∷ ds) = decimal (acc * 10 + (d - b'0')) ds

abbrev pub all_digits : List ℕ → Bool
all_digits [] = true
all_digits (d ∷ ds) = is_num d && all_digits ds

-- An argument that is a number: one digit at least.
abbrev pub is_number : List ℕ → Bool
is_number [] = false
is_number (d ∷ ds) = is_num d && all_digits ds

abbrev reading : CmdSeq → ℕ → Scan
reading seq c = record { seq = seq; cur_param = c % 2 ^ 16; in_param = true }

abbrev between : CmdSeq → ℕ → Scan
between seq c = record { seq = seq; cur_param = c; in_param = false }

scan_digit :
    (len : ℕ) (seq : CmdSeq) (c d : ℕ)
    → is_num d ≡ true
    → scan_byte len (reading seq c) d ≡ more (reading seq (c * 10 + (d - b'0')))
unfolding scan_byte end_param classify add_digit
scan_digit len seq c d h = ground arith

scan_first_digit :
    (len : ℕ) (seq : CmdSeq) (c d : ℕ)
    → is_num d ≡ true
    → scan_byte len (between seq c) d ≡ more (reading seq (d - b'0'))
unfolding scan_byte end_param classify add_digit
scan_first_digit len seq c d h = ground arith

-- Digits are read into the number that they spell.
scan_digits :
    (ds : List ℕ) (n pos : ℕ) (rest : List ℕ) (seq : CmdSeq) (c : ℕ)
    → all_digits ds ≡ true
    → scan (length ds + n) pos (ds ++ rest) (reading seq c)
      ≡ scan n (pos + length ds) rest (reading seq (decimal c ds))
unfolding scan
scan_digits [] n pos rest seq c h =
    ap₂ (λ k p. scan k p rest (reading seq c)) (omega arith) (omega arith)
scan_digits (d ∷ ds) n pos rest seq c h =
    let shift : suc (length ds) + n ≡ suc (length ds + n) = omega arith in
    let next : pos + 1 + length ds ≡ pos + suc (length ds) = omega arith in
    rw (shift, scan, scan_digit (pos % 2 ^ 16) seq c d (ground arith))
      (scan_digits ds n (pos + 1) rest seq (c * 10 + (d - b'0')) (ground arith)
        ∙ ap (λ p. scan n p rest (reading seq (decimal (c * 10 + (d - b'0')) ds))) next)

-- The number that an argument spells.
abbrev pub value : List ℕ → ℕ
value [] = 0
value (d ∷ ds) = decimal (d - b'0') ds

abbrev pub values : List (List ℕ) → List ℕ
values [] = []
values (a ∷ as') = value a % 2 ^ 16 ∷ values as'

-- Arguments joined by semicolons: those behind another, and all of them.
abbrev pub join_rest : List (List ℕ) → List ℕ
join_rest [] = []
join_rest (a ∷ as') = b';' ∷ (a ++ join_rest as')

abbrev pub join : List (List ℕ) → List ℕ
join [] = []
join (a ∷ as') = a ++ join_rest as'

abbrev pub all_numbers : List (List ℕ) → Bool
all_numbers [] = true
all_numbers (a ∷ as') = is_number a && all_numbers as'

-- The record with parameters added at its end.
abbrev pub push : CmdSeq → ℕ → CmdSeq
push seq v = record seq { args = set seq.args seq.num_args v; num_args = seq.num_args + 1 }

abbrev pub push_all : CmdSeq → List ℕ → CmdSeq
push_all seq [] = seq
push_all seq (v ∷ vs) = push_all (push seq v) vs

abbrev pub completed : CmdSeq → ℕ → ℕ → CmdSeq
completed seq cmd len = record seq { cmd = cmd; len_bytes = len }

scan_cmd :
    (len : ℕ) (seq : CmdSeq) (c cmd : ℕ)
    → is_cmd cmd ≡ true
    → seq.num_args < max_cmd_args
    → scan_byte len (reading seq c) cmd ≡ stop (ok len) (completed (push seq (c % 2 ^ 16)) cmd len)
unfolding scan_byte end_param classify store_param
scan_cmd len seq c cmd h room = ground arith

scan_sep :
    (len : ℕ) (seq : CmdSeq) (c : ℕ)
    → seq.num_args < max_cmd_args
    → scan_byte len (reading seq c) b';' ≡ more (between (push seq (c % 2 ^ 16)) (c % 2 ^ 16))
unfolding scan_byte end_param classify store_param
scan_sep len seq c room = ground arith

-- One argument, from its first digit on.
scan_argument :
    (a : List ℕ) (n pos : ℕ) (rest : List ℕ) (seq : CmdSeq) (c : ℕ)
    → is_number a ≡ true
    → scan (length a + n) pos (a ++ rest) (between seq c)
      ≡ scan n (pos + length a) rest (reading seq (value a))
unfolding scan
scan_argument [] n pos rest seq c h = cc
scan_argument (d ∷ ds) n pos rest seq c h =
    let shift : suc (length ds) + n ≡ suc (length ds + n) = omega arith in
    let next : pos + 1 + length ds ≡ pos + suc (length ds) = omega arith in
    rw (shift, scan, scan_first_digit (pos % 2 ^ 16) seq c d (ground arith))
      (scan_digits ds n (pos + 1) rest seq (d - b'0') (ground arith)
        ∙ ap (λ p. scan n p rest (reading seq (value (d ∷ ds)))) next)

scan_rest :
    (args : List (List ℕ)) (pos cmd : ℕ) (seq : CmdSeq) (c : ℕ)
    → all_numbers args ≡ true
    → is_cmd cmd ≡ true
    → seq.num_args + length args < max_cmd_args
    → pos + length (join_rest args) < 2 ^ 16
    → let len = pos + length (join_rest args) in
      scan (length (join_rest args) + 1) pos (join_rest args ++ (cmd ∷ [])) (reading seq c)
      ≡ (ok len, completed (push_all seq (c % 2 ^ 16 ∷ values args)) cmd len)
unfolding scan
scan_rest [] pos cmd seq c nums h room short =
    let here : pos % 2 ^ 16 ≡ pos + 0 = omega arith in
    rw (scan_cmd (pos % 2 ^ 16) seq c cmd h (omega arith), scan)
      (ap (λ l. (ok l, completed (push seq (c % 2 ^ 16)) cmd l)) here)
scan_rest (a ∷ as') pos cmd seq c nums h room short =
    let rest = join_rest as' in
    let seq' = push seq (c % 2 ^ 16) in
    let bytes_left : suc (length (a ++ rest)) + 1 ≡ suc (length a + (length rest + 1)) =
      omega (arith, length-append a rest) in
    let len : pos + 1 + length a + length rest ≡ pos + suc (length (a ++ rest)) =
      omega (arith, length-append a rest) in
    ap (λ k. scan k pos (b';' ∷ ((a ++ rest) ++ (cmd ∷ []))) (reading seq c)) bytes_left
    ∙ rw (scan, scan_sep (pos % 2 ^ 16) seq c (omega arith), append_assoc)
        (scan_argument a (length rest + 1) (pos + 1) (rest ++ (cmd ∷ [])) seq' (c % 2 ^ 16)
            (ground arith)
          ∙ scan_rest as' (pos + 1 + length a) cmd seq' (value a) (ground arith) h (omega arith)
              (omega arith)
          ∙ ap (λ l. (ok l, completed (push_all seq' (values (a ∷ as'))) cmd l)) len)

scan_bare_cmd :
    (len : ℕ) (seq : CmdSeq) (cmd : ℕ)
    → is_cmd cmd ≡ true
    → scan_byte len (between seq 0) cmd ≡ stop (ok len) (completed seq cmd len)
unfolding scan_byte end_param classify
scan_bare_cmd len seq cmd h = ground arith

-- What stands behind the CSI, read from the start.
scan_all :
    (args : List (List ℕ)) (cmd : ℕ) (seq : CmdSeq)
    → all_numbers args ≡ true
    → is_cmd cmd ≡ true
    → seq.num_args ≡ 0
    → length args ≤ max_cmd_args
    → 1 + length (join args) < 2 ^ 16
    → let len = 1 + length (join args) in
      scan (length (join args) + 1) 1 (join args ++ (cmd ∷ [])) (between seq 0)
      ≡ (ok len, completed (push_all seq (values args)) cmd len)
unfolding scan
scan_all [] cmd seq nums h start room short = rw (scan_bare_cmd 1 seq cmd h, scan)
scan_all (a ∷ as') cmd seq nums h start room short =
    let rest = join_rest as' in
    let bytes_left : length (a ++ rest) + 1 ≡ length a + (length rest + 1) =
      omega (arith, length-append a rest) in
    let len : 1 + length a + length rest ≡ 1 + length (a ++ rest) =
      omega (arith, length-append a rest) in
    ap (λ k. scan k 1 ((a ++ rest) ++ (cmd ∷ [])) (between seq 0)) bytes_left
    ∙ rw append_assoc (
        scan_argument a (length rest + 1) 1 (rest ++ (cmd ∷ [])) seq 0 (ground arith)
        ∙ scan_rest as' (1 + length a) cmd seq (value a) (ground arith) h (omega arith)
            (omega arith)
        ∙ ap (λ l. (ok l, completed (push_all seq (values (a ∷ as'))) cmd l)) len)

-- A sequence of a CSI, numbers joined by semicolons and a final byte is parsed into that byte, the
-- numbers, on 16 bits, and the position of the final byte.
pub parse-join :
    (args : List (List ℕ)) (cmd : ℕ) (seq : CmdSeq)
    → all_numbers args ≡ true
    → is_cmd cmd ≡ true
    → length args ≤ max_cmd_args
    → 1 + length (join args) < 2 ^ 16
    → let len = 1 + length (join args) in
      termio_parse_csi (csi_code ∷ (join args ++ (cmd ∷ []))) (1 + (length (join args) + 1)) seq
      ≡ (ok len, completed (push_all (record seq { num_args = 0 }) (values args)) cmd len)
unfolding termio_parse_csi
parse-join args cmd seq nums h room short =
    let size : 1 + (length (join args) + 1) - 1 ≡ length (join args) + 1 = omega arith in
    rw size (scan_all args cmd (record seq { num_args = 0 }) nums h refl room short)
