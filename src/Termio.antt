-- ===== src/Termio.antt =====
-- amiga/tools/termio.c, termio.h: the console's control sequences. A text is the list of its bytes
-- before the NUL; a buffer reads as NUL behind its end.
pub mod Tables
pub mod Keys
pub mod Parse
pub mod RoundTrip
use Prim.Native.String.{String}
use rcli.Common.{
  ℕ, zero, suc, ◌+◌, ◌-◌, ◌*◌, ◌%◌, ◌^◌, Bool, true, false, Option, none, some, List, [], ◌∷◌, ◌++◌,
  ltb, leb, ◌==◌, ◌&&◌, ◌||◌, not, if◌then◌else◌, set, length, Ram, store, store_bytes,
}

abbrev pub csi_code : ℕ
csi_code = 0x9b

abbrev pub esc_code : ℕ
esc_code = 0x1b

abbrev pub max_cmd_args : ℕ
max_cmd_args = 8

-- `TERMIO_ERR_*`
pub data Error : Type 0 where
  no_csi too_many_args invalid_char seq_too_short param_no_number param_empty : Error

-- `termio_cmd_seq`. `args` are 16-bit patterns.
pub record CmdSeq : Type 0 where
  pub cmd : ℕ
  pub num_args : ℕ
  pub args : List ℕ
  pub len_bytes : ℕ

pub data Result {ℓ} (A : Type ℓ) : Type ℓ where
  ok : A → Result A
  err : Error → Result A

abbrev pub byte_at : List ℕ → ℕ
byte_at [] = 0
byte_at (b ∷ bs) = b

abbrev pub rest_of : List ℕ → List ℕ
rest_of [] = []
rest_of (b ∷ bs) = bs

-- The variables of the scan.
pub record Scan : Type 0 where
  pub seq : CmdSeq
  pub cur_param : ℕ
  pub in_param : Bool

abbrev pub is_cmd : ℕ → Bool
is_cmd ch = leb 0x40 ch && leb ch 0x7f

abbrev pub is_sep : ℕ → Bool
is_sep ch = ch == b';'

abbrev pub is_num : ℕ → Bool
is_num ch = leb b'0' ch && leb ch b'9'

-- The end of a parameter: `none` where there are too many.
unfoldable pub store_param : Scan → Option Scan
store_param s =
    if s.seq.num_args == max_cmd_args
    then none
    else some (record s {
      seq = record (s.seq) {
        args = set s.seq.args s.seq.num_args s.cur_param;
        num_args = s.seq.num_args + 1;
      };
      in_param = false;
    })

-- A digit, on a UWORD.
unfoldable pub add_digit : Scan → ℕ → Scan
add_digit s ch =
    let base = if s.in_param then s.cur_param * 10 % 2 ^ 16 else 0 in
    record s { in_param = true; cur_param = (base + (ch - b'0')) % 2 ^ 16 }

unfoldable pub end_param : Scan → ℕ → Option Scan
end_param s ch = if (is_cmd ch || is_sep ch) && s.in_param then store_param s else some s

-- What a byte leads to: an end of the scan, or its next round.
pub data Next : Type 0 where
  stop : Result ℕ → CmdSeq → Next
  more : Scan → Next

unfoldable pub classify : ℕ → Scan → ℕ → Next
classify len s ch =
    if is_cmd ch
    then stop (ok len) (record (s.seq) { cmd = ch; len_bytes = len })
    else if is_num ch
    then more (add_digit s ch)
    else if not (is_sep ch) && not (ch == b' ')
    then stop (err invalid_char) s.seq
    else more s

unfoldable pub scan_byte : ℕ → Scan → ℕ → Next
scan_byte len s ch = elim (end_param s ch) [
  | none ↦ stop (err too_many_args) s.seq
  | some s' ↦ classify len s' ch
]

-- The loop over the `n` bytes left; `pos` is `orig_size - size`.
unfoldable pub scan : ℕ → ℕ → List ℕ → Scan → Result ℕ × CmdSeq
scan zero pos buf s = (err seq_too_short, s.seq)
scan (suc n) pos buf s = elim (scan_byte (pos % 2 ^ 16) s (byte_at buf)) [
  | stop res seq ↦ (res, seq)
  | more s' ↦ scan n (pos + 1) (rest_of buf) s'
]

abbrev pub scan_start : CmdSeq → Scan
scan_start seq = record { seq = record seq { num_args = 0 }; cur_param = 0; in_param = false }

-- `termio_parse_csi`: the result, and what it left in `seq`. A size that would drop below zero
-- ends the loop at once, as zero does.
unfoldable pub termio_parse_csi : List ℕ → ℕ → CmdSeq → Result ℕ × CmdSeq
termio_parse_csi buf size seq =
    if byte_at buf == csi_code
    then scan (size - 1) 1 (rest_of buf) (scan_start seq)
    else if byte_at buf == esc_code
    then (if byte_at (rest_of buf) == b'['
        then scan (size - 2) 2 (rest_of (rest_of buf)) (scan_start seq)
        else (err no_csi, seq))
    else (err no_csi, seq)

-- `termio_cmd_code`. `params` may be NULL.
pub record CmdCode : Type 0 where
  pub name : String
  pub seq : List ℕ
  pub params : Option (List ℕ)

infixl 5 ◌>>=◌
abbrev pub ◌>>=◌ {ℓ κ} : {A : Type ℓ} {B : Type κ} → Result A → (A → Result B) → Result B
ok a >>= f = f a
err e >>= f = err e

unfoldable pub get_digit : ℕ → Result ℕ
get_digit b = if ltb b b'0' || ltb b'9' b then err param_no_number else ok (b - b'0')

-- The bytes of a parameter that is copied, `room` at most: digits only for `n`.
unfoldable pub copy_param : Bool → List ℕ → ℕ → Result (List ℕ)
copy_param digits [] room = ok []
copy_param digits (b ∷ bs) zero = ok []
copy_param true (b ∷ bs) (suc room) = do
  d ← get_digit b
  rest ← copy_param true bs room
  ok ((b'0' + d) ∷ rest)
copy_param false (b ∷ bs) (suc room) = do rest ← copy_param false bs room; ok (b ∷ rest)

abbrev pub color_param : ℕ → List ℕ → Result (List ℕ)
color_param lead input = do d ← get_digit (byte_at input); ok (lead ∷ (b'0' + d) ∷ [])

-- The bytes that one argument expands to.
unfoldable pub expand_param : ℕ → List ℕ → ℕ → Result (List ℕ)
expand_param code [] out_len = err param_empty
expand_param code (b ∷ bs) out_len =
    if code == b'f'
    then color_param b'3' (b ∷ bs)
    else if code == b'c'
    then color_param b'4' (b ∷ bs)
    else if code == b'b'
    then color_param b'>' (b ∷ bs)
    else copy_param (code == b'n') (b ∷ bs) out_len

-- The bytes of the arguments, `len` bytes being written before them.
unfoldable pub expand_args : List ℕ → List (List ℕ) → ℕ → ℕ → Bool → Result (List ℕ)
expand_args params [] buf_len len first = ok []
expand_args [] (arg ∷ args) buf_len len first = ok []
expand_args (p ∷ params) (arg ∷ args) buf_len len first =
    let sep : List ℕ = if first then [] else b';' ∷ [] in
    let len' = if first then len else len + 1 in
    expand_param p arg (buf_len - len') >>= λ out.
    expand_args params args buf_len (len' + length out) false >>= λ rest. ok (sep ++ (out ++ rest))

-- The end of the sequence, as far as it fits.
unfoldable pub copy_seq : List ℕ → ℕ → List ℕ
copy_seq [] room = []
copy_seq (b ∷ bs) zero = []
copy_seq (b ∷ bs) (suc room) = b ∷ copy_seq bs room

-- The CSI that starts a sequence is written whatever the room, and what follows it.
abbrev pub csi_part : List ℕ → List ℕ
csi_part seq = if byte_at seq == csi_code then csi_code ∷ [] else []

abbrev pub after_csi : List ℕ → List ℕ
after_csi seq = if byte_at seq == csi_code then rest_of seq else seq

-- `termio_expand_cmd_code` for a code that has parameters: the bytes before the final NUL, whose
-- number is the result.
unfoldable pub termio_expand_cmd_code : List ℕ → List ℕ → List (List ℕ) → ℕ → Result (List ℕ)
termio_expand_cmd_code seq params args buf_len =
    let pre = csi_part seq in
    expand_args params args buf_len (length pre) true >>= λ mid.
    ok (pre ++ (mid ++ copy_seq (after_csi seq) (buf_len - (length pre + length mid))))

-- The same call on the buffer at `buf`, where it succeeds: the number of the bytes, and the memory
-- with these and the final NUL behind them.
unfoldable pub expand_to_buf : Ram → ℕ → List ℕ → List ℕ → List (List ℕ) → ℕ → Result (ℕ × Ram)
expand_to_buf ram buf seq params args buf_len =
    termio_expand_cmd_code seq params args buf_len >>= λ out.
    ok (length out, store (store_bytes ram buf out) (buf + length out) 0)
