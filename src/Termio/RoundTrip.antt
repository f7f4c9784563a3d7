-- ===== src/Termio/RoundTrip.antt =====
-- What `termio_expand_cmd_code` writes for numbers, and its way back through the parser.
use rcli.Common.{
  ℕ, zero, suc, ◌+◌, ◌-◌, ◌^◌, ◌≤◌, ◌<◌, ◌≡◌, refl, Bool, true, false, List, [], ◌∷◌, ◌++◌, arith,
  ◌==◌, ◌&&◌, length, length-append, append-nil, ◌⊎◌, inl, inr, sym, ap, ◌∙◌, Ram, store, bytes,
  store_bytes, bytes_eq, store_bytes_frame, bytes-store_bytes,
}
use rcli.Termio.{
  ok, CmdSeq, is_cmd, get_digit, copy_param, expand_param, expand_args, copy_seq,
  termio_expand_cmd_code, expand_to_buf, termio_parse_csi, csi_code, max_cmd_args,
}
use rcli.Termio.Parse.{
  all_digits, is_number, all_numbers, join, join_rest, values, push_all, completed, parse-join,
}

abbrev pub all_n : List ℕ → Bool
all_n [] = true
all_n (p ∷ ps) = p == b'n' && all_n ps

copy_param-digits :
    (ds : List ℕ) (room : ℕ)
    → all_digits ds ≡ true
    → length ds ≤ room
    → copy_param true ds room ≡ ok ds
unfolding copy_param get_digit
copy_param-digits [] room h fits = refl
copy_param-digits (d ∷ ds) zero h fits = absurd (omega arith)
copy_param-digits (d ∷ ds) (suc room) h fits = ground (arith, copy_param-digits ds room)

expand_param-number :
    (a : List ℕ) (room : ℕ) → is_number a ≡ true → length a ≤ room → expand_param b'n' a room ≡ ok a
unfolding expand_param
expand_param-number [] room h fits = cc
expand_param-number (d ∷ ds) room h fits = copy_param-digits (d ∷ ds) room h fits

expand_rest-join :
    (params : List ℕ) (args : List (List ℕ)) (buf_len len : ℕ)
    → all_n params ≡ true
    → length args ≤ length params
    → all_numbers args ≡ true
    → len + length (join_rest args) ≤ buf_len
    → expand_args params args buf_len len false ≡ ok (join_rest args)
unfolding expand_args
expand_rest-join [] [] buf_len len ns enough nums fits = refl
expand_rest-join (p ∷ params) [] buf_len len ns enough nums fits = refl
expand_rest-join [] (a ∷ as') buf_len len ns enough nums fits = absurd (omega arith)
expand_rest-join (p ∷ params) (a ∷ as') buf_len len ns enough nums fits =
    let n : p ≡ b'n' = ground arith in
    let split = length-append a (join_rest as') in
    rw (
      n,
      expand_param-number a (buf_len - (len + 1)) (ground arith) (omega (arith, split)),
      expand_rest-join params as' buf_len (len + 1 + length a) (ground arith) (omega arith)
          (ground arith) (omega (arith, split)),
    )

expand_args-join :
    (params : List ℕ) (args : List (List ℕ)) (buf_len len : ℕ)
    → all_n params ≡ true
    → length args ≤ length params
    → all_numbers args ≡ true
    → len + length (join args) ≤ buf_len
    → expand_args params args buf_len len true ≡ ok (join args)
unfolding expand_args
expand_args-join params [] buf_len len ns enough nums fits = refl
expand_args-join [] (a ∷ as') buf_len len ns enough nums fits = absurd (omega arith)
expand_args-join (p ∷ params) (a ∷ as') buf_len len ns enough nums fits =
    let n : p ≡ b'n' = ground arith in
    let split = length-append a (join_rest as') in
    rw (
      n,
      expand_param-number a (buf_len - len) (ground arith) (omega (arith, split)),
      expand_rest-join params as' buf_len (len + length a) (ground arith) (omega arith)
          (ground arith) (omega (arith, split)),
    )

-- A code that ends in one byte, such as the one that sets the cursor, with at most eight numbers
-- for some or all of its parameters and room for all: the expansion is the CSI, the numbers joined
-- by semicolons and that byte, and the parser reads exactly the byte and the numbers back, on 16
-- bits.
pub parse-expand :
    (params : List ℕ) (args : List (List ℕ)) (cmd buf_len : ℕ) (seq : CmdSeq)
    → all_n params ≡ true
    → all_numbers args ≡ true
    → is_cmd cmd ≡ true
    → length args ≤ length params
    → length args ≤ max_cmd_args
    → 1 + length (join args) < buf_len
    → buf_len < 2 ^ 16
    → let out = csi_code ∷ (join args ++ (cmd ∷ [])) in
      let len = 1 + length (join args) in
      (termio_expand_cmd_code (csi_code ∷ cmd ∷ []) params args buf_len ≡ ok out)
      × (termio_parse_csi out (length out) seq
          ≡ (ok len, completed (push_all (record seq { num_args = 0 }) (values args)) cmd len))
unfolding termio_expand_cmd_code copy_seq
parse-expand params args cmd buf_len seq ns nums h enough room fits small =
    let one_left : buf_len - (1 + length (join args)) ≡ suc (buf_len - (2 + length (join args))) =
      omega arith in
    let size : suc (length (join args ++ (cmd ∷ []))) ≡ 1 + (length (join args) + 1) =
      omega (arith, length-append (join args) (cmd ∷ [])) in
    (
      rw (expand_args-join params args buf_len 1 ns enough nums (omega arith), one_left),
      rw size (parse-join args cmd seq nums h room (omega arith)),
    )

-- The memory after such a call.
abbrev pub filled : Ram → ℕ → List ℕ → Ram
filled ram buf out = store (store_bytes ram buf out) (buf + length out) 0

bytes-filled :
    (ram : Ram) (buf : ℕ) (out : List ℕ) → bytes (filled ram buf out) buf (length out) ≡ out
bytes-filled ram buf out =
    bytes_eq (filled ram buf out) (store_bytes ram buf out) buf (length out) (λ x p q. ground arith)
    ∙ bytes-store_bytes out ram buf

filled_frame :
    (ram : Ram) (buf : ℕ) (out : List ℕ) (x : ℕ)
    → (x < buf) ⊎ (buf + length out < x)
    → filled ram buf out x ≡ ram x
filled_frame ram buf out x (inl h) =
    let kept = store_bytes_frame out ram buf x (inl h) in ground arith
filled_frame ram buf out x (inr h) =
    let kept = store_bytes_frame out ram buf x (inr (omega arith)) in ground arith

-- Where CSI and the numbers fill the buffer of `buf_len` bytes at `buf`, the final byte is dropped
-- without an error: the result is `buf_len`, the buffer holds CSI and the numbers, and the NUL is
-- written to the byte behind its end, whatever stood there. All else in memory stays.
pub expand-full :
    (ram : Ram) (buf : ℕ) (params : List ℕ) (args : List (List ℕ)) (cmd buf_len : ℕ)
    → all_n params ≡ true
    → all_numbers args ≡ true
    → length args ≤ length params
    → 1 + length (join args) ≡ buf_len
    → let ram' = filled ram buf (csi_code ∷ join args) in
      (expand_to_buf ram buf (csi_code ∷ cmd ∷ []) params args buf_len ≡ ok (buf_len, ram'))
      × (bytes ram' buf buf_len ≡ csi_code ∷ join args)
      × (ram' (buf + buf_len) ≡ 0)
      × ((x : ℕ) → (x < buf) ⊎ (buf + buf_len < x) → ram' x ≡ ram x)
unfolding expand_to_buf termio_expand_cmd_code copy_seq
expand-full ram buf params args cmd buf_len ns nums enough full =
    let no_room : buf_len - (1 + length (join args)) ≡ 0 = omega arith in
    let out = csi_code ∷ join args in
    let size : length out ≡ buf_len = omega arith in
    (
      rw (expand_args-join params args buf_len 1 ns enough nums (omega arith), no_room, append-nil)
          (ap (λ n. ok (n, filled ram buf out)) size),
      ap (bytes (filled ram buf out) buf) (sym size) ∙ bytes-filled ram buf out,
      rw (sym size) (ground arith),
      λ x apart. filled_frame ram buf out x (rw size apart),
    )
