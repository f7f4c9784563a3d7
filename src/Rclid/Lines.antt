-- ===== src/Rclid/Lines.antt =====
-- `line_split_buffer` of rclid.c: the first line stays, the rest is pushed back.
use rcli.Common.{
  ℕ, zero, suc, ◌+◌, ◌-◌, ◌≤◌, ◌<◌, ◌≡◌, ◌≢◌, refl, ap, ap₂, sym, ◌∙◌, ◌⊎◌, inl, inr, true, false,
  ◌++◌, arith, ltb, ◌==◌, Ram, bytes, bytes-add, Bool-cases, dec_lt,
}
use rcli.Sockio.Submit.{sockio_push_back}
use rcli.Sockio.Receive.{push_back_keeps, push_back_apart}
use rcli.Rclid.{ServData}
use rcli.Rclid.Socket.{line_end, line_split_buffer}

-- The search ends at the end of the bytes, or behind a line feed.
line_end_stops :
    (ram : Ram) (base i n : ℕ)
    → let e = line_end ram base i n in
      (i ≤ e) × (e ≤ i + n) × ((e ≡ i + n) ⊎ ((i < e) × (ram (base + (e - 1)) ≡ 0x0a)))
unfolding line_end
line_end_stops ram base i zero = (omega arith, omega arith, inl (omega arith))
line_end_stops ram base i (suc n) =
    let (low, high, stop) = line_end_stops ram base (i + 1) n in
    elim (Bool-cases (ram (base + i) == 0x0a)) [
      | inl e ↦
          let here : i + 1 - 1 ≡ i = omega arith in
          rw e (omega arith, omega arith, inr (omega arith, rw here (ground arith)))
      | inr e ↦ rw e (omega arith, omega arith, ground arith)
    ]

-- It passes none on the way.
line_end_passes :
    (ram : Ram) (base i n x : ℕ) → i ≤ x → x + 1 < line_end ram base i n → ram (base + x) ≢ 0x0a
unfolding line_end
line_end_passes ram base i zero x p q = absurd (omega arith)
line_end_passes ram base i (suc n) x p q = elim (Bool-cases (ram (base + i) == 0x0a)) [
  | inl e ↦ absurd (ground arith)
  | inr e ↦ elim (dec_lt i x) [
    | yes later ↦ line_end_passes ram base (i + 1) n x (omega arith) (ground arith)
    | no here ↦ let same : x ≡ i = omega arith in rw same (λ h. ground arith)
  ]
]

module _ (sd : ServData) (i : ℕ) where
  -- The position behind the first line feed of the message's bytes, or their end.
  abbrev pub first_end : ℕ
  first_end = line_end sd.sockio.ram (sd.vcon.vmsgs i).buf_data 0 (sd.vcon.vmsgs i).size

  -- Where the first line ends with two bytes or more behind it, these fit into the push back
  -- buffer, and that buffer lies apart from the message's bytes: the message keeps the bytes up to
  -- the first line feed, this included and no line feed before it, and what it keeps and what is
  -- pushed back make up what it held.
  pub line_split-splits :
      first_end + 1 < (sd.vcon.vmsgs i).size
      → (sd.vcon.vmsgs i).size - first_end ≤ sd.sockio.push_back_max
      → ((sd.vcon.vmsgs i).buf_data + (sd.vcon.vmsgs i).size ≤ sd.sockio.push_back_base)
        ⊎ (sd.sockio.push_back_base + sd.sockio.push_back_max ≤ (sd.vcon.vmsgs i).buf_data)
      → let sd' = line_split_buffer sd i in
        let vmsg = sd.vcon.vmsgs i in
        ((sd'.vcon.vmsgs i).size ≡ first_end)
        × (sd.sockio.ram (vmsg.buf_data + (first_end - 1)) ≡ 0x0a)
        × (bytes sd'.sockio.ram vmsg.buf_data first_end
              ++ bytes sd'.sockio.ram sd'.sockio.push_back_buf sd'.sockio.push_back_size
            ≡ bytes sd.sockio.ram vmsg.buf_data vmsg.size)
        × ((x : ℕ) → x + 1 < first_end → sd.sockio.ram (vmsg.buf_data + x) ≢ 0x0a)
  unfolding line_split_buffer
  line_split-splits more fits apart =
      let vmsg = sd.vcon.vmsgs i in
      let n = vmsg.size - first_end in
      let split : ltb first_end (vmsg.size - 1) ≡ true = ground arith in
      let (low, high, stop) = line_end_stops sd.sockio.ram vmsg.buf_data 0 vmsg.size in
      let (ok, len, kept) = push_back_keeps sd.sockio (vmsg.buf_data + first_end) n in
      let taken : (sockio_push_back sd.sockio (vmsg.buf_data + first_end) n).0 ≡ true =
        ok ∙ ground arith in
      let all : first_end + n ≡ vmsg.size = omega arith in
      let clear : (vmsg.buf_data + first_end ≤ sd.sockio.push_back_base)
          ⊎ (sd.sockio.push_back_base + n ≤ vmsg.buf_data) =
        elim apart [ inl h ↦ inl (omega arith) | inr h ↦ inr (omega arith) ] in
      rw split (
        ground arith,
        ground arith,
        ap₂ ◌++◌
              (push_back_apart sd.sockio (vmsg.buf_data + first_end) n vmsg.buf_data first_end
                clear)
              (kept ∙ rw taken refl)
            ∙ sym (bytes-add sd.sockio.ram vmsg.buf_data first_end n)
            ∙ ap (bytes sd.sockio.ram vmsg.buf_data) all,
        λ x q. line_end_passes sd.sockio.ram vmsg.buf_data 0 vmsg.size x (omega arith) q,
      )

  -- With exactly one byte behind the first line feed nothing is split: the reader is given the
  -- line and the byte that follows it.
  line_split-one_left : first_end + 1 ≡ (sd.vcon.vmsgs i).size → line_split_buffer sd i ≡ sd
  unfolding line_split_buffer
  line_split-one_left h =
      let not_split : ltb first_end ((sd.vcon.vmsgs i).size - 1) ≡ false = ground arith in
      rw not_split

  -- Where two bytes or more stand behind the first line and do not fit into the push back buffer
  -- they are dropped: the message shrinks to the line, and the socket's handle stays as it was.
  line_split-drops :
      first_end + 1 < (sd.vcon.vmsgs i).size
      → sd.sockio.push_back_max < (sd.vcon.vmsgs i).size - first_end
      → let sd' = line_split_buffer sd i in
        ((sd'.vcon.vmsgs i).size ≡ first_end) × (sd'.sockio ≡ sd.sockio)
  unfolding line_split_buffer sockio_push_back
  line_split-drops more over =
      let split : ltb first_end ((sd.vcon.vmsgs i).size - 1) ≡ true = ground arith in
      let refused : ltb sd.sockio.push_back_max ((sd.vcon.vmsgs i).size - first_end) ≡ true =
        ground arith in
      rw (split, refused) (ground arith, refl)
