-- ===== src/Sockio/Replace.antt =====
-- `sockio_replace_recv_buffer` of sockio.c: what a read holds moves to its new buffer.
use rcli.Common.{
  ℕ, ◌+◌, ◌-◌, ◌≤◌, ◌≡◌, refl, ap, ap₂, sym, ◌∙◌, ◌⊎◌, inl, inr, Bool, true, List, [], ◌∷◌, ◌++◌,
  arith, ltb, leb, if◌then◌else◌, append-nil, bytes, bytes-add, Bool-cases, copy_mem, update,
}
use rcli.Sockio.{Sockio, rest_of}
use rcli.Sockio.Submit.{sockio_push_back, sockio_replace_recv_buffer, refill_recv, is_head}
use rcli.Sockio.Receive.{bytes-copy_mem, bytes-copy_mem_apart, push_back_keeps, push_back_apart}

refill_recv_fields :
    (sio : Sockio) (i : ℕ) (is : List ℕ) (old buf actual k : ℕ)
    → sio.recv_list ≡ i ∷ is
    → let sio' = refill_recv sio i old buf actual k in
      let done = leb k actual in
      (sio'.ram ≡ copy_mem sio.ram old buf actual)
      × (sio'.push_back_buf ≡ sio.push_back_buf)
      × (sio'.push_back_size ≡ sio.push_back_size)
      × (sio'.user_port ≡ (if done then sio.user_port ++ (i ∷ []) else sio.user_port))
      × (sio'.recv_list ≡ (if done then is else i ∷ is))
      × (sio'.rx_actual ≡ (if done then 0 else actual))
      × ((sio'.msgs i).size ≡ (if done then actual else (sio.msgs i).size))
      × ((sio'.msgs i).buf_data ≡ (sio.msgs i).buf_data)
unfolding refill_recv
refill_recv_fields sio i is old buf actual k e = ground (arith, ap rest_of e)

-- A push back that fits stands at the start of its buffer.
push_back_at :
    (sio : Sockio) (buf n : ℕ)
    → n ≤ sio.push_back_max
    → let sio' = (sockio_push_back sio buf n).1 in
      (sio'.push_back_buf ≡ sio.push_back_base)
      × (sio'.push_back_size ≡ n)
      × (sio'.recv_list ≡ sio.recv_list)
      × (sio'.user_port ≡ sio.user_port)
      × (sio'.msgs ≡ sio.msgs)
unfolding sockio_push_back
push_back_at sio buf n h = ground arith

-- Two areas of memory have no byte in common.
abbrev pub Apart : ℕ → ℕ → ℕ → ℕ → Type 0
Apart a m b n = (a + m ≤ b) ⊎ (b + n ≤ a)

shorter : (a m b k n : ℕ) → n ≤ k → Apart a m b k → Apart a m b n
shorter a m b k n h (inl p) = inl p
shorter a m b k n h (inr p) = inr (omega arith)

-- What is pushed back when `over` bytes do not fit.
abbrev pub overflow : Sockio → Bool → List ℕ
overflow sio over = if over then bytes sio.ram sio.push_back_buf sio.push_back_size else []

-- The first read gets a new buffer of `max_size` bytes while it holds some. Where what exceeds
-- these fits into the push back buffer, and that buffer, the old one and the new one lie apart from
-- each other: the call succeeds, and the new buffer and, if it is too small, what is then pushed
-- back hold the bytes that the old buffer held. If what the new buffer holds reaches the new
-- minimum the read is taken off the list and replied with that size; otherwise it stays first with
-- the new size, and what it holds counts as received.
pub replace_recv_buffer-stream :
    (sio : Sockio) (i : ℕ) (is : List ℕ) (buf max_size min_size : ℕ)
    → sio.recv_list ≡ i ∷ is
    → sio.rx_actual - max_size ≤ sio.push_back_max
    → Apart (sio.msgs i).buf_data sio.rx_actual buf max_size
    → Apart (sio.msgs i).buf_data sio.rx_actual sio.push_back_base sio.push_back_max
    → Apart buf max_size sio.push_back_base sio.push_back_max
    → let (ok, sio') = sockio_replace_recv_buffer sio i buf max_size min_size in
      let over = ltb max_size sio.rx_actual in
      let moved = if over then max_size else sio.rx_actual in
      let done = leb min_size moved in
      (ok ≡ true)
      × (bytes sio'.ram buf moved ++ overflow sio' over
          ≡ bytes sio.ram (sio.msgs i).buf_data sio.rx_actual)
      × (sio'.user_port ≡ (if done then sio.user_port ++ (i ∷ []) else sio.user_port))
      × (sio'.recv_list ≡ (if done then is else i ∷ is))
      × (sio'.rx_actual ≡ (if done then 0 else moved))
      × ((sio'.msgs i).size ≡ (if done then moved else max_size))
      × ((sio'.msgs i).buf_data ≡ buf)
unfolding sockio_replace_recv_buffer
replace_recv_buffer-stream sio i is buf max_size min_size e fits _ old_apart new_apart =
    let old = (sio.msgs i).buf_data in
    let got = sio.rx_actual in
    let sio1 = record sio {
      msgs =
          update sio.msgs i
            (record (sio.msgs i) { size = max_size; buf_data = buf; min_size = min_size });
    } in
    let head : is_head i sio.recv_list ≡ true = ap (is_head i) e ∙ ground arith in
    elim (Bool-cases (ltb max_size got)) [
      | inr less ↦
          let (ram, at, size, port, list, actual, length, at_buf) =
            refill_recv_fields sio1 i is old buf got min_size e in
          rw (head, less, append-nil, ram)
            (
              refl,
              bytes-copy_mem sio.ram old buf got,
              port,
              list,
              actual,
              length ∙ ground arith,
              at_buf ∙ ground arith,
            )
      | inl over ↦
          let n = got - max_size in
          let (ok, len, kept) = push_back_keeps sio1 (old + max_size) n in
          let taken : (sockio_push_back sio1 (old + max_size) n).0 ≡ true = ok ∙ ground arith in
          let sio2 = (sockio_push_back sio1 (old + max_size) n).1 in
          let (base, len2, same_list, same_port, same_msgs) =
            push_back_at sio1 (old + max_size) n fits in
          let (ram, at, size, port, list, actual, length, at_buf) =
            refill_recv_fields sio2 i is old buf max_size min_size (same_list ∙ e) in
          let clear : Apart sio2.push_back_buf sio2.push_back_size buf max_size =
            rw (base, len2)
              (elim (shorter buf max_size sio.push_back_base sio.push_back_max n fits new_apart) [
                | inl p ↦ inr p
                | inr p ↦ inl p
              ]) in
          let unmoved = push_back_apart sio1 (old + max_size) n old max_size (
            shorter old max_size sio.push_back_base sio.push_back_max n fits
              (elim old_apart [ inl p ↦ inl (ground arith) | inr p ↦ inr p ])) in
          let all : max_size + n ≡ got = ground arith in
          rw (head, over, taken, ram, at, size)
            (
              refl,
              ap₂ ◌++◌ (bytes-copy_mem sio2.ram old buf max_size ∙ unmoved) (
                    bytes-copy_mem_apart sio2.ram old buf max_size sio2.push_back_buf
                      sio2.push_back_size clear
                    ∙ kept
                    ∙ rw taken refl)
                  ∙ sym (bytes-add sio.ram old max_size n)
                  ∙ ap (bytes sio.ram old) all,
              port ∙ rw same_port refl,
              list,
              actual,
              length ∙ rw same_msgs (ground arith),
              at_buf ∙ rw same_msgs (ground arith),
            )
    ]
