-- ===== src/Sockio/Receive.antt =====
-- The byte stream that comes in: what a read holds, and what was pushed back.
use rcli.Common.{
  ℕ, ◌+◌, ◌-◌, ◌≤◌, ◌<◌, ◌^◌, ◌≡◌, refl, ap, ap₂, sym, ◌∙◌, ◌⊎◌, inl, inr, true, false, List, [],
  ◌∷◌, ◌++◌, arith, leb, ltb, if◌then◌else◌, append-nil, Ram, bytes, bytes-add, Bool-cases, length,
  length-bytes, store_bytes, bytes-store_bytes, bytes-store_bytes_apart, copy_mem,
}
use rcli.Sockio.{Sockio, rest_of, sub_ulong}
use rcli.Sockio.Wait.{received, recv_into, finish_recv, handle_rx, handle_push_back, move_pushed}
use rcli.Sockio.Submit.{sockio_push_back}

-- What `finish_recv` does, field by field.
finish_recv_fields :
    (sio : Sockio) (i : ℕ) (is : List ℕ)
    → sio.recv_list ≡ i ∷ is
    → let (done, sio') = finish_recv sio i in
      (done ≡ leb (sio.msgs i).min_size sio.rx_actual)
      × (sio'.user_port ≡ (if done then sio.user_port ++ (i ∷ []) else sio.user_port))
      × (sio'.recv_list ≡ (if done then is else i ∷ is))
      × (sio'.rx_actual ≡ (if done then 0 else sio.rx_actual))
      × ((sio'.msgs i).size ≡ (if done then sio.rx_actual else (sio.msgs i).size))
      × (sio'.ram ≡ sio.ram)
unfolding finish_recv
finish_recv_fields sio i is e = ground (arith, ap rest_of e)

-- Bytes written behind the first `k` of a buffer extend them.
bytes_extend :
    (ram : Ram) (a k : ℕ) (bs : List ℕ)
    → bytes (store_bytes ram (a + k) bs) a (k + length bs) ≡ bytes ram a k ++ bs
bytes_extend ram a k bs =
    bytes-add (store_bytes ram (a + k) bs) a k (length bs)
    ∙ ap₂ ◌++◌ (bytes-store_bytes_apart bs ram (a + k) a k (inl (omega arith)))
        (bytes-store_bytes bs ram (a + k))

-- Bytes that arrive for the first read are appended to what it holds. With its minimum reached it
-- is taken off the list and replied with the size of what it holds, and otherwise it stays first
-- and nothing is replied.
pub handle_rx-received :
    (sio : Sockio) (i : ℕ) (is : List ℕ) (b : ℕ) (bs : List ℕ)
    → sio.recv_list ≡ i ∷ is
    → let sio' = (handle_rx sio i true (received (b ∷ bs))).1 in
      let msg = sio.msgs i in
      let got = sio.rx_actual + length (b ∷ bs) in
      let done = leb msg.min_size got in
      (bytes sio'.ram msg.buf_data got ≡ bytes sio.ram msg.buf_data sio.rx_actual ++ (b ∷ bs))
      × (sio'.user_port ≡ (if done then sio.user_port ++ (i ∷ []) else sio.user_port))
      × (sio'.recv_list ≡ (if done then is else i ∷ is))
      × (sio'.rx_actual ≡ (if done then 0 else got))
      × ((sio'.msgs i).size ≡ (if done then got else msg.size))
unfolding handle_rx recv_into
handle_rx-received sio i is b bs e =
    let sio1 = (recv_into sio i (received (b ∷ bs))).1 in
    let (d, port, list, actual, size, ram) = finish_recv_fields sio1 i is e in
    (
      ap (λ r. bytes r (sio.msgs i).buf_data (sio.rx_actual + length (b ∷ bs))) ram
          ∙ bytes_extend sio.ram (sio.msgs i).buf_data sio.rx_actual (b ∷ bs),
      rw (port, d),
      rw (list, d),
      rw (actual, d),
      rw (size, d),
    )

-- A copy holds the bytes of its source.
pub bytes-copy_mem :
    (ram : Ram) (src dst n : ℕ) → bytes (copy_mem ram src dst n) dst n ≡ bytes ram src n
bytes-copy_mem ram src dst n =
    ap (bytes (copy_mem ram src dst n) dst) (sym (length-bytes ram src n))
    ∙ bytes-store_bytes (bytes ram src n) ram dst

-- `sockio_push_back` keeps the bytes, up to the size of its buffer, and refuses more.
pub push_back_keeps :
    (sio : Sockio) (buf n : ℕ)
    → let (ok, sio') = sockio_push_back sio buf n in
      (ok ≡ leb n sio.push_back_max)
      × (sio'.push_back_size ≡ (if ok then n else sio.push_back_size))
      × (bytes sio'.ram sio'.push_back_buf sio'.push_back_size ≡ (
          if ok then bytes sio.ram buf n else bytes sio.ram sio.push_back_buf sio.push_back_size))
unfolding sockio_push_back
push_back_keeps sio buf n = elim (Bool-cases (ltb sio.push_back_max n)) [
  | inl e ↦ rw e (ground arith, refl, refl)
  | inr e ↦ rw e (ground arith, refl, bytes-copy_mem sio.ram buf sio.push_back_base n)
]

-- What a push back leaves elsewhere in memory.
pub push_back_apart :
    (sio : Sockio) (buf n c m : ℕ)
    → (c + m ≤ sio.push_back_base) ⊎ (sio.push_back_base + n ≤ c)
    → bytes (sockio_push_back sio buf n).1.ram c m ≡ bytes sio.ram c m
unfolding sockio_push_back
push_back_apart sio buf n c m apart = elim (Bool-cases (ltb sio.push_back_max n)) [
  | inl e ↦ rw e refl
  | inr e ↦ rw e (
      bytes-store_bytes_apart (bytes sio.ram buf n) sio.ram sio.push_back_base c m
        (elim apart [ inl h ↦ inl h | inr h ↦ inr (omega (arith, length-bytes sio.ram buf n)) ]))
]

-- A second push back that fits replaces the bytes of the first: the outcome does not depend on what
-- was still to be read.
push_back_replaces :
    (sio : Sockio) (buf n pending at : ℕ)
    → n ≤ sio.push_back_max
    → sockio_push_back (record sio { push_back_size = pending; push_back_buf = at }) buf n
      ≡ sockio_push_back sio buf n
unfolding sockio_push_back
push_back_replaces sio buf n pending at h =
    let fits : ltb sio.push_back_max n ≡ false = ground arith in rw fits

-- How many of the bytes that were pushed back the read takes.
abbrev pub taken : Sockio → ℕ → ℕ
taken sio i =
    let room = (sio.msgs i).size - sio.rx_actual in
    if ltb room sio.push_back_size then room else sio.push_back_size

-- The bytes in front of the copy and those of another area stay.
pub bytes-copy_mem_apart :
    (ram : Ram) (src dst n c m : ℕ)
    → (c + m ≤ dst) ⊎ (dst + n ≤ c)
    → bytes (copy_mem ram src dst n) c m ≡ bytes ram c m
bytes-copy_mem_apart ram src dst n c m (inl h) =
    bytes-store_bytes_apart (bytes ram src n) ram dst c m (inl h)
bytes-copy_mem_apart ram src dst n c m (inr h) =
    bytes-store_bytes_apart (bytes ram src n) ram dst c m
      (inr (omega (arith, length-bytes ram src n)))

-- What moves and what stays pushed back make up what was pushed back.
move_pushed-stream :
    (sio : Sockio) (i room : ℕ)
    → (sio.push_back_buf + sio.push_back_size ≤ (sio.msgs i).buf_data + sio.rx_actual)
      ⊎ ((sio.msgs i).buf_data + sio.rx_actual + room ≤ sio.push_back_buf)
    → let sio' = move_pushed sio i room in
      bytes sio'.ram
          ((sio.msgs i).buf_data + sio.rx_actual)
          (if ltb room sio.push_back_size then room else sio.push_back_size)
        ++ bytes sio'.ram sio'.push_back_buf sio'.push_back_size
      ≡ bytes sio.ram sio.push_back_buf sio.push_back_size
move_pushed-stream sio i room apart =
    let ptr = (sio.msgs i).buf_data + sio.rx_actual in
    let at = sio.push_back_buf in
    let n = sio.push_back_size in
    elim (Bool-cases (ltb room n)) [
      | inl e ↦
          let all : room + (n - room) ≡ n = ground arith in
          let clear : (at + room + (n - room) ≤ ptr) ⊎ (ptr + room ≤ at + room) = elim apart [
            | inl h ↦ inl (ground arith)
            | inr h ↦ inr (omega arith)
          ] in
          rw e (
            ap₂ ◌++◌ (bytes-copy_mem sio.ram at ptr room)
              (bytes-copy_mem_apart sio.ram at ptr room (at + room) (n - room) clear)
            ∙ sym (bytes-add sio.ram at room (n - room))
            ∙ ap (bytes sio.ram at) all)
      | inr e ↦ rw (e, append-nil) (bytes-copy_mem sio.ram at ptr n)
    ]

finish_recv_keeps :
    (sio : Sockio) (i : ℕ)
    → let sio' = (finish_recv sio i).1 in
      (sio'.ram ≡ sio.ram)
      × (sio'.push_back_buf ≡ sio.push_back_buf)
      × (sio'.push_back_size ≡ sio.push_back_size)
unfolding finish_recv
finish_recv_keeps sio i = ground arith

-- Where the first read holds no more than its size, that is a ULONG, and the bytes that were pushed
-- back lie apart from the rest of its buffer: the read takes as many of them as it has room for.
-- What it held stays, behind it stand the first of these bytes, and the others, in order, are still
-- pushed back. With its minimum reached the read is taken off the list and replied with the size of
-- all that it holds then; otherwise it stays first and counts the bytes it has taken as received.
pub handle_push_back-stream :
    (sio : Sockio) (i : ℕ) (is : List ℕ)
    → sio.recv_list ≡ i ∷ is
    → sio.rx_actual ≤ (sio.msgs i).size
    → (sio.msgs i).size < 2 ^ 32
    → (sio.push_back_buf + sio.push_back_size ≤ (sio.msgs i).buf_data + sio.rx_actual)
      ⊎ ((sio.msgs i).buf_data + (sio.msgs i).size ≤ sio.push_back_buf)
    → let sio' = (handle_push_back sio i).1 in
      let msg = sio.msgs i in
      let got = sio.rx_actual + taken sio i in
      let done = leb msg.min_size got in
      (bytes sio'.ram msg.buf_data sio.rx_actual ≡ bytes sio.ram msg.buf_data sio.rx_actual)
      × (bytes sio'.ram (msg.buf_data + sio.rx_actual) (taken sio i)
            ++ bytes sio'.ram sio'.push_back_buf sio'.push_back_size
          ≡ bytes sio.ram sio.push_back_buf sio.push_back_size)
      × (sio'.user_port ≡ (if done then sio.user_port ++ (i ∷ []) else sio.user_port))
      × (sio'.recv_list ≡ (if done then is else i ∷ is))
      × (sio'.rx_actual ≡ (if done then 0 else got))
      × ((sio'.msgs i).size ≡ (if done then got else msg.size))
unfolding handle_push_back
handle_push_back-stream sio i is e h small apart =
    let msg = sio.msgs i in
    let room = msg.size - sio.rx_actual in
    let ptr = msg.buf_data + sio.rx_actual in
    let n = if ltb room sio.push_back_size then room else sio.push_back_size in
    let no_wrap : sub_ulong msg.size sio.rx_actual ≡ room = omega arith in
    let clear : (sio.push_back_buf + sio.push_back_size ≤ ptr) ⊎ (ptr + room ≤ sio.push_back_buf) =
      elim apart [ inl a ↦ inl a | inr a ↦ inr (omega arith) ] in
    let (ram, buf, size) =
      finish_recv_keeps (move_pushed sio i (sub_ulong msg.size sio.rx_actual)) i in
    let (d, port, list, actual, length, r) = finish_recv_fields (move_pushed sio i room) i is e in
    rw (ram, buf, size, no_wrap)
      (
        bytes-copy_mem_apart sio.ram sio.push_back_buf ptr n msg.buf_data sio.rx_actual
            (inl (omega arith)),
        move_pushed-stream sio i room clear,
        rw (port, d),
        rw (list, d),
        rw (actual, d),
        rw (length, d),
      )
