-- ===== src/Conv/Extract.antt =====
-- conv.c against a plain description: the bytes that are no signals, in order, and a count of
-- each signal.
use rcli.Common.{
  ℕ, zero, suc, ◌+◌, ◌-◌, ◌≤◌, ◌<◌, ◌≡◌, refl, ◌∙◌, ap, ap₂, ◌⊎◌, inl, inr, true, false, List, [],
  ◌∷◌, arith, ltb, if◌then◌else◌, length, get_or, count, Ram, bytes, bytes_eq, Bool-cases, ◌||◌,
  length-set, get_or-set, subst, length-bytes,
}
use rcli.Conv.{
  Buf, Scan, is_signal, start_signal, num_signals, scan_byte, scan, scan_start,
  conv_extract_signals,
}

-- The bytes that are no signals.
abbrev pub plain : List ℕ → List ℕ
plain [] = []
plain (b ∷ bs) = if is_signal b then plain bs else b ∷ plain bs

-- How many bytes are signals.
abbrev pub signals : List ℕ → ℕ
signals [] = 0
signals (b ∷ bs) = (if is_signal b then 1 else 0) + signals bs

-- The loop writes at or behind the byte that it reads, and has copied nothing before the first
-- signal.
record InStep (s : Scan) : Type 0 where
  behind : s.dst ≤ s.src
  level : s.copy ≡ false → s.dst ≡ s.src

scan_byte-InStep : (s : Scan) → InStep s → InStep (scan_byte s)
unfolding scan_byte
scan_byte-InStep s v = record { behind = ground arith; level = λ e. ground arith }

-- One round changes no byte below `dst`, nor any from the byte behind `src` on.
scan_byte_frame :
    (s : Scan) (x : ℕ) → InStep s → (x < s.dst) ⊎ (s.src < x) → (scan_byte s).ram x ≡ s.ram x
unfolding scan_byte
scan_byte_frame s x v (inl h) = ground arith
scan_byte_frame s x v (inr h) = ground (arith, v.behind)

scan_byte_moves : (s : Scan) → (s.dst ≤ (scan_byte s).dst) × ((scan_byte s).src ≡ s.src + 1)
unfolding scan_byte
scan_byte_moves s = ground arith

scan_frame :
    (n : ℕ) (s : Scan) (x : ℕ)
    → InStep s
    → (x < s.dst) ⊎ (s.src + n ≤ x)
    → (scan n s).ram x ≡ s.ram x
unfolding scan
scan_frame zero s x v h = refl
scan_frame (suc n) s x v (inl h) =
    let moves = scan_byte_moves s in
    scan_frame n (scan_byte s) x (scan_byte-InStep s v) (inl (omega arith))
    ∙ scan_byte_frame s x v (inl h)
scan_frame (suc n) s x v (inr h) =
    let moves = scan_byte_moves s in
    scan_frame n (scan_byte s) x (scan_byte-InStep s v) (inr (omega arith))
    ∙ scan_byte_frame s x v (inr (omega arith))

-- The bytes still to read are as they were.
scan_byte_ahead :
    (n : ℕ) (s : Scan)
    → InStep s
    → bytes (scan_byte s).ram (s.src + 1) n ≡ bytes s.ram (s.src + 1) n
scan_byte_ahead n s v =
    bytes_eq _ s.ram (s.src + 1) n (λ x p q. scan_byte_frame s x v (inr (omega arith)))

-- A byte that is no signal goes to `dst`, or stands there already.
scan_byte_keeps :
    (s : Scan)
    → InStep s
    → is_signal (s.ram s.src) ≡ false
    → ((scan_byte s).ram s.dst ≡ s.ram s.src) × ((scan_byte s).dst ≡ s.dst + 1)
unfolding scan_byte
scan_byte_keeps s v e = (ground (arith, v.level), ground arith)

scan_byte_drops : (s : Scan) → is_signal (s.ram s.src) ≡ true → (scan_byte s).dst ≡ s.dst
unfolding scan_byte
scan_byte_drops s e = ground arith

scan-bytes :
    (n : ℕ) (s : Scan)
    → InStep s
    → let kept = plain (bytes s.ram s.src n) in bytes (scan n s).ram s.dst (length kept) ≡ kept
unfolding scan scan_byte
scan-bytes zero s v = refl
scan-bytes (suc n) s v =
    let rest = scan-bytes n (scan_byte s) (scan_byte-InStep s v) in
    let moves = scan_byte_moves s in
    elim (Bool-cases (is_signal (s.ram s.src))) [
      | inl e ↦ rw (e, ← scan_byte_ahead n s v) (rw (scan_byte_drops s e, moves.1) at rest)
      | inr e ↦
          let keeps = scan_byte_keeps s v e in
          rw (e, ← scan_byte_ahead n s v)
            (ap₂ ◌∷◌
              (scan_frame n (scan_byte s) s.dst (scan_byte-InStep s v) (inl (omega arith))
                ∙ keeps.0)
              (rw (keeps.1, moves.1) at rest))
    ]

-- What the loop counts: changes, sizes and signals of each kind, over the bytes `bs` that it reads.
record Counted (bs : List ℕ) (s t : Scan) : Type 0 where
  changed : t.changes ≡ s.changes + signals bs
  shrunk : t.out_size + signals bs ≡ s.out_size
  copied : t.copy ≡ (s.copy || ltb 0 (signals bs))
  four : length t.counts ≡ num_signals
  counted :
      (k : ℕ)
      → k < num_signals
      → get_or t.counts k 0 ≡ get_or s.counts k 0 + count (start_signal + k) bs

signals-le : (bs : List ℕ) → signals bs + length (plain bs) ≡ length bs
signals-le [] = refl
signals-le (b ∷ bs) = ground (arith, signals-le bs)

scan_byte-Counted :
    (s : Scan)
    → length s.counts ≡ num_signals
    → 0 < s.out_size
    → Counted (s.ram s.src ∷ []) s (scan_byte s)
unfolding scan_byte
scan_byte-Counted s h room = record {
  changed = ground arith;
  shrunk = ground arith;
  copied = ground arith;
  four =
      ground
        (arith, length-set s.counts (s.ram s.src - 3) (get_or s.counts (s.ram s.src - 3) 0 + 1));
  counted = λ k lt.
      ground (
        arith,
        get_or-set s.counts (s.ram s.src - 3) k (get_or s.counts (s.ram s.src - 3) 0 + 1) 0,
      );
}

scan_byte_rest :
    (n : ℕ) (s : Scan)
    → InStep s
    → bytes (scan_byte s).ram (scan_byte s).src n ≡ bytes s.ram (s.src + 1) n
scan_byte_rest n s v =
    ap (λ a. bytes (scan_byte s).ram a n) (scan_byte_moves s).1 ∙ scan_byte_ahead n s v

scan-Counted :
    (n : ℕ) (s : Scan)
    → InStep s
    → length s.counts ≡ num_signals
    → n ≤ s.out_size
    → Counted (bytes s.ram s.src n) s (scan n s)
unfolding scan
scan-Counted zero s v h room = record {
  changed = omega arith;
  shrunk = omega arith;
  copied = ground arith;
  four = h;
  counted = λ k lt. omega arith;
}
scan-Counted (suc n) s v h room =
    let one = scan_byte-Counted s h (omega arith) in
    let moves = scan_byte_moves s in
    let rest =
      subst (λ bs. Counted bs (scan_byte s) (scan n (scan_byte s))) (scan_byte_rest n s v)
        (scan-Counted n (scan_byte s) (scan_byte-InStep s v) one.four
          (ground (arith, one.shrunk))) in
    record {
      changed = omega (arith, one.changed, rest.changed);
      shrunk = omega (arith, one.shrunk, rest.shrunk);
      copied = ground (arith, one.copied, rest.copied);
      four = rest.four;
      counted = λ k lt. omega (arith, one.counted k lt, rest.counted k lt);
    }

start-InStep : (ram : Ram) (buf : Buf) → InStep (scan_start ram buf)
start-InStep ram buf = omega arith

-- For every memory and buffer: afterwards the buffer holds exactly the bytes that are no signals,
-- in order, its size is their number, and the result is the number of signals taken out.
pub extract-plain :
    (ram : Ram) (buf : Buf)
    → let e = conv_extract_signals ram buf in
      let before = bytes ram buf.buf_data buf.size in
      (bytes e.ram e.buf.buf_data e.buf.size ≡ plain before)
      × (e.buf.size ≡ length (plain before))
      × (e.changes ≡ signals before)
unfolding conv_extract_signals
extract-plain ram buf =
    let start = scan_start ram buf in
    let v = start-InStep ram buf in
    let c = scan-Counted buf.size start v refl (omega arith) in
    let before = bytes ram buf.buf_data buf.size in
    let kept = scan-bytes buf.size start v in
    let size : (if (scan buf.size start).copy then (scan buf.size start).out_size else buf.size)
        ≡ length (plain before) =
      ground
        (arith, c.copied, c.shrunk, signals-le before, length-bytes ram buf.buf_data buf.size) in
    (ap (bytes (scan buf.size start).ram buf.buf_data) size ∙ kept, size, omega (arith, c.changed))

-- Each of the four counters holds the number of the bytes that are its signal.
pub extract-counts :
    (ram : Ram) (buf : Buf) (k : ℕ)
    → k < num_signals
    → get_or (conv_extract_signals ram buf).counts k 0
      ≡ count (start_signal + k) (bytes ram buf.buf_data buf.size)
unfolding conv_extract_signals
extract-counts ram buf k lt =
    let start = scan_start ram buf in
    let c = scan-Counted buf.size start (start-InStep ram buf) refl (omega arith) in
    ground (arith, c.counted k lt)

-- No byte outside the buffer is written.
extract_frame :
    (ram : Ram) (buf : Buf) (x : ℕ)
    → (x < buf.buf_data) ⊎ (buf.buf_data + buf.size ≤ x)
    → (conv_extract_signals ram buf).ram x ≡ ram x
unfolding conv_extract_signals
extract_frame ram buf x h = scan_frame buf.size (scan_start ram buf) x (start-InStep ram buf) h
