-- ===== src/Conv.antt =====
-- amiga/rclid/conv.c: control signals taken out of a buffer in place.
pub mod Extract
use rcli.Common.{
  ℕ, zero, suc, ◌+◌, ◌-◌, Bool, true, false, ◌&&◌, List, [], ◌∷◌, ltb, leb, if◌then◌else◌, get_or,
  set, Ram, store,
}

-- `buf_t`
pub record Buf : Type 0 where
  pub buf_data : ℕ
  pub size : ℕ

abbrev pub num_signals : ℕ
num_signals = 4

abbrev pub start_signal : ℕ
start_signal = 3

-- `ch >= START_SIGNAL && ch < START_SIGNAL + NUM_SIGNALS` for a signed `BYTE`: a pattern from 128
-- on is negative.
abbrev pub is_signal : ℕ → Bool
is_signal ch = ltb ch 128 && (leb start_signal ch && ltb ch (start_signal + num_signals))

-- The loop's variables.
pub record Scan : Type 0 where
  pub ram : Ram
  pub src : ℕ
  pub dst : ℕ
  pub copy : Bool
  pub out_size : ℕ
  pub changes : ℕ
  pub counts : List ℕ

-- One round of the loop.
pub scan_byte : Scan → Scan
scan_byte s =
    let ch = s.ram s.src in
    if is_signal ch
    then record s {
      src = s.src + 1;
      copy = true;
      out_size = s.out_size - 1;
      changes = s.changes + 1;
      counts = set s.counts (ch - start_signal) (get_or s.counts (ch - start_signal) 0 + 1);
    }
    else record s {
      ram = if s.copy then store s.ram s.dst ch else s.ram;
      src = s.src + 1;
      dst = s.dst + 1;
    }

-- `for(i = 0; i < size; i++)`, by the rounds left.
pub scan : ℕ → Scan → Scan
scan zero s = s
scan (suc n) s = scan n (scan_byte s)

-- What `conv_extract_signals` leaves: the memory, the buffer, `sig_info` and the result.
pub record Extracted : Type 0 where
  pub ram : Ram
  pub buf : Buf
  pub counts : List ℕ
  pub changes : ℕ

abbrev pub scan_start : Ram → Buf → Scan
scan_start ram buf = record {
  ram = ram;
  src = buf.buf_data;
  dst = buf.buf_data;
  copy = false;
  out_size = buf.size;
  changes = 0;
  counts = 0 ∷ 0 ∷ 0 ∷ 0 ∷ [];
}

unfoldable pub conv_extract_signals : Ram → Buf → Extracted
conv_extract_signals ram buf =
    let s = scan buf.size (scan_start ram buf) in
    record {
      ram = s.ram;
      buf = record buf { size = if s.copy then s.out_size else buf.size };
      counts = s.counts;
      changes = s.changes;
    }
