-- ===== src/Rclid/Options.antt =====
-- The switches of the command line in `parse_options` of rclid.c.
use rcli.Common.{ℕ, ◌≡◌, refl, false, Option, none, some, is_null}
use rcli.Rclid.{
  Params, parse_options, has_flag, flag_parse_signals, flag_split_lines, flag_do_medium_mode,
  flag_send_mode,
}

flags_by :
    (params : Params) (sig split : Option ℕ)
    → params.no_signals ≡ sig
    → params.no_split ≡ split
    → let flags = (parse_options params).flags in
      (has_flag flags flag_parse_signals ≡ is_null sig)
      × (has_flag flags flag_split_lines ≡ is_null split)
      × (has_flag flags flag_do_medium_mode ≡ false)
      × (has_flag flags flag_send_mode ≡ false)
unfolding parse_options
flags_by params none none e h = rw (e, h) (refl, refl, refl, refl)
flags_by params (some x) none e h = rw (e, h) (refl, refl, refl, refl)
flags_by params none (some y) e h = rw (e, h) (refl, refl, refl, refl)
flags_by params (some x) (some y) e h = rw (e, h) (refl, refl, refl, refl)

-- Each of the two switches clears its own flag and no other: signals are parsed just where
-- `NO_SIGNALS` is not given, lines are split just where `NO_SPLIT` is not given, and the other two
-- modes are off.
parse_options-flags :
    (params : Params)
    → let flags = (parse_options params).flags in
      (has_flag flags flag_parse_signals ≡ is_null params.no_signals)
      × (has_flag flags flag_split_lines ≡ is_null params.no_split)
      × (has_flag flags flag_do_medium_mode ≡ false)
      × (has_flag flags flag_send_mode ≡ false)
parse_options-flags params = flags_by params params.no_signals params.no_split refl refl
