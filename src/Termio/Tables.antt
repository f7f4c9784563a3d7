-- ===== src/Termio/Tables.antt =====
-- The tables of amiga/tools/termio.c, and the functions that search them.
use Prim.Native.String.{String}
use text.Mathlib.Text.{◌==◌ as str_eq}
use rcli.Common.{ℕ, Bool, true, false, Option, none, some, List, [], ◌∷◌, ◌==◌, ◌&&◌, if◌then◌else◌}
use rcli.Termio.{CmdCode}

-- `termio_key_code`
pub record KeyCode : Type 0 where
  pub name : String
  pub seq : List ℕ

abbrev key : String → List ℕ → KeyCode
key name seq = record { name = name; seq = seq }

abbrev code : String → List ℕ → Option (List ℕ) → CmdCode
code name seq params = record { name = name; seq = seq; params = params }

unfoldable pub key_codes : List KeyCode
key_codes =
    key "F1" (0x9b ∷ b'0' ∷ b'~' ∷ [])
    ∷ key "F2" (0x9b ∷ b'1' ∷ b'~' ∷ [])
    ∷ key "F3" (0x9b ∷ b'2' ∷ b'~' ∷ [])
    ∷ key "F4" (0x9b ∷ b'3' ∷ b'~' ∷ [])
    ∷ key "F5" (0x9b ∷ b'4' ∷ b'~' ∷ [])
    ∷ key "F6" (0x9b ∷ b'5' ∷ b'~' ∷ [])
    ∷ key "F7" (0x9b ∷ b'6' ∷ b'~' ∷ [])
    ∷ key "F8" (0x9b ∷ b'7' ∷ b'~' ∷ [])
    ∷ key "F9" (0x9b ∷ b'8' ∷ b'~' ∷ [])
    ∷ key "F10" (0x9b ∷ b'9' ∷ b'~' ∷ [])
    ∷ key "F11" (0x9b ∷ b'2' ∷ b'0' ∷ b'~' ∷ [])
    ∷ key "F12" (0x9b ∷ b'2' ∷ b'1' ∷ b'~' ∷ [])
    ∷ key "Shift+F1" (0x9b ∷ b'1' ∷ b'0' ∷ b'~' ∷ [])
    ∷ key "Shift+F2" (0x9b ∷ b'1' ∷ b'1' ∷ b'~' ∷ [])
    ∷ key "Shift+F3" (0x9b ∷ b'1' ∷ b'2' ∷ b'~' ∷ [])
    ∷ key "Shift+F4" (0x9b ∷ b'1' ∷ b'3' ∷ b'~' ∷ [])
    ∷ key "Shift+F5" (0x9b ∷ b'1' ∷ b'4' ∷ b'~' ∷ [])
    ∷ key "Shift+F6" (0x9b ∷ b'1' ∷ b'5' ∷ b'~' ∷ [])
    ∷ key "Shift+F7" (0x9b ∷ b'1' ∷ b'6' ∷ b'~' ∷ [])
    ∷ key "Shift+F8" (0x9b ∷ b'1' ∷ b'7' ∷ b'~' ∷ [])
    ∷ key "Shift+F9" (0x9b ∷ b'1' ∷ b'8' ∷ b'~' ∷ [])
    ∷ key "Shift+F10" (0x9b ∷ b'1' ∷ b'9' ∷ b'~' ∷ [])
    ∷ key "Shift+F11" (0x9b ∷ b'3' ∷ b'0' ∷ b'~' ∷ [])
    ∷ key "Shift+F12" (0x9b ∷ b'3' ∷ b'1' ∷ b'~' ∷ [])
    ∷ key "HELP" (0x9b ∷ b'?' ∷ b'~' ∷ [])
    ∷ key "Insert" (0x9b ∷ b'4' ∷ b'0' ∷ b'~' ∷ [])
    ∷ key "Page Up" (0x9b ∷ b'4' ∷ b'1' ∷ b'~' ∷ [])
    ∷ key "Page Down" (0x9b ∷ b'4' ∷ b'2' ∷ b'~' ∷ [])
    ∷ key "Pause/Break" (0x9b ∷ b'4' ∷ b'3' ∷ b'~' ∷ [])
    ∷ key "Home" (0x9b ∷ b'4' ∷ b'4' ∷ b'~' ∷ [])
    ∷ key "End" (0x9b ∷ b'4' ∷ b'5' ∷ b'~' ∷ [])
    ∷ key "Shift+Insert" (0x9b ∷ b'5' ∷ b'0' ∷ b'~' ∷ [])
    ∷ key "Shift+Page Up" (0x9b ∷ b'5' ∷ b'1' ∷ b'~' ∷ [])
    ∷ key "Shift+Page Down" (0x9b ∷ b'5' ∷ b'2' ∷ b'~' ∷ [])
    ∷ key "Shift+Pause/Break" (0x9b ∷ b'5' ∷ b'3' ∷ b'~' ∷ [])
    ∷ key "Shift+Home" (0x9b ∷ b'5' ∷ b'4' ∷ b'~' ∷ [])
    ∷ key "Shift+End" (0x9b ∷ b'5' ∷ b'5' ∷ b'~' ∷ [])
    ∷ key "Up" (0x9b ∷ b'A' ∷ [])
    ∷ key "Down" (0x9b ∷ b'B' ∷ [])
    ∷ key "Right" (0x9b ∷ b'C' ∷ [])
    ∷ key "Left" (0x9b ∷ b'D' ∷ [])
    ∷ key "Shift+Up" (0x9b ∷ b'T' ∷ [])
    ∷ key "Shift+Down" (0x9b ∷ b'S' ∷ [])
    ∷ key "Shift+Right" (0x9b ∷ 0x20 ∷ b'A' ∷ [])
    ∷ key "Shift+Left" (0x9b ∷ 0x20 ∷ b'@' ∷ [])
    ∷ []

unfoldable pub cmd_codes : List CmdCode
cmd_codes =
    code "bell" (0x07 ∷ []) none
    ∷ code "backspace" (0x08 ∷ []) none
    ∷ code "hor_tab" (0x09 ∷ []) none
    ∷ code "line_feed" (0x0a ∷ []) none
    ∷ code "ver_tab" (0x0b ∷ []) none
    ∷ code "form_feed" (0x0c ∷ []) none
    ∷ code "return" (0x0d ∷ []) none
    ∷ code "shift_in" (0x0e ∷ []) none
    ∷ code "shift_out" (0x0f ∷ []) none
    ∷ code "index" (0x84 ∷ []) none
    ∷ code "next_line" (0x85 ∷ []) none
    ∷ code "hor_tab_set" (0x88 ∷ []) none
    ∷ code "rev_index" (0x8d ∷ []) none
    ∷ code "esc" (0x1b ∷ []) none
    ∷ code "csi" (0x9b ∷ []) none
    ∷ code "raw" [] (some (b's' ∷ []))
    ∷ code "reset" (0x1b ∷ b'c' ∷ []) none
    ∷ code "insert" (0x9b ∷ b'@' ∷ []) (some (b'n' ∷ []))
    ∷ code "up" (0x9b ∷ b'A' ∷ []) (some (b'n' ∷ []))
    ∷ code "down" (0x9b ∷ b'B' ∷ []) (some (b'n' ∷ []))
    ∷ code "forward" (0x9b ∷ b'C' ∷ []) (some (b'n' ∷ []))
    ∷ code "backward" (0x9b ∷ b'D' ∷ []) (some (b'n' ∷ []))
    ∷ code "next_line" (0x9b ∷ b'E' ∷ []) (some (b'n' ∷ []))
    ∷ code "prev_line" (0x9b ∷ b'F' ∷ []) (some (b'n' ∷ []))
    ∷ code "set_cursor" (0x9b ∷ b'H' ∷ []) (some (b'n' ∷ b'n' ∷ []))
    ∷ code "hor_tab" (0x9b ∷ b'I' ∷ []) (some (b'n' ∷ []))
    ∷ code "erase_screen" (0x9b ∷ b'J' ∷ []) none
    ∷ code "erase_line" (0x9b ∷ b'K' ∷ []) none
    ∷ code "insert_line" (0x9b ∷ b'L' ∷ []) none
    ∷ code "delete_line" (0x9b ∷ b'M' ∷ []) none
    ∷ code "delete" (0x9b ∷ b'P' ∷ []) (some (b'n' ∷ []))
    ∷ code "scroll_up" (0x9b ∷ b'S' ∷ []) (some (b'n' ∷ []))
    ∷ code "scroll_down" (0x9b ∷ b'T' ∷ []) (some (b'n' ∷ []))
    ∷ code "tab_control" (0x9b ∷ b'W' ∷ []) (some (b'n' ∷ []))
    ∷ code "back_tab" (0x9b ∷ b'Z' ∷ []) (some (b'n' ∷ []))
    ∷ code "get_cursor" (0x9b ∷ b'6' ∷ b'n' ∷ []) none
    ∷ code "crlf" (0x9b ∷ b'2' ∷ b'0' ∷ b'h' ∷ []) none
    ∷ code "lf" (0x9b ∷ b'2' ∷ b'0' ∷ b'l' ∷ []) none
    ∷ code "mode" (0x9b ∷ b'm' ∷ []) (some (b'n' ∷ []))
    ∷ code "fg" (0x9b ∷ b'm' ∷ []) (some (b'f' ∷ []))
    ∷ code "cc" (0x9b ∷ b'm' ∷ []) (some (b'c' ∷ []))
    ∷ code "bg" (0x9b ∷ b'm' ∷ []) (some (b'b' ∷ []))
    ∷ code "attr" (0x9b ∷ b'm' ∷ []) (some (b'n' ∷ b'f' ∷ b'c' ∷ b'b' ∷ []))
    ∷ code "scroll_on" (0x9b ∷ b'>' ∷ b'1' ∷ b'h' ∷ []) none
    ∷ code "scroll_off" (0x9b ∷ b'>' ∷ b'1' ∷ b'l' ∷ []) none
    ∷ code "wrap_on" (0x9b ∷ b'?' ∷ b'1' ∷ b'h' ∷ []) none
    ∷ code "wrap_off" (0x9b ∷ b'?' ∷ b'1' ∷ b'l' ∷ []) none
    ∷ code "cursor_on" (0x9b ∷ 0x20 ∷ b'p' ∷ []) none
    ∷ code "cursor_off" (0x9b ∷ b'0' ∷ 0x20 ∷ b'p' ∷ []) none
    ∷ code "get_size" (0x9b ∷ b'0' ∷ 0x20 ∷ b'q' ∷ []) none
    ∷ code "paste" (0x9b ∷ b'0' ∷ 0x20 ∷ b'v' ∷ []) none
    ∷ []

-- `strncmp(seq, code, strlen(code)) == 0`
abbrev pub starts_with : List ℕ → List ℕ → Bool
starts_with seq [] = true
starts_with [] (c ∷ cs) = false
starts_with (b ∷ bs) (c ∷ cs) = b == c && starts_with bs cs

unfoldable pub find_key_in : List KeyCode → List ℕ → Option KeyCode
find_key_in [] seq = none
find_key_in (k ∷ ks) seq = if starts_with seq k.seq then some k else find_key_in ks seq

unfoldable pub termio_find_key_code : List ℕ → Option KeyCode
termio_find_key_code = find_key_in key_codes

unfoldable pub find_cmd_in : List CmdCode → String → Option CmdCode
find_cmd_in [] name = none
find_cmd_in (c ∷ cs) name = if str_eq name c.name then some c else find_cmd_in cs name

unfoldable pub termio_find_cmd_code : String → Option CmdCode
termio_find_cmd_code = find_cmd_in cmd_codes
