-- ===== src/Vcon/Packets.antt =====
-- `handle_dos_pkt` of vcon.c: one function for each action of a DOS packet.
use rcli.Common.{
  ℕ, ◌+◌, ◌-◌, ◌*◌, ◌^◌, ◌%◌, Option, none, some, [], ◌∷◌, ◌++◌, ◌==◌, if◌then◌else◌, not,
}
use rcli.Vcon.{
  Vcon, MsgType, State, Action, DosPacket, init_fh, set_info, is_flush, dos_true, dos_false,
  error_no_free_store, error_action_not_known, error_object_wrong_type, alloc_vmsg, reply_pkt,
  put_user,
}

-- How the switch is left: with a reply to send, or with the reply deferred to the client.
pub data Outcome : Type 0 where
  reply : Vcon → ℕ → ℕ → Outcome
  defer : Vcon → Outcome

-- A BPTR counts long words.
abbrev pub baddr : ℕ → ℕ
baddr b = b * 4 % 2 ^ 32

-- Address 0 is NULL.
abbrev pub pointer : ℕ → Option ℕ
pointer a = if a == 0 then none else some a

abbrev pub address_or_null : Option ℕ → ℕ
address_or_null none = 0
address_or_null (some a) = a

-- Lends a message for the packet. Without a free one the packet fails, and `failed` is the state
-- that this branch leaves.
unfoldable pub lend : Vcon → DosPacket → MsgType → ℕ → ℕ → State → Outcome
lend sh pkt type buf_data size failed = elim (alloc_vmsg sh type buf_data size (some pkt.address)) [
  | none ↦ reply (record sh { state = failed }) dos_false error_no_free_store
  | some (i, sh') ↦ defer (put_user sh' i)
]

unfoldable pub on_open : Vcon → DosPacket → Outcome
on_open sh pkt =
    reply
      (record sh {
        open_cnt = (sh.open_cnt + 1) % 2 ^ 32;
        effects = sh.effects ++ (init_fh (baddr pkt.dp_arg1) ∷ []);
      })
      dos_true 0

-- The end message has no packet of its own.
unfoldable pub post_end : Vcon → Outcome
post_end sh = elim (alloc_vmsg sh MsgType.end 0 0 none) [
  | none ↦ reply sh dos_false error_no_free_store
  | some (i, sh') ↦ reply (put_user sh' i) dos_true 0
]

unfoldable pub on_end : Vcon → Outcome
on_end sh =
    let sh' = record sh { open_cnt = (sh.open_cnt + 2 ^ 32 - 1) % 2 ^ 32 } in
    if sh'.open_cnt == 0
    then post_end (record sh' { state = State.close })
    else reply sh' dos_true 0

unfoldable pub on_change_signal : Vcon → DosPacket → Outcome
on_change_signal sh pkt =
    reply (record sh { read_signal_port = pointer pkt.dp_arg2 }) dos_true
      (address_or_null sh.read_signal_port)

-- `mode` is a LONG: -1 is the pattern of all ones. The fields are one byte wide.
abbrev pub screen_mode_of : Vcon → DosPacket → Vcon
screen_mode_of sh pkt =
    let mode = if pkt.dp_arg1 == 2 ^ 32 - 1 then 1 else pkt.dp_arg1 in
    record sh { buffer_mode = mode % 256 }

unfoldable pub on_screen_mode : Vcon → DosPacket → Outcome
on_screen_mode sh pkt =
    let sh' = screen_mode_of sh pkt in lend sh' pkt MsgType.buffer_mode 0 0 sh'.state

abbrev pub con_type : ℕ
con_type = 0x434f4e00

abbrev pub raw_type : ℕ
raw_type = 0x52415700

unfoldable pub on_disk_info : Vcon → DosPacket → Outcome
on_disk_info sh pkt =
    let type = if not (sh.buffer_mode == 1) then con_type else raw_type in
    reply (record sh { effects = sh.effects ++ (set_info (baddr pkt.dp_arg1) type ∷ []) }) dos_true
      0

-- The caller of a read or a write becomes the target of signals, whatever comes of the packet.
abbrev pub with_write_port : DosPacket → Vcon → Vcon
with_write_port pkt sh = record sh { write_signal_port = pointer pkt.dp_port }

abbrev pub with_read_port : DosPacket → Vcon → Vcon
with_read_port pkt sh = record sh { read_signal_port = pointer pkt.dp_port }

unfoldable pub on_write : Vcon → DosPacket → Outcome
on_write sh pkt =
    let sh' = with_write_port pkt sh in
    if is_flush sh.state
    then reply sh' pkt.dp_arg3 0
    else lend sh' pkt MsgType.write pkt.dp_arg2 pkt.dp_arg3 State.error

unfoldable pub on_read : Vcon → DosPacket → Outcome
on_read sh pkt =
    let sh' = with_read_port pkt sh in
    if is_flush sh.state
    then reply sh' 0 0
    else lend sh' pkt MsgType.read pkt.dp_arg2 pkt.dp_arg3 State.error

-- The timeout travels in `buffer.size`.
unfoldable pub on_wait_char : Vcon → DosPacket → Outcome
on_wait_char sh pkt =
    if is_flush sh.state
    then reply sh dos_false 0
    else lend sh pkt MsgType.wait_char 0 pkt.dp_arg1 State.error

unfoldable pub dispatch : Action → Vcon → DosPacket → Outcome
dispatch Action.findinput sh pkt = on_open sh pkt
dispatch Action.findoutput sh pkt = on_open sh pkt
dispatch Action.findupdate sh pkt = on_open sh pkt
dispatch Action.end sh pkt = on_end sh
dispatch Action.change_signal sh pkt = on_change_signal sh pkt
dispatch Action.screen_mode sh pkt = on_screen_mode sh pkt
dispatch Action.disk_info sh pkt = on_disk_info sh pkt
dispatch Action.undisk_info sh pkt = reply sh dos_true 0
dispatch Action.write sh pkt = on_write sh pkt
dispatch Action.read sh pkt = on_read sh pkt
dispatch Action.seek sh pkt = reply sh dos_false error_object_wrong_type
dispatch Action.wait_char sh pkt = on_wait_char sh pkt
dispatch (Action.other n) sh pkt = reply sh dos_false error_action_not_known

unfoldable pub settle : DosPacket → Outcome → Vcon
settle pkt (reply sh res1 res2) = reply_pkt sh pkt.address res1 res2
settle pkt (defer sh) = sh

unfoldable pub handle_dos_pkt : Vcon → DosPacket → Vcon
handle_dos_pkt sh pkt = settle pkt (dispatch pkt.dp_type sh pkt)
