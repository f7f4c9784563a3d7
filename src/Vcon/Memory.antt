-- ===== src/Vcon/Memory.antt =====
-- What `vcon_init` allocates and `vcon_exit` frees.
use rcli.Common.{
  ◌≡◌, Bool, true, false, Option, none, some, ℕ, System, alloc_vec, create_port, free_vec,
  delete_port,
}

-- The address of the handle, and its pointers to what it owns, which are NULL at first.
pub record Parts : Type 0 where
  pub sh : Option ℕ
  pub vmsgs : Option ℕ
  pub pkt_port : Option ℕ
  pub vmsg_port : Option ℕ

abbrev parts_of : Option ℕ → Option ℕ → Option ℕ → Option ℕ → Parts
parts_of sh vmsgs pkt_port vmsg_port = record {
  sh = sh;
  vmsgs = vmsgs;
  pkt_port = pkt_port;
  vmsg_port = vmsg_port;
}

unfoldable pub vcon_exit : Parts → System → System
vcon_exit parts sys =
    free_vec parts.sh
      (free_vec parts.vmsgs (delete_port parts.pkt_port (delete_port parts.vmsg_port sys)))

-- The jump to `fail` with the pointers that the handle holds.
abbrev fail : Parts → System → Option Parts × System
unfolding vcon_exit
fail parts sys = (none, vcon_exit parts sys)

-- The handle or NULL. The arguments are whether there is a user's port, and the address that each
-- allocation gives, in their order. What is allocated and what the handle points to are apart.
unfoldable pub vcon_init_memory :
    Bool → Option ℕ → Option ℕ → Option ℕ → Option ℕ → System → Option Parts × System
unfolding fail
vcon_init_memory false sh vmsgs pkt_port vmsg_port sys = (none, sys)
vcon_init_memory true none vmsgs pkt_port vmsg_port sys = (none, sys)
vcon_init_memory true (some sh) none pkt_port vmsg_port sys =
    fail (parts_of (some sh) none none none) (alloc_vec (some sh) sys)
vcon_init_memory true (some sh) (some vmsgs) none vmsg_port sys =
    fail (parts_of (some sh) (some vmsgs) none none)
      (alloc_vec (some vmsgs) (alloc_vec (some sh) sys))
vcon_init_memory true (some sh) (some vmsgs) (some pkt_port) none sys =
    fail (parts_of (some sh) (some vmsgs) (some pkt_port) none)
      (create_port (some pkt_port) (alloc_vec (some vmsgs) (alloc_vec (some sh) sys)))
vcon_init_memory true (some sh) (some vmsgs) (some pkt_port) (some vmsg_port) sys = (
  some (parts_of (some sh) (some vmsgs) (some pkt_port) (some vmsg_port)),
  create_port (some vmsg_port)
      (create_port (some pkt_port) (alloc_vec (some vmsgs) (alloc_vec (some sh) sys))),
)

-- All that these pointers may point to, allocated one after the other.
abbrev held_by : Parts → System → System
held_by parts sys =
    create_port parts.vmsg_port
      (create_port parts.pkt_port (alloc_vec parts.vmsgs (alloc_vec parts.sh sys)))

-- What an attempt leaves: nothing where it gives NULL, and what `vcon_exit` frees where it does not.
abbrev pub Clean : System → Option Parts × System → Type 0
Clean sys (none, sys') = sys' ≡ sys
Clean sys (some parts, sys') = vcon_exit parts sys' ≡ sys
