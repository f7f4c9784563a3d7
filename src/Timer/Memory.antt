-- ===== src/Timer/Memory.antt =====
-- What `timer_init` allocates and `timer_exit` frees.
use rcli.Common.{
  ◌≡◌, ap, ◌∙◌, ℕ, Option, none, some, List, System, alloc_vec, create_port, free_vec, delete_port,
  alloc_all, free_all, free_vec-alloc_vec, delete_port-create_port, free_all-alloc_all,
}

-- The address of the handle and its port.
pub record Parts : Type 0 where
  pub th : ℕ
  pub port : ℕ

-- What a handle owns that runs jobs at these addresses.
abbrev pub held_by : Parts → List ℕ → System → System
held_by parts jobs sys =
    alloc_all jobs (create_port (some parts.port) (alloc_vec (some parts.th) sys))

-- The handle or NULL, with the addresses that the two allocations give.
unfoldable pub timer_init_memory : Option ℕ → Option ℕ → System → Option Parts × System
timer_init_memory none port sys = (none, sys)
timer_init_memory (some th) none sys = (none, free_vec (some th) (alloc_vec (some th) sys))
timer_init_memory (some th) (some port) sys =
    (some (record { th = th; port = port }), create_port (some port) (alloc_vec (some th) sys))

-- Each job is stopped, which frees it.
unfoldable pub timer_exit_memory : Parts → List ℕ → System → System
timer_exit_memory parts jobs sys =
    free_vec (some parts.th) (delete_port (some parts.port) (free_all jobs sys))

pub timer_exit_memory-held_by :
    (parts : Parts) (jobs : List ℕ) (sys : System)
    → timer_exit_memory parts jobs (held_by parts jobs sys) ≡ sys
unfolding timer_exit_memory
timer_exit_memory-held_by parts jobs sys =
    let one = alloc_vec (some parts.th) sys in
    let two = create_port (some parts.port) one in
    ap (λ s. free_vec (some parts.th) (delete_port (some parts.port) s))
      (free_all-alloc_all jobs two)
    ∙ ap (free_vec (some parts.th)) (delete_port-create_port (some parts.port) one)
    ∙ free_vec-alloc_vec (some parts.th) sys
