-- ===== src/Tests/Memory.antt =====
-- Handles that are set up and torn down, for amiga/rclid/vcon.c and sockio.c.
use rcli.Common.{[], ◌∷◌, System}

abbrev before : System
before = record { blocks = 4 ∷ []; ports = []; wild = [] }
