-- ===== src/Serv.antt =====
-- amiga/rclid/serv.c, serv.h: what a service does first and last: the libraries, the arguments, and
-- the socket that runserv or inetd passes on.
pub mod Exits
use rcli.Common.{
  ℕ, ◌^◌, ◌%◌, Bool, true, false, Option, none, some, List, [], ◌∷◌, not, if◌then◌else◌, remove,
}

-- `serv_params_t`, with the numbers behind the pointers.
pub record ServParams : Type 0 where
  pub socket : Option ℕ
  pub task : Option ℕ
  pub signal : Option ℕ

-- What the process has open.
pub record Opened : Type 0 where
  pub dos : Bool
  pub socket_lib : Bool
  pub args : Bool
  pub sockets : List ℕ

abbrev pub nothing : Opened
nothing = record { dos = false; socket_lib = false; args = false; sockets = [] }

-- The signal that was sent: the task, and the mask.
pub record Sent : Type 0 where
  pub task : ℕ
  pub mask : ℕ

-- `ObtainSocket` by the identification of the socket: its number, or `none` for -1.
abbrev pub Obtain : Type 0
Obtain = ℕ → Option ℕ

-- `1 << signal` on 32 bits.
abbrev pub mask_of : ℕ → ℕ
mask_of signal = 2 ^ signal % 2 ^ 32

-- The socket and the signal. `daemon` is `dm_ID` of the message of inetd, if there is one.
unfoldable pub get_socket : ServParams → Obtain → Option ℕ → Option ℕ × Option Sent
get_socket params obtain daemon = elim params.socket [
  | none ↦ elim daemon [ none ↦ (none, none) | some id ↦ (obtain id, none) ]
  | some sock_id ↦ elim params.task [
    | none ↦ elim daemon [ none ↦ (none, none) | some id ↦ (obtain id, none) ]
    | some task ↦ elim params.signal [
      | none ↦ elim daemon [ none ↦ (none, none) | some id ↦ (obtain id, none) ]
      | some signal ↦ (obtain sock_id, some (record { task = task; mask = mask_of signal }))
    ]
  ]
]

-- What the system answers: whether the libraries open, the arguments, and the sockets.
pub record ServAnswer : Type 0 where
  pub dos : Bool
  pub socket_lib : Bool
  pub args : Option ServParams
  pub obtain : Obtain
  pub daemon : Option ℕ

-- The socket (`none` for -1), the signal that was sent, and what is open then.
pub record ServResult : Type 0 where
  pub socket : Option ℕ
  pub sent : Option Sent
  pub opened : Opened

abbrev pub finish_init : Option ℕ × Option Sent → ServResult
finish_init (none, sent) = record {
  socket = none;
  sent = sent;
  opened = record { dos = true; socket_lib = true; args = false; sockets = [] };
}
finish_init (some fd, sent) = record {
  socket = some fd;
  sent = sent;
  opened = record { dos = true; socket_lib = true; args = true; sockets = fd ∷ [] };
}

unfoldable pub serv_init : ServAnswer → ServResult
serv_init answer =
    if not answer.dos
    then record { socket = none; sent = none; opened = nothing }
    else if not answer.socket_lib
    then record { socket = none; sent = none; opened = nothing }
    else elim answer.args [
      | none ↦ record {
        socket = none;
        sent = none;
        opened = record { dos = true; socket_lib = true; args = false; sockets = [] };
      }
      | some params ↦ finish_init (get_socket params answer.obtain answer.daemon)
    ]

unfoldable pub serv_exit : Opened → ℕ → Opened
serv_exit opened socket = record {
  dos = false;
  socket_lib = false;
  args = false;
  sockets = remove socket opened.sockets;
}
