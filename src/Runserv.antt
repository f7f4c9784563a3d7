-- ===== src/Runserv.antt =====
-- amiga/rclid/runserv.c: the server that waits for connections and starts a service for each.
pub mod Strays
pub mod Main
pub mod Leftovers
use rcli.Common.{
  ℕ, ◌^◌, ◌%◌, ◌&&◌, Bool, true, false, Option, none, some, List, [], ◌∷◌, not, ◌==◌, if◌then◌else◌,
  bit_and, remove,
}
use rcli.Serv.{ServParams, mask_of}

-- What runserv has: its signals, its sockets, loaded services, the sockets that it has released and
-- nobody has obtained, the open outputs, and what it has passed on to services.
pub record Tool : Type 0 where
  pub signals : List ℕ
  pub sockets : List ℕ
  pub segs : List ℕ
  pub ids : List ℕ
  pub outputs : List ℕ
  pub launched : List ServParams

-- `RETURN_*`
pub data Return : Type 0 where
  ok error : Return

-- `socket`, `bind` and `listen`.
pub record ListenAnswer : Type 0 where
  pub socket : Option ℕ
  pub binds : Bool
  pub listens : Bool

abbrev pub open_socket : ℕ → Tool → Tool
open_socket fd t = record t { sockets = fd ∷ t.sockets }

abbrev pub close_socket : ℕ → Tool → Tool
close_socket fd t = record t { sockets = remove fd t.sockets }

-- The socket, or `none` for -1.
unfoldable pub setup_listen_socket : ListenAnswer → Tool → Option ℕ × Tool
setup_listen_socket answer t = elim answer.socket [
  | none ↦ (none, t)
  | some fd ↦
      if not answer.binds
      then (none, close_socket fd (open_socket fd t))
      else if not answer.listens
      then (none, close_socket fd (open_socket fd t))
      else (some fd, open_socket fd t)
]

-- What the system answers in one round: each in the order in which it is asked, `none` for a
-- failure. `service_obtains`: the service that was created obtains the socket, which it signals in
-- either case; `obtained` is the socket that runserv gets back if the service has not.
pub record RoundAnswer : Type 0 where
  pub select : Option ℕ
  pub client : Option ℕ
  pub addr_fits : Bool
  pub seg : Option ℕ
  pub sock_id : Option ℕ
  pub output : Option ℕ
  pub created : Bool
  pub got_mask : ℕ
  pub service_obtains : Bool
  pub obtained : Option ℕ

-- SIGBREAKF_CTRL_C
abbrev pub ctrl_c : ℕ
ctrl_c = 2 ^ 12

abbrev pub is_set : ℕ → ℕ → Bool
is_set mask bits = not (bit_and mask bits == 0)

-- A process that was created closes its output and unloads its code itself.
abbrev pub start_service : Bool → ℕ → Option ℕ → ServParams → Tool → Tool
start_service false seg out params t = t
start_service true seg none params t = record t {
  segs = remove seg t.segs;
  launched = params ∷ t.launched;
}
start_service true seg (some out) params t = record t {
  segs = remove seg t.segs;
  outputs = remove out t.outputs;
  launched = params ∷ t.launched;
}

-- `ObtainSocket` takes the socket back, and `CloseSocket` closes it.
abbrev pub take_back : ℕ → Option ℕ → Tool → Tool
take_back id none t = t
take_back id (some fd) t = close_socket fd (open_socket fd (record t { ids = remove id t.ids }))

-- The socket is no longer released once the service has obtained it. The service signals also where
-- it could not (serv.c), and then nobody asks for the socket again.
abbrev pub after_wait : ℕ → ℕ → RoundAnswer → Tool → Bool × Tool
after_wait sync_signal id r t = (
  not (is_set r.got_mask ctrl_c),
  if r.created && r.service_obtains
      then record t { ids = remove id t.ids }
      else if is_set r.got_mask (mask_of sync_signal)
      then t
      else take_back id r.obtained t,
)

-- Once the socket is released: the output, the process, and the wait for it.
unfoldable pub launch_service : ℕ → ℕ → Bool → ℕ → ℕ → RoundAnswer → Tool → Bool × Tool
launch_service sync_signal task logs seg id r t = elim r.output [
  | none ↦
      if logs
      then (false, t)
      else after_wait sync_signal id r (
          start_service r.created seg none
            (record { socket = some id; task = some task; signal = some sync_signal }) t)
  | some out ↦ after_wait sync_signal id r (
      start_service r.created seg (some out)
        (record { socket = some id; task = some task; signal = some sync_signal })
        (record t { outputs = out ∷ t.outputs }))
]

-- Once a client is connected: the service, and the socket for it.
unfoldable pub pass_on : ℕ → ℕ → Bool → ℕ → RoundAnswer → Tool → Bool × Tool
pass_on sync_signal task logs client_fd r t = elim r.seg [
  | none ↦ (false, close_socket client_fd t)
  | some seg ↦
      let t1 = record t { segs = seg ∷ t.segs } in
      elim r.sock_id [
        | none ↦ (false, close_socket client_fd t1)
        | some id ↦
            launch_service sync_signal task logs seg id r
              (record (close_socket client_fd t1) { ids = id ∷ t.ids })
      ]
]

-- One round of the loop: whether it stays.
unfoldable pub serve : ℕ → ℕ → Bool → RoundAnswer → Tool → Bool × Tool
serve sync_signal task logs r t = elim r.select [
  | none ↦ (false, t)
  | some n ↦ elim r.client [
    | none ↦ (false, t)
    | some fd ↦
        if not r.addr_fits
        then (false, open_socket fd t)
        else pass_on sync_signal task logs fd r (open_socket fd t)
  ]
]

-- The loop over what the system answers: whether it waits for a further connection.
unfoldable pub serve_loop : ℕ → ℕ → Bool → List RoundAnswer → Tool → Bool × Tool
serve_loop sync_signal task logs [] t = (true, t)
serve_loop sync_signal task logs (r ∷ rs) t =
    let (stay, t') = serve sync_signal task logs r t in
    let rest = serve_loop sync_signal task logs rs t' in if stay then rest else (false, t')

abbrev pub shut_down : ℕ → ℕ → Bool × Tool → Option Return × Tool
shut_down sync_signal listen_fd (true, t) = (none, t)
shut_down sync_signal listen_fd (false, t) =
    (some Return.ok, record (close_socket listen_fd t) { signals = remove sync_signal t.signals })

-- `runserv`: its result, or `none` while it waits for a further connection.
unfoldable pub runserv :
    Option ℕ → ListenAnswer → ℕ → Bool → List RoundAnswer → Tool → Option Return × Tool
runserv signal answer task logs rounds t = elim signal [
  | none ↦ (some Return.error, t)
  | some bit ↦
      let (listen_fd, t1) = setup_listen_socket answer (record t { signals = bit ∷ t.signals }) in
      elim listen_fd [
        | none ↦ (some Return.error, record t1 { signals = remove bit t1.signals })
        | some fd ↦ shut_down bit fd (serve_loop bit task logs rounds t1)
      ]
]
