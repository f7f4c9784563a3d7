-- ===== src/Runserv/Strays.antt =====
-- What one round of runserv leaves open.
use rcli.Common.{
  ℕ, ◌≡◌, refl, Bool, true, false, Option, none, some, List, [], ◌∷◌, ◌++◌, not, ◌&&◌, ◌||◌,
  remove-head, arith, is_none,
}
use rcli.Serv.{mask_of}
use rcli.Runserv.{Tool, RoundAnswer, is_set, ctrl_c, serve, pass_on, launch_service}

-- A round in which a client has connected, and its address has the length of an IP address.
abbrev pub is_connected : RoundAnswer → Bool
is_connected r = not (is_none r.select) && not (is_none r.client)

abbrev pub loads : RoundAnswer → Bool
loads r = is_connected r && r.addr_fits && not (is_none r.seg)

abbrev pub releases : RoundAnswer → Bool
releases r = loads r && not (is_none r.sock_id)

-- There is no log file to write to.
abbrev pub no_log : Bool → RoundAnswer → Bool
no_log logs r = logs && is_none r.output

abbrev pub when : Bool → Option ℕ → List ℕ
when false x = []
when true none = []
when true (some x) = x ∷ []

-- The client's socket stays open where its address has another length.
abbrev pub stray_socket : RoundAnswer → List ℕ
stray_socket r = when (is_connected r && not r.addr_fits) r.client

-- The code stays loaded without a socket, a log file or a process for it.
abbrev pub stray_seg : Bool → RoundAnswer → List ℕ
stray_seg logs r = when (loads r && (is_none r.sock_id || no_log logs r || not r.created)) r.seg

-- Nobody obtains the socket: not the service, and not runserv, which asks for it only where the
-- service has not signalled.
abbrev pub unclaimed : ℕ → RoundAnswer → Bool
unclaimed bit r =
    not (r.created && r.service_obtains) && (is_set r.got_mask (mask_of bit) || is_none r.obtained)

-- The socket stays released without a log file, and where nobody obtains it.
abbrev pub stray_id : ℕ → Bool → RoundAnswer → List ℕ
stray_id bit logs r = when (releases r && (no_log logs r || unclaimed bit r)) r.sock_id

-- The output stays open without a process for it.
abbrev pub stray_output : RoundAnswer → List ℕ
stray_output r = when (releases r && not r.created) r.output

-- The loop goes on after the round.
abbrev pub stays : Bool → RoundAnswer → Bool
stays logs r = releases r && not (no_log logs r) && not (is_set r.got_mask ctrl_c)

pub record Leaves (bit : ℕ) (logs : Bool) (r : RoundAnswer) (t : Tool) (res : Bool × Tool)
    : Type 0 where
  pub goes_on : res.0 ≡ stays logs r
  pub signals : res.1.signals ≡ t.signals
  pub sockets : res.1.sockets ≡ stray_socket r ++ t.sockets
  pub segs : res.1.segs ≡ stray_seg logs r ++ t.segs
  pub ids : res.1.ids ≡ stray_id bit logs r ++ t.ids
  pub outputs : res.1.outputs ≡ stray_output r ++ t.outputs

abbrev answered :
    Option ℕ
    → Option ℕ
    → Bool
    → Option ℕ
    → Option ℕ
    → Option ℕ
    → Bool
    → ℕ
    → Bool
    → Option ℕ
    → RoundAnswer
answered select client fits seg id out created got takes back = record {
  select = select;
  client = client;
  addr_fits = fits;
  seg = seg;
  sock_id = id;
  output = out;
  created = created;
  got_mask = got;
  service_obtains = takes;
  obtained = back;
}

module _ (bit task : ℕ) (logs : Bool) (t : Tool) where
  launched-Leaves :
      (n fd seg id : ℕ) (out : Option ℕ) (created : Bool) (got : ℕ) (takes : Bool) (back : Option ℕ)
      → let r = answered (some n) (some fd) true (some seg) (some id) out created got takes back in
        Leaves bit logs r t (serve bit task logs r t)
  unfolding serve pass_on launch_service
  launched-Leaves n fd seg id out created got takes back = record {
    goes_on = ground arith;
    signals = ground arith;
    sockets = ground (arith, remove-head fd t.sockets);
    segs = ground (arith, remove-head seg t.segs);
    ids = ground (arith, remove-head id t.ids);
    outputs = ground (arith);
  }

  pub serve-Leaves :
      (select client : Option ℕ) (fits : Bool) (seg id out : Option ℕ) (created : Bool) (got : ℕ)
      (takes : Bool) (back : Option ℕ)
      → let r = answered select client fits seg id out created got takes back in
        Leaves bit logs r t (serve bit task logs r t)
  unfolding serve pass_on launch_service
  serve-Leaves none client fits seg id out created got takes back = record {
    goes_on = refl;
    signals = refl;
    sockets = refl;
    segs = refl;
    ids = refl;
    outputs = refl;
  }
  serve-Leaves (some n) none fits seg id out created got takes back = record {
    goes_on = refl;
    signals = refl;
    sockets = refl;
    segs = refl;
    ids = refl;
    outputs = refl;
  }
  serve-Leaves (some n) (some fd) false seg id out created got takes back = record {
    goes_on = refl;
    signals = refl;
    sockets = refl;
    segs = refl;
    ids = refl;
    outputs = refl;
  }
  serve-Leaves (some n) (some fd) true none id out created got takes back = record {
    goes_on = refl;
    signals = refl;
    sockets = remove-head fd t.sockets;
    segs = refl;
    ids = refl;
    outputs = refl;
  }
  serve-Leaves (some n) (some fd) true (some seg) none out created got takes back = record {
    goes_on = refl;
    signals = refl;
    sockets = remove-head fd t.sockets;
    segs = refl;
    ids = refl;
    outputs = refl;
  }
  serve-Leaves (some n) (some fd) true (some seg) (some id) out created got takes back =
      launched-Leaves n fd seg id out created got takes back
