-- ===== src/Runserv/Leftovers.antt =====
-- What runserv leaves open when it returns.
use rcli.Common.{
  ℕ, ◌≡◌, refl, sym, ap, ◌∙◌, Bool, true, false, Option, none, some, List, [], ◌∷◌, ◌++◌, not, ◌||◌,
  if◌then◌else◌, count, count-append, remove-head, count-remove_sub, ◌+◌, arith, Option-cases,
  Bool-cases, inl, inr, append_assoc, is_none,
}
use rcli.Runserv.{
  Tool, RoundAnswer, ListenAnswer, serve, serve_loop, runserv, setup_listen_socket, shut_down,
}
use rcli.Runserv.Strays.{stray_socket, stray_seg, stray_id, stray_output, stays, serve-Leaves}

-- The rounds that are played: up to the first in which the loop ends.
abbrev pub rounds_of : Bool → List RoundAnswer → List RoundAnswer
rounds_of logs [] = []
rounds_of logs (r ∷ rs) = r ∷ (if stays logs r then rounds_of logs rs else [])

abbrev pub gather : (RoundAnswer → List ℕ) → List RoundAnswer → List ℕ
gather f [] = []
gather f (r ∷ rs) = gather f rs ++ f r

record LeavesAll (bit : ℕ) (logs : Bool) (rs : List RoundAnswer) (t t' : Tool) : Type 0 where
  signals : t'.signals ≡ t.signals
  sockets : t'.sockets ≡ gather stray_socket rs ++ t.sockets
  segs : t'.segs ≡ gather (stray_seg logs) rs ++ t.segs
  ids : t'.ids ≡ gather (stray_id bit logs) rs ++ t.ids
  outputs : t'.outputs ≡ gather stray_output rs ++ t.outputs

after_round :
    (f : RoundAnswer → List ℕ) (r : RoundAnswer) (rs : List RoundAnswer) (a b c : List ℕ)
    → b ≡ f r ++ a
    → c ≡ gather f rs ++ b
    → c ≡ gather f (r ∷ rs) ++ a
after_round f r rs a b c e e' = rw (e', e) (sym (append_assoc (gather f rs) (f r) a))

serve_loop-Leaves :
    (bit task : ℕ) (logs : Bool) (rs : List RoundAnswer) (t : Tool)
    → LeavesAll bit logs (rounds_of logs rs) t (serve_loop bit task logs rs t).1
unfolding serve_loop
serve_loop-Leaves bit task logs [] t = record {
  signals = refl;
  sockets = refl;
  segs = refl;
  ids = refl;
  outputs = refl;
}
serve_loop-Leaves bit task logs (r ∷ rs) t =
    let h =
      serve-Leaves bit task logs t r.select r.client r.addr_fits r.seg r.sock_id r.output r.created
        r.got_mask r.service_obtains r.obtained in
    let k = serve_loop-Leaves bit task logs rs (serve bit task logs r t).1 in
    elim (Bool-cases (stays logs r)) [
      | inl e ↦
          rw (h.goes_on, e)
            (record {
              signals = k.signals ∙ h.signals;
              sockets = after_round stray_socket r (rounds_of logs rs) _ _ _ h.sockets k.sockets;
              segs = after_round (stray_seg logs) r (rounds_of logs rs) _ _ _ h.segs k.segs;
              ids = after_round (stray_id bit logs) r (rounds_of logs rs) _ _ _ h.ids k.ids;
              outputs = after_round stray_output r (rounds_of logs rs) _ _ _ h.outputs k.outputs;
            })
      | inr e ↦
          rw (h.goes_on, e)
            (record {
              signals = h.signals;
              sockets = h.sockets;
              segs = h.segs;
              ids = h.ids;
              outputs = h.outputs;
            })
    ]

-- runserv has returned: the socket it listened to and its signal are given back, and what it
-- leaves open stems from the rounds.
pub record Returned (bit : ℕ) (logs : Bool) (rs : List RoundAnswer) (t t' : Tool) : Type 0 where
  pub signals : t'.signals ≡ t.signals
  pub sockets : (m : ℕ) → count m t'.sockets ≡ count m (gather stray_socket rs) + count m t.sockets
  pub segs : t'.segs ≡ gather (stray_seg logs) rs ++ t.segs
  pub ids : t'.ids ≡ gather (stray_id bit logs) rs ++ t.ids
  pub outputs : t'.outputs ≡ gather stray_output rs ++ t.outputs

-- The rounds that are played at all: with a signal, and a socket that can be bound and listens.
abbrev pub played : Option ℕ → ListenAnswer → Bool → List RoundAnswer → List RoundAnswer
played signal answer logs rounds =
    if is_none signal || is_none answer.socket || not answer.binds || not answer.listens
    then []
    else rounds_of logs rounds

abbrev pub number : Option ℕ → ℕ
number none = 0
number (some n) = n

shut_down-Returned :
    (bit fd : ℕ) (logs : Bool) (rs : List RoundAnswer) (t : Tool) (res : Bool × Tool)
    → LeavesAll bit logs rs (record t { signals = bit ∷ t.signals; sockets = fd ∷ t.sockets }) res.1
    → is_none (shut_down bit fd res).0 ≡ false
    → Returned bit logs rs t (shut_down bit fd res).1
shut_down-Returned bit fd logs rs t (true, t') a h = absurd (ground arith)
shut_down-Returned bit fd logs rs t (false, t') a h = record {
  signals = rw a.signals (remove-head bit t.signals);
  sockets = λ m. ground (
    arith,
    count-remove_sub fd m t'.sockets,
    a.sockets,
    count-append m (gather stray_socket rs) (fd ∷ t.sockets),
  );
  segs = a.segs;
  ids = a.ids;
  outputs = a.outputs;
}

given_up :
    (bit : ℕ) (logs : Bool) (t t' : Tool)
    → t'.signals ≡ t.signals
    → t'.sockets ≡ t.sockets
    → t'.segs ≡ t.segs
    → t'.ids ≡ t.ids
    → t'.outputs ≡ t.outputs
    → Returned bit logs [] t t'
given_up bit logs t t' a b c d e = record {
  signals = a;
  sockets = λ m. omega (arith, ap (count m) b);
  segs = c;
  ids = d;
  outputs = e;
}

-- Whatever the system answers, once runserv has returned: its signal and the socket that it
-- listened to are given back, and what it leaves open is exactly, over the rounds that it has
-- played, the sockets of clients with an address of another length, the code of services that got
-- no socket, no log file or no process, the released sockets that neither the service nor runserv
-- has obtained, one whose service signals without having obtained it included, and the outputs of
-- processes that could not be created.
pub runserv-Returned :
    (signal : Option ℕ) (answer : ListenAnswer) (task : ℕ) (logs : Bool) (rounds : List RoundAnswer)
    (t : Tool)
    → is_none (runserv signal answer task logs rounds t).0 ≡ false
    → Returned
        (number signal)
        logs
        (played signal answer logs rounds)
        t
        (runserv signal answer task logs rounds t).1
unfolding runserv setup_listen_socket
runserv-Returned none answer task logs rounds t h = record {
  signals = refl;
  sockets = λ m. omega arith;
  segs = refl;
  ids = refl;
  outputs = refl;
}
runserv-Returned (some bit) answer task logs rounds t h = elim (Option-cases answer.socket) [
  | inl e ↦ rw e (given_up bit logs t _ (remove-head bit t.signals) refl refl refl refl)
  | inr (fd, e) ↦ elim (Bool-cases answer.binds) [
    | inr b ↦
        rw (e, b)
          (given_up bit logs t _ (remove-head bit t.signals) (remove-head fd t.sockets) refl refl
            refl)
    | inl b ↦ elim (Bool-cases answer.listens) [
      | inr l ↦
          rw (e, b, l)
            (given_up bit logs t _ (remove-head bit t.signals) (remove-head fd t.sockets) refl refl
              refl)
      | inl l ↦
          rw (e, b, l)
            (shut_down-Returned bit fd logs (rounds_of logs rounds) t
              (serve_loop bit task logs rounds
                (record t { signals = bit ∷ t.signals; sockets = fd ∷ t.sockets }))
              (serve_loop-Leaves bit task logs rounds
                (record t { signals = bit ∷ t.signals; sockets = fd ∷ t.sockets }))
              (rw (e, b, l) at h))
    ]
  ]
]
