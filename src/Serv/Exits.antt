-- ===== src/Serv/Exits.antt =====
-- What a service has open after `serv_init`, and after `serv_exit`.
use rcli.Common.{
  ℕ, ◌≡◌, refl, ap, ◌∙◌, Bool, true, false, Option, none, some, [], ◌∷◌, ◌&&◌, Bool-cases,
  Option-cases, inl, inr, remove-head,
}
use rcli.Serv.{Opened, nothing, Sent, ServAnswer, finish_init, serv_init, serv_exit}

-- What is open where `serv_init` gives a socket, and where it gives -1.
abbrev pub opened_with : Bool → Option ℕ → Opened
opened_with both (some fd) = record {
  dos = true;
  socket_lib = true;
  args = true;
  sockets = fd ∷ [];
}
opened_with both none = record { dos = both; socket_lib = both; args = false; sockets = [] }

finish_init-opened :
    (got : Option ℕ × Option Sent)
    → (finish_init got).opened ≡ opened_with true (finish_init got).socket
finish_init-opened (none, sent) = refl
finish_init-opened (some fd, sent) = refl

serv_exit-opened : (both : Bool) (fd : ℕ) → serv_exit (opened_with both (some fd)) fd ≡ nothing
unfolding serv_exit
serv_exit-opened both fd = rw (remove-head fd []) refl

serv_init-opened :
    (answer : ServAnswer)
    → (serv_init answer).opened
      ≡ opened_with (answer.dos && answer.socket_lib) (serv_init answer).socket
unfolding serv_init
serv_init-opened answer = elim (Bool-cases answer.dos) [
  | inr d ↦ rw d refl
  | inl d ↦ elim (Bool-cases answer.socket_lib) [
    | inr s ↦ rw (d, s) refl
    | inl s ↦ elim (Option-cases answer.args) [
      | inl a ↦ rw (d, s, a) refl
      | inr (params, a) ↦ rw (d, s, a) (finish_init-opened _)
    ]
  ]
]

-- On every branch of `serv_init`: if it gives a socket, then both libraries, the arguments and the
-- socket are open, and `serv_exit` closes them all; if it gives -1, no socket and no arguments are
-- left, but both libraries stay open wherever both could be opened.
pub serv_init-serv_exit :
    (answer : ServAnswer)
    → let res = serv_init answer in
      (res.opened ≡ opened_with (answer.dos && answer.socket_lib) res.socket)
      × ((fd : ℕ) → res.socket ≡ some fd → serv_exit res.opened fd ≡ nothing)
serv_init-serv_exit answer =
    let e = serv_init-opened answer in
    let both = answer.dos && answer.socket_lib in
    (e, λ fd h. ap (λ o. serv_exit o fd) (e ∙ ap (opened_with both) h) ∙ serv_exit-opened both fd)
