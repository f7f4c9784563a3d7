-- ===== src/Rclid/Ledger/Messages.antt =====
-- Socket messages that `handle_sockio_msg` and `handle_vcon_msg` of rclid.c take, free and load with a
-- console message, in the books of the server.
use rcli.Common.{
  ℕ, ◌+◌, ◌≡◌, ◌≢◌, refl, ap, inl, none, List, [], ◌∷◌, arith, ◌==◌, if◌then◌else◌, count,
  count-append, remove,
}
use rcli.Vcon.Books.{count-remove}
use rcli.Sockio.{Sockio, sockio_free_msg}
use rcli.Sockio.Links
use rcli.Sockio.Moves.{change-Links}
use rcli.Rclid.{ServData, link}
use rcli.Rclid.Cargo.{
  carried, user_of, in_flight, cargo-Alike, cargo-load, cargo-remove, count-in_flight,
  count-with_first, cargo,
}
use rcli.Rclid.Ledger.{Stock, Sound, Book-same, Sound-Distinct}
use rcli.Rclid.Ledger.Moves.{in_hand}

module _ {k : Stock} (sd : ServData) where
  -- A socket message is taken from its port, and with it the console message that it carries.
  pub take_msg-Sound :
      (m : ℕ) (rest : List ℕ)
      → sd.sockio.user_port ≡ m ∷ rest
      → Sound k [] [] sd
      → Sound k
          (m ∷ [])
          (in_hand (user_of sd.sockio m))
          (record sd { sockio = record (sd.sockio) { user_port = rest } })
  take_msg-Sound m rest e s =
      let a = sd.sockio in
      let b = record a { user_port = rest } in
      let port : (x : ℕ) → count x a.user_port ≡ (if m == x then 1 else 0) + count x rest =
        λ x. ap (count x) e in
      let there : count m (in_flight a) ≢ 0 = ground (arith, count-in_flight m a, port m) in
      let same : (x : ℕ)
          → count x (cargo (user_of a) (remove m (in_flight a))) ≡ count x (carried b) =
        λ x. cargo-Alike (user_of a) (user_of a) x (remove m (in_flight a)) (in_flight b) (λ i.
          inl (
            omega (
              arith,
              count-in_flight i a,
              count-in_flight i b,
              port i,
              count-remove m i (in_flight a) there,
            ),
            refl,
          )) in
      record {
        book =
            Book-same
              (λ x. omega (
                arith,
                cargo-remove (user_of a) m x (in_flight a) there,
                same x,
                count-append x (in_hand (user_of a m)) (carried b),
                count-with_first x (user_of a m) [],
              ))
              s.book;
        placed = λ x. omega (arith, s.placed x, port x);
        links = s.links;
      }

  -- A socket message is freed.
  pub free_msg-Sound :
      {own : List ℕ} (m : ℕ)
      → Sound k (m ∷ []) own sd
      → Sound k [] own (record sd { sockio = sockio_free_msg sd.sockio m })
  unfolding sockio_free_msg
  free_msg-Sound {own = own} m s =
      let a = sd.sockio in
      let b = sockio_free_msg a m in
      let v = Sound-Distinct sd s in
      record {
        book =
            Book-same
              (λ x. omega (
                arith,
                count-append x own (carried a),
                count-append x own (carried b),
                cargo-Alike (user_of a) (user_of b) x (in_flight a) (in_flight a)
                    (λ i. inl (refl, ground arith)),
              ))
              s.book;
        placed = λ x. omega (arith, s.placed x, count-append x a.free_list (m ∷ []));
        links = change-Links a m _ (ground (arith, v m)) s.links;
      }

-- What a message carries matters to no link.
Links-link : (sio : Sockio) (m i : ℕ) → Links.Links sio → Links.Links (link sio m i)
Links-link sio m i l = record {
  unshared = l.unshared;
  linked = λ a job h.
      let x = l.linked a job h in
      record {
        nonnull = x.nonnull;
        known = ground (arith, x.known);
        typed = ground (arith, x.typed);
        unanswered = x.unanswered;
      };
  requests = λ x h. ground (arith, l.requests x h);
}

-- The console message in hand is given to a socket message that was just submitted.
pub link-Sound :
    {k : Stock} {taken : List ℕ} (sd : ServData) (m i : ℕ)
    → count m sd.sockio.msg_port ≢ 0
    → user_of sd.sockio m ≡ none
    → Sound k taken (i ∷ []) sd
    → Sound k taken [] (record sd { sockio = link sd.sockio m i })
link-Sound sd m i there free s =
    let a = sd.sockio in
    let b = link a m i in
    let v = Sound-Distinct sd s in
    record {
      book =
          Book-same
            (λ x. omega (
              arith,
              cargo-load (user_of a) (user_of b) m i x (in_flight a)
                  (omega (arith, v m, there, count-in_flight m a)) free (ground arith)
                  (λ y h. ground arith),
            ))
            s.book;
      placed = s.placed;
      links = Links-link a m i s.links;
    }
