-- ===== src/Rclid/Ledger/Moves.antt =====
-- The changes of the socket as a whole and the moves of console messages that `handle_vcon_msg` and
-- `handle_sockio_msg` of rclid.c are made of, in the books of the server.
use rcli.Common.{
  ℕ, ◌≡◌, refl, ap, sym, ◌∙◌, inl, inr, Option, List, [], ◌∷◌, ◌++◌, arith, count, count-append,
  Ram, subst,
}
use rcli.Vcon.{Vcon, VconMsg}
use rcli.Vcon.Books.{owed, owed-append, owed-update_private}
use rcli.Vcon.Once
use rcli.Sockio.{Sockio}
use rcli.Sockio.Links
use rcli.Sockio.Frames.{Frames}
use rcli.Rclid.{ServData, reply_vmsg, set_vmsg}
use rcli.Rclid.Cargo.{carried, user_of, in_flight, cargo-Alike, count-in_flight, with_first}
use rcli.Rclid.Ledger.{Stock, Sound, Book, Book-same, Book-Kept, Sound-Distinct}

-- The console message that a message in hand stands for.
abbrev pub in_hand : Option ℕ → List ℕ
in_hand o = with_first o []

-- A socket whose messages stay where they are, or move about or come from the free list with no
-- user's data, carries the same.
pub carried-Frames :
    (taken : List ℕ) (a b : Sockio) (m : ℕ)
    → Links.Distinct a taken
    → Links.Kept taken a b
    → Frames a b
    → count m (carried a) ≡ count m (carried b)
carried-Frames taken a b m v k f =
    cargo-Alike (user_of a) (user_of b) m (in_flight a) (in_flight b) (λ i. elim (f.frame i) [
      | inl (free, user) ↦
          inl (omega (arith, free, k.placed i, count-in_flight i a, count-in_flight i b), sym user)
      | inr (free, user) ↦ inr (omega (arith, free, v i, count-in_flight i a), inr user)
    ])

module _ {k : Stock} {taken : List ℕ} (sd : ServData) where
  pub socket-Sound :
      {own : List ℕ} (b : Sockio)
      → Links.Kept taken sd.sockio b
      → Frames sd.sockio b
      → Sound k taken own sd
      → Sound k taken own (record sd { sockio = b })
  socket-Sound {own = own} b kept f s =
      let v = Sound-Distinct sd s in
      record {
        book =
            Book-same
              (λ m. omega (
                arith,
                count-append m own (carried sd.sockio),
                count-append m own (carried b),
                carried-Frames taken sd.sockio b m v kept f,
              ))
              s.book;
        placed = λ m. kept.placed m ∙ s.placed m;
        links = kept.links;
      }

  pub ram-Sound :
      {own : List ℕ} (ram : Ram)
      → Sound k taken own sd
      → Sound k taken own (record sd { sockio = record (sd.sockio) { ram = ram } })
  ram-Sound ram s = record { book = s.book; placed = s.placed; links = s.links }

  -- What the books say does not depend on the rest of the data.
  pub rest-Sound :
      {own : List ℕ} (sd' : ServData)
      → sd'.vcon ≡ sd.vcon
      → sd'.sockio ≡ sd.sockio
      → Sound k taken own sd
      → Sound k taken own sd'
  rest-Sound {own = own} sd' v e s = record {
    book =
        subst (λ x. Book k.vmsgs k.arrived (own ++ carried x) sd'.vcon) (sym e)
          (subst (λ x. Book k.vmsgs k.arrived (own ++ carried sd.sockio) x) (sym v) s.book);
    placed = λ m. ap (λ x. Links.places x taken m) e ∙ s.placed m;
    links = subst Links.Links (sym e) s.links;
  }

  pub console-Sound :
      {own : List ℕ} (v : Vcon)
      → Once.Kept (own ++ carried sd.sockio) sd.vcon v
      → Sound k taken own sd
      → Sound k taken own (record sd { vcon = v })
  console-Sound v kept s = record {
    book = Book-Kept kept s.book;
    placed = s.placed;
    links = s.links;
  }

  -- A console message may change, but for the packet that it stands for.
  pub set_vmsg-Sound :
      {own : List ℕ} (i : ℕ) (vmsg : VconMsg)
      → vmsg.private ≡ (sd.vcon.vmsgs i).private
      → Sound k taken own sd
      → Sound k taken own (set_vmsg sd i vmsg)
  set_vmsg-Sound {own = own} i vmsg same s =
      console-Sound (set_vmsg sd i vmsg).vcon
        (record {
          placed = λ m. refl;
          owing = λ p. omega (
            arith,
            owed-update_private p i vmsg sd.vcon.vmsgs sd.vcon.user_port same,
            owed-update_private p i vmsg sd.vcon.vmsgs sd.vcon.vmsg_port same,
            owed-update_private p i vmsg sd.vcon.vmsgs (own ++ carried sd.sockio) same,
          );
        })
        s

  -- The console message in hand is replied.
  pub reply_vmsg-Sound : (i : ℕ) → Sound k taken (i ∷ []) sd → Sound k taken [] (reply_vmsg sd i)
  reply_vmsg-Sound i s =
      let b = s.book in
      record {
        book = record {
          placed = λ m. omega (arith, b.placed m, count-append m sd.vcon.vmsg_port (i ∷ []));
          owing =
              λ p. omega (arith, b.owing p, owed-append p sd.vcon.vmsgs sd.vcon.vmsg_port (i ∷ []));
        };
        placed = s.placed;
        links = s.links;
      }

  -- A console message is taken from its port.
  pub take_vmsg-Sound :
      (i : ℕ) (rest : List ℕ)
      → sd.vcon.user_port ≡ i ∷ rest
      → Sound k taken [] sd
      → Sound k taken (i ∷ []) (record sd { vcon = record (sd.vcon) { user_port = rest } })
  take_vmsg-Sound i rest e s =
      let b = s.book in
      record {
        book = record {
          placed = λ m. omega (arith, b.placed m, ap (count m) e);
          owing = λ p. omega (arith, b.owing p, ap (owed p sd.vcon.vmsgs) e);
        };
        placed = s.placed;
        links = s.links;
      }
