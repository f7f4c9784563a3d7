-- ===== src/Rclid/Ledger.antt =====
-- The books of the whole server of rclid.c: where each message of the console and of the socket is,
-- which console message each socket message carries, and which packets are still owed an answer.
pub mod Moves
pub mod Messages
pub mod Requests
pub mod Answers
pub mod Ports
pub mod Rounds
pub mod Start
pub mod Accounts
pub mod Quiet
pub mod Closing
pub mod Answered
use rcli.Common.{
  ℕ, ◌+◌, ◌≡◌, ◌≢◌, refl, ap, sym, ◌∙◌, inl, inr, Option, none, some, List, [], ◌∷◌, ◌++◌, arith,
  ◌==◌, if◌then◌else◌, count, count-append, remove, ltb, update,
}
use rcli.Vcon.{Vcon, VconMsg}
use rcli.Vcon.Books.{
  queued, owed, places, answers_for, Distinct, owed-append, owed-remove, count-remove,
}
use rcli.Vcon.Once
use rcli.Sockio.{Sockio}
use rcli.Sockio.Links
use rcli.Rclid.{ServData}
use rcli.Rclid.Cargo.{carried}

-- The list with one place for each message of a pool of `n`.
abbrev pub once : ℕ → ℕ → ℕ
once n m = if ltb m n then 1 else 0

-- The books of a console with a pool of `pool` messages that lends out the messages `held`, after
-- the packets `arrived`.
pub record Book (pool : ℕ) (arrived held : List ℕ) (v : Vcon) : Type 0 where
  pub placed : (m : ℕ) → places v held m ≡ once pool m
  pub owing : (p : ℕ) → count p arrived ≡ queued p v.pkt_port + answers_for v held p

-- The sizes of the two pools, and the packets that have arrived.
pub record Stock : Type 0 where
  pub vmsgs : ℕ
  pub msgs : ℕ
  pub arrived : List ℕ

-- The books of the server while it has taken the socket messages `taken` from their port, and has
-- the console messages `own` in its hands: the other console messages that it was lent are those
-- that socket messages in flight carry.
pub record Sound (k : Stock) (taken own : List ℕ) (sd : ServData) : Type 0 where
  pub book : Book k.vmsgs k.arrived (own ++ carried sd.sockio) sd.vcon
  pub placed : (m : ℕ) → Links.places sd.sockio taken m ≡ once k.msgs m
  pub links : Links.Links sd.sockio

pub Book-Distinct :
    {pool : ℕ} {arrived held : List ℕ} {v : Vcon} → Book pool arrived held v → Distinct v held
Book-Distinct b = λ m. ground (arith, b.placed m)

pub Sound-Distinct :
    {k : Stock} {taken own : List ℕ} (sd : ServData)
    → Sound k taken own sd
    → Links.Distinct sd.sockio taken
Sound-Distinct sd s = λ m. ground (arith, s.placed m)

-- What is owed depends on how often each message is lent only.
pub owed-same :
    (p : ℕ) (f : ℕ → VconMsg) (xs ys : List ℕ)
    → ((m : ℕ) → count m xs ≡ count m ys)
    → owed p f xs ≡ owed p f ys
owed-same p f [] [] h = refl
owed-same p f [] (y ∷ ys) h = absurd (ground (arith, h y))
owed-same p f (x ∷ xs) ys h =
    let there : count x ys ≢ 0 = ground (arith, h x) in
    omega (
      arith,
      owed-remove p x f ys there,
      owed-same p f xs (remove x ys) (λ m. omega (arith, h m, count-remove x m ys there)),
    )

pub Book-same :
    {pool : ℕ} {arrived xs ys : List ℕ} {v : Vcon}
    → ((m : ℕ) → count m xs ≡ count m ys)
    → Book pool arrived xs v
    → Book pool arrived ys v
Book-same {xs = xs} {ys = ys} {v = v} h b = record {
  placed = λ m. omega (arith, b.placed m, h m);
  owing = λ p. omega (arith, b.owing p, owed-same p v.vmsgs xs ys h);
}

pub Book-Kept :
    {pool : ℕ} {arrived held : List ℕ} {v v' : Vcon}
    → Once.Kept held v v'
    → Book pool arrived held v
    → Book pool arrived held v'
Book-Kept h b = record {
  placed = λ m. h.placed m ∙ b.placed m;
  owing = λ p. b.owing p ∙ sym (h.owing p);
}
