-- ===== src/Sockio/Sent.antt =====
-- What the submissions of sockio.c hand out: a message from the free list, which is in the handle's
-- port afterwards and carries no user's data yet.
use rcli.Common.{
  ℕ, ◌≡◌, ◌≢◌, refl, ap, subst, inl, inr, true, Option, none, some, List, [], ◌∷◌, arith, ◌==◌,
  count, count-append, Bool-cases,
}
use rcli.Timer.{TimerAnswer}
use rcli.Sockio.{Sockio, MsgType, is_error}
use rcli.Sockio.Submit.{sockio_recv, sockio_send, sockio_wait_char}
use rcli.Sockio.Submitted.{fresh_msg, alloc_msg-some, alloc_msg-none}
use rcli.Sockio.Session.{is_fresh}
use rcli.Sockio.Links.{Distinct, Links, Kept}
use rcli.Sockio.Posted.{recv-Kept, send-Kept, wait-Kept}
use rcli.Sockio.Still.{same-Still}
use rcli.Sockio.Frames.{Frames, Still-Frames, taken_one}

-- The message handed out, if any.
abbrev pub Handed : Option ℕ × Sockio → Type 0
Handed (none, b) = Unit {0}
Handed (some i, b) = (count i b.msg_port ≢ 0) × ((b.msgs i).user_data ≡ none)

pub Handed-some :
    (p : Option ℕ × Sockio) (i : ℕ)
    → p.0 ≡ some i
    → Handed p
    → (count i p.1.msg_port ≢ 0) × ((p.1.msgs i).user_data ≡ none)
Handed-some (none, b) i e h = cc
Handed-some (some j, b) i e h =
    let same : j ≡ i = cc in
    subst (λ x. (count x b.msg_port ≢ 0) × ((b.msgs x).user_data ≡ none)) same h

abbrev Parcel : Sockio → Option ℕ × Sockio → Type 0
Parcel a p = Frames a p.1 × Handed p

pub record Sent (held : List ℕ) (a : Sockio) (p : Option ℕ × Sockio) : Type 0 where
  pub kept : Kept held a p.1
  pub frames : Frames a p.1
  pub handed : Handed p

module _ (a : Sockio) where
  nothing_sent : Parcel a (none, a)
  nothing_sent = (Still-Frames (same-Still a), tt)

  pub send-Parcel :
      (buf n : ℕ) (free : List ℕ) → a.free_list ≡ free → Parcel a (sockio_send a buf n)
  unfolding sockio_send
  send-Parcel buf n [] e = elim (Bool-cases (is_error a.state)) [
    | inl bad ↦ rw bad nothing_sent
    | inr good ↦ rw (good, alloc_msg-none a MsgType.send buf n n e) nothing_sent
  ]
  send-Parcel buf n (i ∷ rest) e = elim (Bool-cases (is_error a.state)) [
    | inl bad ↦ rw bad nothing_sent
    | inr good ↦
        rw (good, alloc_msg-some a MsgType.send buf n n e)
          (
            record { frame = λ x. taken_one x i rest a (fresh_msg MsgType.send buf n n) e refl },
            (ground (arith, count-append i a.msg_port (i ∷ [])), ground arith),
          )
  ]

  pub recv-Parcel :
      (buf n k : ℕ) (free : List ℕ) → a.free_list ≡ free → Parcel a (sockio_recv a buf n k)
  unfolding sockio_recv
  recv-Parcel buf n k [] e = elim (Bool-cases (is_error a.state)) [
    | inl bad ↦ rw bad nothing_sent
    | inr good ↦ rw (good, alloc_msg-none a MsgType.recv buf n k e) nothing_sent
  ]
  recv-Parcel buf n k (i ∷ rest) e = elim (Bool-cases (is_error a.state)) [
    | inl bad ↦ rw bad nothing_sent
    | inr good ↦
        rw (good, alloc_msg-some a MsgType.recv buf n k e)
          (
            record { frame = λ x. taken_one x i rest a (fresh_msg MsgType.recv buf n k) e refl },
            (ground (arith, count-append i a.msg_port (i ∷ [])), ground arith),
          )
  ]

  pub wait-Parcel :
      (answer : TimerAnswer) (us : ℕ) (free : List ℕ)
      → a.free_list ≡ free
      → Parcel a (sockio_wait_char a answer us)
  unfolding sockio_wait_char
  wait-Parcel answer us [] e = elim (Bool-cases (is_error a.state)) [
    | inl bad ↦ rw bad nothing_sent
    | inr good ↦ rw (good, alloc_msg-none a MsgType.wait_char 0 0 0 e) nothing_sent
  ]
  wait-Parcel answer us (i ∷ rest) e = elim (Bool-cases (is_error a.state)) [
    | inl bad ↦ rw bad nothing_sent
    | inr good ↦
        rw (good, alloc_msg-some a MsgType.wait_char 0 0 0 e)
          (
            record {
              frame = λ x. elim (Bool-cases (i == x)) [
                | inl same ↦ inr (λ z. ground (arith, z, ap (count x) e), ground arith)
                | inr other ↦ inl (ground (arith, ap (count x) e), ground arith)
              ];
            },
            (ground (arith, count-append i a.msg_port (i ∷ [])), ground arith),
          )
  ]

  module _ (held : List ℕ) (v : Distinct a held) (l : Links a) where
    pub send-Sent : (buf n : ℕ) → Sent held a (sockio_send a buf n)
    send-Sent buf n =
        let (frames, handed) = send-Parcel buf n a.free_list refl in
        record {
          kept = send-Kept held a v l buf n a.free_list refl;
          frames = frames;
          handed = handed;
        }

    pub recv-Sent : (buf n k : ℕ) → Sent held a (sockio_recv a buf n k)
    recv-Sent buf n k =
        let (frames, handed) = recv-Parcel buf n k a.free_list refl in
        record {
          kept = recv-Kept held a v l buf n k a.free_list refl;
          frames = frames;
          handed = handed;
        }

    pub wait-Sent :
        (answer : TimerAnswer) (us : ℕ)
        → is_fresh a.timer answer.job ≡ true
        → Sent held a (sockio_wait_char a answer us)
    wait-Sent answer us f =
        let (frames, handed) = wait-Parcel answer us a.free_list refl in
        record {
          kept = wait-Kept held a v l answer us a.free_list refl f;
          frames = frames;
          handed = handed;
        }
