-- ===== src/Vcon/Books.antt =====
-- What the messages and packets of a console add up to: where each message is, and which packets
-- are answered or still owed an answer.
use rcli.Common.{
  ℕ, ◌+◌, ◌≤◌, ◌≡◌, ◌≢◌, refl, Option, none, some, List, [], ◌∷◌, ◌++◌, arith, ◌==◌, if◌then◌else◌,
  update, count, remove,
}
use rcli.Vcon.{Vcon, VconMsg, DosPacket, PktReply}

-- Whether a message stands for the packet, as 0 or 1.
abbrev pub owes : ℕ → Option ℕ → ℕ
owes p none = 0
owes p (some a) = if a == p then 1 else 0

-- How many of the messages `is` stand for the packet.
abbrev pub owed : ℕ → (ℕ → VconMsg) → List ℕ → ℕ
owed p f [] = 0
owed p f (i ∷ is) = owes p (f i).private + owed p f is

-- How often the packet was answered, and how often it waits in the port.
abbrev pub replied : ℕ → List PktReply → ℕ
replied p [] = 0
replied p (r ∷ rs) = (if r.pkt == p then 1 else 0) + replied p rs

abbrev pub queued : ℕ → List DosPacket → ℕ
queued p [] = 0
queued p (k ∷ ks) = (if k.address == p then 1 else 0) + queued p ks

pub owed-append :
    (p : ℕ) (f : ℕ → VconMsg) (xs ys : List ℕ) → owed p f (xs ++ ys) ≡ owed p f xs + owed p f ys
owed-append p f [] ys = omega arith
owed-append p f (x ∷ xs) ys = omega (arith, owed-append p f xs ys)

pub replied-append :
    (p : ℕ) (xs ys : List PktReply) → replied p (xs ++ ys) ≡ replied p xs + replied p ys
replied-append p [] ys = omega arith
replied-append p (x ∷ xs) ys = ground (arith, replied-append p xs ys)

pub queued-append :
    (p : ℕ) (xs ys : List DosPacket) → queued p (xs ++ ys) ≡ queued p xs + queued p ys
queued-append p [] ys = omega arith
queued-append p (x ∷ xs) ys = ground (arith, queued-append p xs ys)

-- A message that is not among `is` may change.
pub owed-update :
    (p i : ℕ) (v : VconMsg) (f : ℕ → VconMsg) (is : List ℕ)
    → count i is ≡ 0
    → owed p (update f i v) is ≡ owed p f is
owed-update p i v f [] h = refl
owed-update p i v f (j ∷ is) h = ground (arith, owed-update p i v f is)

-- A change that keeps `private` is no change here.
pub owed-update_private :
    (p i : ℕ) (v : VconMsg) (f : ℕ → VconMsg) (is : List ℕ)
    → v.private ≡ (f i).private
    → owed p (update f i v) is ≡ owed p f is
owed-update_private p i v f [] h = refl
owed-update_private p i v f (j ∷ is) h = ground (arith, owed-update_private p i v f is h)

pub count-remove :
    (i m : ℕ) (is : List ℕ)
    → count i is ≢ 0
    → count m is ≡ (if i == m then 1 else 0) + count m (remove i is)
count-remove i m [] h = absurd (h refl)
count-remove i m (j ∷ is) h = ground (arith, count-remove i m is)

pub owed-remove :
    (p i : ℕ) (f : ℕ → VconMsg) (is : List ℕ)
    → count i is ≢ 0
    → owed p f is ≡ owes p (f i).private + owed p f (remove i is)
owed-remove p i f [] h = absurd (h refl)
owed-remove p i f (j ∷ is) h = ground (arith, owed-remove p i f is)

-- Where message `m` is: the number of its places in the handle and at the client.
abbrev pub places : Vcon → List ℕ → ℕ → ℕ
places sh held m =
    count m sh.free_vmsg_list + count m sh.user_port + count m sh.vmsg_port + count m held

-- How many answers to packet `p` were sent or are still to come through a lent message.
abbrev pub answers_for : Vcon → List ℕ → ℕ → ℕ
answers_for sh held p =
    replied p sh.replies
    + (owed p sh.vmsgs sh.user_port + owed p sh.vmsgs sh.vmsg_port + owed p sh.vmsgs held)

-- No message is in two places.
abbrev pub Distinct : Vcon → List ℕ → Type 0
Distinct sh held = (m : ℕ) → places sh held m ≤ 1
