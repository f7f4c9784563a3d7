-- ===== src/Termio/Keys.antt =====
-- `termio_find_key_code` finds every key of its table.
use rcli.Common.{
  ℕ, zero, suc, ◌≡◌, refl, Bool, true, false, some, List, [], ◌∷◌, ◌++◌, arith, ◌==◌, ◌&&◌, ◌||◌,
  not, get_elem?,
}
use rcli.Termio.Tables.{KeyCode, key_codes, starts_with, find_key_in, termio_find_key_code}

-- The two sequences differ at a place that both have.
differ : List ℕ → List ℕ → Bool
differ [] bs = false
differ (a ∷ cs) [] = false
differ (a ∷ cs) (b ∷ bs) = not (a == b) || differ cs bs

differ_all : List ℕ → List KeyCode → Bool
differ_all a [] = true
differ_all a (k ∷ ks) = differ a k.seq && differ_all a ks

apart : List KeyCode → Bool
apart [] = true
apart (k ∷ ks) = differ_all k.seq ks && apart ks

starts_with_self : (cs rest : List ℕ) → starts_with (cs ++ rest) cs ≡ true
starts_with_self [] [] = refl
starts_with_self [] (r ∷ rest) = refl
starts_with_self (a ∷ cs) rest = ground (arith, starts_with_self cs rest)

starts_with-differ :
    (cs bs rest : List ℕ) → differ cs bs ≡ true → starts_with (bs ++ rest) cs ≡ false
unfolding differ
starts_with-differ [] bs rest h = cc
starts_with-differ (a ∷ cs) [] rest h = cc
starts_with-differ (a ∷ cs) (b ∷ bs) rest h = ground (arith, starts_with-differ cs bs rest)

differ_all-at :
    (a : List ℕ) (ks : List KeyCode) (n : ℕ) (k : KeyCode)
    → differ_all a ks ≡ true
    → get_elem? ks n ≡ some k
    → differ a k.seq ≡ true
unfolding differ_all
differ_all-at a [] n k h e = cc
differ_all-at a (j ∷ ks) zero k h e = ground arith
differ_all-at a (j ∷ ks) (suc n) k h e = differ_all-at a ks n k (ground arith) e

find_key_in-apart :
    (ks : List KeyCode) (n : ℕ) (k : KeyCode) (rest : List ℕ)
    → apart ks ≡ true
    → get_elem? ks n ≡ some k
    → find_key_in ks (k.seq ++ rest) ≡ some k
unfolding apart find_key_in
find_key_in-apart [] n k rest h e = cc
find_key_in-apart (j ∷ ks) zero k rest h e = ground (arith, starts_with_self k.seq rest)
find_key_in-apart (j ∷ ks) (suc n) k rest h e =
    let other = starts_with-differ j.seq k.seq rest (differ_all-at j.seq ks n k (ground arith) e) in
    rw other (find_key_in-apart ks n k rest (ground arith) e)

key_codes-apart : apart key_codes ≡ true
unfolding apart differ_all differ key_codes
key_codes-apart = refl

-- Whatever key of the table is pressed, and whatever bytes follow its sequence, the search finds
-- this key: no entry hides another.
find_key_code-finds :
    (n : ℕ) (k : KeyCode) (rest : List ℕ)
    → get_elem? key_codes n ≡ some k
    → termio_find_key_code (k.seq ++ rest) ≡ some k
unfolding termio_find_key_code
find_key_code-finds n k rest e = find_key_in-apart key_codes n k rest key_codes-apart e
