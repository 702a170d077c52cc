-- ===== src/Collections/Counting.antt =====
-- How many values of a map pass a test, and how its operations change that number.
use nostr_vpn.Prelude.{
  ◌+◌, ◌≤◌, ◌≡◌, Bool, true, some, [], ◌∷◌, arith, length, count, is_some, if◌then◌else◌,
}
use nostr_vpn.Prelude.Text.{Text}
use nostr_vpn.Collections.HashMap.{HashMap, get, insert, retain, values}

module _ {ℓ} {V : Type ℓ} where
  pub count-insert-le :
      (p : V → Bool) (m : HashMap V) (k : Text) (v : V)
      → count p (values (insert m k v)) ≤ count p (values m) + (if p v then 1 else 0)
  unfolding count insert
  count-insert-le p [] k v = ground arith
  count-insert-le p ((j, w) ∷ m) k v = ground (arith, count-insert-le p m k v)

  -- A value that is replaced by one that counts the same changes no number.
  pub count-insert_same :
      (p : V → Bool) (m : HashMap V) (k : Text) (v w : V)
      → get m k ≡ some w
      → p v ≡ p w
      → count p (values (insert m k v)) ≡ count p (values m)
  unfolding count insert get
  count-insert_same p [] k v w g e = cc
  count-insert_same p ((j, u) ∷ m) k v w g e = ground (arith, count-insert_same p m k v w)

  pub count-retain-le :
      (p : V → Bool) (q : Text → V → Bool) (m : HashMap V)
      → count p (values (retain q m)) ≤ count p (values m)
  unfolding count retain
  count-retain-le p q [] = omega arith
  count-retain-le p q ((j, w) ∷ m) = ground (arith, count-retain-le p q m)

  -- A key that is there already takes no more room.
  pub length-insert_old :
      (m : HashMap V) (k : Text) (v : V)
      → is_some (get m k) ≡ true
      → length (insert m k v) ≡ length m
  unfolding get insert
  length-insert_old [] k v h = cc
  length-insert_old ((j, w) ∷ m) k v h = ground (arith, length-insert_old m k v)
