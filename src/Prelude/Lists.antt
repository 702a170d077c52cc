-- ===== src/Prelude/Lists.antt =====
-- Lists measured by native numbers, filtered and searched by Boolean tests.
use Prim.Native.Nat.{ℕ, suc, ◌+◌, ◌≤◌}
use mathlib.Core.Path.{◌≡◌, refl, ap, sym, ◌∙◌}
use mathlib.Core.Logic.{inl, inr}
use mathlib.Core.Bool.{Bool, true, false, ◌&&◌, ◌||◌}
use mathlib.Core.List.{List, [], ◌∷◌, ◌++◌}
use mathlib.Core.Option.{Option, none, some, some-injective}
use native.Mathlib.Omega.{arith}
use nostr_vpn.Prelude.Tests.{if◌then◌else◌, Bool-cases}

-- A predicate of every element, by recursion.
abbrev pub All {ℓ κ} : {A : Type ℓ} → (A → Type κ) → List A → Type κ
All P [] = Unit
All P (x ∷ xs) = P x × All P xs

module _ {ℓ} {A : Type ℓ} where
  abbrev pub length : List A → ℕ
  length [] = 0
  length (x ∷ xs) = suc (length xs)

  abbrev pub is_empty : List A → Bool
  is_empty [] = true
  is_empty (x ∷ xs) = false

  abbrev pub head_or : List A → A → A
  head_or [] d = d
  head_or (x ∷ xs) d = x

  -- Iterator::any
  unfoldable pub any : (A → Bool) → List A → Bool
  any p [] = false
  any p (x ∷ xs) = p x || any p xs

  -- Iterator::all
  unfoldable pub every : (A → Bool) → List A → Bool
  every p [] = true
  every p (x ∷ xs) = p x && every p xs

  -- Vec::retain
  unfoldable pub keep : (A → Bool) → List A → List A
  keep p [] = []
  keep p (x ∷ xs) = if p x then x ∷ keep p xs else keep p xs

  unfoldable pub count : (A → Bool) → List A → ℕ
  count p [] = 0
  count p (x ∷ xs) = if p x then suc (count p xs) else count p xs

  -- Iterator::find
  unfoldable pub find : (A → Bool) → List A → Option A
  find p [] = none
  find p (x ∷ xs) = if p x then some x else find p xs

  pub length-append : (xs ys : List A) → length (xs ++ ys) ≡ length xs + length ys
  length-append [] ys = omega arith
  length-append (x ∷ xs) ys = omega (arith, length-append xs ys)

  pub length-keep-le : (p : A → Bool) (xs : List A) → length (keep p xs) ≤ length xs
  unfolding keep
  length-keep-le p [] = omega arith
  length-keep-le p (x ∷ xs) = ground (arith, length-keep-le p xs)

  pub count-le-length : (p : A → Bool) (xs : List A) → count p xs ≤ length xs
  unfolding count
  count-le-length p [] = omega arith
  count-le-length p (x ∷ xs) = ground (arith, count-le-length p xs)

  pub count-keep-le : (p q : A → Bool) (xs : List A) → count p (keep q xs) ≤ count p xs
  unfolding keep count
  count-keep-le p q [] = omega arith
  count-keep-le p q (x ∷ xs) = ground (arith, count-keep-le p q xs)

  pub keep-All : (p : A → Bool) (xs : List A) → All (λ x. p x ≡ true) (keep p xs)
  unfolding keep
  keep-All p [] = tt
  keep-All p (x ∷ xs) = ground (arith, keep-All p xs)

  pub every-append :
      (p : A → Bool) (xs ys : List A) → every p (xs ++ ys) ≡ (every p xs && every p ys)
  unfolding every
  every-append p [] ys = refl
  every-append p (x ∷ xs) ys = ground (arith, every-append p xs ys)

  pub every_weaken :
      (p q : A → Bool) (xs : List A)
      → ((x : A) → p x ≡ true → q x ≡ true)
      → every p xs ≡ true
      → every q xs ≡ true
  unfolding every
  every_weaken p q [] h e = refl
  every_weaken p q (x ∷ xs) h e = ground (arith, h x, every_weaken p q xs h)

  -- What drops nothing leaves the list.
  pub keep_same : (p : A → Bool) (xs : List A) → length (keep p xs) ≡ length xs → keep p xs ≡ xs
  unfolding keep
  keep_same p [] h = refl
  keep_same p (x ∷ xs) h = elim (Bool-cases (p x)) [
    | inl e ↦ rw e (ap (λ ys. x ∷ ys) (keep_same p xs (ground arith)))
    | inr e ↦ absurd (ground (arith, length-keep-le p xs))
  ]

  -- Where the first element passes the test, it is found.
  pub find_first :
      (p : A → Bool) (x y : A) (xs : List A) → find p (x ∷ xs) ≡ some y → p x ≡ true → x ≡ y
  unfolding find
  find_first p x y xs h e =
      some-injective x y (sym (ap (λ b. if b then some x else find p xs) e) ∙ h)

  pub find_rest :
      (p : A → Bool) (x y : A) (xs : List A)
      → find p (x ∷ xs) ≡ some y
      → p x ≡ false
      → find p xs ≡ some y
  unfolding find
  find_rest p x y xs h e = sym (ap (λ b. if b then some x else find p xs) e) ∙ h
