-- ===== src/Prelude/Sorting.antt =====
-- slice::sort and sort_by as a stable insertion sort, by a test `le` for "not greater".
use mathlib.Core.Path.{◌≡◌}
use mathlib.Core.Logic.{inl, inr}
use mathlib.Core.Bool.{Bool, true, false}
use mathlib.Core.List.{List, [], ◌∷◌, Perm}
use mathlib.Core.List.Perm
use nostr_vpn.Prelude.Tests.{if◌then◌else◌, Bool-cases}
use nostr_vpn.Prelude.Lists.{All}

module _ {ℓ} {A : Type ℓ} (le : A → A → Bool) where
  unfoldable pub insert_sorted : A → List A → List A
  insert_sorted x [] = x ∷ []
  insert_sorted x (y ∷ ys) = if le x y then x ∷ y ∷ ys else y ∷ insert_sorted x ys

  unfoldable pub sort : List A → List A
  unfolding insert_sorted
  sort [] = []
  sort (x ∷ xs) = insert_sorted x (sort xs)

  pub insert_sorted-perm : (x : A) (ys : List A) → Perm (insert_sorted x ys) (x ∷ ys)
  unfolding insert_sorted
  insert_sorted-perm x [] = Perm.refl _
  insert_sorted-perm x (y ∷ ys) = elim (Bool-cases (le x y)) [
    | inl e ↦ rw e (Perm.refl _)
    | inr e ↦ rw e (Perm.trans (Perm.cons y (insert_sorted-perm x ys)) (Perm.swap x y ys))
  ]

  pub sort-perm : (xs : List A) → Perm (sort xs) xs
  unfolding sort
  sort-perm [] = Perm.refl _
  sort-perm (x ∷ xs) = Perm.trans (insert_sorted-perm x (sort xs)) (Perm.cons x (sort-perm xs))

  insert_sorted-All {κ} :
      (P : A → Type κ) (x : A) (ys : List A) → P x → All P ys → All P (insert_sorted x ys)
  unfolding insert_sorted
  insert_sorted-All P x [] h a = (h, tt)
  insert_sorted-All P x (y ∷ ys) h a = elim (Bool-cases (le x y)) [
    | inl e ↦ rw e (h, a)
    | inr e ↦ rw e (a.0, insert_sorted-All P x ys h a.1)
  ]

  pub sort-All {κ} : (P : A → Type κ) (xs : List A) → All P xs → All P (sort xs)
  unfolding sort
  sort-All P [] a = tt
  sort-All P (x ∷ xs) a = insert_sorted-All P x (sort xs) a.0 (sort-All P xs a.1)

  -- Every element stands before those that are not less than it.
  abbrev pub IsSorted : List A → Type ℓ
  IsSorted [] = Unit
  IsSorted (x ∷ xs) = All (λ y. le x y ≡ true) xs × IsSorted xs

-- Each element is related to all that stand behind it.
abbrev pub InOrder {ℓ κ} : {A : Type ℓ} → (A → A → Type κ) → List A → Type κ
InOrder R [] = Unit
InOrder R (x ∷ xs) = All (R x) xs × InOrder R xs

pub IsSorted-InOrder {ℓ} :
    {A : Type ℓ} (le : A → A → Bool) (xs : List A)
    → IsSorted le xs
    → InOrder (λ x y. le x y ≡ true) xs
IsSorted-InOrder le [] h = tt
IsSorted-InOrder le (x ∷ xs) h = (h.0, IsSorted-InOrder le xs h.1)

-- A linear preorder, which the sorts by key of the program use.
pub record IsOrder {ℓ} {A : Type ℓ} (le : A → A → Bool) : Type ℓ where
  pub total : (a b : A) → le a b ≡ false → le b a ≡ true
  pub trans : (a b c : A) → le a b ≡ true → le b c ≡ true → le a c ≡ true

module _ {ℓ} {A : Type ℓ} {le : A → A → Bool} (o : IsOrder le) where
  All-weaken :
      (x y : A) (zs : List A)
      → le x y ≡ true
      → All (λ z. le y z ≡ true) zs
      → All (λ z. le x z ≡ true) zs
  All-weaken x y [] h a = tt
  All-weaken x y (z ∷ zs) h a = (o.trans x y z h a.0, All-weaken x y zs h a.1)

  All-insert_sorted :
      (x y : A) (zs : List A)
      → le y x ≡ true
      → All (λ z. le y z ≡ true) zs
      → All (λ z. le y z ≡ true) (insert_sorted le x zs)
  unfolding insert_sorted
  All-insert_sorted x y [] h a = (h, tt)
  All-insert_sorted x y (z ∷ zs) h a = elim (Bool-cases (le x z)) [
    | inl e ↦ rw e (h, a)
    | inr e ↦ rw e (a.0, All-insert_sorted x y zs h a.1)
  ]

  insert_sorted-IsSorted :
      (x : A) (ys : List A) → IsSorted le ys → IsSorted le (insert_sorted le x ys)
  unfolding insert_sorted
  insert_sorted-IsSorted x [] s = (tt, tt)
  insert_sorted-IsSorted x (y ∷ ys) s = elim (Bool-cases (le x y)) [
    | inl e ↦ rw e ((e, All-weaken x y ys e s.0), s)
    | inr e ↦ rw e (All-insert_sorted x y ys (o.total x y e) s.0, insert_sorted-IsSorted x ys s.1)
  ]

  pub sort-IsSorted : (xs : List A) → IsSorted le (sort le xs)
  unfolding sort
  sort-IsSorted [] = tt
  sort-IsSorted (x ∷ xs) = insert_sorted-IsSorted x (sort le xs) (sort-IsSorted xs)
