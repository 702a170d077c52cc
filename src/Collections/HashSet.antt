-- ===== src/Collections/HashSet.antt =====
-- HashSet<String> as the list of its elements.
use nostr_vpn.Prelude.{
  ◌&&◌, not, ◌++◌, ◌≡◌, refl, Bool, true, false, ◌||◌, List, [], ◌∷◌, arith, if◌then◌else◌,
}
use nostr_vpn.Prelude.Text.{Text, str_eq, str_eq_iff, str_le}
use nostr_vpn.Prelude.Sorting.{sort, insert_sorted}

abbrev pub HashSet : Type 0
HashSet = List Text

unfoldable pub contains : HashSet → Text → Bool
contains [] k = false
contains (x ∷ xs) k = str_eq x k || contains xs k

unfoldable pub add : HashSet → Text → HashSet
add [] k = k ∷ []
add (x ∷ xs) k = if str_eq x k then x ∷ xs else x ∷ add xs k

-- `insert` returns whether the element is new.
unfoldable pub insert : HashSet → Text → HashSet × Bool
unfolding add contains
insert s k = (add s k, if contains s k then false else true)

pub contains-add : (s : HashSet) (k j : Text) → contains (add s k) j ≡ (str_eq k j || contains s j)
unfolding contains add
contains-add [] k j = refl
contains-add (x ∷ xs) k j =
    ground (arith, contains-add xs k j, str_eq_iff x k, str_eq_iff x j, str_eq_iff k j)

-- `into_iter().collect::<HashSet<_>>()`
unfoldable pub collect : List Text → HashSet
unfolding add
collect [] = []
collect (x ∷ xs) = add (collect xs) x

contains-insert_sorted :
    (x : Text) (xs : List Text) (k : Text)
    → contains (insert_sorted str_le x xs) k ≡ (str_eq x k || contains xs k)
unfolding contains insert_sorted
contains-insert_sorted x [] k = refl
contains-insert_sorted x (y ∷ ys) k = ground (arith, contains-insert_sorted x ys k)

pub contains-sort : (xs : List Text) (k : Text) → contains (sort str_le xs) k ≡ contains xs k
unfolding contains sort
contains-sort [] k = refl
contains-sort (x ∷ xs) k =
    ground (arith, contains-sort xs k, contains-insert_sorted x (sort str_le xs) k)

-- No element stands in the list twice.
unfoldable pub is_unique : List Text → Bool
unfolding contains
is_unique [] = true
is_unique (x ∷ xs) = not (contains xs x) && is_unique xs

pub contains-append :
    (xs ys : List Text) (k : Text) → contains (xs ++ ys) k ≡ (contains xs k || contains ys k)
unfolding contains
contains-append [] ys k = refl
contains-append (x ∷ xs) ys k = ground (arith, contains-append xs ys k)

pub contains-collect : (xs : List Text) (k : Text) → contains (collect xs) k ≡ contains xs k
unfolding collect contains
contains-collect [] k = refl
contains-collect (x ∷ xs) k = ground (arith, contains-collect xs k, contains-add (collect xs) x k)

-- An appended list whose elements are not in the first.
pub append_unique :
    (xs ys : List Text)
    → is_unique xs ≡ true
    → is_unique ys ≡ true
    → ((k : Text) → contains xs k ≡ true → contains ys k ≡ false)
    → is_unique (xs ++ ys) ≡ true
unfolding is_unique contains
append_unique [] ys u v d = v
append_unique (x ∷ xs) ys u v d = ground (
  arith,
  contains-append xs ys x,
  d x,
  str_eq_iff x x,
  append_unique xs ys (ground arith) v (λ k h. d k (ground arith)),
)
