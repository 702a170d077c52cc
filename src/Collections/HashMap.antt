-- ===== src/Collections/HashMap.antt =====
-- HashMap<String, V> as the list of its entries, in the order in which the map is iterated. That
-- order is not specified, so statements hold for every list; an insertion of a new key may put it
-- anywhere, here at the end.
use nostr_vpn.Prelude.{
  ◌+◌, ◌≤◌, ◌≡◌, refl, Bool, true, false, Option, none, some, List, [], ◌∷◌, arith, length,
  if◌then◌else◌, is_some, All,
}
use nostr_vpn.Prelude.Text.{Text, str_eq, str_eq_iff, str_eq_refl}

abbrev pub HashMap {ℓ} : Type ℓ → Type ℓ
HashMap V = List (Text × V)

module _ {ℓ} {V : Type ℓ} where
  unfoldable pub get : HashMap V → Text → Option V
  get [] k = none
  get ((j, v) ∷ m) k = if str_eq j k then some v else get m k

  -- HashMap::contains_key
  abbrev pub contains_key : HashMap V → Text → Bool
  contains_key m k = is_some (get m k)

  unfoldable pub insert : HashMap V → Text → V → HashMap V
  insert [] k v = (k, v) ∷ []
  insert ((j, w) ∷ m) k v = if str_eq j k then (j, v) ∷ m else (j, w) ∷ insert m k v

  -- HashMap::retain
  unfoldable pub retain : (Text → V → Bool) → HashMap V → HashMap V
  retain p [] = []
  retain p ((j, v) ∷ m) = if p j v then (j, v) ∷ retain p m else retain p m

  unfoldable pub remove : HashMap V → Text → HashMap V
  remove [] k = []
  remove ((j, v) ∷ m) k = if str_eq j k then remove m k else (j, v) ∷ remove m k

  abbrev pub keys : HashMap V → List Text
  keys [] = []
  keys ((j, v) ∷ m) = j ∷ keys m

  abbrev pub values : HashMap V → List V
  values [] = []
  values ((j, v) ∷ m) = v ∷ values m

  pub get-insert :
      (m : HashMap V) (k j : Text) (v : V)
      → get (insert m k v) j ≡ (if str_eq k j then some v else get m j)
  unfolding get insert
  get-insert [] k j v = refl
  get-insert ((i, w) ∷ m) k j v =
      ground (arith, str_eq_iff i k, str_eq_iff i j, str_eq_iff k j, get-insert m k j v)

  pub get-remove :
      (m : HashMap V) (k j : Text) → get (remove m k) j ≡ (if str_eq k j then none else get m j)
  unfolding get remove
  get-remove [] k j = ground arith
  get-remove ((i, w) ∷ m) k j =
      ground (arith, str_eq_iff i k, str_eq_iff i j, str_eq_iff k j, get-remove m k j)

  -- No entry has the key `k`.
  abbrev pub Absent : Text → HashMap V → Type 0
  Absent k m = All (λ j. str_eq j k ≡ false) (keys m)

  -- A key has one entry: what a HashMap is by construction.
  abbrev pub Distinct : HashMap V → Type 0
  Distinct [] = Unit
  Distinct ((j, v) ∷ m) = Absent j m × Distinct m

  pub get-Absent : (m : HashMap V) (k : Text) → Absent k m → get m k ≡ none
  unfolding get
  get-Absent [] k a = refl
  get-Absent ((j, v) ∷ m) k a = ground (arith, get-Absent m k a.1)

  pub Absent-of_get : (m : HashMap V) (k : Text) → get m k ≡ none → Absent k m
  unfolding get
  Absent-of_get [] k e = tt
  Absent-of_get ((j, v) ∷ m) k e = ground (arith, Absent-of_get m k)

  Absent-insert :
      (m : HashMap V) (i k : Text) (v : V)
      → Absent i m
      → str_eq k i ≡ false
      → Absent i (insert m k v)
  unfolding insert
  Absent-insert [] i k v a h = (h, tt)
  Absent-insert ((j, w) ∷ m) i k v a h = ground (arith, Absent-insert m i k v a.1 h)

  pub insert-Distinct : (m : HashMap V) (k : Text) (v : V) → Distinct m → Distinct (insert m k v)
  unfolding insert
  insert-Distinct [] k v d = (tt, tt)
  insert-Distinct ((j, w) ∷ m) k v d = ground (
    arith,
    insert-Distinct m k v d.1,
    Absent-insert m j k v d.0,
    str_eq_iff j k,
    str_eq_iff k j,
    str_eq_refl k,
  )

  pub Absent-retain :
      (p : Text → V → Bool) (m : HashMap V) (i : Text) → Absent i m → Absent i (retain p m)
  unfolding retain
  Absent-retain p [] i a = tt
  Absent-retain p ((j, v) ∷ m) i a = ground (arith, Absent-retain p m i a.1)

  pub retain-Distinct : (p : Text → V → Bool) (m : HashMap V) → Distinct m → Distinct (retain p m)
  unfolding retain
  retain-Distinct p [] d = tt
  retain-Distinct p ((j, v) ∷ m) d =
      ground (arith, retain-Distinct p m d.1, Absent-retain p m j d.0)

  Absent-remove : (m : HashMap V) (i k : Text) → Absent i m → Absent i (remove m k)
  unfolding remove
  Absent-remove [] i k a = tt
  Absent-remove ((j, v) ∷ m) i k a = ground (arith, Absent-remove m i k a.1)

  pub remove-Distinct : (m : HashMap V) (k : Text) → Distinct m → Distinct (remove m k)
  unfolding remove
  remove-Distinct [] k d = tt
  remove-Distinct ((j, v) ∷ m) k d =
      ground (arith, remove-Distinct m k d.1, Absent-remove m j k d.0)

  abbrev keep_entry : (Text → V → Bool) → Text → Option V → Option V
  keep_entry p k none = none
  keep_entry p k (some v) = if p k v then some v else none

  pub get-retain :
      (p : Text → V → Bool) (m : HashMap V) (k : Text)
      → Distinct m
      → get (retain p m) k ≡ keep_entry p k (get m k)
  unfolding get retain
  get-retain p [] k d = refl
  get-retain p ((j, v) ∷ m) k d = ground (
    arith,
    get-retain p m k d.1,
    str_eq_iff j k,
    get-Absent (retain p m) j,
    Absent-retain p m j d.0,
  )

  -- Every entry that is left passes the test.
  pub retain-All : (p : Text → V → Bool) (m : HashMap V) → All (λ e. p e.0 e.1 ≡ true) (retain p m)
  unfolding retain
  retain-All p [] = tt
  retain-All p ((j, v) ∷ m) = ground (arith, retain-All p m)

  pub length-retain-le : (p : Text → V → Bool) (m : HashMap V) → length (retain p m) ≤ length m
  unfolding retain
  length-retain-le p [] = omega arith
  length-retain-le p ((j, v) ∷ m) = ground (arith, length-retain-le p m)

  pub length-insert-le : (m : HashMap V) (k : Text) (v : V) → length (insert m k v) ≤ length m + 1
  unfolding insert
  length-insert-le [] k v = omega arith
  length-insert-le ((j, w) ∷ m) k v = ground (arith, length-insert-le m k v)

pub ruleset map_laws = (get-insert, get-remove)
