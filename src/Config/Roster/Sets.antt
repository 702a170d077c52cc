-- ===== src/Config/Roster/Sets.antt =====
-- The lists of keys of network_roster.rs as sets.
use nostr_vpn.Prelude.{
  ◌≡◌, refl, sym, ap, ◌∙◌, Bool, true, false, ◌&&◌, ◌||◌, not, Option, none, some, List, [], ◌∷◌,
  arith, Bool-cases, inl, inr, if◌then◌else◌, is_empty, is_some, is_some_and, any, every, keep,
}
use nostr_vpn.Prelude.Results.{Result, ok, err}
use nostr_vpn.Prelude.Text.{Text, str_eq, str_eq_iff, str_le}
use nostr_vpn.Prelude.Sorting.{sort, insert_sorted}
use nostr_vpn.Collections.HashSet.{contains, contains-sort}
use nostr_vpn.Config.State.{Libraries, ConfigError, invalid_participant_pubkey}
use nostr_vpn.Config.Roster.{
  dedup, sorted_unique, filter_map, parse_all, admins_or, without_own, finish_participants,
  normalize_network_admins, normalize_shared_roster_participants,
}

contains-head :
    (x : Text) (ds : List Text) (k : Text)
    → contains (elim ds [ [] ↦ x ∷ [] | y ∷ ys ↦ if str_eq x y then y ∷ ys else x ∷ y ∷ ys ]) k
      ≡ (str_eq x k || contains ds k)
unfolding contains
contains-head x [] k = refl
contains-head x (y ∷ ys) k = elim (Bool-cases (str_eq x y)) [
  | inl e ↦ rw e (ground (arith, str_eq_iff x y, e))
  | inr e ↦ rw e refl
]

contains-dedup : (xs : List Text) (k : Text) → contains (dedup xs) k ≡ contains xs k
unfolding contains dedup
contains-dedup [] k = refl
contains-dedup (x ∷ xs) k =
    contains-head x (dedup xs) k ∙ ap (λ b. str_eq x k || b) (contains-dedup xs k)

pub contains-sorted_unique :
    (xs : List Text) (k : Text) → contains (sorted_unique xs) k ≡ contains xs k
unfolding sorted_unique
contains-sorted_unique xs k = contains-dedup (sort str_le xs) k ∙ contains-sort xs k

head_nonempty :
    (x : Text) (ds : List Text)
    → is_empty (elim ds [ [] ↦ x ∷ [] | y ∷ ys ↦ if str_eq x y then y ∷ ys else x ∷ y ∷ ys ])
      ≡ false
head_nonempty x [] = refl
head_nonempty x (y ∷ ys) = ground arith

is_empty-dedup : (xs : List Text) → is_empty (dedup xs) ≡ is_empty xs
unfolding dedup
is_empty-dedup [] = refl
is_empty-dedup (x ∷ xs) = head_nonempty x (dedup xs)

is_empty-insert_sorted : (x : Text) (ys : List Text) → is_empty (insert_sorted str_le x ys) ≡ false
unfolding insert_sorted
is_empty-insert_sorted x [] = refl
is_empty-insert_sorted x (y ∷ ys) = ground arith

is_empty-sort : (xs : List Text) → is_empty (sort str_le xs) ≡ is_empty xs
unfolding sort
is_empty-sort [] = refl
is_empty-sort (x ∷ xs) = is_empty-insert_sorted x (sort str_le xs)

is_empty-sorted_unique : (xs : List Text) → is_empty (sorted_unique xs) ≡ is_empty xs
unfolding sorted_unique
is_empty-sorted_unique xs = is_empty-dedup (sort str_le xs) ∙ is_empty-sort xs

contains-keep :
    (p : Text → Bool) (xs : List Text) (k : Text) → contains (keep p xs) k ≡ (contains xs k && p k)
unfolding contains keep
contains-keep p [] k = refl
contains-keep p (x ∷ xs) k = elim (Bool-cases (str_eq x k)) [
  | inl e ↦ ground (arith, contains-keep p xs k, str_eq_iff x k, ap p ((str_eq_iff x k).0 e))
  | inr e ↦ ground (arith, contains-keep p xs k)
]

module _ (lib : Libraries) where
  -- The text is one that is read as the key `k`.
  abbrev pub reads : Text → Text → Bool
  reads k text = is_some_and (lib.parse_pubkey text) (λ key. str_eq key k)

  abbrev pub readable : Text → Bool
  readable text = is_some (lib.parse_pubkey text)

  kept-contains :
      (o : Option Text) (rest : List Text) (k : Text)
      → contains (elim o [ none ↦ rest | some y ↦ y ∷ rest ]) k
        ≡ (is_some_and o (λ key. str_eq key k) || contains rest k)
  unfolding contains
  kept-contains none rest k = refl
  kept-contains (some y) rest k = refl

  kept-is_empty :
      (o : Option Text) (rest : List Text) (b : Bool)
      → is_empty rest ≡ not b
      → is_empty (elim o [ none ↦ rest | some y ↦ y ∷ rest ]) ≡ not (is_some o || b)
  kept-is_empty none rest b h = h
  kept-is_empty (some y) rest b h = refl

  contains-filter_map :
      (xs : List Text) (k : Text) → contains (filter_map lib.parse_pubkey xs) k ≡ any (reads k) xs
  unfolding contains filter_map any
  contains-filter_map [] k = refl
  contains-filter_map (x ∷ xs) k =
      kept-contains (lib.parse_pubkey x) (filter_map lib.parse_pubkey xs) k
      ∙ ap (λ b. is_some_and (lib.parse_pubkey x) (λ key. str_eq key k) || b)
          (contains-filter_map xs k)

  is_empty-filter_map :
      (xs : List Text) → is_empty (filter_map lib.parse_pubkey xs) ≡ not (any readable xs)
  unfolding filter_map any
  is_empty-filter_map [] = refl
  is_empty-filter_map (x ∷ xs) =
      kept-is_empty (lib.parse_pubkey x) (filter_map lib.parse_pubkey xs) (any readable xs)
        (is_empty-filter_map xs)

  -- All the texts are readable, and the keys are those that they are read as.
  abbrev AreRead : List Text → Text → Result ConfigError (List Text) → Type 0
  AreRead ps k (ok keys) = (contains keys k ≡ any (reads k) ps) × (every readable ps ≡ true)
  AreRead ps k (err e) = Unit {0}

  cons-AreRead :
      (p : Text) (ps : List Text) (k key : Text) (rest : Result ConfigError (List Text))
      → lib.parse_pubkey p ≡ some key
      → AreRead ps k rest
      → AreRead (p ∷ ps) k (elim rest [ ok keys ↦ ok (key ∷ keys) | err e ↦ err e ])
  unfolding contains any every
  cons-AreRead p ps k key (ok keys) e h = rw e (ap (λ b. str_eq key k || b) h.0, h.1)
  cons-AreRead p ps k key (err x) e h = tt

  step-AreRead :
      (p : Text) (ps : List Text) (k : Text) (o : Option Text)
      (rest : Result ConfigError (List Text))
      → lib.parse_pubkey p ≡ o
      → AreRead ps k rest
      → AreRead (p ∷ ps) k (elim o [
        | none ↦ err invalid_participant_pubkey
        | some key ↦ elim rest [ ok keys ↦ ok (key ∷ keys) | err e ↦ err e ]
      ])
  step-AreRead p ps k none rest e h = tt
  step-AreRead p ps k (some key) rest e h = cons-AreRead p ps k key rest e h

  parse_all-AreRead : (ps : List Text) (k : Text) → AreRead ps k (parse_all lib ps)
  unfolding parse_all contains any every
  parse_all-AreRead [] k = (refl, refl)
  parse_all-AreRead (p ∷ ps) k =
      step-AreRead p ps k (lib.parse_pubkey p) (parse_all lib ps) refl (parse_all-AreRead ps k)

  contains-without_own :
      (own : Option Text) (keys : List Text) (k : Text)
      → contains (without_own own keys) k
        ≡ (contains keys k && not (is_some_and own (λ o. str_eq k o)))
  contains-without_own none keys k = ground arith
  contains-without_own (some o) keys k = contains-keep (λ key. not (str_eq key o)) keys k

  finished :
      (ps : List Text) (own : Option Text) (k : Text) (o : Result ConfigError (List Text))
      (participants : List Text)
      → AreRead ps k o
      → finish_participants own o ≡ ok participants
      → (contains participants k ≡ (any (reads k) ps && not (is_some_and own (λ x. str_eq k x))))
        × (every readable ps ≡ true)
  finished ps own k (err e) participants h f = absurd (cc)
  finished ps own k (ok keys) participants h f =
      let same : sorted_unique (without_own own keys) ≡ participants = cc in
      (
        ap (λ l. contains l k) (sym same)
            ∙ contains-sorted_unique (without_own own keys) k
            ∙ contains-without_own own keys k
            ∙ ap (λ b. b && not (is_some_and own (λ x. str_eq k x))) h.0,
        h.1,
      )

  -- The participants of a roster are all readable, and those kept are they but for the node itself.
  pub contains-participants :
      (ps : List Text) (own : Option Text) (participants : List Text) (k : Text)
      → normalize_shared_roster_participants lib ps own ≡ ok participants
      → (contains participants k ≡ (any (reads k) ps && not (is_some_and own (λ x. str_eq k x))))
        × (every readable ps ≡ true)
  unfolding normalize_shared_roster_participants
  contains-participants ps own participants k h =
      finished ps own k (parse_all lib ps) participants (parse_all-AreRead ps k) h

  -- The one that stands in where no admin can be read: the inviter, or else the node itself.
  abbrev pub stands_in : Option Text → Option Text → Text → Bool
  stands_in (some inviter) own k = str_eq inviter k
  stands_in none own k = is_some_and own (λ o. str_eq o k)

  contains-admins_or :
      (xs : List Text) (inviter own : Option Text) (k : Text)
      → contains (admins_or xs inviter own) k
        ≡ (if is_empty xs then stands_in inviter own k else contains xs k)
  unfolding contains
  contains-admins_or (x ∷ xs) inviter own k = refl
  contains-admins_or [] (some inviter) own k = ground arith
  contains-admins_or [] none (some own) k = ground arith
  contains-admins_or [] none none k = refl

  if_not : (b : Bool) (x y : Bool) → (if not b then x else y) ≡ (if b then y else x)
  if_not true x y = refl
  if_not false x y = refl

  -- The admins are those of the list that can be read; where none can, the one that stands in.
  pub contains-admins :
      (admins : List Text) (own : Option Text) (inviter k : Text)
      → contains (normalize_network_admins lib admins own inviter) k ≡ (
          if any readable admins
          then any (reads k) admins
          else stands_in (lib.parse_pubkey inviter) own k)
  unfolding normalize_network_admins
  contains-admins admins own inviter k =
      let read = filter_map lib.parse_pubkey admins in
      let other = stands_in (lib.parse_pubkey inviter) own k in
      contains-admins_or (sorted_unique read) (lib.parse_pubkey inviter) own k
      ∙ ap (λ b. if b then other else contains (sorted_unique read) k)
          (is_empty-sorted_unique read ∙ is_empty-filter_map admins)
      ∙ ap (λ b. if not (any readable admins) then other else b)
          (contains-sorted_unique read k ∙ contains-filter_map admins k)
      ∙ if_not (any readable admins) other (any (reads k) admins)
