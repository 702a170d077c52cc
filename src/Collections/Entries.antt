-- ===== src/Collections/Entries.antt =====
-- A predicate of all the values of a HashMap, through its operations.
use nostr_vpn.Prelude.{Bool, [], ◌∷◌, All, unwrap_or, inl, inr, Bool-cases}
use nostr_vpn.Prelude.Text.{Text, str_eq}
use nostr_vpn.Collections.HashMap.{HashMap, get, insert, retain, remove}

module _ {V : Type 0} (P : V → Type 0) where
  abbrev pub Values : HashMap V → Type 0
  Values m = All (λ e. P e.1) m

  pub insert-Values : (m : HashMap V) (k : Text) (v : V) → Values m → P v → Values (insert m k v)
  unfolding insert
  insert-Values [] k v a h = (h, tt)
  insert-Values ((j, w) ∷ m) k v a h = elim (Bool-cases (str_eq j k)) [
    | inl e ↦ rw e (h, a.1)
    | inr e ↦ rw e (a.0, insert-Values m k v a.1 h)
  ]

  pub retain-Values : (p : Text → V → Bool) (m : HashMap V) → Values m → Values (retain p m)
  unfolding retain
  retain-Values p [] a = tt
  retain-Values p ((j, w) ∷ m) a = elim (Bool-cases (p j w)) [
    | inl e ↦ rw e (a.0, retain-Values p m a.1)
    | inr e ↦ rw e (retain-Values p m a.1)
  ]

  pub remove-Values : (m : HashMap V) (k : Text) → Values m → Values (remove m k)
  unfolding remove
  remove-Values [] k a = tt
  remove-Values ((j, w) ∷ m) k a = elim (Bool-cases (str_eq j k)) [
    | inl e ↦ rw e (remove-Values m k a.1)
    | inr e ↦ rw e (a.0, remove-Values m k a.1)
  ]

  -- What a lookup finds, or stands in for it, has the predicate.
  pub get-Values : (m : HashMap V) (k : Text) (v : V) → Values m → P v → P (unwrap_or (get m k) v)
  unfolding get
  get-Values [] k v a h = h
  get-Values ((j, w) ∷ m) k v a h = elim (Bool-cases (str_eq j k)) [
    | inl e ↦ rw e a.0
    | inr e ↦ rw e (get-Values m k v a.1 h)
  ]
