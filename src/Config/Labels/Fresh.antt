-- ===== src/Config/Labels/Fresh.antt =====
-- The labels and identifiers that are made unique are new: of more candidates than there are used
-- names, one is not used.
use nostr_vpn.Prelude.{
  ℕ, zero, suc, ◌+◌, ◌≤◌, ◌<◌, ◌≡◌, refl, ap, sym, ◌∙◌, inl, inr, true, false, [], ◌∷◌, ◌++◌,
  length, arith, Bool-cases, if◌then◌else◌, ◌==◌, ◌||◌, ==_iff, subst,
}
use nostr_vpn.Prelude.Text.{Text, str_eq, str_eq_iff}
use nostr_vpn.Prelude.Decimal.{show, show_inj, all_digits, all_digits-show}
use nostr_vpn.Collections.HashSet.{HashSet, contains, contains-add, add}
use nostr_vpn.Config.Labels.{
  search_label, label_candidate, uniquify_magic_dns_label, numbered, search_entry_id,
  uniquify_network_entry_id, nonempty_base, take_or_search,
}

-- One element less, once.
erase : Text → HashSet → HashSet
erase k [] = []
erase k (x ∷ xs) = if str_eq x k then xs else x ∷ erase k xs

length-erase : (k : Text) (s : HashSet) → contains s k ≡ true → suc (length (erase k s)) ≡ length s
unfolding erase contains
length-erase k [] h = ground arith
length-erase k (x ∷ xs) h = ground (arith, length-erase k xs)

contains-erase :
    (k j : Text) (s : HashSet)
    → str_eq k j ≡ false
    → contains s j ≡ true
    → contains (erase k s) j ≡ true
unfolding erase contains
contains-erase k j [] n h = ground arith
contains-erase k j (x ∷ xs) n h =
    ground (arith, contains-erase k j xs n, str_eq_iff x k, str_eq_iff x j, str_eq_iff k j)

-- A candidate that is not used, from `start` on and before `end`.
abbrev FreshAmong : (ℕ → Text) → ℕ → ℕ → HashSet → Type 0
FreshAmong candidate start end used =
    (j : ℕ) × (start ≤ j) × (j < end) × (contains used (candidate j) ≡ false)

module _ (candidate : ℕ → Text) (inj : (m n : ℕ) → candidate m ≡ candidate n → m ≡ n) where
  apart : (m n : ℕ) → m < n → str_eq (candidate m) (candidate n) ≡ false
  apart m n h = elim (Bool-cases (str_eq (candidate m) (candidate n))) [
    | inl e ↦ absurd (omega (arith, inj m n ((str_eq_iff _ _).0 e)))
    | inr e ↦ e
  ]

  -- The used candidates from `start` on are among `left`.
  fresh_among :
      (n start : ℕ) (used left : HashSet)
      → ((j : ℕ)
          → start ≤ j
          → contains used (candidate j) ≡ true
          → contains left (candidate j) ≡ true)
      → length left < n
      → FreshAmong candidate start (start + n) used
  fresh_among zero start used left h l = absurd (omega arith)
  fresh_among (suc n) start used left h l = elim (Bool-cases (contains used (candidate start))) [
    | inr e ↦ (start, omega arith, omega arith, e)
    | inl e ↦
        let (j, below, above, f) =
          fresh_among n (suc start) used (erase (candidate start) left)
            (λ j b c. contains-erase _ _ left (apart start j b) (h j (omega arith) c))
            (omega (arith, length-erase (candidate start) left (h start (omega arith) e))) in
        (j, omega arith, omega arith, f)
  ]

  -- A later candidate, when the first is used.
  pub fresh_later :
      (start end : ℕ) (used : HashSet)
      → contains used (candidate start) ≡ true
      → FreshAmong candidate start end used
      → FreshAmong candidate (start + 1) end used
  fresh_later start end used h (j, below, above, f) = elim (Bool-cases (start == j)) [
    | inl e ↦ absurd (ground (arith, ap (λ i. contains used (candidate i)) ((==_iff start j).0 e)))
    | inr e ↦ (j, ground arith, above, f)
  ]

  pub FreshAmong-used :
      (n start : ℕ) (used : HashSet) → length used < n → FreshAmong candidate start (start + n) used
  FreshAmong-used n start used l = fresh_among n start used used (λ j b c. c) l

-- The text after the last dash, from which a candidate's number is read.
after_dash : Text → Text → Text
after_dash last [] = last
after_dash last (c ∷ s) = if c == 45 then after_dash s s else after_dash last s

after_dash-digits : (last s : Text) → all_digits s ≡ true → after_dash last s ≡ last
unfolding after_dash all_digits
after_dash-digits last [] h = refl
after_dash-digits last (c ∷ s) h = ground (arith, after_dash-digits last s)

after_dash-numbered : (last base : Text) (n : ℕ) → after_dash last (base ++ 45 ∷ show n) ≡ show n
unfolding after_dash
after_dash-numbered last [] n = after_dash-digits (show n) (show n) (all_digits-show n)
after_dash-numbered last (c ∷ base) n =
    ground
      (arith, after_dash-numbered last base n, after_dash-numbered (base ++ 45 ∷ show n) base n)

-- Two numbers behind a dash make two texts, whatever stands in front.
numbered_inj : (a b : Text) (m n : ℕ) → a ++ 45 ∷ show m ≡ b ++ 45 ∷ show n → m ≡ n
numbered_inj a b m n e =
    show_inj m n
      (sym (after_dash-numbered [] a m) ∙ ap (after_dash []) e ∙ after_dash-numbered [] b n)

label_candidate_inj :
    (base : Text) (m n : ℕ) → label_candidate base m ≡ label_candidate base n → m ≡ n
unfolding label_candidate
label_candidate_inj base m n e = numbered_inj _ _ m n e

search_entry_id_fresh :
    (fuel : ℕ) (base : Text) (start end : ℕ) (used : HashSet)
    → end ≤ start + suc fuel
    → FreshAmong (numbered base) start end used
    → contains used (search_entry_id fuel base start used) ≡ false
unfolding search_entry_id
search_entry_id_fresh zero base start end used l (j, below, above, f) =
    let e : j ≡ start = omega arith in subst (λ i. contains used (numbered base i) ≡ false) e f
search_entry_id_fresh (suc fuel) base start end used l f =
    elim (Bool-cases (contains used (numbered base start))) [
      | inl e ↦ rw e (
          search_entry_id_fresh fuel base (start + 1) end used (omega arith)
            (fresh_later (numbered base) (numbered_inj base base) start end used e f))
      | inr e ↦ rw e e
    ]

search_label_fresh :
    (left : ℕ) (base : Text) (counter end : ℕ) (used : HashSet)
    → end ≤ counter + left
    → FreshAmong (label_candidate base) counter end used
    → contains used (search_label left base counter used).0 ≡ false
unfolding search_label
search_label_fresh zero base counter end used l (j, below, above, f) = absurd (omega arith)
search_label_fresh (suc left) base counter end used l f =
    elim (Bool-cases (contains used (label_candidate base counter))) [
      | inl e ↦ rw e (
          search_label_fresh left base (counter + 1) end used (omega arith)
            (fresh_later (label_candidate base) (label_candidate_inj base) counter end used e f))
      | inr e ↦ rw e e
    ]

-- The result is the only name that is added.
search_label-adds :
    (left : ℕ) (base : Text) (counter end : ℕ) (used : HashSet) (k : Text)
    → end ≤ counter + left
    → FreshAmong (label_candidate base) counter end used
    → let r = search_label left base counter used in
      contains r.1 k ≡ (str_eq r.0 k || contains used k)
unfolding search_label
search_label-adds zero base counter end used k l (j, below, above, f) = absurd (omega arith)
search_label-adds (suc left) base counter end used k l f =
    elim (Bool-cases (contains used (label_candidate base counter))) [
      | inl e ↦ rw e (
          search_label-adds left base (counter + 1) end used k (omega arith)
            (fresh_later (label_candidate base) (label_candidate_inj base) counter end used e f))
      | inr e ↦ rw e (contains-add used (label_candidate base counter) k)
    ]

-- The loop of `uniquify_network_entry_id` ends: it takes no more rounds than there are used
-- identifiers, and its result is not among them.
pub uniquify_network_entry_id_fresh :
    (candidate : Text) (used : HashSet)
    → contains used (uniquify_network_entry_id candidate used).0 ≡ false
unfolding uniquify_network_entry_id
uniquify_network_entry_id_fresh candidate used = elim (Bool-cases (contains used candidate)) [
  | inl e ↦ rw e (
      search_entry_id_fresh (length used) candidate 2 (2 + suc (length used)) used (omega arith) (
        FreshAmong-used (numbered candidate) (numbered_inj candidate candidate) (suc (length used))
          2 used (omega arith)))
  | inr e ↦ rw e e
]

-- The name `r.0` is new, and it is what `r.1` has more than `used`.
abbrev pub AddsNew : HashSet → Text × HashSet → Type 0
AddsNew used r =
    (contains used r.0 ≡ false) × ((k : Text) → contains r.1 k ≡ (str_eq r.0 k || contains used k))

take_or_search-AddsNew :
    (rounds : ℕ) (base : Text) (used : HashSet)
    → length used < rounds
    → AddsNew used (take_or_search rounds base used)
unfolding take_or_search
take_or_search-AddsNew rounds base used h =
    let f = FreshAmong-used (label_candidate base) (label_candidate_inj base) rounds 2 used h in
    elim (Bool-cases (contains used base)) [
      | inl e ↦ rw e (
        search_label_fresh rounds base 2 (2 + rounds) used (omega arith) f,
        λ k. search_label-adds rounds base 2 (2 + rounds) used k (omega arith) f,
      )
      | inr e ↦ rw e (e, λ k. contains-add used base k)
    ]

-- With fewer used labels than it has rounds, the loop of `uniquify_magic_dns_label` finds a label
-- that is not used, and adds that one to the used ones and no other.
pub uniquify_magic_dns_label-AddsNew :
    (base : Text) (used : HashSet)
    → length used < 9998
    → AddsNew used (uniquify_magic_dns_label base used)
unfolding uniquify_magic_dns_label
uniquify_magic_dns_label-AddsNew base used h =
    take_or_search-AddsNew 9998 (nonempty_base base) used h

length-add-le : (s : HashSet) (k : Text) → length (add s k) ≤ length s + 1
unfolding add
length-add-le [] k = omega arith
length-add-le (x ∷ s) k = ground (arith, length-add-le s k)

search_label-grows :
    (left : ℕ) (base : Text) (counter : ℕ) (used : HashSet)
    → length (search_label left base counter used).1 ≤ length used + 1
unfolding search_label
search_label-grows zero base counter used = omega arith
search_label-grows (suc left) base counter used =
    elim (Bool-cases (contains used (label_candidate base counter))) [
      | inl e ↦ rw e (search_label-grows left base (counter + 1) used)
      | inr e ↦ rw e (length-add-le used (label_candidate base counter))
    ]

take_or_search-grows :
    (rounds : ℕ) (base : Text) (used : HashSet)
    → length (take_or_search rounds base used).1 ≤ length used + 1
unfolding take_or_search
take_or_search-grows rounds base used = elim (Bool-cases (contains used base)) [
  | inl e ↦ rw e (search_label-grows rounds base 2 used)
  | inr e ↦ rw e (length-add-le used base)
]

pub uniquify_magic_dns_label-grows :
    (base : Text) (used : HashSet) → length (uniquify_magic_dns_label base used).1 ≤ length used + 1
unfolding uniquify_magic_dns_label
uniquify_magic_dns_label-grows base used = take_or_search-grows 9998 (nonempty_base base) used
