-- ===== src/Config/Aliases/Unambiguous.antt =====
-- No two members have one alias, and none has the label of the node itself.
use mathlib.Core.Option.{some-injective}
use nostr_vpn.Prelude.{
  ◌+◌, ◌≤◌, ◌<◌, ◌≡◌, refl, ap, ◌∙◌, Bool, true, false, ◌&&◌, ◌||◌, not, Option, none, some, List,
  [], ◌∷◌, arith, Bool-cases, inl, inr, length, find, is_empty, is_some_and, if◌then◌else◌, ◌++◌,
  map_option, find_first, find_rest, ◌⊎◌, sym, or_else,
}
use nostr_vpn.Prelude.Text.{Text, str_eq, str_eq_iff, trim}
use nostr_vpn.Prelude.Chars.{trim_end_matches}
use nostr_vpn.Collections.HashMap.{HashMap, get, insert, values, remove}
use nostr_vpn.Collections.HashSet.{HashSet, contains, is_unique}
use nostr_vpn.Config.State.{Libraries, AppConfig, npub_for_pubkey_hex, own_nostr_pubkey_hex}
use nostr_vpn.Config.Labels.{uniquify_magic_dns_label}
use nostr_vpn.Config.Labels.Fresh.{uniquify_magic_dns_label-AddsNew, uniquify_magic_dns_label-grows}
use nostr_vpn.Config.Networks.{all_network_member_pubkeys_hex, participant_pubkeys_hex}
use nostr_vpn.Config.Aliases.{
  assign_aliases, normalize_peer_aliases, normalized_aliases, preferred_label, used_by_self,
  preferred_self_magic_dns_label, resolve_among, answer, resolve_self, resolve_magic_dns_query,
  query_of, qualified, self_magic_dns_label,
}

contains-values-insert :
    (m : HashMap Text) (k v j : Text)
    → contains (values m) j ≡ false
    → str_eq v j ≡ false
    → contains (values (insert m k v)) j ≡ false
unfolding insert contains
contains-values-insert [] k v j h e = ground arith
contains-values-insert ((i, w) ∷ m) k v j h e = ground (arith, contains-values-insert m k v j)

values-insert_unique :
    (m : HashMap Text) (k v : Text)
    → is_unique (values m) ≡ true
    → contains (values m) v ≡ false
    → is_unique (values (insert m k v)) ≡ true
unfolding insert contains is_unique
values-insert_unique [] k v u f = refl
values-insert_unique ((i, w) ∷ m) k v u f = ground (
  arith,
  values-insert_unique m k v,
  contains-values-insert m k v w,
  str_eq_iff v w,
  str_eq_iff w v,
)

or_right : (a b c : Bool) → a ≡ (b || c) → c ≡ true → a ≡ true
or_right a b c e h = ground (arith, e, h)

or_neither : (a b c : Bool) → a ≡ (b || c) → a ≡ false → (b ≡ false) × (c ≡ false)
or_neither a b c e h = (ground (arith, e, h), ground (arith, e, h))

new_apart :
    (used : HashSet) (x k : Text)
    → contains used x ≡ false
    → contains used k ≡ true
    → str_eq x k ≡ false
new_apart used x k f h = elim (Bool-cases (str_eq x k)) [
  | inl e ↦ absurd (ground (arith, ap (contains used) ((str_eq_iff x k).0 e)))
  | inr e ↦ e
]

-- The aliases are unique, and all of them are used.
record IsAssigned (used : HashSet) (final : HashMap Text) : Type 0 where
  unique : is_unique (values final) ≡ true
  within : (k : Text) → contains used k ≡ false → contains (values final) k ≡ false

module _ (lib : Libraries) where
  -- A label that is used from the start is given to no member.
  assign_aliases_apart :
      (aliases : HashMap Text) (used : HashSet) (final : HashMap Text) (ps : List Text) (k : Text)
      → length used + length ps < 9998
      → contains used k ≡ true
      → contains (values final) k ≡ false
      → contains (values (assign_aliases lib aliases used final ps)) k ≡ false
  unfolding assign_aliases
  assign_aliases_apart aliases used final [] k l u f = f
  assign_aliases_apart aliases used final (p ∷ ps) k l u f =
      let preferred = preferred_label lib aliases used p in
      let r = uniquify_magic_dns_label preferred used in
      let (new, adds) = uniquify_magic_dns_label-AddsNew preferred used (omega arith) in
      assign_aliases_apart (remove aliases (npub_for_pubkey_hex lib p)) r.1
        (insert final (npub_for_pubkey_hex lib p) r.0) ps k
        (omega (arith, uniquify_magic_dns_label-grows preferred used)) (or_right _ _ _ (adds k) u)
        (contains-values-insert final _ r.0 k f (new_apart used r.0 k new u))

  assign_aliases_unique :
      (aliases : HashMap Text) (used : HashSet) (final : HashMap Text) (ps : List Text)
      → length used + length ps < 9998
      → IsAssigned used final
      → is_unique (values (assign_aliases lib aliases used final ps)) ≡ true
  unfolding assign_aliases
  assign_aliases_unique aliases used final [] l h = h.unique
  assign_aliases_unique aliases used final (p ∷ ps) l h =
      let preferred = preferred_label lib aliases used p in
      let r = uniquify_magic_dns_label preferred used in
      let (new, adds) = uniquify_magic_dns_label-AddsNew preferred used (omega arith) in
      assign_aliases_unique (remove aliases (npub_for_pubkey_hex lib p)) r.1
        (insert final (npub_for_pubkey_hex lib p) r.0) ps
        (omega (arith, uniquify_magic_dns_label-grows preferred used))
        (record {
          unique = values-insert_unique final _ r.0 h.unique (h.within r.0 new);
          within = λ k f.
              let (apart, unused) = or_neither _ _ _ (adds k) f in
              contains-values-insert final _ r.0 k (h.within k unused) apart;
        })

  self_unused :
      (o : Option Text) (label : Text) → o ≡ some label → contains (used_by_self o) label ≡ true
  unfolding contains
  self_unused none label e = cc
  self_unused (some l) label e = ground (arith, str_eq_iff l label, some-injective l label e)

  self_length : (o : Option Text) → length (used_by_self o) ≤ 1
  self_length none = omega arith
  self_length (some l) = omega arith

  -- With fewer than 9,997 members, no two members have one alias, and none has the label of the
  -- node itself.
  pub normalize_peer_aliases_unique :
      (c : AppConfig)
      → length (all_network_member_pubkeys_hex c) < 9997
      → let aliases = (normalize_peer_aliases lib c).peer_aliases in
        (is_unique (values aliases) ≡ true)
        × ((label : Text)
            → preferred_self_magic_dns_label c ≡ some label
            → contains (values aliases) label ≡ false)
  unfolding normalize_peer_aliases is_unique contains
  normalize_peer_aliases_unique c l =
      let self = preferred_self_magic_dns_label c in
      let used = used_by_self self in
      let ps = all_network_member_pubkeys_hex c in
      (
        assign_aliases_unique (normalized_aliases lib [] c.peer_aliases) used [] ps
            (omega (arith, self_length self)) (record { unique = refl; within = λ k f. refl }),
        λ label e.
            assign_aliases_apart (normalized_aliases lib [] c.peer_aliases) used [] ps label
              (omega (arith, self_length self)) (self_unused self label e) refl,
      )

-- The query is the alias, or the alias with the suffix.
abbrev pub is_name : Text → Text → Option Text → Bool
is_name suffix query o =
    is_some_and o (λ label.
      str_eq query label || (not (is_empty suffix) && str_eq query (label ++ 46 ∷ suffix)))

answer_lem :
    (suffix query p : Text) (rest : Option Text) (o : Option Text)
    → answer suffix query p rest o ≡ (if is_name suffix query o then some p else rest)
answer_lem suffix query p rest none = refl
answer_lem suffix query p rest (some label) = ground arith

abbrev pub is_named : Libraries → AppConfig → Text → Text → Bool
is_named lib c query p =
    is_name c.magic_dns_suffix query (get c.peer_aliases (npub_for_pubkey_hex lib p))

pub resolve_among_lem :
    (lib : Libraries) (c : AppConfig) (query : Text) (ps : List Text)
    → resolve_among lib c query ps ≡ find (is_named lib c query) ps
unfolding resolve_among find
resolve_among_lem lib c query [] = refl
resolve_among_lem lib c query (p ∷ ps) =
    answer_lem c.magic_dns_suffix query p (resolve_among lib c query ps) _
    ∙ ap (λ o. if is_named lib c query p then some p else o) (resolve_among_lem lib c query ps)

find_sound :
    (p : Text → Bool) (xs : List Text) (y : Text)
    → find p xs ≡ some y
    → (contains xs y ≡ true) × (p y ≡ true)
unfolding contains find
find_sound p [] y h = ground arith
find_sound p (x ∷ xs) y h = elim (Bool-cases (p x)) [
  | inl e ↦
      let same : x ≡ y = find_first p x y xs h e in
      (ground (arith, str_eq_iff x y, same), ap p (sym same) ∙ e)
  | inr e ↦ let (c, n) = find_sound p xs y (find_rest p x y xs h e) in (ground (arith, c), n)
]

-- The query is the label of `o`, or that label with the suffix, if there is one.
abbrev pub IsNameOf : Text → Text → Option Text → Type 0
IsNameOf suffix query none = ⊥
IsNameOf suffix query (some label) =
    (query ≡ label) ⊎ ((is_empty suffix ≡ false) × (query ≡ label ++ 46 ∷ suffix))

is_name-IsNameOf :
    (suffix query : Text) (o : Option Text)
    → is_name suffix query o ≡ true
    → IsNameOf suffix query o
is_name-IsNameOf suffix query none h = absurd (cc)
is_name-IsNameOf suffix query (some label) h = elim (Bool-cases (str_eq query label)) [
  | inl e ↦ inl ((str_eq_iff query label).0 e)
  | inr e ↦ inr (ground arith, (str_eq_iff query (label ++ 46 ∷ suffix)).0 (ground arith))
]

-- The key is the node's own and the query is the node's name, or the key is that of a participant
-- of the active network and the query is the alias of it.
abbrev pub Named : Libraries → AppConfig → Text → Text → Type 0
Named lib c query p =
    ((own_nostr_pubkey_hex lib c ≡ some p)
      × IsNameOf c.magic_dns_suffix query (self_magic_dns_label c))
    ⊎ ((contains (participant_pubkeys_hex c) p ≡ true)
        × IsNameOf c.magic_dns_suffix query (get c.peer_aliases (npub_for_pubkey_hex lib p)))

qualified_name :
    (suffix query : Text) (o : Option Text)
    → (is_some_and o (str_eq query) || is_some_and (map_option o (qualified suffix)) (str_eq query))
      ≡ is_name suffix query o
qualified_name suffix query none = refl
qualified_name suffix query (some label) = elim (Bool-cases (is_empty suffix)) [
  | inl e ↦ rw e (ground arith)
  | inr e ↦ rw e refl
]

first_or :
    (a b : Bool) (o p : Text) (rest : Option Text)
    → or_else (if a then some o else if b then some o else none) rest ≡ some p
    → ((some o ≡ some p) × ((a || b) ≡ true)) ⊎ (rest ≡ some p)
first_or true b o p rest h = inl (h, refl)
first_or false true o p rest h = inl (h, refl)
first_or false false o p rest h = inr h

self_or :
    (c : AppConfig) (query p : Text) (own rest : Option Text)
    → or_else (resolve_self c query own) rest ≡ some p
    → ((own ≡ some p) × IsNameOf c.magic_dns_suffix query (self_magic_dns_label c))
      ⊎ (rest ≡ some p)
self_or c query p none rest h = inr h
self_or c query p (some own) rest h = elim (first_or _ _ own p rest h) [
  | inl (e, named) ↦ inl (
    e,
    is_name-IsNameOf c.magic_dns_suffix query (self_magic_dns_label c)
        (sym (qualified_name c.magic_dns_suffix query (self_magic_dns_label c)) ∙ named),
  )
  | inr e ↦ inr e
]

-- A query, once the white space around it and the dots at its end are cut off and it is in lower
-- case, is answered with the key of the node itself only if it is the node's own label, and with
-- that of a participant of the active network only if it is the alias of the participant; in both
-- cases alone or with the suffix.
pub resolve_magic_dns_query_sound :
    (lib : Libraries) (c : AppConfig) (query p : Text)
    → resolve_magic_dns_query lib c query ≡ some p
    → Named lib c (lib.to_lowercase (trim_end_matches 46 (trim query))) p
unfolding resolve_magic_dns_query
resolve_magic_dns_query_sound lib c query p h = elim (Bool-cases (is_empty (query_of lib query))) [
  | inl e ↦ absurd (ground arith)
  | inr e ↦
      let q = query_of lib query in
      let a : or_else (resolve_self c q (own_nostr_pubkey_hex lib c))
            (resolve_among lib c q (participant_pubkeys_hex c))
          ≡ some p =
        sym (
          ap
            (λ b.
              if b
              then none
              else or_else (resolve_self c q (own_nostr_pubkey_hex lib c))
                  (resolve_among lib c q (participant_pubkeys_hex c)))
            e)
        ∙ h in
      elim (self_or c q p (own_nostr_pubkey_hex lib c) _ a) [
        | inl o ↦ inl o
        | inr f ↦
            let (member, named) =
              find_sound (is_named lib c q) (participant_pubkeys_hex c) p
                (sym (resolve_among_lem lib c q (participant_pubkeys_hex c)) ∙ f) in
            inr (member, is_name-IsNameOf c.magic_dns_suffix q _ named)
      ]
]
