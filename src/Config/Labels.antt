-- ===== src/Config/Labels.antt =====
-- config_magic_dns.rs: labels of magic DNS and identifiers of networks. A label is ASCII, so its
-- length in bytes is that in code points.
pub mod Normal
pub mod Fresh
use nostr_vpn.Prelude.{
  ℕ, zero, suc, ◌+◌, ◌-◌, ◌*◌, ◌%◌, unwrap_or, ◌≤◌, ◌<◌, ◌≡◌, Bool, true, false, ◌&&◌, ◌||◌, not,
  Option, none, some, List, [], ◌∷◌, ◌++◌, ltb, ◌==◌, if◌then◌else◌, length, is_empty, arith,
}
use nostr_vpn.Prelude.Text.{Text, codes, trim, is_blank, str_eq}
use nostr_vpn.Prelude.Chars.{
  trim_start_matches, trim_end_matches, ends_with_char, is_ascii_alphanumeric, to_ascii_lowercase,
  truncate, split, join,
}
use nostr_vpn.Prelude.Decimal.{show}
use nostr_vpn.Config.Animals.{hashtree_animal_aliases}
use nostr_vpn.Collections.HashSet.{HashSet, contains, add}

-- The characters of the label: every run of others is one dash.
unfoldable pub squash : Bool → Text → Text
squash previous_dash [] = []
squash previous_dash (c ∷ s) =
    let after_char = squash false s in
    let after_dash = squash true s in
    if is_ascii_alphanumeric c
    then to_ascii_lowercase c ∷ after_char
    else if previous_dash
    then after_dash
    else 45 ∷ after_dash

abbrev pub max_label : ℕ
max_label = 63

-- A text of more than 63 characters is cut, and no dash is left at its end.
abbrev pub cut_label : Text → Text
cut_label label =
    if ltb max_label (length label) then trim_end_matches 45 (truncate max_label label) else label

abbrev pub some_label : Text → Option Text
some_label label = if is_empty label then none else some label

unfoldable pub normalize_magic_dns_label : Text → Option Text
unfolding squash trim_start_matches trim_end_matches truncate
normalize_magic_dns_label value =
    let label = trim_start_matches 45 (trim_end_matches 45 (squash false value)) in
    if is_empty label then none else some_label (cut_label label)

abbrev pub default_magic_dns_suffix : Text
default_magic_dns_suffix = codes "nvpn"

-- `filter_map(normalize_magic_dns_label)`
unfoldable pub labels_of : List Text → List Text
unfolding normalize_magic_dns_label
labels_of [] = []
labels_of (p ∷ ps) = elim (normalize_magic_dns_label p) [
  | none ↦ labels_of ps
  | some l ↦ l ∷ labels_of ps
]

unfoldable pub normalize_magic_dns_suffix : Text → Text
unfolding labels_of split join
normalize_magic_dns_suffix value =
    let labels = labels_of (split 46 (trim_end_matches 46 (trim value))) in
    if is_empty labels then default_magic_dns_suffix else join 46 labels

unfoldable pub first_label : List Text → Option Text
first_label [] = none
first_label (l ∷ ls) = if is_blank l then first_label ls else some l

unfoldable pub default_node_name_from_hostname : Text → Option Text
unfolding first_label normalize_magic_dns_label split
default_node_name_from_hostname hostname =
    elim (first_label (split 46 (trim_end_matches 46 (trim_start_matches 46 (trim hostname))))) [
      | none ↦ none
      | some label ↦ elim (normalize_magic_dns_label label) [
        | none ↦ none
        | some normalized ↦ if str_eq normalized (codes "localhost") then none else some normalized
      ]
    ]

abbrev pub default_network_name : ℕ → Text
default_network_name ordinal = codes "Network " ++ show ordinal

abbrev pub default_network_entry_id : ℕ → Text
default_network_entry_id ordinal = codes "network-" ++ show ordinal

unfoldable pub normalize_network_entry_id : Text → ℕ → Text
unfolding normalize_magic_dns_label
normalize_network_entry_id value ordinal = elim (normalize_magic_dns_label value) [
  | none ↦ default_network_entry_id ordinal
  | some label ↦ label
]

-- `format!("{base}-{suffix}")`
abbrev pub numbered : Text → ℕ → Text
numbered base suffix = base ++ 45 ∷ show suffix

-- The loop of `uniquify_network_entry_id`, which has no bound, on fuel: without fuel the next
-- candidate is taken as it is.
unfoldable pub search_entry_id : ℕ → Text → ℕ → HashSet → Text
unfolding contains
search_entry_id zero base suffix used = numbered base suffix
search_entry_id (suc fuel) base suffix used =
    let later = search_entry_id fuel base (suffix + 1) used in
    if contains used (numbered base suffix) then later else numbered base suffix

-- With the identifiers that are used from then on.
unfoldable pub uniquify_network_entry_id : Text → HashSet → Text × HashSet
unfolding search_entry_id add
uniquify_network_entry_id candidate used =
    let id =
      if contains used candidate
      then search_entry_id (length used) candidate 2 used
      else candidate in
    (id, add used id)

abbrev pub cut_base : ℕ → Text → Text
cut_base max_base_len base =
    if ltb max_base_len (length base)
    then trim_end_matches 45 (truncate max_base_len base)
    else base

-- The candidate of one round of `uniquify_magic_dns_label`.
unfoldable pub label_candidate : Text → ℕ → Text
unfolding trim_end_matches truncate
label_candidate base counter =
    let suffix = 45 ∷ show counter in cut_base (max_label - length suffix) base ++ suffix

-- `left` rounds from `counter` on; after the last the base itself is returned.
unfoldable pub search_label : ℕ → Text → ℕ → HashSet → Text × HashSet
unfolding contains label_candidate add
search_label zero base counter used = (base, used)
search_label (suc left) base counter used =
    let later = search_label left base (counter + 1) used in
    let candidate = label_candidate base counter in
    if contains used candidate then later else (candidate, add used candidate)

abbrev pub nonempty_base : Text → Text
nonempty_base base = if is_empty base then codes "peer" else base

unfoldable pub take_or_search : ℕ → Text → HashSet → Text × HashSet
unfolding search_label contains add
take_or_search rounds base used =
    if contains used base then search_label rounds base 2 used else (base, add used base)

unfoldable pub uniquify_magic_dns_label : Text → HashSet → Text × HashSet
unfolding take_or_search
uniquify_magic_dns_label base used = take_or_search 9998 (nonempty_base base) used

-- HASHTREE_ANIMAL_ALIASES[index]
abbrev pub animal_at : List Text → ℕ → Text
animal_at [] i = []
animal_at (a ∷ rest) zero = a
animal_at (a ∷ rest) (suc i) = animal_at rest i

-- The animals from `index` on, round the list, of which `left` are still to be tried.
unfoldable pub search_animal : List Text → ℕ → ℕ → HashSet → Option Text
unfolding contains
search_animal animals zero index used = none
search_animal animals (suc left) index used =
    let later = search_animal animals left ((index + 1) % length animals) used in
    let candidate = animal_at animals index in
    if contains used candidate then later else some candidate

-- The label of a key whose SHA-256 digest begins with the bytes `d0` and `d1`.
unfoldable pub default_label : ℕ → ℕ → Text → HashSet → Text
unfolding search_animal truncate
default_label d0 d1 pubkey_hex used =
    let total = length hashtree_animal_aliases in
    unwrap_or (search_animal hashtree_animal_aliases total ((d0 * 256 + d1) % total) used)
      (codes "peer-" ++ truncate 12 pubkey_hex)
