-- ===== src/Config/Aliases.antt =====
-- config.rs: the magic DNS names of the members of the networks.
pub mod Unambiguous
use nostr_vpn.Prelude.{
  ℕ, not, Option, none, some, List, [], ◌∷◌, ◌++◌, map, is_empty, if◌then◌else◌, is_some_and,
  map_option, and_then, unwrap_or, keep, or_else,
}
use nostr_vpn.Prelude.Results.{ok, err, Result}
use nostr_vpn.Prelude.Text.{Text, str_eq, trim}
use nostr_vpn.Prelude.Chars.{trim_end_matches}
use nostr_vpn.Collections.HashMap.{HashMap, get, insert, remove, values}
use nostr_vpn.Collections.HashSet.{HashSet, contains, collect}
use nostr_vpn.Config.State.{
  Libraries, NetworkConfig, AppConfig, Operation, npub_for_pubkey_hex, own_nostr_pubkey_hex, ◌>>=◌,
  ◌>>◌, lift, fail_if, modify, normalize_nostr_pubkey, participant_not_configured, invalid_alias,
  alias_not_persisted, ConfigError,
}
use nostr_vpn.Config.Labels.{normalize_magic_dns_label, uniquify_magic_dns_label, default_label}
use nostr_vpn.Config.Roster.{normalize_npub_key}
use nostr_vpn.Config.Networks.{
  all_network_member_pubkeys_hex, participant_pubkeys_hex, members_of,
  note_network_roster_local_change,
}

-- The bytes 0 and 1 of a digest.
abbrev pub byte0 : List ℕ → ℕ
byte0 [] = 0
byte0 (b ∷ bs) = b

abbrev pub byte1 : List ℕ → ℕ
byte1 [] = 0
byte1 (b ∷ bs) = byte0 bs

abbrev pub preferred_self_magic_dns_label : AppConfig → Option Text
preferred_self_magic_dns_label c = normalize_magic_dns_label c.node_name

unfoldable pub self_magic_dns_label : AppConfig → Option Text
unfolding normalize_magic_dns_label uniquify_magic_dns_label collect
self_magic_dns_label c =
    map_option (preferred_self_magic_dns_label c)
      (λ preferred. (uniquify_magic_dns_label preferred (collect (values c.peer_aliases))).0)

-- `{alias}.{suffix}`, or the alias alone where there is no suffix.
abbrev pub qualified : Text → Text → Text
qualified suffix label = if is_empty suffix then label else label ++ 46 ∷ suffix

abbrev pub self_magic_dns_name : AppConfig → Option Text
self_magic_dns_name c = map_option (self_magic_dns_label c) (qualified c.magic_dns_suffix)

-- One round: the participant, if its alias answers the query, or what the later rounds find.
abbrev pub answer : Text → Text → Text → Option Text → Option Text → Option Text
answer suffix query p rest none = rest
answer suffix query p rest (some label) =
    if str_eq query label
    then some p
    else if not (is_empty suffix)
    then (if str_eq query (label ++ 46 ∷ suffix) then some p else rest)
    else rest

-- The answers to a query among the participants from the first on.
unfoldable pub resolve_among : Libraries → AppConfig → Text → List Text → Option Text
unfolding get
resolve_among lib c query [] = none
resolve_among lib c query (p ∷ ps) =
    answer c.magic_dns_suffix query p (resolve_among lib c query ps)
      (get c.peer_aliases (npub_for_pubkey_hex lib p))

abbrev pub resolve_self : AppConfig → Text → Option Text → Option Text
resolve_self c query none = none
resolve_self c query (some own) =
    if is_some_and (self_magic_dns_label c) (str_eq query)
    then some own
    else if is_some_and (self_magic_dns_name c) (str_eq query)
    then some own
    else none

abbrev pub query_of : Libraries → Text → Text
query_of lib query = lib.to_lowercase (trim_end_matches 46 (trim query))

abbrev pub resolve_query : Libraries → AppConfig → Text → Option Text
resolve_query lib c q =
    if is_empty q
    then none
    else or_else (resolve_self c q (own_nostr_pubkey_hex lib c))
        (resolve_among lib c q (participant_pubkeys_hex c))

unfoldable pub resolve_magic_dns_query : Libraries → AppConfig → Text → Option Text
unfolding self_magic_dns_label resolve_among participant_pubkeys_hex trim_end_matches
resolve_magic_dns_query lib c query = resolve_query lib c (query_of lib query)

-- `if let Some(npub) = ... && let Some(alias) = ...`
abbrev pub insert_both : HashMap Text → Option Text → Option Text → HashMap Text
insert_both m (some npub) (some label) = insert m npub label
insert_both m _ _ = m

abbrev pub used_by_self : Option Text → HashSet
used_by_self none = []
used_by_self (some label) = label ∷ []

abbrev pub networks_with : Text → List NetworkConfig → List Text
networks_with key ns = map (λ n. n.id) (keep (λ n. contains (members_of n) key) ns)

-- `ok_or_else("failed to persist alias")`
abbrev pub alias_result : Option Text → Result ConfigError Text
alias_result none = err alias_not_persisted
alias_result (some label) = ok label

abbrev pub stored_alias : Text → Operation Text
stored_alias npub c = (c, alias_result (get c.peer_aliases npub))

-- What is put in for an alias: nothing for an empty one, which removes it.
abbrev pub update_alias : Text → Text → Operation (Unit {0})
update_alias npub label c =
    if is_empty label
    then (record c { peer_aliases = remove c.peer_aliases npub }, ok tt)
    else elim (normalize_magic_dns_label label) [
      | none ↦ (c, err invalid_alias)
      | some normalized ↦ (record c { peer_aliases = insert c.peer_aliases npub normalized }, ok tt)
    ]

module _ (lib : Libraries) where
  unfoldable pub default_magic_dns_label_for_pubkey : Text → HashSet → Text
  unfolding default_label
  default_magic_dns_label_for_pubkey pubkey_hex used =
      let digest = lib.sha256 pubkey_hex in
      default_label (byte0 digest) (byte1 digest) pubkey_hex used

  unfoldable pub normalized_aliases : HashMap Text → HashMap Text → HashMap Text
  unfolding insert normalize_npub_key normalize_magic_dns_label
  normalized_aliases m [] = m
  normalized_aliases m ((participant, label) ∷ aliases) =
      normalized_aliases
        (insert_both m (normalize_npub_key lib participant) (normalize_magic_dns_label label))
        aliases

  abbrev pub preferred_label : HashMap Text → HashSet → Text → Text
  preferred_label aliases used participant =
      unwrap_or (get aliases (npub_for_pubkey_hex lib participant))
        (default_magic_dns_label_for_pubkey participant used)

  -- The aliases of the members, each made unique among the ones that are used already.
  unfoldable pub assign_aliases : HashMap Text → HashSet → HashMap Text → List Text → HashMap Text
  unfolding get remove insert uniquify_magic_dns_label default_magic_dns_label_for_pubkey
  assign_aliases aliases used final [] = final
  assign_aliases aliases used final (p ∷ ps) =
      let npub = npub_for_pubkey_hex lib p in
      let (label, used1) = uniquify_magic_dns_label (preferred_label aliases used p) used in
      assign_aliases (remove aliases npub) used1 (insert final npub label) ps

  unfoldable pub normalize_peer_aliases : AppConfig → AppConfig
  unfolding normalized_aliases assign_aliases normalize_magic_dns_label
      all_network_member_pubkeys_hex
  normalize_peer_aliases c = record c {
    peer_aliases =
        assign_aliases (normalized_aliases [] c.peer_aliases)
          (used_by_self (preferred_self_magic_dns_label c)) [] (all_network_member_pubkeys_hex c);
  }

  unfoldable pub peer_alias : AppConfig → Text → Option Text
  unfolding get
  peer_alias c participant =
      and_then (lib.parse_pubkey participant)
        (λ key. get c.peer_aliases (npub_for_pubkey_hex lib key))

  abbrev pub magic_dns_name_for_participant : AppConfig → Text → Option Text
  magic_dns_name_for_participant c participant =
      map_option (peer_alias c participant) (qualified c.magic_dns_suffix)

  -- `for id in ids { let _ = self.note_network_roster_local_change(id) }`
  unfoldable pub note_changes : ℕ → List Text → AppConfig → AppConfig
  unfolding note_network_roster_local_change
  note_changes now [] c = c
  note_changes now (id ∷ ids) c =
      note_changes now ids (note_network_roster_local_change lib now id c).0

  unfoldable pub set_peer_alias : ℕ → Text → Text → Operation Text
  unfolding remove insert keep contains normalize_peer_aliases note_changes get
  set_peer_alias now participant label c =
      (do
        key ← lift (normalize_nostr_pubkey lib participant)
        fail_if (not (contains (all_network_member_pubkeys_hex c) key)) participant_not_configured
        update_alias (npub_for_pubkey_hex lib key) (trim label)
        modify (normalize_peer_aliases)
        modify (note_changes now (networks_with key c.networks))
        stored_alias (npub_for_pubkey_hex lib key))
        c
