-- ===== src/Config/Shared.antt =====
-- config.rs: the roster of a network that its admins sign and the members apply.
pub mod Applied
pub mod Published
use nostr_vpn.Prelude.{
  ℕ, Bool, true, false, ◌||◌, not, Option, none, some, List, [], ◌∷◌, ◌++◌, ltb, leb, is_empty,
  if◌then◌else◌, and_then, map_option, is_some_and,
}
use nostr_vpn.Prelude.Results.{Result, ok, err}
use nostr_vpn.Prelude.Text.{Text, str_eq, trim, is_blank}
use nostr_vpn.Prelude.Words.{sat_add}
use nostr_vpn.Collections.HashMap.{HashMap, insert}
use nostr_vpn.Collections.HashSet.{contains}
use nostr_vpn.Config.State.{
  Libraries, NetworkConfig, AppConfig, SharedNetworkRoster, Operation, edit_first, edited, ◌>>=◌,
  ◌>>◌, pure, lift, fail_if, modify, normalize_nostr_pubkey, own_nostr_pubkey_hex,
  npub_for_pubkey_hex, normalize_runtime_network_id, ConfigError, network_not_found, roster_too_new,
  roster_without_admin,
}
use nostr_vpn.Config.Labels.{normalize_magic_dns_label}
use nostr_vpn.Config.Roster.{
  sorted_unique, normalize_network_admins, normalize_shared_roster_participants,
  normalize_outbound_join_request, normalize_inbound_join_requests,
}
use nostr_vpn.Config.Networks.{network_by_id, normalize_selected_exit_node, members_of}
use nostr_vpn.Config.Aliases.{normalize_peer_aliases, peer_alias, self_magic_dns_label}

-- MAX_SHARED_ROSTER_FUTURE_SECS
abbrev pub max_future_secs : ℕ
max_future_secs = 600

-- A roster as a member receives it, with the key of the one who signed it.
pub record SignedRoster : Type 0 where
  pub network_id : Text
  pub network_name : Text
  pub participants : List Text
  pub admins : List Text
  pub aliases : HashMap Text
  pub signed_at : ℕ
  pub signed_by : Text

abbrev pub is_own : Option Text → Text → Bool
is_own own key = is_some_and own (λ o. str_eq key o)

abbrev pub has_runtime_id : Text → NetworkConfig → Bool
has_runtime_id network_id n = str_eq (normalize_runtime_network_id n.network_id) network_id

module _ (lib : Libraries) where
  abbrev pub roster_participants : AppConfig → NetworkConfig → List Text
  roster_participants c n = elim (own_nostr_pubkey_hex lib c) [
    | none ↦ sorted_unique n.participants
    | some own ↦ sorted_unique (n.participants ++ own ∷ [])
  ]

  abbrev pub roster_alias : AppConfig → Text → Option Text
  roster_alias c member =
      if is_some_and (own_nostr_pubkey_hex lib c) (λ own. str_eq own member)
      then self_magic_dns_label c
      else peer_alias lib c member

  unfoldable pub roster_aliases : AppConfig → List Text → HashMap Text
  unfolding insert self_magic_dns_label peer_alias
  roster_aliases c [] = []
  roster_aliases c (m ∷ ms) =
      let rest = roster_aliases c ms in
      elim (roster_alias c m) [ none ↦ rest | some label ↦ insert rest m label ]

  abbrev pub roster_of : AppConfig → NetworkConfig → SharedNetworkRoster
  roster_of c n =
      let participants = roster_participants c n in
      let admins = sorted_unique n.admins in
      record {
        id = n.id;
        network_id = normalize_runtime_network_id n.network_id;
        name = n.name;
        participants = participants;
        admins = admins;
        aliases = roster_aliases c (sorted_unique (participants ++ admins));
        updated_at = n.shared_roster_updated_at;
        signed_by = n.shared_roster_signed_by;
      }

  unfoldable pub shared_network_roster : AppConfig → Text → Result ConfigError SharedNetworkRoster
  unfolding network_by_id sorted_unique roster_aliases normalize_runtime_network_id
  shared_network_roster c id = elim (network_by_id c id) [
    | none ↦ err network_not_found
    | some n ↦ ok (roster_of c n)
  ]

  -- The network with the members, the name and the signature of the roster.
  abbrev pub adopted : Text → SignedRoster → List Text → List Text → NetworkConfig → NetworkConfig
  adopted signer r participants admins n = record n {
    participants = participants;
    admins = admins;
    name = if is_blank r.network_name then n.name else trim r.network_name;
    invite_inviter = if contains admins n.invite_inviter then n.invite_inviter else signer;
    shared_roster_updated_at = r.signed_at;
    shared_roster_signed_by = signer;
    outbound_join_request =
        normalize_outbound_join_request lib n.outbound_join_request participants;
    inbound_join_requests =
        normalize_inbound_join_requests lib n.inbound_join_requests participants;
  }

  abbrev pub adopt_members :
      Text
      → SignedRoster
      → NetworkConfig
      → Result ConfigError (List Text)
      → List Text
      → NetworkConfig × Result ConfigError (Option NetworkConfig)
  adopt_members signer r n (err e) admins = (n, err e)
  adopt_members signer r n (ok participants) admins =
      if is_empty admins
      then (n, err roster_without_admin)
      else let n1 = adopted signer r participants admins n in (n1, ok (some n1))

  -- The network after the roster, and again if it was applied.
  unfoldable pub adopt_roster :
      Option Text
      → Text
      → SignedRoster
      → NetworkConfig
      → NetworkConfig × Result ConfigError (Option NetworkConfig)
  unfolding contains normalize_shared_roster_participants normalize_network_admins
      normalize_outbound_join_request normalize_inbound_join_requests
  adopt_roster own signer r n =
      if not (contains n.admins signer)
      then (n, ok none)
      else if leb r.signed_at n.shared_roster_updated_at
      then (n, ok none)
      else adopt_members signer r n (normalize_shared_roster_participants lib r.participants own)
          (normalize_network_admins lib r.admins own n.invite_inviter)

  abbrev pub adopt_alias : Option Text → List Text → HashMap Text → Text → Text → HashMap Text
  adopt_alias own members m participant label = elim (lib.parse_pubkey participant) [
    | none ↦ m
    | some key ↦
        if is_own own key || not (contains members key)
        then m
        else elim (normalize_magic_dns_label label) [
          | none ↦ m
          | some normalized ↦ insert m (npub_for_pubkey_hex lib key) normalized
        ]
  ]

  -- The aliases of the other members.
  unfoldable pub adopt_aliases :
      Option Text → List Text → HashMap Text → HashMap Text → HashMap Text
  unfolding contains normalize_magic_dns_label insert
  adopt_aliases own members m [] = m
  adopt_aliases own members m ((participant, label) ∷ aliases) =
      adopt_aliases own members (adopt_alias own members m participant label) aliases

  abbrev pub after_adoption : SignedRoster → Option NetworkConfig → Operation Bool
  after_adoption r none c = (c, ok false)
  after_adoption r (some n) c =
      let own = own_nostr_pubkey_hex lib c in
      let aliases = adopt_aliases own (sorted_unique (members_of n)) c.peer_aliases r.aliases in
      (
        normalize_peer_aliases lib
            (normalize_selected_exit_node (record c { peer_aliases = aliases })),
        ok true,
      )

  abbrev pub adopt_in_network : Text → Text → SignedRoster → Operation (Option NetworkConfig)
  adopt_in_network network_id signer r c = edited (ok none) c (
      edit_first (has_runtime_id network_id) (adopt_roster (own_nostr_pubkey_hex lib c) signer r)
        c.networks)

  abbrev pub apply_signed : ℕ → Text → SignedRoster → Text → Operation Bool
  apply_signed now network_id r signer = do
    fail_if (ltb (sat_add now max_future_secs) r.signed_at) roster_too_new
    n ← adopt_in_network network_id signer r
    after_adoption r n

  unfoldable pub apply_admin_signed_shared_roster : ℕ → SignedRoster → Operation Bool
  unfolding normalize_runtime_network_id edit_first adopt_roster adopt_aliases sorted_unique
      normalize_selected_exit_node normalize_peer_aliases
  apply_admin_signed_shared_roster now r =
      let network_id = normalize_runtime_network_id r.network_id in
      if is_empty network_id then pure false else (do
        signer ← lift (normalize_nostr_pubkey lib r.signed_by)
        apply_signed now network_id r signer)
