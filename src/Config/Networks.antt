-- ===== src/Config/Networks.antt =====
-- config.rs: the networks of a configuration, their members and the active one.
use nostr_vpn.Prelude.{
  ℕ, max, Bool, true, false, ◌||◌, not, Option, none, some, List, [], ◌∷◌, ◌++◌, map, count, find,
  head_or, is_empty, any, if◌then◌else◌, unwrap_or,
}
use nostr_vpn.Prelude.Results.{Result, ok, err}
use nostr_vpn.Prelude.Text.{Text, codes, str_eq, trim, is_blank}
use nostr_vpn.Prelude.Chars.{truncate}
use nostr_vpn.Prelude.Words.{sat_add}
use nostr_vpn.Collections.HashSet.{contains}
use nostr_vpn.Config.State.{
  Libraries, NetworkConfig, AppConfig, Operation, edit_first, edited, own_nostr_pubkey_hex,
  network_not_found, ConfigError,
}
use nostr_vpn.Config.Roster.{sorted_unique}

-- The default network identifier, which stands for one that is derived from the members.
abbrev pub default_network_id : Text
default_network_id = codes "nostr-vpn"

abbrev pub blank_network : Text → Text → Bool → NetworkConfig
blank_network id name enabled = record {
  id = id;
  name = name;
  enabled = enabled;
  network_id = default_network_id;
  participants = [];
  admins = [];
  listen_for_join_requests = true;
  invite_inviter = [];
  outbound_join_request = none;
  inbound_join_requests = [];
  shared_roster_updated_at = 0;
  shared_roster_signed_by = [];
}

abbrev pub is_enabled : NetworkConfig → Bool
is_enabled n = n.enabled

-- The first enabled network, or the first. The source panics where there is no network.
unfoldable pub active_network : AppConfig → NetworkConfig
unfolding find
active_network c =
    unwrap_or (find is_enabled c.networks) (head_or c.networks (blank_network [] [] false))

unfoldable pub enabled_network_count : AppConfig → ℕ
unfolding count
enabled_network_count c = count is_enabled c.networks

unfoldable pub network_by_id : AppConfig → Text → Option NetworkConfig
unfolding find
network_by_id c id = find (λ n. str_eq n.id id) c.networks

-- `network_by_id_mut(id).ok_or_else("network not found")?` and what is done with the network.
unfoldable pub with_network :
    {A : Type 0} → Text → (NetworkConfig → NetworkConfig × Result ConfigError A) → Operation A
unfolding edit_first
with_network id f c =
    edited (err network_not_found) c (edit_first (λ n. str_eq n.id id) f c.networks)

unfoldable pub participant_pubkeys_hex : AppConfig → List Text
unfolding active_network sorted_unique
participant_pubkeys_hex c = let n = active_network c in sorted_unique n.participants

unfoldable pub active_network_signal_pubkeys_hex : AppConfig → List Text
unfolding active_network sorted_unique
active_network_signal_pubkeys_hex c =
    let n = active_network c in sorted_unique (n.participants ++ n.admins)

abbrev pub members_of : NetworkConfig → List Text
members_of n = n.participants ++ n.admins

unfoldable pub members_of_all : List NetworkConfig → List Text
members_of_all [] = []
members_of_all (n ∷ ns) = members_of n ++ members_of_all ns

unfoldable pub all_network_member_pubkeys_hex : AppConfig → List Text
unfolding members_of_all sorted_unique
all_network_member_pubkeys_hex c = sorted_unique (members_of_all c.networks)

unfoldable pub normalize_selected_exit_node : AppConfig → AppConfig
unfolding active_network_signal_pubkeys_hex contains
normalize_selected_exit_node c =
    if is_empty c.exit_node
    then c
    else if contains (active_network_signal_pubkeys_hex c) c.exit_node
    then c
    else record c { exit_node = [] }

-- The networks after the first active one are switched off.
unfoldable pub disable_later : Bool → List NetworkConfig → List NetworkConfig
disable_later found [] = []
disable_later found (n ∷ ns) =
    let after = disable_later true ns in
    let before = disable_later found ns in
    if not n.enabled
    then n ∷ before
    else if found
    then record n { enabled = false } ∷ after
    else n ∷ after

abbrev pub enable_first : List NetworkConfig → List NetworkConfig
enable_first [] = []
enable_first (n ∷ ns) = record n { enabled = true } ∷ ns

abbrev pub enable_first_if_none : List NetworkConfig → List NetworkConfig
enable_first_if_none ns = if any is_enabled ns then ns else enable_first ns

unfoldable pub ensure_single_active_network : AppConfig → AppConfig
unfolding disable_later any
ensure_single_active_network c = record c {
  networks = enable_first_if_none (disable_later false c.networks);
}

abbrev pub uses_default_network_id : Text → Bool
uses_default_network_id value = is_blank value || str_eq (trim value) default_network_id

abbrev pub lines_of : List Text → Text
lines_of [] = []
lines_of (p ∷ ps) = p ++ 10 ∷ lines_of ps

-- The first 16 characters of the digest in hexadecimal.
unfoldable pub derive_network_id_from_participants : Libraries → List Text → Text
unfolding sorted_unique truncate
derive_network_id_from_participants lib participants =
    truncate 16 (lib.hex_encode (lib.sha256 (lines_of (sorted_unique participants))))

abbrev pub derived_network_id : Libraries → Option Text → NetworkConfig → Text
derived_network_id lib none n = default_network_id
derived_network_id lib (some own) n =
    if is_empty n.participants
    then default_network_id
    else derive_network_id_from_participants lib (sorted_unique (n.participants ++ own ∷ []))

unfoldable pub derived_network : Libraries → Option Text → NetworkConfig → NetworkConfig
unfolding derive_network_id_from_participants sorted_unique
derived_network lib own n = record n {
  network_id =
      if uses_default_network_id n.network_id then derived_network_id lib own n else n.network_id;
}

unfoldable pub derive_default_network_ids : Libraries → AppConfig → AppConfig
unfolding derived_network
derive_default_network_ids lib c = record c {
  networks = map (derived_network lib (own_nostr_pubkey_hex lib c)) c.networks;
}

-- `now.max(previous.saturating_add(1))`
abbrev pub next_shared_roster_updated_at : ℕ → ℕ → ℕ
next_shared_roster_updated_at now previous = max now (sat_add previous 1)

abbrev pub signed_roster : ℕ → Option Text → NetworkConfig → NetworkConfig
signed_roster now none n = n
signed_roster now (some own) n = if not (contains n.admins own) then n else record n {
  shared_roster_updated_at = next_shared_roster_updated_at now n.shared_roster_updated_at;
  shared_roster_signed_by = own;
}

unfoldable pub note_network_roster_local_change : Libraries → ℕ → Text → Operation (Unit {0})
unfolding with_network contains
note_network_roster_local_change lib now id c =
    with_network id (λ n. (signed_roster now (own_nostr_pubkey_hex lib c) n, ok tt)) c
