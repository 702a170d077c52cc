-- ===== src/Config/Tests/Members.antt =====
-- Rosters, aliases and the active network.
use nostr_vpn.Prelude.{◌≡◌, ◌<◌, refl, true, false, some, [], ◌∷◌, arith, length, find}
use nostr_vpn.Prelude.Results.{ok}
use nostr_vpn.Prelude.Text.{Text, codes, str_eq, str_le, trim}
use nostr_vpn.Prelude.Chars.{trim_end_matches}
use nostr_vpn.Collections.HashMap.{values}
use nostr_vpn.Collections.HashSet.{contains, is_unique}
use nostr_vpn.Config.Networks.{all_network_member_pubkeys_hex, members_of_all}
use nostr_vpn.Config.Aliases.{
  normalize_peer_aliases, preferred_self_magic_dns_label, resolve_magic_dns_query,
}
use nostr_vpn.Config.Aliases.Unambiguous.{
  normalize_peer_aliases_unique, Named, resolve_magic_dns_query_sound,
}
use nostr_vpn.Config.Operations.{add_network}
use nostr_vpn.Config.Operations.Counted.{IsConfigured}
use nostr_vpn.Config.Defaults.{ensure_defaults}
use nostr_vpn.Config.Shared.{apply_admin_signed_shared_roster}
use nostr_vpn.Config.Shared.Applied.{Outcome, apply_admin_signed_shared_roster-Outcome}
use nostr_vpn.Config.Shared.Published.{published_applies}
use nostr_vpn.Config.Steps.{start, next, added, Reachable-IsConfigured}
use nostr_vpn.Config.Tests.{test_libraries, display_ten, node_a, node_b, made_up, new_roster, home}
use nostr_vpn.Config.Roster.{
  sorted_unique, normalize_shared_roster_participants, normalize_network_admins,
}
use nostr_vpn.Config.State.{normalize_runtime_network_id}

apply_admin_signed_shared_roster-Outcome_example :
    Outcome test_libraries 400 new_roster node_b
      (apply_admin_signed_shared_roster test_libraries 400 new_roster node_b)
apply_admin_signed_shared_roster-Outcome_example =
    apply_admin_signed_shared_roster-Outcome test_libraries 400 new_roster node_b

published_applies_example :
    (apply_admin_signed_shared_roster test_libraries 400 new_roster node_b).1 ≡ ok true
unfolding contains str_eq normalize_runtime_network_id find normalize_shared_roster_participants
    normalize_network_admins
published_applies_example =
    published_applies test_libraries 500 (codes "a") home 400 new_roster node_b home
      (codes "c" ∷ []) refl (omega arith) refl refl refl refl refl (omega arith) (omega arith) refl
      refl

Reachable-IsConfigured_example :
    let loaded = ensure_defaults test_libraries display_ten made_up node_a in
    IsConfigured (add_network test_libraries 600 (codes "Lab") loaded).0.networks
Reachable-IsConfigured_example =
    let loaded = ensure_defaults test_libraries display_ten made_up node_a in
    Reachable-IsConfigured test_libraries display_ten
      (add_network test_libraries 600 (codes "Lab") loaded).0
      (next loaded _ (start node_a made_up) (added loaded 600 (codes "Lab")))

two_members : length (all_network_member_pubkeys_hex node_a) < 9997
unfolding all_network_member_pubkeys_hex members_of_all sorted_unique str_le str_eq
two_members = omega arith

normalize_peer_aliases_unique_example :
    let aliases = (normalize_peer_aliases test_libraries node_a).peer_aliases in
    (is_unique (values aliases) ≡ true)
    × ((label : Text)
        → preferred_self_magic_dns_label node_a ≡ some label
        → contains (values aliases) label ≡ false)
normalize_peer_aliases_unique_example =
    normalize_peer_aliases_unique test_libraries node_a two_members

beta_answers : resolve_magic_dns_query test_libraries node_a (codes "BETA.nvpn.") ≡ some (codes "b")
unfolding resolve_magic_dns_query trim str_eq
beta_answers = refl

resolve_magic_dns_query_sound_example :
    Named test_libraries node_a
      (test_libraries.to_lowercase (trim_end_matches 46 (trim (codes "BETA.nvpn."))))
      (codes "b")
resolve_magic_dns_query_sound_example =
    resolve_magic_dns_query_sound test_libraries node_a (codes "BETA.nvpn.") (codes "b")
      beta_answers
