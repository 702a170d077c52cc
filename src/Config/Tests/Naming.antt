-- ===== src/Config/Tests/Naming.antt =====
-- Labels, identifiers, routes and requests.
use nostr_vpn.Prelude.{
  ℕ, ◌≡◌, ◌||◌, ◌&&◌, refl, true, false, none, some, [], ◌∷◌, any, every, subst, List,
  if◌then◌else◌,
}
use nostr_vpn.Prelude.Text.{Text, codes, trim, str_eq, str_le}
use nostr_vpn.Prelude.Sorting.{InOrder, sort}
use nostr_vpn.Collections.HashMap.{HashMap, get, values, insert, Distinct}
use nostr_vpn.Collections.HashSet.{contains, is_unique}
use nostr_vpn.Net.{IpAddr}
use nostr_vpn.Config.State.{PendingInboundJoinRequest}
use nostr_vpn.Config.Labels.{
  normalize_magic_dns_label, uniquify_network_entry_id, uniquify_magic_dns_label,
  normalize_magic_dns_suffix,
}
use nostr_vpn.Config.Labels.Normal.{IsLabel, normalize_magic_dns_label_twice}
use nostr_vpn.Config.Labels.Fresh.{uniquify_network_entry_id_fresh}
use nostr_vpn.Config.Roster.{normalize_inbound_join_requests, collect_requests}
use nostr_vpn.Config.Roster.Requests.{newest_request, normalize_inbound_join_requests_lem}
use nostr_vpn.Config.Routes.{
  normalize_advertised_route, effective_advertised_routes, is_exit_node_route, parse_route,
  network_of, mask_ipv4,
}
use nostr_vpn.Config.Routes.Sets.{normalizes_to, effective_advertised_routes_lem}
use nostr_vpn.Config.Routes.Idempotent.{ReadsBack, normalize_advertised_route_fixed}
use nostr_vpn.Config.Tests.{test_libraries, display_ten}
use nostr_vpn.Net.Parser.{parse_ip_addr}
use mathlib.Core.Option.{some-injective}
use mathlib.Core.List.{Perm}
use nostr_vpn.Prelude.Decimal.{show, parse_unsigned}

label : normalize_magic_dns_label (codes "-My  Laptop!-") ≡ some (codes "my-laptop")
unfolding normalize_magic_dns_label
label = refl

no_label : normalize_magic_dns_label (codes "!?") ≡ none
unfolding normalize_magic_dns_label
no_label = refl

suffix : normalize_magic_dns_suffix (codes "Home..LAN.") ≡ codes "home.lan"
unfolding normalize_magic_dns_suffix trim
suffix = refl

second_label :
    (uniquify_magic_dns_label (codes "yak") (codes "yak" ∷ codes "yak-2" ∷ [])).0 ≡ codes "yak-3"
unfolding uniquify_magic_dns_label str_eq show
second_label = refl

normalize_magic_dns_label_twice_example :
    IsLabel (codes "my-laptop")
    × (normalize_magic_dns_label (codes "my-laptop") ≡ some (codes "my-laptop"))
unfolding normalize_magic_dns_label
normalize_magic_dns_label_twice_example =
    normalize_magic_dns_label_twice (codes "-My  Laptop!-") (codes "my-laptop") refl

uniquify_network_entry_id_fresh_example :
    let used = codes "home" ∷ codes "home-2" ∷ [] in
    contains used (uniquify_network_entry_id (codes "home") used).0 ≡ false
uniquify_network_entry_id_fresh_example =
    uniquify_network_entry_id_fresh (codes "home") (codes "home" ∷ codes "home-2" ∷ [])

ten-ReadsBack : ReadsBack display_ten (IpAddr.v4 167772160)
unfolding parse_ip_addr every
ten-ReadsBack = record { reads = refl; chars = refl }

abbrev messy_route : Text
messy_route = codes " 10.1.2.3/ 08"

messy-ReadsBack :
    (a : IpAddr) (bits : ℕ)
    → parse_route messy_route ≡ some (a, bits)
    → ReadsBack display_ten (network_of a bits)
unfolding parse_route trim parse_ip_addr parse_unsigned network_of mask_ipv4
messy-ReadsBack a bits e =
    subst (λ (x : IpAddr × ℕ). ReadsBack display_ten (network_of x.0 x.1)) (some-injective _ _ e)
      ten-ReadsBack

normalize_advertised_route_fixed_example :
    normalize_advertised_route display_ten (codes "10.0.0.0/8") ≡ some (codes "10.0.0.0/8")
unfolding normalize_advertised_route parse_route trim parse_ip_addr parse_unsigned network_of
    mask_ipv4 show
normalize_advertised_route_fixed_example =
    normalize_advertised_route_fixed display_ten messy_route (codes "10.0.0.0/8") refl
      messy-ReadsBack

effective_advertised_routes_lem_example :
    let effective = effective_advertised_routes display_ten (messy_route ∷ messy_route ∷ []) true in
    (is_unique effective ≡ true)
    × ((k : Text)
        → contains effective k ≡ (
            any (normalizes_to display_ten k) (messy_route ∷ messy_route ∷ [])
            || (true && is_exit_node_route k)))
effective_advertised_routes_lem_example =
    effective_advertised_routes_lem display_ten (messy_route ∷ messy_route ∷ []) true

-- Two requests of `c`, the older one last, and one of the participant `b`.
abbrev three_requests : List PendingInboundJoinRequest
three_requests =
    record { requester = codes "c"; requester_node_name = codes "new"; requested_at = 7 }
    ∷ record { requester = codes "b"; requester_node_name = []; requested_at = 8 }
    ∷ record { requester = codes "c"; requester_node_name = codes "old"; requested_at = 5 }
    ∷ []

one_request :
    normalize_inbound_join_requests test_libraries three_requests (codes "b" ∷ [])
    ≡ record { requester = codes "c"; requester_node_name = codes "new"; requested_at = 7 } ∷ []
unfolding normalize_inbound_join_requests collect_requests contains trim str_eq get insert sort
one_request = refl

normalize_inbound_join_requests_lem_example :
    let normalized =
      normalize_inbound_join_requests test_libraries three_requests (codes "b" ∷ []) in
    InOrder (λ a b. str_le a.requester b.requester ≡ true) normalized
    × ((m : HashMap PendingInboundJoinRequest) × Distinct m
        × Perm normalized (values m)
        × ((key : Text)
            → get m key ≡ (
                if contains (codes "b" ∷ []) key
                then none
                else newest_request test_libraries key none three_requests)))
normalize_inbound_join_requests_lem_example =
    normalize_inbound_join_requests_lem test_libraries three_requests (codes "b" ∷ [])
