-- ===== src/Relay/Tests/Ports.antt =====
-- The search for ports on a range of four.
use nostr_vpn.Prelude.{◌≡◌, ◌≢◌, none, some, inl, [], ◌∷◌, arith, refl, ◌++◌}
use nostr_vpn.Prelude.Results.{ok}
use nostr_vpn.Relay.Ports.{
  RelayLegPair, bind_pair, relay_port_range, first_loop, second_loop, next_after, new_range,
}
use nostr_vpn.Relay.Ports.Pair.{OnlyInUse, ReportsPort}
use nostr_vpn.Relay.Ports.Allocator.{
  IsReady, IsLegPair, bind_pair-ends, bind_pair-IsLegPair, bind_pair_succeeds,
}
use nostr_vpn.Relay.Ports.Flags.{bind_pair_has_room, bind_with}
use nostr_vpn.Relay.Tests.{plain_format, host, all_free, four_ports, flags}

four_ports-IsReady : IsReady four_ports
four_ports-IsReady = omega arith

all_free-ReportsPort : ReportsPort all_free
all_free-ReportsPort p q h = cc

-- The search goes on behind the last pair and comes round to the start.
abbrev last_and_first : RelayLegPair
last_and_first = record {
  requester_socket = 4002;
  target_socket = 4003;
  requester_ingress_endpoint = host ++ (58 ∷ 4002 ∷ []);
  target_ingress_endpoint = host ++ (58 ∷ 4003 ∷ []);
}

bind_pair_runs : (bind_pair plain_format all_free four_ports host).1 ≡ some (ok last_and_first)
unfolding bind_pair first_loop second_loop next_after
bind_pair_runs = refl

flags_accepted : relay_port_range flags ≡ ok (some four_ports.range)
unfolding relay_port_range new_range
flags_accepted = refl

bind_pair-ends_example : (bind_pair plain_format all_free four_ports host).1 ≢ none
bind_pair-ends_example = bind_pair-ends plain_format all_free four_ports host four_ports-IsReady

bind_pair-IsLegPair_example :
    (ip : plain_format.Ip) × (plain_format.parse_ip host ≡ some ip)
    × IsLegPair plain_format all_free four_ports.range ip last_and_first
bind_pair-IsLegPair_example =
    bind_pair-IsLegPair plain_format all_free four_ports host last_and_first all_free-ReportsPort
      four_ports-IsReady bind_pair_runs

all_free-OnlyInUse : OnlyInUse all_free four_ports.range
all_free-OnlyInUse p h = inl refl

bind_pair_succeeds_example :
    (legs : RelayLegPair) × ((bind_pair plain_format all_free four_ports host).1 ≡ some (ok legs))
bind_pair_succeeds_example =
    bind_pair_succeeds plain_format all_free four_ports host 4000 4003 host refl four_ports-IsReady
      all_free-OnlyInUse (omega arith) (omega arith) (omega arith) refl refl

bind_pair_has_room_example :
    (legs : RelayLegPair) × ((bind_pair plain_format
        (bind_with (4003 ∷ 4000 ∷ []))
        four_ports
        host).1
      ≡ some (ok legs))
bind_pair_has_room_example =
    bind_pair_has_room plain_format flags four_ports (4003 ∷ 4000 ∷ []) host host flags_accepted
      refl four_ports-IsReady (omega arith)
