-- ===== src/Relay/Tests.antt =====
-- The relay service on small inputs: the values that the tests share.
pub mod Ports
pub mod Forwarding
pub mod Sessions
pub mod Service
use nostr_vpn.Prelude.{ℕ, none, some, [], ◌∷◌, ◌++◌, if◌then◌else◌, is_empty, false, true}
use nostr_vpn.Prelude.Text.{Text, codes}
use nostr_vpn.Relay.Messages.{RelayOperatorSessionState}
use nostr_vpn.Relay.Forwarding.{RelayServiceLimits}
use nostr_vpn.Relay.Ports.{AddressFormat, BindOutcome, bound, RelayPortAllocator, Args}
use nostr_vpn.Relay.Sessions.{RelayRuntimeState}

-- A host is its own address, and an endpoint ends in a colon and the port.
abbrev pub plain_format : AddressFormat
plain_format = record {
  Ip = Text;
  parse_ip = λ host. if is_empty host then none else some host;
  endpoint = λ ip port. ip ++ (58 ∷ port ∷ []);
}

abbrev pub host : Text
host = codes "relay.example"

abbrev pub alice : Text
alice = codes "alice"

abbrev pub bob : Text
bob = codes "bob"

abbrev pub all_free : ℕ → BindOutcome
all_free port = bound (some port)

abbrev pub four_ports : RelayPortAllocator
four_ports = record { range = record { start = 4000; end = 4003 }; next_port = 4002 }

-- A range of four ports for two sessions, and a NAT assist service on another port.
abbrev pub flags : Args
flags = record {
  disable_relay = false;
  enable_nat_assist = true;
  nat_assist_port = 3478;
  relay_port_range_start = some 4000;
  relay_port_range_end = some 4003;
  max_active_sessions = 2;
}

abbrev pub limits : RelayServiceLimits
limits = record {
  max_active_sessions = 2;
  max_sessions_per_requester = 2;
  max_bytes_per_session = 3000;
  max_forward_bps = none;
}

abbrev pub session : RelayOperatorSessionState
session = record {
  request_id = codes "r1";
  network_id = codes "n";
  requester_pubkey = alice;
  target_pubkey = bob;
  requester_ingress_endpoint = codes "a";
  target_ingress_endpoint = codes "b";
  started_at = 100;
  expires_at = 160;
  bytes_from_requester = 0;
  bytes_from_target = 0;
}

-- The relay with the one session.
abbrev pub one_session : RelayRuntimeState
one_session = record {
  relay_pubkey = codes "relay";
  advertised_endpoint = host;
  total_sessions_served = 1;
  total_forwarded_bytes = 1000;
  current_forward_bps = 0;
  last_rate_sample_at = 100;
  last_rate_sample_bytes = 400;
  known_peer_pubkeys = bob ∷ alice ∷ [];
  active_sessions = (codes "r1", session) ∷ [];
}
