-- ===== src/Relay/Runtime/Restore.antt =====
-- nvpn_udp_relay/relay_runtime.rs: load_runtime_state and the states that it builds. The JSON
-- parser is serde's: `parse_service` and `parse_relay` are what it makes of the file's bytes.
use nostr_vpn.Prelude.{
  ℕ, Bool, ◌||◌, not, Option, none, some, [], if◌then◌else◌, is_some, map_option,
}
use nostr_vpn.Prelude.Text.{Text, is_blank}
use nostr_vpn.Prelude.Words.{sat_add}
use nostr_vpn.Relay.Messages.{NatAssistOperatorState, ServiceOperatorState, RelayOperatorState}
use nostr_vpn.Relay.Sessions.{RelayRuntimeState}
use nostr_vpn.Relay.Runtime.{NatAssistRuntimeState, ServiceRuntimeState}
use nostr_vpn.Collections.HashSet.{collect}

unfoldable pub relay_runtime_state_from_snapshot :
    RelayOperatorState → Text → Text → ℕ → RelayRuntimeState
relay_runtime_state_from_snapshot snapshot relay_pubkey advertised_endpoint now = record {
  relay_pubkey = relay_pubkey;
  advertised_endpoint = advertised_endpoint;
  total_sessions_served = snapshot.total_sessions_served;
  total_forwarded_bytes = snapshot.total_forwarded_bytes;
  current_forward_bps = 0;
  last_rate_sample_at = now;
  last_rate_sample_bytes = snapshot.total_forwarded_bytes;
  known_peer_pubkeys = collect snapshot.known_peer_pubkeys;
  active_sessions = [];
}

unfoldable pub nat_assist_runtime_state_from_snapshot :
    NatAssistOperatorState → Text → ℕ → NatAssistRuntimeState
nat_assist_runtime_state_from_snapshot snapshot advertised_endpoint now = record {
  advertised_endpoint = advertised_endpoint;
  total_discovery_requests = snapshot.total_discovery_requests;
  total_punch_requests = snapshot.total_punch_requests;
  current_request_bps = 0;
  last_rate_sample_at = now;
  last_rate_sample_requests =
      sat_add snapshot.total_discovery_requests snapshot.total_punch_requests;
  known_clients = [];
}

-- `RelayRuntimeState { relay_pubkey, advertised_endpoint, last_rate_sample_at: now, ..default() }`
abbrev pub new_relay : Text → Text → ℕ → RelayRuntimeState
new_relay relay_pubkey advertised_endpoint now = record {
  relay_pubkey = relay_pubkey;
  advertised_endpoint = advertised_endpoint;
  total_sessions_served = 0;
  total_forwarded_bytes = 0;
  current_forward_bps = 0;
  last_rate_sample_at = now;
  last_rate_sample_bytes = 0;
  known_peer_pubkeys = [];
  active_sessions = [];
}

abbrev pub new_nat_assist : Text → ℕ → NatAssistRuntimeState
new_nat_assist advertised_endpoint now = record {
  advertised_endpoint = advertised_endpoint;
  total_discovery_requests = 0;
  total_punch_requests = 0;
  current_request_bps = 0;
  last_rate_sample_at = now;
  last_rate_sample_requests = 0;
  known_clients = [];
}

module _ (operator_pubkey : Text) (relay_endpoint nat_assist_endpoint : Option Text) (now : ℕ) where
  abbrev relay_or_new : Option RelayOperatorState → Text → RelayRuntimeState
  relay_or_new none endpoint = new_relay operator_pubkey endpoint now
  relay_or_new (some r) endpoint = relay_runtime_state_from_snapshot r operator_pubkey endpoint now

  abbrev nat_assist_or_new : Option NatAssistOperatorState → Text → NatAssistRuntimeState
  nat_assist_or_new none endpoint = new_nat_assist endpoint now
  nat_assist_or_new (some n) endpoint = nat_assist_runtime_state_from_snapshot n endpoint now

  -- The services that are enabled, each from its part of the file if there is one.
  abbrev restored : Option RelayOperatorState → Option NatAssistOperatorState → ServiceRuntimeState
  restored relay nat_assist = record {
    operator_pubkey = operator_pubkey;
    relay = map_option relay_endpoint (relay_or_new relay);
    nat_assist = map_option nat_assist_endpoint (nat_assist_or_new nat_assist);
  }

  -- A file of the format before ServiceOperatorState.
  abbrev from_relay_file : Option RelayOperatorState → ServiceRuntimeState
  from_relay_file none = restored none none
  from_relay_file (some relay) = restored (some relay) none

  abbrev has_content : ServiceOperatorState → Bool
  has_content s = is_some s.relay || is_some s.nat_assist || not (is_blank s.operator_pubkey)

  abbrev from_service_file :
      Option ServiceOperatorState → Option RelayOperatorState → ServiceRuntimeState
  from_service_file none legacy = from_relay_file legacy
  from_service_file (some s) legacy =
      if has_content s then restored s.relay s.nat_assist else from_relay_file legacy

  module _ {Raw : Type 0} (parse_service : Raw → Option ServiceOperatorState)
      (parse_relay : Raw → Option RelayOperatorState) where
    -- `raw` is the content of the file, if it can be read.
    unfoldable pub load_runtime_state : Option Raw → ServiceRuntimeState
    load_runtime_state none = restored none none
    load_runtime_state (some raw) = from_service_file (parse_service raw) (parse_relay raw)
