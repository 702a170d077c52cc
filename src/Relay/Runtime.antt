-- ===== src/Relay/Runtime.antt =====
-- nvpn_udp_relay/relay_runtime.rs: NatAssistRuntimeState, and ServiceRuntimeState, which has the
-- state of each service that is enabled.
pub mod Restore
pub mod Restart
use nostr_vpn.Prelude.{
  ℕ, ◌+◌, ◌-◌, ◌/◌, Bool, Option, none, some, ltb, ◌==◌, if◌then◌else◌, length, map_option,
}
use nostr_vpn.Prelude.Text.{Text}
use nostr_vpn.Prelude.Words.{sat_add}
use nostr_vpn.Collections.HashSet.{HashSet, add}
use nostr_vpn.Relay.Messages.{
  NatAssistOperatorState, ServiceOperatorState, RelayOperatorSessionState, RelayOperatorState,
}
use nostr_vpn.Relay.Sessions
use nostr_vpn.Relay.Sessions.{RelayRuntimeState}

pub record NatAssistRuntimeState : Type 0 where
  pub advertised_endpoint : Text
  pub total_discovery_requests : ℕ
  pub total_punch_requests : ℕ
  pub current_request_bps : ℕ
  pub last_rate_sample_at : ℕ
  pub last_rate_sample_requests : ℕ
  pub known_clients : HashSet

-- `src` is the text of the client's address.
unfoldable pub note_discovery_request : NatAssistRuntimeState → Text → NatAssistRuntimeState
note_discovery_request s src = record s {
  total_discovery_requests = sat_add s.total_discovery_requests 1;
  known_clients = add s.known_clients src;
}

unfoldable pub note_punch_request : NatAssistRuntimeState → Text → NatAssistRuntimeState
note_punch_request s src = record s {
  total_punch_requests = sat_add s.total_punch_requests 1;
  known_clients = add s.known_clients src;
}

abbrev pub total_requests : NatAssistRuntimeState → ℕ
total_requests s = sat_add s.total_discovery_requests s.total_punch_requests

abbrev pub sample_requests : NatAssistRuntimeState → ℕ → NatAssistRuntimeState
sample_requests s now =
    if ltb 0 (now - s.last_rate_sample_at)
    then record s {
      current_request_bps =
          (total_requests s - s.last_rate_sample_requests) / (now - s.last_rate_sample_at);
      last_rate_sample_at = now;
      last_rate_sample_requests = total_requests s;
    }
    else if s.last_rate_sample_at == 0
    then record s { last_rate_sample_at = now; last_rate_sample_requests = total_requests s }
    else s

unfoldable pub snapshot : NatAssistRuntimeState → ℕ → NatAssistRuntimeState × NatAssistOperatorState
snapshot s₀ now =
    let s = sample_requests s₀ now in
    (
      s,
      record {
        updated_at = now;
        advertised_endpoint = s.advertised_endpoint;
        total_discovery_requests = s.total_discovery_requests;
        total_punch_requests = s.total_punch_requests;
        current_request_bps = s.current_request_bps;
        unique_client_count = length s.known_clients;
      },
    )

pub record ServiceRuntimeState : Type 0 where
  pub operator_pubkey : Text
  pub relay : Option RelayRuntimeState
  pub nat_assist : Option NatAssistRuntimeState

module _ (s : ServiceRuntimeState) where
  unfoldable pub service_session_started : RelayOperatorSessionState → ℕ → ServiceRuntimeState
  service_session_started x now = record s {
    relay = map_option s.relay (λ r. Sessions.note_session_started r x now);
  }

  unfoldable pub service_forwarded_bytes : Text → Bool → ℕ → ServiceRuntimeState
  service_forwarded_bytes request_id requester_leg bytes = record s {
    relay =
        map_option s.relay (λ r. Sessions.note_forwarded_bytes r request_id requester_leg bytes);
  }

  unfoldable pub service_discovery_request : Text → ServiceRuntimeState
  service_discovery_request src = record s {
    nat_assist = map_option s.nat_assist (λ n. note_discovery_request n src);
  }

  unfoldable pub service_punch_request : Text → ServiceRuntimeState
  service_punch_request src = record s {
    nat_assist = map_option s.nat_assist (λ n. note_punch_request n src);
  }

  unfoldable pub service_snapshot : ℕ → ServiceRuntimeState × ServiceOperatorState
  unfolding snapshot Sessions.snapshot
  service_snapshot now = (
    record s {
      relay = map_option s.relay (λ r. (Sessions.snapshot r now).0);
      nat_assist = map_option s.nat_assist (λ n. (snapshot n now).0);
    },
    record {
      updated_at = now;
      operator_pubkey = s.operator_pubkey;
      relay = map_option s.relay (λ r. (Sessions.snapshot r now).1);
      nat_assist = map_option s.nat_assist (λ n. (snapshot n now).1);
    },
  )
