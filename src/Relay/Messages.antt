-- ===== src/Relay/Messages.antt =====
-- crates/nostr-vpn-core/src/relay.rs: what the relay service and its clients exchange, and the
-- state that the operator of the service is shown.
use nostr_vpn.Prelude.{ℕ, Option, List}
use nostr_vpn.Prelude.Text.{Text}

pub record RelayAllocationRequest : Type 0 where
  pub request_id : Text
  pub network_id : Text
  pub target_pubkey : Text
  pub requested_at : ℕ

pub record RelayAllocationGranted : Type 0 where
  pub request_id : Text
  pub network_id : Text
  pub relay_pubkey : Text
  pub requester_ingress_endpoint : Text
  pub target_ingress_endpoint : Text
  pub expires_at : ℕ

pub record RelayProbeRequest : Type 0 where
  pub request_id : Text
  pub requested_at : ℕ

pub record RelayProbeGranted : Type 0 where
  pub request_id : Text
  pub relay_pubkey : Text
  pub requester_ingress_endpoint : Text
  pub target_ingress_endpoint : Text
  pub expires_at : ℕ

pub data RelayAllocationRejectReason : Type 0 where
  over_capacity too_many_sessions_for_requester byte_limit_exceeded rate_limited invalid_request :
      RelayAllocationRejectReason

pub record RelayAllocationRejected : Type 0 where
  pub request_id : Text
  pub network_id : Text
  pub relay_pubkey : Text
  pub reason : RelayAllocationRejectReason
  pub retry_after_secs : Option ℕ

pub record RelayProbeRejected : Type 0 where
  pub request_id : Text
  pub relay_pubkey : Text
  pub reason : RelayAllocationRejectReason
  pub retry_after_secs : Option ℕ

pub record RelayOperatorSessionState : Type 0 where
  pub request_id : Text
  pub network_id : Text
  pub requester_pubkey : Text
  pub target_pubkey : Text
  pub requester_ingress_endpoint : Text
  pub target_ingress_endpoint : Text
  pub started_at : ℕ
  pub expires_at : ℕ
  pub bytes_from_requester : ℕ
  pub bytes_from_target : ℕ

pub record RelayOperatorState : Type 0 where
  pub updated_at : ℕ
  pub relay_pubkey : Text
  pub advertised_endpoint : Text
  pub total_sessions_served : ℕ
  pub total_forwarded_bytes : ℕ
  pub current_forward_bps : ℕ
  pub unique_peer_count : ℕ
  pub known_peer_pubkeys : List Text
  pub active_sessions : List RelayOperatorSessionState

pub record NatAssistOperatorState : Type 0 where
  pub updated_at : ℕ
  pub advertised_endpoint : Text
  pub total_discovery_requests : ℕ
  pub total_punch_requests : ℕ
  pub current_request_bps : ℕ
  pub unique_client_count : ℕ

pub record ServiceOperatorState : Type 0 where
  pub updated_at : ℕ
  pub operator_pubkey : Text
  pub relay : Option RelayOperatorState
  pub nat_assist : Option NatAssistOperatorState

-- crates/nostr-vpn-core/src/service_signaling.rs
pub data ServicePayload : Type 0 where
  allocation_request : RelayAllocationRequest → ServicePayload
  allocation_granted : RelayAllocationGranted → ServicePayload
  allocation_rejected : RelayAllocationRejected → ServicePayload
  probe_request : RelayProbeRequest → ServicePayload
  probe_granted : RelayProbeGranted → ServicePayload
  probe_rejected : RelayProbeRejected → ServicePayload

pub record ServiceEnvelope : Type 0 where
  pub sender_pubkey : Text
  pub payload : ServicePayload
