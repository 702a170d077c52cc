-- ===== src/Relay/Sessions.antt =====
-- nvpn_udp_relay/relay_runtime.rs: RelayRuntimeState, the sessions that the relay serves
-- and the snapshot of them for the operator. The time that the source reads from the clock is an
-- argument.
pub mod Admission
pub mod Snapshots
use nostr_vpn.Prelude.{
  ℕ, ◌+◌, ◌-◌, ◌/◌, Bool, true, false, ◌&&◌, ◌||◌, not, Option, none, some, List, [], ◌∷◌, ltb, leb,
  ◌==◌, if◌then◌else◌, length, count,
}
use nostr_vpn.Prelude.Text.{Text, str_eq, str_le, is_blank}
use nostr_vpn.Prelude.Words.{sat_add}
use nostr_vpn.Prelude.Sorting.{sort}
use nostr_vpn.Collections.HashMap.{HashMap, get, insert, retain, values}
use nostr_vpn.Collections.HashSet.{HashSet, add}
use nostr_vpn.Relay.Messages.{
  RelayAllocationRejectReason, over_capacity, too_many_sessions_for_requester,
  RelayOperatorSessionState, RelayOperatorState,
}
use nostr_vpn.Relay.Forwarding.{RelayServiceLimits}

pub record RelayRuntimeState : Type 0 where
  pub relay_pubkey : Text
  pub advertised_endpoint : Text
  pub total_sessions_served : ℕ
  pub total_forwarded_bytes : ℕ
  pub current_forward_bps : ℕ
  pub last_rate_sample_at : ℕ
  pub last_rate_sample_bytes : ℕ
  pub known_peer_pubkeys : HashSet
  pub active_sessions : HashMap RelayOperatorSessionState

unfoldable pub prune_expired_sessions : RelayRuntimeState → ℕ → RelayRuntimeState
prune_expired_sessions s now = record s {
  active_sessions = retain (λ k x. ltb now x.expires_at) s.active_sessions;
}

abbrev pub Rejection : Type 0
Rejection = RelayAllocationRejectReason × Option ℕ

abbrev pub requested_by : Text → RelayOperatorSessionState → Bool
requested_by requester x = str_eq x.requester_pubkey requester

abbrev pub rejection_of : RelayServiceLimits → ℕ → ℕ → Option Rejection
rejection_of limits active of_requester =
    if leb limits.max_active_sessions active
    then some (over_capacity, some 30)
    else if leb limits.max_sessions_per_requester of_requester
    then some (too_many_sessions_for_requester, some 60)
    else none

unfoldable pub allocation_rejection_for_requester :
    RelayRuntimeState → Text → ℕ → RelayServiceLimits → RelayRuntimeState × Option Rejection
unfolding prune_expired_sessions
allocation_rejection_for_requester s requester now limits =
    let pruned = prune_expired_sessions s now in
    (
      pruned,
      rejection_of limits (length pruned.active_sessions)
          (count (requested_by requester) (values pruned.active_sessions)),
    )

unfoldable pub note_session_started :
    RelayRuntimeState → RelayOperatorSessionState → ℕ → RelayRuntimeState
unfolding prune_expired_sessions
note_session_started s x now =
    let pruned = prune_expired_sessions s now in
    record pruned {
      total_sessions_served = sat_add pruned.total_sessions_served 1;
      known_peer_pubkeys = add (add pruned.known_peer_pubkeys x.requester_pubkey) x.target_pubkey;
      active_sessions = insert pruned.active_sessions x.request_id x;
    }

abbrev pub credit : Bool → ℕ → RelayOperatorSessionState → RelayOperatorSessionState
credit requester_leg bytes x =
    if requester_leg
    then record x { bytes_from_requester = sat_add x.bytes_from_requester bytes }
    else record x { bytes_from_target = sat_add x.bytes_from_target bytes }

-- `if let Some(session) = self.active_sessions.get_mut(request_id)`
abbrev pub credit_session :
    HashMap RelayOperatorSessionState
    → Text
    → Bool
    → ℕ
    → Option RelayOperatorSessionState
    → HashMap RelayOperatorSessionState
credit_session m request_id requester_leg bytes none = m
credit_session m request_id requester_leg bytes (some x) =
    insert m request_id (credit requester_leg bytes x)

unfoldable pub note_forwarded_bytes : RelayRuntimeState → Text → Bool → ℕ → RelayRuntimeState
note_forwarded_bytes s request_id requester_leg bytes = record s {
  total_forwarded_bytes = sat_add s.total_forwarded_bytes bytes;
  active_sessions =
      credit_session s.active_sessions request_id requester_leg bytes
        (get s.active_sessions request_id);
}

-- The forwarding rate since the last sample, taken at most once a second.
abbrev pub sample_rate : RelayRuntimeState → ℕ → RelayRuntimeState
sample_rate s now =
    if ltb 0 (now - s.last_rate_sample_at)
    then record s {
      current_forward_bps =
          (s.total_forwarded_bytes - s.last_rate_sample_bytes) / (now - s.last_rate_sample_at);
      last_rate_sample_at = now;
      last_rate_sample_bytes = s.total_forwarded_bytes;
    }
    else if s.last_rate_sample_at == 0
    then record s { last_rate_sample_at = now; last_rate_sample_bytes = s.total_forwarded_bytes }
    else s

-- By start, then by request id.
abbrev pub session_le : RelayOperatorSessionState → RelayOperatorSessionState → Bool
session_le x y =
    ltb x.started_at y.started_at
    || (x.started_at == y.started_at && str_le x.request_id y.request_id)

unfoldable pub snapshot : RelayRuntimeState → ℕ → RelayRuntimeState × RelayOperatorState
unfolding prune_expired_sessions
snapshot s₀ now =
    let s = sample_rate (prune_expired_sessions s₀ now) now in
    (
      s,
      record {
        updated_at = now;
        relay_pubkey = s.relay_pubkey;
        advertised_endpoint = s.advertised_endpoint;
        total_sessions_served = s.total_sessions_served;
        total_forwarded_bytes = s.total_forwarded_bytes;
        current_forward_bps = s.current_forward_bps;
        unique_peer_count = length s.known_peer_pubkeys;
        known_peer_pubkeys = sort str_le s.known_peer_pubkeys;
        active_sessions = sort session_le (values s.active_sessions);
      },
    )
