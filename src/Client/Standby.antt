-- ===== src/Client/Standby.antt =====
-- relay_runtime.rs: the sessions that relays granted, those in reserve, and the relays that failed.
pub mod Promotion
use nostr_vpn.Prelude.{
  ℕ, ◌+◌, ◌-◌, Bool, true, false, ◌&&◌, not, Option, none, some, List, [], ◌∷◌, ◌++◌, ltb, leb,
  ◌==◌, if◌then◌else◌, length, is_empty, is_some, is_some_and, any, keep, unwrap_or, map_option,
}
use nostr_vpn.Prelude.Text.{Text, str_eq, is_blank}
use nostr_vpn.Prelude.Words.{wrapping_add}
use nostr_vpn.Collections.HashMap.{HashMap, get, insert, remove, retain}
use nostr_vpn.Relay.Messages.{RelayAllocationGranted}

pub record ActiveRelaySession : Type 0 where
  pub relay_pubkey : Text
  pub local_ingress_endpoint : Text
  pub advertised_ingress_endpoint : Text
  pub granted_at : ℕ
  pub verified_at : Option ℕ
  pub expires_at : ℕ

pub record PendingRelayRequest : Type 0 where
  pub participant : Text
  pub relay_pubkey : Text
  pub requested_at : ℕ

abbrev pub RelayFailureCooldowns : Type 0
RelayFailureCooldowns = HashMap ℕ

abbrev pub Standbys : Type 0
Standbys = HashMap (List ActiveRelaySession)

-- RELAY_SESSION_VERIFY_TIMEOUT_SECS, RELAY_FAILED_RETRY_AFTER_SECS and RELAY_REQUEST_TIMEOUT_SECS
abbrev pub verify_timeout_secs : ℕ
verify_timeout_secs = 8

abbrev pub relay_retry_after_secs : ℕ
relay_retry_after_secs = 60

abbrev pub request_timeout_secs : ℕ
request_timeout_secs = 120

unfoldable pub relay_session_is_active : ActiveRelaySession → ℕ → Bool
relay_session_is_active s now =
    ltb now s.expires_at
    && not (is_blank s.local_ingress_endpoint)
    && not (is_blank s.advertised_ingress_endpoint)

unfoldable pub relay_session_verification_timed_out : ActiveRelaySession → ℕ → Bool
relay_session_verification_timed_out s now =
    not (is_some s.verified_at) && leb verify_timeout_secs (now - s.granted_at)

-- `format!("{participant}:{relay_pubkey}")`
unfoldable pub relay_failure_key : Text → Text → Text
relay_failure_key participant relay_pubkey = participant ++ (58 ∷ relay_pubkey)

unfoldable pub relay_is_in_failure_cooldown : RelayFailureCooldowns → Text → Text → ℕ → Bool
relay_is_in_failure_cooldown failures participant relay_pubkey now =
    is_some_and (get failures (relay_failure_key participant relay_pubkey)) (λ until. ltb now until)

unfoldable pub note_failed_relay : RelayFailureCooldowns → Text → Text → ℕ → RelayFailureCooldowns
note_failed_relay failures participant relay_pubkey now =
    insert failures (relay_failure_key participant relay_pubkey)
      (wrapping_add now relay_retry_after_secs)

unfoldable pub prune_relay_failure_cooldowns :
    RelayFailureCooldowns → ℕ → RelayFailureCooldowns × Bool
prune_relay_failure_cooldowns failures now =
    let kept = retain (λ k until. ltb now until) failures in
    (kept, not (length kept == length failures))

unfoldable pub prune_active_relay_sessions :
    HashMap ActiveRelaySession → ℕ → HashMap ActiveRelaySession × Bool
prune_active_relay_sessions sessions now =
    let kept = retain (λ k s. relay_session_is_active s now) sessions in
    (kept, not (length kept == length sessions))

unfoldable pub prune_pending_relay_requests :
    HashMap PendingRelayRequest → ℕ → HashMap PendingRelayRequest × Bool
prune_pending_relay_requests requests now =
    let kept = retain (λ k r. ltb (now - r.requested_at) request_timeout_secs) requests in
    (kept, not (length kept == length requests))

-- `retain`, whose closure prunes the sessions of the participant.
unfoldable pub pruned_standbys : Standbys → ℕ → Standbys
pruned_standbys [] now = []
pruned_standbys ((k, sessions) ∷ m) now =
    let rest = pruned_standbys m now in
    let kept = keep (λ s. relay_session_is_active s now) sessions in
    if is_empty kept then rest else (k, kept) ∷ rest

unfoldable pub prune_standby_relay_sessions : Standbys → ℕ → Standbys × Bool
unfolding pruned_standbys
prune_standby_relay_sessions standbys now =
    let kept = pruned_standbys standbys now in (kept, not (length kept == length standbys))

unfoldable pub active_relay_session_from_grant : RelayAllocationGranted → ℕ → ActiveRelaySession
active_relay_session_from_grant granted granted_at = record {
  relay_pubkey = granted.relay_pubkey;
  local_ingress_endpoint = granted.requester_ingress_endpoint;
  advertised_ingress_endpoint = granted.target_ingress_endpoint;
  granted_at = granted_at;
  verified_at = none;
  expires_at = granted.expires_at;
}

unfoldable pub relay_sessions_match : ActiveRelaySession → ActiveRelaySession → Bool
relay_sessions_match left right =
    str_eq left.relay_pubkey right.relay_pubkey
    && str_eq left.local_ingress_endpoint right.local_ingress_endpoint
    && str_eq left.advertised_ingress_endpoint right.advertised_ingress_endpoint

unfoldable pub queue_standby_relay_session : Standbys → Text → ActiveRelaySession → Standbys × Bool
queue_standby_relay_session standbys participant session =
    let sessions = unwrap_or (get standbys participant) [] in
    if any (λ existing. relay_sessions_match existing session) sessions
    then (insert standbys participant sessions, false)
    else (insert standbys participant (sessions ++ (session ∷ [])), true)

abbrev pub is_usable : RelayFailureCooldowns → Text → ℕ → ActiveRelaySession → Bool
is_usable failures participant now s =
    relay_session_is_active s now
    && not (relay_is_in_failure_cooldown failures participant s.relay_pubkey now)

-- `position` and `remove`: the first session that passes the test, and the others.
unfoldable pub take_first :
    (ActiveRelaySession → Bool)
    → List ActiveRelaySession
    → Option (ActiveRelaySession × List ActiveRelaySession)
take_first p [] = none
take_first p (s ∷ sessions) =
    let rest = map_option (take_first p sessions) (λ r. (r.0, s ∷ r.1)) in
    if p s then some (s, sessions) else rest

abbrev pub promote :
    Standbys
    → Text
    → ℕ
    → Option (ActiveRelaySession × List ActiveRelaySession)
    → Standbys × Option ActiveRelaySession
promote standbys participant now none = (standbys, none)
promote standbys participant now (some (s, others)) = (
  if is_empty others then remove standbys participant else insert standbys participant others,
  some (record s { granted_at = now; verified_at = none }),
)

unfoldable pub pop_next_standby_relay_session :
    Standbys → RelayFailureCooldowns → Text → ℕ → Standbys × Option ActiveRelaySession
pop_next_standby_relay_session standbys failures participant now =
    promote standbys participant now
      (take_first (is_usable failures participant now) (unwrap_or (get standbys participant) []))
