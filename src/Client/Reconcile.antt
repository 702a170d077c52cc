-- ===== src/Client/Reconcile.antt =====
-- relay_runtime.rs: the review of the sessions that the daemon uses, with what main.rs reads of the
-- state of the tunnel.
pub mod Reported
pub mod Settled
use nostr_vpn.Prelude.{
  ℕ, ◌-◌, ◌≡◌, Bool, true, false, ◌||◌, not, Option, none, some, List, [], ◌∷◌, ◌++◌, ltb, leb,
  ◌==◌, if◌then◌else◌, length, is_none, filter_option, map_option, and_then, unwrap_or,
}
use nostr_vpn.Prelude.Text.{Text, str_eq}
use nostr_vpn.Collections.HashMap.{HashMap, get, insert, remove, retain, keys}
use nostr_vpn.Config.Roster.{sorted_unique}
use nostr_vpn.Peers.Presence.{PeerPresenceBook, announcement_for}
use nostr_vpn.Peers.Announcement.{PeerAnnouncement}
use nostr_vpn.Client.Providers.{
  RelayProviderVerificationBook, note_verified_relay_provider, note_failed_relay_provider,
}
use nostr_vpn.Client.Standby.{
  ActiveRelaySession, PendingRelayRequest, RelayFailureCooldowns, Standbys, relay_session_is_active,
  relay_session_verification_timed_out, note_failed_relay, pop_next_standby_relay_session,
}

pub record WireGuardPeerStatus : Type 0 where
  pub endpoint : Option Text
  pub last_handshake_sec : Option ℕ
  pub last_handshake_nsec : Option ℕ
  pub tx_bytes : ℕ
  pub rx_bytes : ℕ

unfoldable pub has_handshake : WireGuardPeerStatus → Bool
has_handshake p =
    ltb 0 (unwrap_or p.last_handshake_sec 0) || ltb 0 (unwrap_or p.last_handshake_nsec 0)

-- ABSOLUTE_HANDSHAKE_TIMESTAMP_FLOOR
abbrev pub timestamp_floor : ℕ
timestamp_floor = 946684800

-- A small value is an age and not a time of the clock.
unfoldable pub last_handshake_at : WireGuardPeerStatus → ℕ → Option ℕ
last_handshake_at p now =
    if not (has_handshake p)
    then none
    else map_option (filter_option p.last_handshake_sec (λ value. ltb 0 value))
        (λ raw. if ltb raw timestamp_floor then now - raw else raw)

-- The crates for base64 and hexadecimal text, and the standard library's lower case.
pub record KeyText : Type 0 where
  pub decode : Text → Option (List ℕ)
  pub encode_hex : List ℕ → Text
  pub to_lowercase : Text → Text

unfoldable pub key_b64_to_hex : KeyText → Text → Option Text
key_b64_to_hex lib value =
    and_then (lib.decode value)
      (λ bytes. if length bytes == 32 then some (lib.encode_hex bytes) else none)

abbrev pub RuntimePeers : Type 0
RuntimePeers = Option (HashMap WireGuardPeerStatus)

unfoldable pub peer_runtime_lookup :
    KeyText → PeerAnnouncement → RuntimePeers → Option WireGuardPeerStatus
peer_runtime_lookup lib announcement runtime_peers =
    and_then (key_b64_to_hex lib announcement.public_key)
      (λ key. and_then runtime_peers (λ peers. get peers (lib.to_lowercase key)))

unfoldable pub runtime_peer_verifies_relay_session :
    KeyText → Text → PeerPresenceBook → RuntimePeers → ActiveRelaySession → ℕ → Option ℕ
runtime_peer_verifies_relay_session lib participant presence runtime_peers session now =
    and_then (announcement_for presence participant) (λ announcement.
      and_then (peer_runtime_lookup lib announcement runtime_peers) (λ runtime_peer.
        and_then runtime_peer.endpoint (λ endpoint.
          if not (str_eq endpoint session.local_ingress_endpoint)
          then none
          else filter_option (last_handshake_at runtime_peer now)
              (λ at. leb session.granted_at at))))

-- What the review changes: its mutable arguments and the participants with a change.
pub record Review : Type 0 where
  pub relay_sessions : HashMap ActiveRelaySession
  pub standby_relay_sessions : Standbys
  pub relay_failures : RelayFailureCooldowns
  pub relay_provider_verifications : RelayProviderVerificationBook
  pub pending_requests : HashMap PendingRelayRequest
  pub changed : List Text

-- `pending_requests.retain(|_, request| request.participant != participant)`
abbrev pub without_requests_of : Review → Text → Review
without_requests_of r participant = record r {
  pending_requests =
      retain (λ k request. not (str_eq request.participant participant)) r.pending_requests;
}

-- `relay_sessions.insert(participant.clone(), next_session)`, or what is done without one.
abbrev pub put_next : Review → Text → Standbys × Option ActiveRelaySession → Review → Review
put_next r participant (standbys, some next) otherwise = record r {
  standby_relay_sessions = standbys;
  relay_sessions = insert r.relay_sessions participant next;
}
put_next r participant (standbys, none) otherwise = record otherwise {
  standby_relay_sessions = standbys;
}

abbrev pub replace : Review → Text → ℕ → Review → Review
replace r participant now otherwise =
    put_next r participant
      (pop_next_standby_relay_session r.standby_relay_sessions r.relay_failures participant now)
      otherwise

abbrev pub forget_session : Review → Text → Review
forget_session r participant = record r { relay_sessions = remove r.relay_sessions participant }

abbrev pub note_changed : Review → Text → Review
note_changed r participant = record r { changed = r.changed ++ (participant ∷ []) }

-- The branch of a session that has ended.
abbrev pub review_ended : Review → Text → ℕ → Review
review_ended r participant now =
    let r' = forget_session r participant in
    note_changed (replace r' participant now (without_requests_of r' participant)) participant

-- The branch of a session that the tunnel verifies.
abbrev pub review_verified : Review → Text → ActiveRelaySession → ℕ → Review
review_verified r participant s at = record r {
  relay_provider_verifications =
      note_verified_relay_provider r.relay_provider_verifications s.relay_pubkey at;
  relay_sessions =
      if is_none s.verified_at
      then insert r.relay_sessions participant (record s { verified_at = some at })
      else r.relay_sessions;
}

abbrev pub give_up : Review → Text → ActiveRelaySession → ℕ → Review
give_up r participant s now =
    without_requests_of
      (record (forget_session r participant) {
        relay_failures = note_failed_relay r.relay_failures participant s.relay_pubkey now;
        relay_provider_verifications =
            note_failed_relay_provider r.relay_provider_verifications s.relay_pubkey now none;
      })
      participant

-- The branch of a session that is not verified in time.
abbrev pub review_failed : Review → Text → ActiveRelaySession → ℕ → Review
review_failed r participant s now =
    let r' = give_up r participant s now in note_changed (replace r' participant now r') participant

abbrev pub review_unverified : Review → Text → ActiveRelaySession → ℕ → Option ℕ → Review
review_unverified r participant s now none =
    if not (relay_session_verification_timed_out s now)
    then r
    else review_failed r participant s now
review_unverified r participant s now (some at) = review_verified r participant s at

module _ (lib : KeyText) (presence : PeerPresenceBook) (runtime_peers : RuntimePeers) where
  abbrev pub review_session : Review → Text → ℕ → Option ActiveRelaySession → Review
  review_session r participant now none = r
  review_session r participant now (some s) =
      if not (relay_session_is_active s now)
      then review_ended r participant now
      else review_unverified r participant s now
          (runtime_peer_verifies_relay_session lib participant presence runtime_peers s now)

  -- The body of the loop.
  unfoldable pub review : Review → Text → ℕ → Review
  review r participant now = review_session r participant now (get r.relay_sessions participant)

  unfoldable pub review_all : Review → List Text → ℕ → Review
  review_all r [] now = r
  review_all r (participant ∷ participants) now =
      review_all (review r participant now) participants now

  unfoldable pub reconcile_active_relay_sessions : Review → ℕ → Review
  unfolding review_all sorted_unique
  reconcile_active_relay_sessions r now =
      let r' = review_all (record r { changed = [] }) (keys r.relay_sessions) now in
      record r' { changed = sorted_unique r'.changed }
