-- ===== src/Relay/Tests/Sessions.antt =====
-- The relay with one session, which runs out at 160.
use mathlib.Core.List.{Perm}
use nostr_vpn.Prelude.{◌≡◌, none, some, arith, refl, count, true}
use nostr_vpn.Prelude.Sorting.{InOrder}
use nostr_vpn.Prelude.Text.{codes, str_eq, str_le}
use nostr_vpn.Collections.HashMap.{retain, values}
use nostr_vpn.Relay.Messages.{ServiceOperatorState}
use nostr_vpn.Relay.Sessions.{allocation_rejection_for_requester, snapshot, RelayRuntimeState}
use nostr_vpn.Relay.Sessions.Admission.{IsWithin, expired_free_places}
use nostr_vpn.Relay.Sessions.Snapshots.{IsSampled, Shown, ByStart, snapshot_lem}
use nostr_vpn.Relay.Runtime.{ServiceRuntimeState, service_snapshot}
use nostr_vpn.Relay.Runtime.Restart.{restart_keeps, IsRestored}
use nostr_vpn.Relay.Runtime.Restore.{load_runtime_state}
use nostr_vpn.Relay.Tests.{alice, bob, host, limits, one_session}

pub one_session-IsWithin : IsWithin limits one_session
unfolding count
one_session-IsWithin = record {
  in_all = omega arith;
  each = λ r. ground arith;
  distinct = (tt, tt);
}

one_session-IsSampled : IsSampled one_session
one_session-IsSampled = record { bytes = omega arith; range = omega arith }

admitted : (allocation_rejection_for_requester one_session alice 120 limits).1 ≡ none
unfolding allocation_rejection_for_requester retain count str_eq
admitted = refl

expired_free_places_example :
    (allocation_rejection_for_requester one_session bob 160 limits).1 ≡ none
expired_free_places_example =
    expired_free_places limits one_session bob 160 (omega arith, tt) (omega arith) (omega arith)

abbrev service : ServiceRuntimeState
service = record { operator_pubkey = codes "relay"; relay = some one_session; nat_assist = none }

-- The file holds the state itself.
restart_keeps_example :
    (r' : RelayRuntimeState) × ((load_runtime_state
        (codes "relay")
        (some host)
        none
        500
        (λ raw. some raw)
        (λ raw. none)
        (some (service_snapshot service 110).1)).relay
      ≡ some r')
    × IsRestored one_session r'
    × IsSampled r'
    × IsWithin limits r'
restart_keeps_example =
    restart_keeps {Raw = ServiceOperatorState} (λ raw. some raw) (λ raw. none) service one_session
      (service_snapshot service 110).1 limits host none 110 500 refl refl (omega arith)

snapshot_example :
    let (s', shown) = snapshot one_session 110 in
    Shown 110 (values one_session.active_sessions) shown.active_sessions
    × InOrder ByStart shown.active_sessions
    × Perm shown.active_sessions (values s'.active_sessions)
    × Perm shown.known_peer_pubkeys one_session.known_peer_pubkeys
    × InOrder (λ x y. str_le x y ≡ true) shown.known_peer_pubkeys
    × (shown.total_forwarded_bytes ≡ 1000)
    × (shown.total_sessions_served ≡ 1)
snapshot_example = snapshot_lem one_session 110
