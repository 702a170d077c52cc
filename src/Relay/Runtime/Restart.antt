-- ===== src/Relay/Runtime/Restart.antt =====
-- A restart of the service from the state file that it wrote before.
use nostr_vpn.Prelude.{ℕ, ◌≡◌, refl, some, List, [], ◌∷◌, arith, ◌≤◌, Option, count}
use nostr_vpn.Prelude.Text.{Text, str_le}
use nostr_vpn.Prelude.Words.{u64_max}
use nostr_vpn.Prelude.Sorting.{sort}
use nostr_vpn.Collections.HashSet.{contains, collect, contains-add, contains-sort}
use nostr_vpn.Relay.Messages.{RelayOperatorState, ServiceOperatorState}
use nostr_vpn.Relay.Forwarding.{RelayServiceLimits}
use nostr_vpn.Relay.Sessions.{RelayRuntimeState, snapshot}
use nostr_vpn.Relay.Sessions.Admission.{IsWithin}
use nostr_vpn.Relay.Sessions.Snapshots.{IsSampled, snapshot_lem}
use nostr_vpn.Relay.Runtime.{ServiceRuntimeState, service_snapshot}
use nostr_vpn.Relay.Runtime.Restore.{load_runtime_state, relay_runtime_state_from_snapshot}

contains-collect : (xs : List Text) (k : Text) → contains (collect xs) k ≡ contains xs k
unfolding contains collect
contains-collect [] k = refl
contains-collect (x ∷ xs) k = ground (arith, contains-collect xs k, contains-add (collect xs) x k)

snapshot-peers :
    (r : RelayRuntimeState) (now : ℕ) (k : Text)
    → contains (collect (snapshot r now).1.known_peer_pubkeys) k ≡ contains r.known_peer_pubkeys k
unfolding snapshot
snapshot-peers r now k = ground (
  arith,
  contains-collect (sort str_le r.known_peer_pubkeys) k,
  contains-sort r.known_peer_pubkeys k,
)

-- What the state of the relay has in common with the one before the restart.
pub record IsRestored (before after : RelayRuntimeState) : Type 0 where
  pub sessions_served : after.total_sessions_served ≡ before.total_sessions_served
  pub forwarded : after.total_forwarded_bytes ≡ before.total_forwarded_bytes
  pub peers :
      (k : Text) → contains after.known_peer_pubkeys k ≡ contains before.known_peer_pubkeys k
  pub no_sessions : after.active_sessions ≡ []

-- The state of the relay from the operator's file, which has the totals and the peers of before.
from_snapshot-IsRestored :
    (r : RelayRuntimeState) (pubkey endpoint : Text) (written_at now : ℕ)
    → IsRestored r (relay_runtime_state_from_snapshot (snapshot r written_at).1 pubkey endpoint now)
unfolding relay_runtime_state_from_snapshot
from_snapshot-IsRestored r pubkey endpoint written_at now =
    let shown = snapshot_lem r written_at in
    record {
      sessions_served = shown.6;
      forwarded = shown.5;
      peers = λ k. snapshot-peers r written_at k;
      no_sessions = refl;
    }

from_snapshot-IsSampled :
    (r : RelayRuntimeState) (pubkey endpoint : Text) (written_at now : ℕ)
    → r.total_forwarded_bytes ≤ u64_max
    → IsSampled (relay_runtime_state_from_snapshot (snapshot r written_at).1 pubkey endpoint now)
unfolding relay_runtime_state_from_snapshot
from_snapshot-IsSampled r pubkey endpoint written_at now fit = record {
  bytes = omega arith;
  range = omega (arith, (snapshot_lem r written_at).5, fit);
}

empty-IsWithin :
    (limits : RelayServiceLimits) (r : RelayRuntimeState)
    → r.active_sessions ≡ []
    → IsWithin limits r
unfolding count
empty-IsWithin limits r h = record {
  in_all = rw h (omega arith);
  each = λ k. rw h (omega arith);
  distinct = rw h tt;
}

-- A service that is started again on the file that it wrote, and whose file the parser reads as
-- what was written, has the totals and the known peers of before, no session, and samples of the
-- rate that do not run ahead of the totals; so its sessions are within any limits.
pub restart_keeps :
    {Raw : Type 0} (parse_service : Raw → Option ServiceOperatorState)
    (parse_relay : Raw → Option RelayOperatorState) (s : ServiceRuntimeState)
    (r : RelayRuntimeState) (raw : Raw) (limits : RelayServiceLimits) (endpoint : Text)
    (nat_assist_endpoint : Option Text) (written_at now : ℕ)
    → s.relay ≡ some r
    → parse_service raw ≡ some (service_snapshot s written_at).1
    → r.total_forwarded_bytes ≤ u64_max
    → (r' : RelayRuntimeState) × ((load_runtime_state s.operator_pubkey
          (some endpoint)
          nat_assist_endpoint
          now
          parse_service
          parse_relay
          (some raw)).relay
        ≡ some r')
      × IsRestored r r'
      × IsSampled r'
      × IsWithin limits r'
unfolding load_runtime_state service_snapshot
restart_keeps parse_service parse_relay s r raw limits endpoint nat written_at now e p fit =
    let r' =
      relay_runtime_state_from_snapshot (snapshot r written_at).1 s.operator_pubkey endpoint now in
    let kept = from_snapshot-IsRestored r s.operator_pubkey endpoint written_at now in
    (
      r',
      rw (p, e) refl,
      kept,
      from_snapshot-IsSampled r s.operator_pubkey endpoint written_at now fit,
      empty-IsWithin limits r' kept.no_sessions,
    )
