-- ===== src/Client/Tests.antt =====
-- A provider that failed, and a reserve of two sessions.
use nostr_vpn.Prelude.{ℕ, ◌≡◌, refl, true, false, none, some, [], ◌∷◌, arith}
use nostr_vpn.Prelude.Text.{Text, codes, str_le, str_eq, is_blank, trim}
use nostr_vpn.Collections.HashMap.{get, insert, remove, retain}
use nostr_vpn.Client.Providers.{
  RelayProviderVerificationBook, note_failed_relay_provider, relay_provider_in_failure_cooldown,
  relay_provider_probe_due, cooldown_secs, prune_relay_provider_verifications,
}
use nostr_vpn.Client.Providers.Backoff.{note_failed-cooldown}
use nostr_vpn.Client.Providers.Pruned.{pruned_agrees}
use nostr_vpn.Client.Standby.{
  ActiveRelaySession, Standbys, pop_next_standby_relay_session, relay_session_is_active,
  relay_session_verification_timed_out, take_first, relay_is_in_failure_cooldown, note_failed_relay,
  relay_failure_key,
}
use nostr_vpn.Peers.Presence.{empty_book, announcement_for}
use nostr_vpn.Client.Reconcile.{
  KeyText, Review, reconcile_active_relay_sessions, review_all, review,
  runtime_peer_verifies_relay_session,
}
use nostr_vpn.Collections.HashSet.{contains}
use nostr_vpn.Client.Reconcile.Reported.{route_of, reconcile_reports}
use nostr_vpn.Client.Reconcile.Settled.{Serves, reconcile_settles}
use nostr_vpn.Client.Standby.Promotion.{Promoted, pop_next-Promoted}
use nostr_vpn.Config.Roster.{sorted_unique, dedup}
use nostr_vpn.Prelude.Sorting.{insert_sorted, sort}

abbrev provider_a : Text
provider_a = codes "a"

abbrev provider_b : Text
provider_b = codes "b"

-- Three failures in a row.
abbrev failing : RelayProviderVerificationBook
failing =
    (
      provider_a,
      record {
        verified_at = none;
        failure_cooldown_until = some 500;
        last_failure_at = some 260;
        last_probe_attempt_at = some 260;
        consecutive_failures = 3;
      },
    )
    ∷ []

doubled : cooldown_secs none 3 ≡ 240
doubled = refl

note_failed-cooldown_example :
    let b' = note_failed_relay_provider failing provider_a 510 none in
    (relay_provider_in_failure_cooldown b' provider_a 510 ≡ true)
    × (relay_provider_probe_due b' provider_a 510 ≡ false)
    × (relay_provider_in_failure_cooldown b' provider_a 1500 ≡ false)
    × (get b' provider_b ≡ get failing provider_b)
note_failed-cooldown_example =
    note_failed-cooldown failing provider_a provider_b 510 1500 none (omega arith) (omega arith)
      (λ e. ground arith)

pruned_agrees_example :
    let (b', changed) = prune_relay_provider_verifications failing 600 in
    (relay_provider_in_failure_cooldown b' provider_a 700
      ≡ relay_provider_in_failure_cooldown failing provider_a 700)
    × (relay_provider_probe_due b' provider_a 700 ≡ relay_provider_probe_due failing provider_a 700)
pruned_agrees_example = pruned_agrees failing provider_a 600 700 (tt, tt) (omega arith)

abbrev granted : Text → ℕ → ActiveRelaySession
granted relay_pubkey expires_at = record {
  relay_pubkey = relay_pubkey;
  local_ingress_endpoint = codes "198.51.100.30:40001";
  advertised_ingress_endpoint = codes "198.51.100.30:40002";
  granted_at = 100;
  verified_at = some 101;
  expires_at = expires_at;
}

-- The first session has run out, and the second is live.
abbrev reserves : Standbys
reserves = (codes "p", granted provider_a 150 ∷ granted provider_b 300 ∷ []) ∷ []

pop_next-Promoted_example :
    let (standbys', next) = pop_next_standby_relay_session reserves [] (codes "p") 200 in
    Promoted reserves [] (codes "p") 200 standbys' next
pop_next-Promoted_example = pop_next-Promoted reserves [] (codes "p") 200

-- Bytes and digits as they are, and no upper case.
abbrev plain_keys : KeyText
plain_keys = record { decode = λ t. some t; encode_hex = λ t. t; to_lowercase = λ t. t }

-- The session of `p` was not verified in 8 s, the one of `q` has run out, the one of `s` is verified.
abbrev in_use : Review
in_use = record {
  relay_sessions =
      (codes "p", record (granted provider_a 300) { verified_at = none })
      ∷ (codes "q", granted provider_b 150)
      ∷ (codes "s", granted provider_b 300)
      ∷ [];
  standby_relay_sessions = reserves;
  relay_failures = [];
  relay_provider_verifications = failing;
  pending_requests = [];
  changed = [];
}

reconcile_settles_example : Serves 200 (
    get
      (reconcile_active_relay_sessions plain_keys empty_book none in_use 200).relay_sessions
      (codes "p"))
reconcile_settles_example = reconcile_settles plain_keys empty_book none in_use 200 (codes "p")

-- The one that is verified is not reported.
not_reported :
    contains
      (reconcile_active_relay_sessions plain_keys empty_book none in_use 200).changed
      (codes "s")
    ≡ false
unfolding contains reconcile_active_relay_sessions review_all review sorted_unique dedup sort
    insert_sorted str_le get str_eq relay_session_is_active is_blank trim
    runtime_peer_verifies_relay_session announcement_for relay_session_verification_timed_out
    pop_next_standby_relay_session take_first relay_is_in_failure_cooldown insert remove retain
    note_failed_relay relay_failure_key
not_reported = refl

reconcile_reports_example :
    let r' = reconcile_active_relay_sessions plain_keys empty_book none in_use 200 in
    route_of (get r'.relay_sessions (codes "s")) ≡ route_of (get in_use.relay_sessions (codes "s"))
reconcile_reports_example =
    reconcile_reports plain_keys empty_book none in_use 200 (codes "s") not_reported
