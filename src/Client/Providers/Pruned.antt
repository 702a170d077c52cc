-- ===== src/Client/Providers/Pruned.antt =====
-- Pruning the book forgets nothing that is asked of it later.
use nostr_vpn.Prelude.{ℕ, ◌≤◌, ◌≡◌, refl, [], ◌∷◌, arith}
use nostr_vpn.Prelude.Text.{Text, str_eq_iff}
use nostr_vpn.Collections.HashMap.{get, get-Absent, Distinct}
use nostr_vpn.Client.Providers.{
  RelayProviderVerificationBook, pruned_providers, prune_relay_provider_verifications,
  relay_provider_in_failure_cooldown, relay_provider_probe_due,
}

-- In a book with one entry for a key, at any time from the pruning on, a provider is in its
-- cooldown, or due for a probe, exactly when it would be in the book that was not pruned.
pub pruned_agrees :
    (b : RelayProviderVerificationBook) (relay_pubkey : Text) (now later : ℕ)
    → Distinct b
    → now ≤ later
    → let (b', changed) = prune_relay_provider_verifications b now in
      (relay_provider_in_failure_cooldown b' relay_pubkey later
        ≡ relay_provider_in_failure_cooldown b relay_pubkey later)
      × (relay_provider_probe_due b' relay_pubkey later
          ≡ relay_provider_probe_due b relay_pubkey later)
unfolding prune_relay_provider_verifications relay_provider_in_failure_cooldown
    relay_provider_probe_due pruned_providers get
pruned_agrees [] relay_pubkey now later distinct le = (refl, refl)
pruned_agrees ((k, v) ∷ b) relay_pubkey now later distinct le = ground (
  arith,
  pruned_agrees b relay_pubkey now later distinct.1 le,
  str_eq_iff k relay_pubkey,
  get-Absent b k distinct.0,
)
