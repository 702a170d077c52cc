-- ===== src/Client/Providers/Backoff.antt =====
-- How long a provider that failed is left alone.
use native.Mathlib.Nat.{one-le-pow, mul-le-mul, pow-le-pow_right}
use nostr_vpn.Prelude.{
  some, ℕ, ◌+◌, ◌*◌, ◌≤◌, ◌≡◌, ◌≢◌, true, false, Option, arith, ◌-◌, ◌^◌, min, max, unwrap_or,
}
use nostr_vpn.Prelude.Text.{Text, str_eq_refl, str_eq_iff}
use nostr_vpn.Prelude.Words.{u64_max, wrapping_add}
use nostr_vpn.Collections.HashMap.{get, get-insert}
use nostr_vpn.Client.Providers.{
  RelayProviderVerification, RelayProviderVerificationBook, note_failed_relay_provider,
  relay_provider_in_failure_cooldown, relay_provider_probe_due, cooldown_secs, provider, one_more,
}

-- A cooldown takes between one and 900 seconds.
cooldown_bounds :
    (retry_after_secs : Option ℕ) (failures : ℕ)
    → (1 ≤ cooldown_secs retry_after_secs failures)
      × (cooldown_secs retry_after_secs failures ≤ 900)
cooldown_bounds retry failures =
    let shift = min (failures - 1) 4 in
    let base = max (unwrap_or retry 60) 1 in
    let one = one-le-pow shift 2 (omega arith) in
    let product : 1 ≤ base * 2 ^ shift = mul-le-mul {n₁ = 1} {m₁ = 1} (omega arith) one in
    omega (arith, product)

-- A provider that failed is in its cooldown at once, is not probed then, and is out of it after
-- the longest cooldown, 900 s, as long as the clock is within 64 bits; what is known of the other
-- providers stays.
pub note_failed-cooldown :
    (b : RelayProviderVerificationBook) (relay_pubkey other : Text) (now later : ℕ)
    (retry_after_secs : Option ℕ)
    → now + 900 ≤ later
    → later ≤ u64_max
    → relay_pubkey ≢ other
    → let b' = note_failed_relay_provider b relay_pubkey now retry_after_secs in
      (relay_provider_in_failure_cooldown b' relay_pubkey now ≡ true)
      × (relay_provider_probe_due b' relay_pubkey now ≡ false)
      × (relay_provider_in_failure_cooldown b' relay_pubkey later ≡ false)
      × (get b' other ≡ get b other)
unfolding note_failed_relay_provider relay_provider_in_failure_cooldown relay_provider_probe_due
note_failed-cooldown b relay_pubkey other now later retry at_end fit ne =
    let failures = one_more (provider b relay_pubkey).consecutive_failures in
    let v : RelayProviderVerification = record (provider b relay_pubkey) {
      last_failure_at = some now;
      last_probe_attempt_at = some now;
      consecutive_failures = failures;
      failure_cooldown_until = some (wrapping_add now (cooldown_secs retry failures));
    } in
    ground (
      arith,
      cooldown_bounds retry failures,
      get-insert b relay_pubkey relay_pubkey v,
      get-insert b relay_pubkey other v,
      str_eq_refl relay_pubkey,
      str_eq_iff relay_pubkey other,
    )

-- A further failure in a row never shortens the cooldown.
cooldown_grows :
    (retry_after_secs : Option ℕ) (few many : ℕ)
    → few ≤ many
    → cooldown_secs retry_after_secs few ≤ cooldown_secs retry_after_secs many
cooldown_grows retry few many le =
    let power =
      pow-le-pow_right {n = 2} (omega arith) {i = min (few - 1) 4} {j = min (many - 1) 4}
        (omega arith) in
    let base = max (unwrap_or retry 60) 1 in
    let same : base ≤ base = omega arith in omega (arith, mul-le-mul same power)
