-- ===== src/Client/Providers.antt =====
-- relay_runtime.rs: the book of relay providers, with their verifications, failures and probes.
pub mod Backoff
pub mod Pruned
use nostr_vpn.Prelude.{
  ℕ, ◌-◌, ◌^◌, max, min, Bool, true, false, ◌||◌, ◌&&◌, not, Option, none, some, [], ◌∷◌, ltb, leb,
  ◌==◌, if◌then◌else◌, length, unwrap_or, is_some, is_some_and, is_none_or, filter_option, ◌+◌,
}
use nostr_vpn.Prelude.Text.{Text}
use nostr_vpn.Prelude.Words.{sat_mul, wrapping_add, u32_max}
use nostr_vpn.Collections.HashMap.{HashMap, get, insert}

pub record RelayProviderVerification : Type 0 where
  pub verified_at : Option ℕ
  pub failure_cooldown_until : Option ℕ
  pub last_failure_at : Option ℕ
  pub last_probe_attempt_at : Option ℕ
  pub consecutive_failures : ℕ

-- RelayProviderVerification::default
abbrev pub unknown_provider : RelayProviderVerification
unknown_provider = record {
  verified_at = none;
  failure_cooldown_until = none;
  last_failure_at = none;
  last_probe_attempt_at = none;
  consecutive_failures = 0;
}

abbrev pub RelayProviderVerificationBook : Type 0
RelayProviderVerificationBook = HashMap RelayProviderVerification

-- RELAY_FAILED_RETRY_AFTER_SECS, RELAY_PROVIDER_FAILURE_MAX_COOLDOWN_SECS and
-- RELAY_PROVIDER_PROBE_RETRY_AFTER_SECS
abbrev pub failed_retry_after_secs : ℕ
failed_retry_after_secs = 60

abbrev pub max_cooldown_secs : ℕ
max_cooldown_secs = 900

abbrev pub probe_retry_after_secs : ℕ
probe_retry_after_secs = 60

abbrev pub cools_down : RelayProviderVerification → ℕ → Bool
cools_down v now = is_some_and v.failure_cooldown_until (λ until. ltb now until)

unfoldable pub relay_provider_in_failure_cooldown : RelayProviderVerificationBook → Text → ℕ → Bool
relay_provider_in_failure_cooldown b relay_pubkey now =
    is_some_and (get b relay_pubkey) (λ v. cools_down v now)

-- `entry(relay_pubkey.to_string()).or_default()`
abbrev pub provider : RelayProviderVerificationBook → Text → RelayProviderVerification
provider b relay_pubkey = unwrap_or (get b relay_pubkey) unknown_provider

unfoldable pub note_verified_relay_provider :
    RelayProviderVerificationBook → Text → ℕ → RelayProviderVerificationBook
note_verified_relay_provider b relay_pubkey now = insert b relay_pubkey (record {
  verified_at = some now;
  failure_cooldown_until = none;
  last_failure_at = none;
  last_probe_attempt_at = some now;
  consecutive_failures = 0;
})

unfoldable pub note_relay_provider_probe_attempt :
    RelayProviderVerificationBook → Text → ℕ → RelayProviderVerificationBook
note_relay_provider_probe_attempt b relay_pubkey now =
    insert b relay_pubkey (record (provider b relay_pubkey) { last_probe_attempt_at = some now })

-- The cooldown after so many failures in a row: it doubles with each, four times at most.
abbrev pub cooldown_secs : Option ℕ → ℕ → ℕ
cooldown_secs retry_after_secs failures =
    min
      (sat_mul (max (unwrap_or retry_after_secs failed_retry_after_secs) 1)
        (2 ^ min (failures - 1) 4))
      max_cooldown_secs

-- `saturating_add(1)` on a u32.
abbrev pub one_more : ℕ → ℕ
one_more failures = if ltb failures u32_max then failures + 1 else u32_max

unfoldable pub note_failed_relay_provider :
    RelayProviderVerificationBook → Text → ℕ → Option ℕ → RelayProviderVerificationBook
note_failed_relay_provider b relay_pubkey now retry_after_secs =
    let v = provider b relay_pubkey in
    let failures = one_more v.consecutive_failures in
    insert b relay_pubkey (record v {
      last_failure_at = some now;
      last_probe_attempt_at = some now;
      consecutive_failures = failures;
      failure_cooldown_until = some (wrapping_add now (cooldown_secs retry_after_secs failures));
    })

abbrev pub probe_due : RelayProviderVerification → ℕ → Bool
probe_due v now =
    not (is_some v.verified_at)
    && not (cools_down v now)
    && is_none_or v.last_probe_attempt_at (λ at. leb probe_retry_after_secs (now - at))

unfoldable pub relay_provider_probe_due : RelayProviderVerificationBook → Text → ℕ → Bool
relay_provider_probe_due b relay_pubkey now = is_none_or (get b relay_pubkey) (λ v. probe_due v now)

abbrev pub without_old_cooldown : RelayProviderVerification → ℕ → RelayProviderVerification
without_old_cooldown v now = record v {
  failure_cooldown_until = filter_option v.failure_cooldown_until (λ until. ltb now until);
}

abbrev pub is_known : RelayProviderVerification → Bool
is_known v =
    is_some v.verified_at
    || is_some v.failure_cooldown_until
    || is_some v.last_failure_at
    || is_some v.last_probe_attempt_at

-- `retain`, whose closure also clears the cooldowns that are over.
unfoldable pub pruned_providers : RelayProviderVerificationBook → ℕ → RelayProviderVerificationBook
pruned_providers [] now = []
pruned_providers ((k, v) ∷ b) now =
    let rest = pruned_providers b now in
    let v' = without_old_cooldown v now in if is_known v' then (k, v') ∷ rest else rest

unfoldable pub prune_relay_provider_verifications :
    RelayProviderVerificationBook → ℕ → RelayProviderVerificationBook × Bool
unfolding pruned_providers
prune_relay_provider_verifications b now =
    let kept = pruned_providers b now in (kept, not (length kept == length b))
