-- ===== src/Relay/Forwarding.antt =====
-- nvpn_udp_relay/relay_runtime.rs: RelayServiceLimits and SessionForwardingState, the byte quota
-- and the rate limit of one relay session. An Instant is its number of nanoseconds; the credit
-- for a period, a product of floats in the source, is the function `refill` of the nanoseconds
-- and of the rate.
pub mod Quota
pub mod Bucket
use nostr_vpn.Prelude.{
  ℕ, ◌+◌, ◌-◌, max, min, Bool, true, false, Option, none, some, List, [], ◌∷◌, ltb, if◌then◌else◌,
  unwrap_or,
}
use nostr_vpn.Prelude.Words.{sat_add}
use nostr_vpn.Prelude.Results.{Result, ok, err}
use nostr_vpn.Relay.Messages.{RelayAllocationRejectReason, byte_limit_exceeded, rate_limited}

pub record RelayServiceLimits : Type 0 where
  pub max_active_sessions : ℕ
  pub max_sessions_per_requester : ℕ
  pub max_bytes_per_session : ℕ
  pub max_forward_bps : Option ℕ

pub record ForwardWindow : Type 0 where
  pub last_refill : ℕ
  pub available_bytes : ℕ

pub record SessionForwardingState : Type 0 where
  pub forward_window : Option ForwardWindow
  pub total_forwarded_bytes : ℕ
  pub closed : Bool

-- SessionForwardingState::default
abbrev pub fresh_session : SessionForwardingState
fresh_session = record { forward_window = none; total_forwarded_bytes = 0; closed = false }

abbrev pub Verdict : Type 0
Verdict = Result RelayAllocationRejectReason (Unit {0})

module _ (refill : ℕ → ℕ → ℕ) where
  -- The credit since the last refill, at most `burst` in all.
  abbrev pub refilled : ℕ → ℕ → ℕ → ForwardWindow → ForwardWindow
  refilled bps now burst w =
      if ltb 0 (now - w.last_refill)
      then record {
        last_refill = now;
        available_bytes = min (sat_add w.available_bytes (refill (now - w.last_refill) bps)) burst;
      }
      else w

  abbrev pub charge : SessionForwardingState → ℕ → ForwardWindow → SessionForwardingState × Verdict
  charge s bytes w =
      if ltb w.available_bytes bytes
      then (record s { forward_window = some w }, err rate_limited)
      else (
        record s {
          forward_window = some (record w { available_bytes = w.available_bytes - bytes });
          total_forwarded_bytes = sat_add s.total_forwarded_bytes bytes;
        },
        ok tt,
      )

  abbrev pub rate_limit :
      Option ℕ → ℕ → ℕ → SessionForwardingState → SessionForwardingState × Verdict
  rate_limit none now bytes s =
      (record s { total_forwarded_bytes = sat_add s.total_forwarded_bytes bytes }, ok tt)
  rate_limit (some bps) now bytes s =
      let burst = max bps bytes in
      let window : ForwardWindow = record { last_refill = now; available_bytes = burst } in
      charge s bytes (refilled bps now burst (unwrap_or s.forward_window window))

  unfoldable pub allow_forward :
      RelayServiceLimits → ℕ → ℕ → SessionForwardingState → SessionForwardingState × Verdict
  allow_forward limits now bytes s =
      if s.closed
      then (s, err byte_limit_exceeded)
      else if ltb limits.max_bytes_per_session (sat_add s.total_forwarded_bytes bytes)
      then (record s { closed = true }, err byte_limit_exceeded)
      else rate_limit limits.max_forward_bps now bytes s

  abbrev pub accepted : Verdict → ℕ → ℕ
  accepted (ok u) bytes = bytes
  accepted (err e) bytes = 0

  -- A run of datagrams, each with its arrival time and length: the state at the end, and the number
  -- of bytes that were let through.
  unfoldable pub forward_all :
      RelayServiceLimits → List (ℕ × ℕ) → SessionForwardingState → SessionForwardingState × ℕ
  forward_all limits [] s = (s, 0)
  forward_all limits ((now, bytes) ∷ rest) s =
      let (s', verdict) = allow_forward limits now bytes s in
      let (s'', n) = forward_all limits rest s' in (s'', accepted verdict bytes + n)
