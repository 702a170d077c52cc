-- ===== src/Relay/Forwarding/Quota.antt =====
-- The byte quota of a session.
use nostr_vpn.Prelude.{ℕ, ◌+◌, ◌≤◌, ◌<◌, ◌≡◌, refl, true, false, List, [], ◌∷◌, arith, ◌↔◌}
use nostr_vpn.Prelude.Words.{u64_max}
use nostr_vpn.Relay.Forwarding.{
  RelayServiceLimits, SessionForwardingState, allow_forward, accepted, forward_all,
}

module _ (refill : ℕ → ℕ → ℕ) (limits : RelayServiceLimits) where
  -- One datagram adds its length to the total if it is let through, and nothing else.
  allow_forward_step :
      (now bytes : ℕ) (s : SessionForwardingState)
      → limits.max_bytes_per_session < u64_max
      → s.total_forwarded_bytes ≤ limits.max_bytes_per_session
      → let (s', v) = allow_forward refill limits now bytes s in
        (s'.total_forwarded_bytes ≡ s.total_forwarded_bytes + accepted refill v bytes)
        × (s'.total_forwarded_bytes ≤ limits.max_bytes_per_session)
  unfolding allow_forward
  allow_forward_step now bytes s wide h = ground arith

  -- From a counter within the quota on, the counter of a session grows by the number of bytes that
  -- it lets through, and never exceeds the quota, whatever arrives and whenever, for a quota below
  -- the largest 64-bit number.
  pub forward_all-le-quota :
      (packets : List (ℕ × ℕ)) (s : SessionForwardingState)
      → limits.max_bytes_per_session < u64_max
      → s.total_forwarded_bytes ≤ limits.max_bytes_per_session
      → let (s', n) = forward_all refill limits packets s in
        (s'.total_forwarded_bytes ≡ s.total_forwarded_bytes + n)
        × (s.total_forwarded_bytes + n ≤ limits.max_bytes_per_session)
  unfolding forward_all
  forward_all-le-quota [] s wide h = omega arith
  forward_all-le-quota ((now, bytes) ∷ rest) s wide h =
      let step = allow_forward_step now bytes s wide h in
      omega (
        arith,
        step,
        forward_all-le-quota rest (allow_forward refill limits now bytes s).0 wide step.1,
      )

  -- A closed session lets nothing through again and does not change.
  forward_all_closed :
      (packets : List (ℕ × ℕ)) (s : SessionForwardingState)
      → s.closed ≡ true
      → forward_all refill limits packets s ≡ (s, 0)
  unfolding forward_all allow_forward
  forward_all_closed [] s h = refl
  forward_all_closed ((now, bytes) ∷ rest) s h = ground (arith, forward_all_closed rest s h)

  -- A datagram closes an open session exactly when it would exceed the quota, for a quota below the
  -- largest 64-bit number.
  closed-allow_forward :
      (now bytes : ℕ) (s : SessionForwardingState)
      → limits.max_bytes_per_session < u64_max
      → s.closed ≡ false
      → ((allow_forward refill limits now bytes s).0.closed ≡ true)
        ↔ (limits.max_bytes_per_session < s.total_forwarded_bytes + bytes)
  unfolding allow_forward
  closed-allow_forward now bytes s wide h = (λ c. ground arith, λ c. ground arith)
