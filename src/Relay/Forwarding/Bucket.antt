-- ===== src/Relay/Forwarding/Bucket.antt =====
-- The rate limit of a session as a token bucket.
use nostr_vpn.Prelude.{
  ℕ, ◌+◌, ◌-◌, ◌*◌, ◌≤◌, ◌≡◌, true, List, [], ◌∷◌, arith, some, is_some, unwrap_or, ◌⊎◌, All,
  map_option, ap,
}
use native.Mathlib.Nat.{add-mul}
use nostr_vpn.Relay.Forwarding.{
  RelayServiceLimits, SessionForwardingState, allow_forward, accepted, forward_all,
}

-- The rate times the time may come out larger by one part in 2 ^ 50.
abbrev pub precision : ℕ
precision = 1125899906842624

-- What stands for a byte, and what a nanosecond adds, where both are counted in parts of a byte.
abbrev pub scale : ℕ
scale = 1000000000 * precision

abbrev pub per_nano : ℕ → ℕ
per_nano bps = bps * (precision + 1)

-- The credit for a period exceeds the rate times the period by one part in 2 ^ 50 at most. The
-- source computes it as `(elapsed.as_secs_f64() * max_forward_bps as f64) as u64`: the conversion
-- of the seconds, their sum with the fraction, the conversion of the rate and the product are each
-- rounded to the nearest f64, that is, by at most one part in 2 ^ 53, and the cast rounds near.
abbrev pub RoundsToNearest : (ℕ → ℕ → ℕ) → Type 0
RoundsToNearest refill = (elapsed bps : ℕ) → refill elapsed bps * scale ≤ elapsed * per_nano bps

refill_since :
    (refill : ℕ → ℕ → ℕ) (last now bps : ℕ)
    → RoundsToNearest refill
    → last ≤ now
    → refill (now - last) bps * scale + last * per_nano bps ≤ now * per_nano bps
refill_since refill last now bps near h =
    let whole : last + (now - last) ≡ now = omega arith in
    omega (
      arith,
      near (now - last) bps,
      add-mul last (now - last) (per_nano bps),
      ap (λ n. n * per_nano bps) whole,
    )

-- The window's credit and the time of its last refill, once the session has a window.
abbrev pub available : SessionForwardingState → ℕ
available s = unwrap_or (map_option s.forward_window (λ w. w.available_bytes)) 0

abbrev pub last : SessionForwardingState → ℕ
last s = unwrap_or (map_option s.forward_window (λ w. w.last_refill)) 0

module _ (refill : ℕ → ℕ → ℕ) (limits : RelayServiceLimits) (bps : ℕ) where
  -- What a datagram takes out of the window is covered by what was in it and by the time passed.
  allow_forward_bucket :
      (now bytes : ℕ) (s : SessionForwardingState)
      → RoundsToNearest refill
      → limits.max_forward_bps ≡ some bps
      → is_some s.forward_window ≡ true
      → let (s', v) = allow_forward refill limits now bytes s in
        (is_some s'.forward_window ≡ true)
        × ((accepted refill v bytes + available s') * scale + last s * per_nano bps
            ≤ available s * scale + last s' * per_nano bps)
        × ((last s' ≡ last s) ⊎ (last s' ≡ now))
  unfolding allow_forward
  allow_forward_bucket now bytes s near b e =
      ground (arith, refill_since refill (last s) now bps near)

  -- From any moment on after its first datagram, a session under a rate limit lets through no more
  -- than the credit that its window holds and the rate times the time that passes, but for one part
  -- in 2 ^ 50 of the latter, if that is how far a refill is rounded; `finish` is a time by which the
  -- datagrams have arrived.
  pub forward_all_rate :
      (packets : List (ℕ × ℕ)) (s : SessionForwardingState) (finish : ℕ)
      → RoundsToNearest refill
      → limits.max_forward_bps ≡ some bps
      → is_some s.forward_window ≡ true
      → All (λ p. p.0 ≤ finish) packets
      → last s ≤ finish
      → (forward_all refill limits packets s).1 * scale + last s * per_nano bps
        ≤ available s * scale + finish * per_nano bps
  unfolding forward_all
  forward_all_rate [] s finish near b e a h = grind arith
  forward_all_rate ((now, bytes) ∷ rest) s finish near b e a h =
      let s' = (allow_forward refill limits now bytes s).0 in
      let step = allow_forward_bucket now bytes s near b e in
      let later = forward_all_rate rest s' finish near b step.0 a.1 (omega (arith, step.2, a.0)) in
      omega (arith, step.1, later)
