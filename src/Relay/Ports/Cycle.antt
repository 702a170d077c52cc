-- ===== src/Relay/Ports/Cycle.antt =====
-- The order in which next_after goes round the range, and how far a port is ahead of another.
use nostr_vpn.Prelude.{ℕ, suc, ◌+◌, ◌-◌, ◌≤◌, ◌<◌, ◌≡◌, ◌≢◌, arith, leb, if◌then◌else◌}
use nostr_vpn.Relay.Ports.{RelayPortRange, len, next_after}

abbrev pub InRange : RelayPortRange → ℕ → Type 0
InRange r p = (r.start ≤ p) × (p ≤ r.end)

-- The number of steps of next_after from `p` to `q`.
unfoldable pub ahead : RelayPortRange → ℕ → ℕ → ℕ
ahead r p q = if leb p q then q - p else q + len r - p

module _ (r : RelayPortRange) where
  pub next_after-InRange : (p : ℕ) → InRange r p → InRange r (next_after r p)
  unfolding next_after
  next_after-InRange p h = ground arith

  pub ahead-lt-len : (p q : ℕ) → InRange r p → InRange r q → ahead r p q < len r
  unfolding ahead
  ahead-lt-len p q hp hq = ground arith

  pub ahead_pos : (p q : ℕ) → InRange r p → InRange r q → p ≢ q → 0 < ahead r p q
  unfolding ahead
  ahead_pos p q hp hq ne = ground arith

  -- A step brings every other port one nearer.
  pub ahead-next_after :
      (p q : ℕ) → InRange r p → InRange r q → p ≢ q → suc (ahead r (next_after r p) q) ≡ ahead r p q
  unfolding ahead next_after
  ahead-next_after p q hp hq ne = ground arith

  -- From the port behind it, a port is a whole round away.
  pub ahead-next_after_self : (p : ℕ) → InRange r p → suc (ahead r (next_after r p) p) ≡ len r
  unfolding ahead next_after
  ahead-next_after_self p hp = ground arith

  pub ahead_self : (p : ℕ) → ahead r p p ≡ 0
  unfolding ahead
  ahead_self p = ground arith

  -- On the round that starts behind `first`, every other port comes before `first` itself.
  pub ahead_before :
      (first t : ℕ)
      → InRange r first
      → InRange r t
      → t ≢ first
      → ahead r (next_after r first) t < ahead r (next_after r first) first
  unfolding ahead next_after
  ahead_before first t hf ht ne = ground arith
