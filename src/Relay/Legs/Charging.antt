-- ===== src/Relay/Legs/Charging.antt =====
-- What a datagram costs the session. The forwarding state is asked before the sender is compared
-- with the address that the leg is pinned to.
use nostr_vpn.Prelude.{
  ℕ, ◌+◌, ◌≤◌, ◌<◌, true, none, some, List, [], ◌∷◌, ◌≡◌, ◌≢◌, ◌⊎◌, inl, inr, All, if◌then◌else◌,
  refl, arith, ap,
}
use nostr_vpn.Prelude.Words.{u64_max}
use nostr_vpn.Net.{SocketAddr, addr_eq_iff}
use nostr_vpn.Relay.Forwarding.{RelayServiceLimits, allow_forward}
use nostr_vpn.Relay.Legs.{SessionState, Datagram, receive, receive_all}

-- The address that the leg of the datagram is pinned to, for legs that are pinned to `a` and `b`.
abbrev pub pinned_to : SocketAddr → SocketAddr → Datagram → SocketAddr
pinned_to a b d = if d.at_requester_leg then a else b

abbrev pub total_len : List Datagram → ℕ
total_len [] = 0
total_len (d ∷ ds) = d.len + total_len ds

module _ (refill : ℕ → ℕ → ℕ) (limits : RelayServiceLimits) where
  -- Whatever arrives at the two legs, a session whose count is within its quota never counts more
  -- than the quota, for a quota below the largest 64-bit number.
  receive_all-le-quota :
      (ds : List Datagram) (s : SessionState)
      → limits.max_bytes_per_session < u64_max
      → s.forwarding.total_forwarded_bytes ≤ limits.max_bytes_per_session
      → (receive_all refill limits ds s).forwarding.total_forwarded_bytes
        ≤ limits.max_bytes_per_session
  unfolding receive_all receive allow_forward
  receive_all-le-quota [] s wide h = h
  receive_all-le-quota (d ∷ rest) s wide h =
      receive_all-le-quota rest (receive refill limits s d).0 wide (ground arith)

  receive_closed :
      (s : SessionState) (d : Datagram)
      → s.forwarding.closed ≡ true
      → receive refill limits s d ≡ (s, none)
  unfolding receive allow_forward
  receive_closed s d h = ground arith

  receive_all_closed :
      (ds : List Datagram) (s : SessionState)
      → s.forwarding.closed ≡ true
      → receive_all refill limits ds s ≡ s
  unfolding receive_all
  receive_all_closed [] s h = refl
  receive_all_closed (d ∷ rest) s h = rw (receive_closed s d h) (receive_all_closed rest s h)

  full :
      (s : SessionState) (d : Datagram)
      → limits.max_bytes_per_session < u64_max
      → limits.max_bytes_per_session < s.forwarding.total_forwarded_bytes
      → (receive refill limits s d).1 ≡ none
  unfolding receive allow_forward
  full s d wide over = ground arith

  receive_closes :
      (s : SessionState) (d : Datagram)
      → limits.max_bytes_per_session < s.forwarding.total_forwarded_bytes + d.len
      → limits.max_bytes_per_session < u64_max
      → (receive refill limits s d).0.forwarding.closed ≡ true
  unfolding receive allow_forward
  receive_closes s d room wide = ground arith

  -- So anyone who reaches a leg can end the session: after one datagram, from whatever sender, that
  -- is longer than what is left of the quota, no datagram is sent on any more on either leg, for a
  -- quota below the largest 64-bit number.
  pub oversized_ends_session :
      (s : SessionState) (d : Datagram) (later : List Datagram) (d' : Datagram)
      → limits.max_bytes_per_session < s.forwarding.total_forwarded_bytes + d.len
      → limits.max_bytes_per_session < u64_max
      → (receive refill limits (receive_all refill limits (d ∷ later) s) d').1 ≡ none
  unfolding receive_all
  oversized_ends_session s d later d' room wide =
      let closed = receive_closes s d room wide in
      rw (receive_all_closed later (receive refill limits s d).0 closed)
        (ap (λ r. r.1) (receive_closed (receive refill limits s d).0 d' closed))

  -- None of the datagrams is sent on.
  abbrev pub NoneSent : List Datagram → SessionState → Type 0
  NoneSent [] s = Unit
  NoneSent (d ∷ ds) s =
      ((receive refill limits s d).1 ≡ none) × NoneSent ds (receive refill limits s d).0

  stranger_dropped :
      (s : SessionState) (d : Datagram) (a b : SocketAddr)
      → s.requester.bound_addr ≡ some a
      → s.target.bound_addr ≡ some b
      → pinned_to a b d ≢ d.src
      → let (s', sent) = receive refill limits s d in
        (sent ≡ none) × (s'.requester.bound_addr ≡ some a) × (s'.target.bound_addr ≡ some b)
  unfolding receive allow_forward
  stranger_dropped s d a b p q ne = ground (arith, addr_eq_iff a d.src, addr_eq_iff b d.src)

  strangers_dropped :
      (ds : List Datagram) (s : SessionState) (a b : SocketAddr)
      → s.requester.bound_addr ≡ some a
      → s.target.bound_addr ≡ some b
      → All (λ d. pinned_to a b d ≢ d.src) ds
      → NoneSent ds s
  strangers_dropped [] s a b p q h = tt
  strangers_dropped (d ∷ ds) s a b p q h =
      let (none_sent, p', q') = stranger_dropped s d a b p q h.0 in
      (none_sent, strangers_dropped ds (receive refill limits s d).0 a b p' q' h.1)

  receive_counts :
      (s : SessionState) (d : Datagram)
      → limits.max_forward_bps ≡ none
      → limits.max_bytes_per_session < u64_max
      → let s' = (receive refill limits s d).0 in
        (s'.forwarding.closed ≡ true)
        ⊎ (s.forwarding.total_forwarded_bytes + d.len ≤ s'.forwarding.total_forwarded_bytes)
  unfolding receive allow_forward
  receive_counts s d unlimited wide = ground arith

  over_quota_dropped :
      (ds : List Datagram) (s : SessionState) (d' : Datagram)
      → limits.max_forward_bps ≡ none
      → limits.max_bytes_per_session < u64_max
      → limits.max_bytes_per_session < s.forwarding.total_forwarded_bytes + total_len ds
      → (receive refill limits (receive_all refill limits ds s) d').1 ≡ none
  unfolding receive_all
  over_quota_dropped [] s d' unlimited wide over = full s d' wide (omega (arith, over))
  over_quota_dropped (d ∷ ds) s d' unlimited wide over =
      let s' = (receive refill limits s d).0 in
      elim (receive_counts s d unlimited wide) [
        | inl closed ↦
            rw (receive_all_closed ds s' closed) (ap (λ r. r.1) (receive_closed s' d' closed))
        | inr le ↦ over_quota_dropped ds s' d' unlimited wide (omega (arith, le, over))
      ]

  -- On a session without a rate limit whose two legs are pinned, for a quota below the largest
  -- 64-bit number: datagrams from senders that their legs are not pinned to, however many and of
  -- whatever lengths, are all dropped; but where together they are longer than what is left of the
  -- quota, no datagram, from whatever sender, is sent on after them.
  pub strangers_exhaust :
      (ds : List Datagram) (s : SessionState) (a b : SocketAddr) (d' : Datagram)
      → s.requester.bound_addr ≡ some a
      → s.target.bound_addr ≡ some b
      → All (λ d. pinned_to a b d ≢ d.src) ds
      → limits.max_forward_bps ≡ none
      → limits.max_bytes_per_session < u64_max
      → limits.max_bytes_per_session < s.forwarding.total_forwarded_bytes + total_len ds
      → NoneSent ds s × ((receive refill limits (receive_all refill limits ds s) d').1 ≡ none)
  strangers_exhaust ds s a b d' p q strangers unlimited wide over =
      (strangers_dropped ds s a b p q strangers, over_quota_dropped ds s d' unlimited wide over)
