-- ===== src/Relay/Legs/Pinning.antt =====
-- Each leg stays with the address that first reached it, and carries no other sender's traffic.
use nostr_vpn.Prelude.{ℕ, Option, none, some, List, [], ◌∷◌, ◌≡◌, refl, arith, if◌then◌else◌, ◌⊎◌}
use nostr_vpn.Net.{SocketAddr, addr_eq_iff}
use nostr_vpn.Relay.Forwarding.{RelayServiceLimits}
use nostr_vpn.Relay.Legs.{SessionState, Datagram, pin, receive, receive_all}

-- The address that the leg is pinned to at which the datagram arrives, and that of the other leg.
abbrev pub near : SessionState → Datagram → Option SocketAddr
near s d = if d.at_requester_leg then s.requester.bound_addr else s.target.bound_addr

abbrev pub far : SessionState → Datagram → Option SocketAddr
far s d = if d.at_requester_leg then s.target.bound_addr else s.requester.bound_addr

-- Where a leg was pinned, it is pinned to the same address.
abbrev Stays : Option SocketAddr → Option SocketAddr → Type 0
Stays before after = (before ≡ none) ⊎ (after ≡ before)

pin_forwards :
    (b : Option SocketAddr) (src : SocketAddr) (other : Option SocketAddr) (dest : SocketAddr)
    → (pin b src other).1 ≡ some dest
    → ((pin b src other).0.bound_addr ≡ some src) × (other ≡ some dest)
pin_forwards none src other dest h = (refl, h)
pin_forwards (some a) src other dest h = ground (arith, addr_eq_iff a src)

module _ (refill : ℕ → ℕ → ℕ) (limits : RelayServiceLimits) where
  receive-Stays :
      (s : SessionState) (d : Datagram)
      → let s' = (receive refill limits s d).0 in
        Stays s.requester.bound_addr s'.requester.bound_addr
        × Stays s.target.bound_addr s'.target.bound_addr
  unfolding receive
  receive-Stays s d = ground arith

  -- Once both legs are pinned to addresses, no traffic on either leg pins them to others.
  pub receive_all_stays :
      (ds : List Datagram) (s : SessionState) (a b : SocketAddr)
      → s.requester.bound_addr ≡ some a
      → s.target.bound_addr ≡ some b
      → let s' = receive_all refill limits ds s in
        (s'.requester.bound_addr ≡ some a) × (s'.target.bound_addr ≡ some b)
  unfolding receive_all
  receive_all_stays [] s a b p q = (p, q)
  receive_all_stays (d ∷ rest) s a b p q =
      let stays = receive-Stays s d in
      receive_all_stays rest (receive refill limits s d).0 a b (ground (arith, stays.0))
        (ground (arith, stays.1))

  -- A datagram is sent on only from the address that its leg is then pinned to, and only to the
  -- address that the other leg is pinned to, which stays as it is.
  pub receive_forwards :
      (s : SessionState) (d : Datagram) (dest : SocketAddr)
      → (receive refill limits s d).1 ≡ some dest
      → let s' = (receive refill limits s d).0 in
        (near s' d ≡ some d.src) × (far s' d ≡ some dest) × (far s d ≡ some dest)
  unfolding receive
  receive_forwards s d dest h = ground (
    arith,
    pin_forwards s.requester.bound_addr d.src s.target.bound_addr dest,
    pin_forwards s.target.bound_addr d.src s.requester.bound_addr dest,
  )
