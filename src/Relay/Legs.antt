-- ===== src/Relay/Legs.antt =====
-- nvpn-udp-relay.rs: one relay session as its two legs see it. A leg's task receives a datagram,
-- asks the session's forwarding state, and pins the leg to the first address that sends to it;
-- the datagram goes to the address that the other leg is pinned to. The task of a leg is the
-- select loop of spawn_leg: it ends at the lease's deadline or when its socket fails.
pub mod Pinning
pub mod Charging
pub mod Task
use nostr_vpn.Prelude.{
  ℕ, Bool, true, false, not, Option, none, some, List, [], ◌∷◌, leb, if◌then◌else◌,
}
use nostr_vpn.Prelude.Results.{Result, ok, err}
use nostr_vpn.Net.{SocketAddr, addr_eq}
use nostr_vpn.Relay.Forwarding.{
  RelayServiceLimits, SessionForwardingState, fresh_session, allow_forward, Verdict,
}

pub record SessionLeg : Type 0 where
  pub bound_addr : Option SocketAddr

pub record SessionState : Type 0 where
  pub requester : SessionLeg
  pub target : SessionLeg
  pub forwarding : SessionForwardingState

-- SessionState::default
abbrev pub new_session : SessionState
new_session = record {
  requester = record { bound_addr = none };
  target = record { bound_addr = none };
  forwarding = fresh_session;
}

-- A datagram that arrives at one of the two sockets.
pub record Datagram : Type 0 where
  pub at_requester_leg : Bool
  pub src : SocketAddr
  pub len : ℕ
  pub now : ℕ

-- The match on the address that the receiving leg is pinned to: that address afterwards, and where
-- the datagram goes.
abbrev pub pin : Option SocketAddr → SocketAddr → Option SocketAddr → SessionLeg × Option SocketAddr
pin (some bound) src other =
    (record { bound_addr = some bound }, if addr_eq bound src then other else none)
pin none src other = (record { bound_addr = some src }, other)

abbrev pub route : Bool → SessionState → SocketAddr → SessionState × Option SocketAddr
route true s src =
    let (leg, dest) = pin s.requester.bound_addr src s.target.bound_addr in
    (record s { requester = leg }, dest)
route false s src =
    let (leg, dest) = pin s.target.bound_addr src s.requester.bound_addr in
    (record s { target = leg }, dest)

module _ (refill : ℕ → ℕ → ℕ) (limits : RelayServiceLimits) where
  abbrev pub after_verdict : SessionState → Verdict → Datagram → SessionState × Option SocketAddr
  after_verdict s (err e) d = (s, none)
  after_verdict s (ok u) d = route d.at_requester_leg s d.src

  -- The state after a datagram, and the address that it is sent on to.
  unfoldable pub receive : SessionState → Datagram → SessionState × Option SocketAddr
  receive s d =
      let (forwarding, verdict) = allow_forward refill limits d.now d.len s.forwarding in
      after_verdict (record s { forwarding = forwarding }) verdict d

  -- The two tasks interleaved: the datagrams in the order in which they get hold of the state.
  unfoldable pub receive_all : List Datagram → SessionState → SessionState
  receive_all [] s = s
  receive_all (d ∷ rest) s = receive_all rest (receive s d).0
