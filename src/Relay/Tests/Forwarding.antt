-- ===== src/Relay/Tests/Forwarding.antt =====
-- Datagrams of a session, and of its two legs, on a quota of 3000 bytes.
use nostr_vpn.Prelude.{
  ◌≡◌, ◌≤◌, ◌==◌, ◌&&◌, if◌then◌else◌, Bool-cases, inl, inr, ◌+◌, ◌*◌, ◌/◌, ℕ, none, some, true,
  false, [], ◌∷◌, List, arith, refl,
}
use native.Mathlib.Nat.{div-mul-le_self}
use nostr_vpn.Net.{SocketAddr, addr_eq}
use nostr_vpn.Relay.Forwarding.{
  RelayServiceLimits, SessionForwardingState, fresh_session, allow_forward, forward_all,
}
use nostr_vpn.Relay.Forwarding.Quota.{forward_all-le-quota}
use nostr_vpn.Relay.Forwarding.Bucket.{
  RoundsToNearest, forward_all_rate, scale, per_nano, precision, available, last,
}
use nostr_vpn.Relay.Legs.{SessionState, Datagram, receive, receive_all}
use nostr_vpn.Relay.Legs.Pinning.{near, far, receive_all_stays, receive_forwards}
use nostr_vpn.Relay.Legs.Charging.{NoneSent, strangers_exhaust, oversized_ends_session}
use nostr_vpn.Relay.Tests.{limits, one_session}
use nostr_vpn.Prelude.Text.{codes}
use nostr_vpn.Relay.Sessions.{note_forwarded_bytes}
use nostr_vpn.Relay.Runtime.{service_forwarded_bytes}
use nostr_vpn.Relay.Legs.Task.{
  Received, Relaying, relay_one, relay_all, recorded, relay_all-le-charged,
}

-- The product in bytes, where 1000000001 B/s for 999999999 ns come out as one byte more than the
-- exact product, as they do in f64.
abbrev whole_bytes : ℕ → ℕ → ℕ
whole_bytes nanos bps =
    if (nanos == 999999999) && (bps == 1000000001) then 1000000000 else nanos * bps / 1000000000

scaled : (n b : ℕ) → n * per_nano b ≡ (n * b) * precision + n * b
scaled n b = grind arith

whole_bytes-RoundsToNearest : RoundsToNearest whole_bytes
whole_bytes-RoundsToNearest nanos bps =
    elim (Bool-cases ((nanos == 999999999) && (bps == 1000000001))) [
      | inl e ↦
          let n : nanos ≡ 999999999 = ground arith in
          let r : bps ≡ 1000000001 = ground arith in rw (n, r) (omega arith)
      | inr e ↦ rw e (omega (arith, div-mul-le_self (nanos * bps) 1000000000, scaled nanos bps))
    ]

abbrev limited : RelayServiceLimits
limited = record limits { max_forward_bps = some 1000 }

abbrev packets : List (ℕ × ℕ)
packets = (1500000000, 400) ∷ (2000000000, 900) ∷ []

-- A session whose window was full at the time 1 s.
abbrev windowed : SessionForwardingState
windowed = record {
  forward_window = some (record { last_refill = 1000000000; available_bytes = 1000 });
  total_forwarded_bytes = 0;
  closed = false;
}

forward_all_runs : (forward_all whole_bytes limited packets windowed).1 ≡ 1300
unfolding forward_all allow_forward
forward_all_runs = refl

forward_all-le-quota_example :
    let (s', n) = forward_all whole_bytes limited packets windowed in
    (s'.total_forwarded_bytes ≡ 0 + n) × (0 + n ≤ 3000)
forward_all-le-quota_example =
    forward_all-le-quota whole_bytes limited packets windowed (omega arith) (omega arith)

abbrev closed : SessionForwardingState
closed = record windowed { closed = true }

forward_all_rate_example :
    (forward_all whole_bytes limited packets windowed).1 * scale + last windowed * per_nano 1000
    ≤ available windowed * scale + 2000000000 * per_nano 1000
forward_all_rate_example =
    forward_all_rate whole_bytes limited 1000 packets windowed 2000000000
      whole_bytes-RoundsToNearest refl refl (omega arith, (omega arith, tt)) (omega arith)

abbrev addr_a : SocketAddr
addr_a = SocketAddr.v4 167772161 5000

abbrev addr_b : SocketAddr
addr_b = SocketAddr.v4 167772162 5001

abbrev addr_c : SocketAddr
addr_c = SocketAddr.v4 167772163 5002

-- A session with both legs pinned.
abbrev pinned : SessionState
pinned = record {
  requester = record { bound_addr = some addr_a };
  target = record { bound_addr = some addr_b };
  forwarding = fresh_session;
}

abbrev from_requester : Datagram
from_requester = record { at_requester_leg = true; src = addr_a; len = 1200; now = 5 }

abbrev from_stranger : Datagram
from_stranger = record from_requester { src = addr_c; len = 3000 }

receive_runs : (receive whole_bytes limits pinned from_requester).1 ≡ some addr_b
unfolding receive allow_forward addr_eq
receive_runs = refl

receive_all_stays_example :
    let s' = receive_all whole_bytes limits (from_stranger ∷ from_requester ∷ []) pinned in
    (s'.requester.bound_addr ≡ some addr_a) × (s'.target.bound_addr ≡ some addr_b)
receive_all_stays_example =
    receive_all_stays whole_bytes limits (from_stranger ∷ from_requester ∷ []) pinned addr_a addr_b
      refl refl

receive_forwards_example :
    let s' = (receive whole_bytes limits pinned from_requester).0 in
    (near s' from_requester ≡ some addr_a)
    × (far s' from_requester ≡ some addr_b)
    × (far pinned from_requester ≡ some addr_b)
receive_forwards_example =
    receive_forwards whole_bytes limits pinned from_requester addr_b receive_runs

-- Three datagrams of a stranger, on both legs, of 3,300 bytes together.
abbrev strangers : List Datagram
strangers =
    record from_stranger { len = 1100 }
    ∷ record from_stranger { len = 1100; at_requester_leg = false }
    ∷ record from_stranger { len = 1100 }
    ∷ []

strangers_exhaust_example :
    NoneSent whole_bytes limits strangers pinned
    × ((receive whole_bytes limits
          (receive_all whole_bytes limits strangers pinned)
          from_requester).1
        ≡ none)
strangers_exhaust_example =
    strangers_exhaust whole_bytes limits strangers pinned addr_a addr_b from_requester refl refl
      ((λ e. ground arith), ((λ e. ground arith), ((λ e. ground arith), tt))) refl (omega arith)
      (omega arith)

oversized_ends_session_example :
    (receive whole_bytes limits
      (receive_all whole_bytes limits
        (record from_stranger { len = 3001 } ∷ from_requester ∷ [])
        pinned)
      from_requester).1
    ≡ none
oversized_ends_session_example =
    oversized_ends_session whole_bytes limits pinned (record from_stranger { len = 3001 })
      (from_requester ∷ []) from_requester (omega arith) (omega arith)

abbrev relaying : Relaying
relaying = record {
  session = pinned;
  runtime = record { operator_pubkey = codes "relay"; relay = some one_session; nat_assist = none };
}

-- The requester's datagram is sent on, and then one of a stranger is not.
abbrev received : List Received
received =
    record { datagram = from_requester; sent = some 1200 }
    ∷ record { datagram = record from_stranger { len = 100 }; sent = none }
    ∷ []

relay_all_runs :
    recorded (relay_all whole_bytes limits (codes "r1") relaying received).runtime.relay ≡ 2200
unfolding relay_all relay_one receive allow_forward addr_eq service_forwarded_bytes
    note_forwarded_bytes
relay_all_runs = refl

relay_all-le-charged_example :
    let s' = relay_all whole_bytes limits (codes "r1") relaying received in
    (recorded s'.runtime.relay + 0 ≤ 1000 + s'.session.forwarding.total_forwarded_bytes)
    × (s'.session.forwarding.total_forwarded_bytes ≤ 3000)
relay_all-le-charged_example =
    relay_all-le-charged whole_bytes limits (codes "r1") relaying received (omega arith)
      (omega arith) (omega arith, (omega arith, tt))
