-- ===== src/Relay/Legs/Task.antt =====
-- The tasks of a session's two legs with the operator's record: what the socket sent is noted
-- there.
use nostr_vpn.Prelude.{
  Bool, map_option, inl, inr, unwrap_or, All, Option-cases, ℕ, ◌+◌, ◌≤◌, ◌<◌, ◌≡◌, ◌⊎◌, none, some,
  Option, List, [], ◌∷◌, arith,
}
use nostr_vpn.Prelude.Text.{Text}
use nostr_vpn.Prelude.Words.{u64_max}
use nostr_vpn.Net.{SocketAddr}
use nostr_vpn.Relay.Forwarding.{RelayServiceLimits, allow_forward}
use nostr_vpn.Relay.Sessions.{RelayRuntimeState, note_forwarded_bytes}
use nostr_vpn.Relay.Runtime.{ServiceRuntimeState, service_forwarded_bytes}
use nostr_vpn.Relay.Legs.{SessionState, Datagram, receive}

-- A datagram, and what `send_to` gives for it if it is sent on: the number of bytes, or an error.
pub record Received : Type 0 where
  pub datagram : Datagram
  pub sent : Option ℕ

pub record Relaying : Type 0 where
  pub session : SessionState
  pub runtime : ServiceRuntimeState

abbrev pub note_sent :
    ServiceRuntimeState → Text → Received → Option SocketAddr → ServiceRuntimeState
note_sent runtime request_id r none = runtime
note_sent runtime request_id r (some dest) = elim r.sent [
  | none ↦ runtime
  | some bytes ↦ service_forwarded_bytes runtime request_id r.datagram.at_requester_leg bytes
]

module _ (refill : ℕ → ℕ → ℕ) (limits : RelayServiceLimits) (request_id : Text) where
  -- One round of the loop of a leg's task that receives a datagram.
  unfoldable pub relay_one : Relaying → Received → Relaying
  relay_one s r =
      let (session, dest) = receive refill limits s.session r.datagram in
      record { session = session; runtime = note_sent s.runtime request_id r dest }

  unfoldable pub relay_all : Relaying → List Received → Relaying
  relay_all s [] = s
  relay_all s (r ∷ rest) = relay_all (relay_one s r) rest

-- The bytes that the operator's record has for all sessions, if the relay is enabled.
abbrev pub recorded : Option RelayRuntimeState → ℕ
recorded none = 0
recorded (some relay) = relay.total_forwarded_bytes

module _ (refill : ℕ → ℕ → ℕ) (limits : RelayServiceLimits) (request_id : Text) where
  receive_charges :
      (s : SessionState) (d : Datagram)
      → limits.max_bytes_per_session < u64_max
      → s.forwarding.total_forwarded_bytes ≤ limits.max_bytes_per_session
      → let (s', dest) = receive refill limits s d in
        (s'.forwarding.total_forwarded_bytes ≤ limits.max_bytes_per_session)
        × (s.forwarding.total_forwarded_bytes ≤ s'.forwarding.total_forwarded_bytes)
        × ((dest ≡ none)
            ⊎ (s'.forwarding.total_forwarded_bytes ≡ s.forwarding.total_forwarded_bytes + d.len))
  unfolding receive allow_forward
  receive_charges s d wide h = ground arith

  note_bytes_le :
      (relay : Option RelayRuntimeState) (leg : Bool) (bytes : ℕ)
      → recorded (map_option relay (λ r. note_forwarded_bytes r request_id leg bytes))
        ≤ recorded relay + bytes
  unfolding note_forwarded_bytes
  note_bytes_le none leg bytes = omega arith
  note_bytes_le (some relay) leg bytes = omega arith

  note_sent_le :
      (runtime : ServiceRuntimeState) (r : Received) (dest : SocketAddr)
      → unwrap_or r.sent 0 ≤ r.datagram.len
      → recorded (note_sent runtime request_id r (some dest)).relay
        ≤ recorded runtime.relay + r.datagram.len
  unfolding service_forwarded_bytes
  note_sent_le runtime r dest h = elim (Option-cases r.sent) [
    | inl e ↦ rw e (omega arith)
    | inr (bytes, e) ↦
        rw e
          (omega (arith, note_bytes_le runtime.relay r.datagram.at_requester_leg bytes, rw e at h))
  ]

  covered_step :
      (runtime : ServiceRuntimeState) (r : Received) (dest : Option SocketAddr) (total total' : ℕ)
      → unwrap_or r.sent 0 ≤ r.datagram.len
      → (dest ≡ none) ⊎ (total' ≡ total + r.datagram.len)
      → total ≤ total'
      → recorded (note_sent runtime request_id r dest).relay + total
        ≤ recorded runtime.relay + total'
  covered_step runtime r none total total' h charged le = omega (arith, le)
  covered_step runtime r (some dest) total total' h (inl e) le = absurd (cc)
  covered_step runtime r (some dest) total total' h (inr e) le =
      omega (arith, e, note_sent_le runtime r dest h)

  -- Where `send_to` sends no more than it is given, what a session within its quota adds to the
  -- operator's count of bytes is at most what it was charged, and so at most its quota, for a
  -- quota below the largest 64-bit number.
  pub relay_all-le-charged :
      (s : Relaying) (rs : List Received)
      → limits.max_bytes_per_session < u64_max
      → s.session.forwarding.total_forwarded_bytes ≤ limits.max_bytes_per_session
      → All (λ r. unwrap_or r.sent 0 ≤ r.datagram.len) rs
      → let s' = relay_all refill limits request_id s rs in
        (recorded s'.runtime.relay + s.session.forwarding.total_forwarded_bytes
          ≤ recorded s.runtime.relay + s'.session.forwarding.total_forwarded_bytes)
        × (s'.session.forwarding.total_forwarded_bytes ≤ limits.max_bytes_per_session)
  unfolding relay_all relay_one
  relay_all-le-charged s [] wide h a = omega (arith, h)
  relay_all-le-charged s (r ∷ rs) wide h a =
      let charges = receive_charges s.session r.datagram wide h in
      let (session, dest) = receive refill limits s.session r.datagram in
      let step = covered_step s.runtime r dest _ _ a.0 charges.2 charges.1 in
      let rest =
        relay_all-le-charged (relay_one refill limits request_id s r) rs wide charges.0 a.1 in
      omega (arith, step, rest)
