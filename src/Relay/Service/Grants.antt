-- ===== src/Relay/Service/Grants.antt =====
-- What a requester is answered, and what a grant sets up.
use nostr_vpn.Prelude.{ℕ, ◌≡◌, Bool, true, false, Option, none, some, ◌∷◌, ◌⊎◌}
use nostr_vpn.Prelude.Text.{Text}
use nostr_vpn.Prelude.Words.{wrapping_add}
use nostr_vpn.Prelude.Results.{Result, ok, err}
use nostr_vpn.Collections.HashMap.{get}
use nostr_vpn.Relay.Messages.{RelayOperatorSessionState, RelayAllocationRejectReason, over_capacity}
use nostr_vpn.Relay.Ports.{
  AddressFormat, RelayLegPair, RelayPortAllocator, PortError, bind_relay_leg_pair,
}
use nostr_vpn.Relay.Ports.Allocator.{IsReady}
use nostr_vpn.Relay.Sessions.{RelayRuntimeState, Rejection}
use nostr_vpn.Relay.Service.{
  ServiceState, Turn, Loop, goes_on, stops, ServiceArgs, Request, check_relay, RelayLegTask,
}

-- What the operator's record says of a session that was just granted.
abbrev pub IsRecorded : Text → Request → RelayLegPair → ℕ → Option RelayRuntimeState → Type 0
IsRecorded sender request legs expires_at none = Unit
IsRecorded sender request legs expires_at (some relay) =
    (x : RelayOperatorSessionState) × (get relay.active_sessions request.request_id ≡ some x)
    × (x.requester_pubkey ≡ sender)
    × (x.target_pubkey ≡ request.target_pubkey)
    × (x.requester_ingress_endpoint ≡ legs.requester_ingress_endpoint)
    × (x.target_ingress_endpoint ≡ legs.target_ingress_endpoint)
    × (x.expires_at ≡ expires_at)

-- A task that receives on one socket and sends on the other.
abbrev leg : Text → ℕ → Bool → ℕ → ℕ → RelayLegTask
leg request_id expires_at requester_leg from to = record {
  rx_socket = from;
  tx_socket = to;
  request_id = request_id;
  requester_leg = requester_leg;
  expires_at = expires_at;
}

-- The cursor of an allocator, if there is one, stands in its range.
abbrev pub ReadyPorts : Option RelayPortAllocator → Type 0
ReadyPorts none = Unit
ReadyPorts (some a) = IsReady a

module _ (format : AddressFormat) (args : ServiceArgs) (turn : Turn) (sender : Text)
    (request : Request) where
  -- The result of the check of the limits, with the state that it leaves.
  abbrev pub checked : ServiceState → Option RelayRuntimeState × Option Rejection
  checked s = check_relay s.runtime.relay sender turn.checked_at args.limits

  -- The result of the search for two ports, with the allocator that it leaves.
  abbrev pub ports :
      ServiceState → Option RelayPortAllocator × Option (Result PortError RelayLegPair)
  ports s =
      bind_relay_leg_pair format turn.bind turn.requester_ephemeral turn.target_ephemeral
        s.allocator args.advertise_host

  -- The limits turn the request down: the rejection with their reason is published; no port is
  -- searched for, no session recorded, and no task spawned.
  pub record Rejected (s s' : ServiceState) : Type 0 where
    pub reason : RelayAllocationRejectReason
    pub retry_after : Option ℕ
    pub over_limit : (checked s).1 ≡ some (reason, retry_after)
    pub published : turn.published ≡ true
    pub answer : s'.sent ≡ (sender, request.rejected reason retry_after) ∷ s.sent
    pub ports_kept : s'.allocator ≡ s.allocator
    pub not_recorded : s'.runtime.relay ≡ (checked s).0
    pub not_spawned : s'.spawned ≡ s.spawned

  -- The ports cannot be bound: a rejection is published, or else there is no answer; the program
  -- goes on in both cases, with no session recorded and no task spawned.
  pub record Unbound (s s' : ServiceState) : Type 0 where
    pub within_limits : (checked s).1 ≡ none
    pub error : PortError
    pub no_ports : (ports s).1 ≡ some (err error)
    pub answer :
        ((turn.published ≡ true)
          × (s'.sent ≡ (sender, request.rejected over_capacity (some 30)) ∷ s.sent))
        ⊎ ((turn.published ≡ false) × (s'.sent ≡ s.sent))
    pub ports_searched : s'.allocator ≡ (ports s).0
    pub not_recorded : s'.runtime.relay ≡ (checked s).0
    pub not_spawned : s'.spawned ≡ s.spawned

  -- The request is granted: the grant that is published names the endpoints of the two sockets that
  -- were bound; the two tasks of the session run with each other's sockets up to the deadline of the
  -- lease; and the session is on record with the endpoints and the time that the grant names.
  pub record Granted (s s' : ServiceState) : Type 0 where
    pub within_limits : (checked s).1 ≡ none
    pub legs : RelayLegPair
    pub deadline : ℕ
    pub bound_ports : (ports s).1 ≡ some (ok legs)
    pub in_time : turn.deadline request.lease ≡ some deadline
    pub published : turn.published ≡ true
    pub answer :
        s'.sent
        ≡ (sender, request.granted legs (wrapping_add turn.started_at request.lease)) ∷ s.sent
    pub ports_searched : s'.allocator ≡ (ports s).0
    pub recorded :
        IsRecorded sender request legs (wrapping_add turn.started_at request.lease) s'.runtime.relay
    pub tasks :
        s'.spawned
        ≡ leg request.request_id deadline false legs.target_socket legs.requester_socket
          ∷ leg request.request_id deadline true legs.requester_socket legs.target_socket
          ∷ s.spawned

  -- The program ends, with no answer, no session recorded and no task spawned: the rejection by the
  -- limits or the grant could not be published, or the deadline of the lease is out of range.
  pub record Ended (s s' : ServiceState) : Type 0 where
    pub no_answer : s'.sent ≡ s.sent
    pub not_recorded : s'.runtime.relay ≡ (checked s).0
    pub not_spawned : s'.spawned ≡ s.spawned
    pub because :
        ((rejection : Rejection) × ((checked s).1 ≡ some rejection) × (turn.published ≡ false))
        ⊎ ((legs : RelayLegPair) × ((checked s).1 ≡ none)
            × ((ports s).1 ≡ some (ok legs))
            × ((turn.deadline request.lease ≡ none) ⊎ (turn.published ≡ false)))

  abbrev pub Answered : ServiceState → Loop → Type 0
  Answered s (goes_on s') = Rejected s s' ⊎ Unbound s s' ⊎ Granted s s'
  Answered s (stops s') = Ended s s'

  -- The state after the check and the search for ports.
  abbrev searched : ServiceState → ServiceState
  searched s = record s {
    runtime = record s.runtime { relay = (checked s).0 };
    allocator = (ports s).0;
  }
