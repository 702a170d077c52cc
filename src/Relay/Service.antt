-- ===== src/Relay/Service.antt =====
-- nvpn-udp-relay.rs: the loop of `main` that serves allocation and probe requests, one message at a
-- time. What a turn of the loop reads from the clock, from the system and from the relays it
-- publishes on is the record Turn.
pub mod Limits
pub mod Grants
pub mod Replay
use nostr_vpn.Prelude.{
  ℕ, ◌+◌, max, Bool, true, false, Option, none, some, List, [], ◌∷◌, if◌then◌else◌, map_option,
}
use nostr_vpn.Prelude.Text.{Text, codes}
use nostr_vpn.Prelude.Words.{wrapping_add}
use nostr_vpn.Prelude.Results.{Result, ok, err}
use nostr_vpn.Relay.Messages.{
  RelayAllocationRejectReason, over_capacity, RelayAllocationRequest, RelayProbeRequest,
  ServicePayload, allocation_request, allocation_granted, allocation_rejected, probe_request,
  probe_granted, probe_rejected, ServiceEnvelope,
}
use nostr_vpn.Relay.Forwarding.{RelayServiceLimits}
use nostr_vpn.Relay.Ports.{
  RelayPortAllocator, BindOutcome, AddressFormat, PortError, RelayLegPair, bind_relay_leg_pair,
}
use nostr_vpn.Relay.Sessions.{Rejection, RelayRuntimeState, allocation_rejection_for_requester}
use nostr_vpn.Relay.Runtime.{ServiceRuntimeState, service_session_started}

-- RelayLegTask: a task that moves datagrams from one socket of a session to the other.
pub record RelayLegTask : Type 0 where
  pub rx_socket : ℕ
  pub tx_socket : ℕ
  pub request_id : Text
  pub requester_leg : Bool
  -- The Instant at which the task ends.
  pub expires_at : ℕ

pub record ServiceState : Type 0 where
  pub runtime : ServiceRuntimeState
  pub allocator : Option RelayPortAllocator
  -- The tasks that were spawned, the latest first.
  pub spawned : List RelayLegTask
  -- What `publish_to` reported as published, with its recipient, the latest first.
  pub sent : List (Text × ServicePayload)

-- `deadline` is `Instant::now() + Duration::from_secs(lease)`, or `none` where the addition
-- overflows and panics; `published` tells whether `publish_to` succeeds.
pub record Turn : Type 0 where
  pub checked_at : ℕ
  pub started_at : ℕ
  pub deadline : ℕ → Option ℕ
  pub noted_at : ℕ
  pub bind : ℕ → BindOutcome
  pub requester_ephemeral : BindOutcome
  pub target_ephemeral : BindOutcome
  pub published : Bool

-- A turn ends with the next state, or with an error or a panic that ends the program.
pub data Loop : Type 0 where
  goes_on : ServiceState → Loop
  stops : ServiceState → Loop

pub record ServiceArgs : Type 0 where
  pub own_pubkey : Text
  pub advertise_host : Text
  pub lease_secs : ℕ
  pub limits : RelayServiceLimits

-- What the two kinds of request differ in.
pub record Request : Type 0 where
  pub request_id : Text
  pub network_id : Text
  pub target_pubkey : Text
  pub lease : ℕ
  pub granted : RelayLegPair → ℕ → ServicePayload
  pub rejected : RelayAllocationRejectReason → Option ℕ → ServicePayload

abbrev pub publish : ServiceState → Text → ServicePayload → ServiceState
publish s recipient payload = record s { sent = (recipient, payload) ∷ s.sent }

abbrev pub check_relay :
    Option RelayRuntimeState
    → Text
    → ℕ
    → RelayServiceLimits
    → Option RelayRuntimeState × Option Rejection
check_relay none requester now limits = (none, none)
check_relay (some relay) requester now limits =
    let (relay', rejection) = allocation_rejection_for_requester relay requester now limits in
    (some relay', rejection)

-- The two tasks of a session, each with the other's socket to send on.
abbrev pub spawn_legs : ServiceState → Text → RelayLegPair → ℕ → ServiceState
spawn_legs s request_id legs expires_at = record s {
  spawned =
      record {
        rx_socket = legs.target_socket;
        tx_socket = legs.requester_socket;
        request_id = request_id;
        requester_leg = false;
        expires_at = expires_at;
      }
      ∷ record {
        rx_socket = legs.requester_socket;
        tx_socket = legs.target_socket;
        request_id = request_id;
        requester_leg = true;
        expires_at = expires_at;
      }
      ∷ s.spawned;
}

module _ (format : AddressFormat) (args : ServiceArgs) (turn : Turn) where
  -- The two answers that end the program where they cannot be published.
  abbrev pub told_or_stop : ServiceState → Text → ServicePayload → (ServiceState → Loop) → Loop
  told_or_stop s recipient payload next =
      if turn.published then next (publish s recipient payload) else stops s

  abbrev pub started : Text → Request → RelayLegPair → ℕ → ServiceState → Loop
  started sender request legs deadline s =
      let runtime =
        service_session_started s.runtime
          (record {
            request_id = request.request_id;
            network_id = request.network_id;
            requester_pubkey = sender;
            target_pubkey = request.target_pubkey;
            requester_ingress_endpoint = legs.requester_ingress_endpoint;
            target_ingress_endpoint = legs.target_ingress_endpoint;
            started_at = turn.started_at;
            expires_at = wrapping_add turn.started_at request.lease;
            bytes_from_requester = 0;
            bytes_from_target = 0;
          })
          turn.noted_at in
      goes_on (spawn_legs (record s { runtime = runtime }) request.request_id legs deadline)

  abbrev pub grant_until : ServiceState → Text → Request → RelayLegPair → Option ℕ → Loop
  grant_until s sender request legs none = stops s
  grant_until s sender request legs (some deadline) =
      told_or_stop s sender (request.granted legs (wrapping_add turn.started_at request.lease))
        (started sender request legs deadline)

  -- The request is granted: the reply is published, and only then is the session recorded.
  abbrev pub grant : ServiceState → Text → Request → RelayLegPair → Loop
  grant s sender request legs = grant_until s sender request legs (turn.deadline request.lease)

  -- A failed bind is answered as over capacity; a failure to publish that is only logged.
  abbrev pub after_bind :
      ServiceState → Text → Request → Option (Result PortError RelayLegPair) → Loop
  after_bind s sender request (some (ok legs)) = grant s sender request legs
  after_bind s sender request (some (err e)) =
      goes_on
        (if turn.published then publish s sender (request.rejected over_capacity (some 30)) else s)
  after_bind s sender request none = stops s

  abbrev pub after_check : ServiceState → Text → Request → Option Rejection → Loop
  after_check s sender request (some (reason, retry_after)) =
      told_or_stop s sender (request.rejected reason retry_after) goes_on
  after_check s sender request none =
      let (allocator, result) =
        bind_relay_leg_pair format turn.bind turn.requester_ephemeral turn.target_ephemeral
          s.allocator args.advertise_host in
      after_bind (record s { allocator = allocator }) sender request result

  unfoldable pub handle_request : ServiceState → Text → Request → Loop
  handle_request s sender request =
      let (relay, rejection) = check_relay s.runtime.relay sender turn.checked_at args.limits in
      after_check (record s { runtime = record s.runtime { relay = relay } }) sender request
        rejection

  abbrev pub allocation : RelayAllocationRequest → Request
  allocation r = record {
    request_id = r.request_id;
    network_id = r.network_id;
    target_pubkey = r.target_pubkey;
    lease = max args.lease_secs 30;
    granted = λ legs expires_at. allocation_granted (record {
      request_id = r.request_id;
      network_id = r.network_id;
      relay_pubkey = args.own_pubkey;
      requester_ingress_endpoint = legs.requester_ingress_endpoint;
      target_ingress_endpoint = legs.target_ingress_endpoint;
      expires_at = expires_at;
    });
    rejected = λ reason retry_after. allocation_rejected (record {
      request_id = r.request_id;
      network_id = r.network_id;
      relay_pubkey = args.own_pubkey;
      reason = reason;
      retry_after_secs = retry_after;
    });
  }

  -- A probe is a session of the requester with itself, for DEFAULT_PROBE_LEASE_SECS.
  abbrev pub probe : Text → RelayProbeRequest → Request
  probe sender r = record {
    request_id = r.request_id;
    network_id = codes "__probe__";
    target_pubkey = sender;
    lease = 8;
    granted = λ legs expires_at. probe_granted (record {
      request_id = r.request_id;
      relay_pubkey = args.own_pubkey;
      requester_ingress_endpoint = legs.requester_ingress_endpoint;
      target_ingress_endpoint = legs.target_ingress_endpoint;
      expires_at = expires_at;
    });
    rejected = λ reason retry_after. probe_rejected (record {
      request_id = r.request_id;
      relay_pubkey = args.own_pubkey;
      reason = reason;
      retry_after_secs = retry_after;
    });
  }

  unfoldable pub handle_payload : ServiceState → Text → ServicePayload → Loop
  unfolding handle_request
  handle_payload s sender (allocation_request r) = handle_request s sender (allocation r)
  handle_payload s sender (probe_request r) = handle_request s sender (probe sender r)
  handle_payload s sender (allocation_granted r) = goes_on s
  handle_payload s sender (allocation_rejected r) = goes_on s
  handle_payload s sender (probe_granted r) = goes_on s
  handle_payload s sender (probe_rejected r) = goes_on s

module _ (format : AddressFormat) (args : ServiceArgs) where
  -- The loop over the messages that arrive, each with its turn.
  unfoldable pub serve : Loop → List (Turn × ServiceEnvelope) → Loop
  serve (stops s) messages = stops s
  serve (goes_on s) [] = goes_on s
  serve (goes_on s) ((turn, m) ∷ rest) =
      serve (handle_payload format args turn s m.sender_pubkey m.payload) rest
