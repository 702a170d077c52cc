-- ===== src/Relay/Tests/Service.antt =====
-- Turns of the service's loop.
use nostr_vpn.Prelude.{◌≡◌, ◌+◌, ◌*◌, none, some, true, [], ◌∷◌, arith, refl, List, length}
use nostr_vpn.Prelude.Text.{codes}
use nostr_vpn.Relay.Messages.{
  ServiceEnvelope, RelayAllocationRequest, allocation_request, probe_request,
}
use nostr_vpn.Relay.Ports.{bound}
use nostr_vpn.Relay.Service.{ServiceState, Turn, goes_on, ServiceArgs, serve}
use nostr_vpn.Relay.Service.Limits.{Within, state, serve-Within}
use nostr_vpn.Relay.Service.Replay.{Alone, IsClear, repeated, replays_spawn}
use nostr_vpn.Relay.Tests.{
  alice, bob, host, limits, plain_format, one_session, four_ports, all_free,
}
use nostr_vpn.Relay.Tests.Sessions.{one_session-IsWithin}

abbrev args : ServiceArgs
args = record {
  own_pubkey = codes "relay";
  advertise_host = host;
  lease_secs = 60;
  limits = limits;
}

abbrev turn : Turn
turn = record {
  checked_at = 120;
  started_at = 120;
  deadline = λ lease. some (7000000000 + lease * 1000000000);
  noted_at = 121;
  bind = all_free;
  requester_ephemeral = bound (some 50000);
  target_ephemeral = bound (some 50001);
  published = true;
}

-- One session is on record, and the system picks the ports.
abbrev before : ServiceState
before = record {
  runtime = record { operator_pubkey = codes "relay"; relay = some one_session; nat_assist = none };
  allocator = none;
  spawned = [];
  sent = [];
}

abbrev request : RelayAllocationRequest
request = record {
  request_id = codes "r1";
  network_id = codes "n";
  target_pubkey = bob;
  requested_at = 119;
}

abbrev messages : List (Turn × ServiceEnvelope)
messages =
    (turn, record { sender_pubkey = alice; payload = allocation_request request })
    ∷ (
      turn,
      record {
        sender_pubkey = bob;
        payload = probe_request (record { request_id = codes "p"; requested_at = 120 });
      },
    )
    ∷ []

serve-Within_example :
    Within limits
      (state (
        serve plain_format args
          (goes_on (record before { allocator = some four_ports }))
          messages)).runtime.relay
serve-Within_example =
    serve-Within plain_format args (goes_on (record before { allocator = some four_ports }))
      messages one_session-IsWithin

turn-IsClear : IsClear 60 turn
turn-IsClear = record {
  requester_port = 50000;
  target_port = 50001;
  requester_bound = refl;
  target_bound = refl;
  ends_at = 67000000000;
  in_time = refl;
  told = refl;
}

-- Three grants for one request id, where two sessions are allowed.
replays_spawn_example :
    let s' = state (
      serve plain_format args
        (goes_on before)
        (repeated alice request (turn ∷ turn ∷ turn ∷ []))) in
    (length s'.spawned ≡ 0 + 2 * 3) × Alone (codes "r1") s'.runtime.relay
replays_spawn_example =
    replays_spawn plain_format args host refl (omega arith) (omega arith) before
      (turn ∷ turn ∷ turn ∷ []) alice request (turn-IsClear, (turn-IsClear, (turn-IsClear, tt)))
      refl (omega arith, (refl, tt))
