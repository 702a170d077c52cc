-- ===== src/Relay/Service/Replay.antt =====
-- The record of sessions goes by request id, which the requester chooses. A requester that uses
-- one id again is not counted again, while the tasks of its earlier sessions run on.
use nostr_vpn.Prelude.{
  ℕ, max, ◌+◌, ◌≤◌, ◌<◌, ◌≡◌, refl, Bool, true, false, Option, none, some, List, [], ◌∷◌, arith,
  if◌then◌else◌, length, count-le-length, All, map_option, ltb, subst, sym, ◌*◌,
}
use nostr_vpn.Prelude.Text.{Text, str_eq_iff}
use nostr_vpn.Collections.HashMap.{HashMap, insert, retain, values, keys}
use nostr_vpn.Relay.Messages.{
  RelayOperatorSessionState, RelayAllocationRequest, ServiceEnvelope, allocation_request,
}
use nostr_vpn.Relay.Ports.{
  AddressFormat, bound, bind_relay_leg_pair, RelayPortAllocator, RelayLegPair,
}
use nostr_vpn.Relay.Runtime.{service_session_started}
use nostr_vpn.Relay.Sessions.{
  RelayRuntimeState, allocation_rejection_for_requester, note_session_started, requested_by,
}
use nostr_vpn.Relay.Service.{
  ServiceState, Turn, Loop, goes_on, stops, ServiceArgs, Request, handle_request, ok, check_relay,
  serve, Rejection, grant, grant_until, handle_payload, after_check, after_bind, allocation,
}
use nostr_vpn.Relay.Service.Limits.{state}

-- At most one session is on record, and it has the request id `id`.
abbrev pub AtMostOne : Text → HashMap RelayOperatorSessionState → Type 0
AtMostOne id m = (length m ≤ 1) × All (λ k. k ≡ id) (keys m)

AtMostOne-retain :
    (p : Text → RelayOperatorSessionState → Bool) (id : Text)
    (m : HashMap RelayOperatorSessionState)
    → AtMostOne id m
    → AtMostOne id (retain p m)
unfolding retain
AtMostOne-retain p id [] h = h
AtMostOne-retain p id ((k, x) ∷ []) h = ground arith
AtMostOne-retain p id ((k, x) ∷ (j, y) ∷ m) h = absurd (omega arith)

AtMostOne-insert :
    (id : Text) (x : RelayOperatorSessionState) (m : HashMap RelayOperatorSessionState)
    → AtMostOne id m
    → AtMostOne id (insert m id x)
unfolding insert
AtMostOne-insert id x [] h = (omega arith, (refl, tt))
AtMostOne-insert id x ((k, y) ∷ []) h = ground (arith, str_eq_iff k id)
AtMostOne-insert id x ((k, y) ∷ (j, z) ∷ m) h = absurd (omega arith)

length-values : (m : HashMap RelayOperatorSessionState) → length (values m) ≡ length m
length-values [] = refl
length-values ((k, x) ∷ m) = omega (arith, length-values m)

-- The relay is enabled and has at most the one session.
abbrev pub Alone : Text → Option RelayRuntimeState → Type 0
Alone id none = ⊥
Alone id (some relay) = AtMostOne id relay.active_sessions

-- A turn in which nothing fails, on a service whose ports the system picks, for a lease.
pub record IsClear (lease : ℕ) (turn : Turn) : Type 0 where
  pub requester_port : ℕ
  pub target_port : ℕ
  pub requester_bound : turn.requester_ephemeral ≡ bound (some requester_port)
  pub target_bound : turn.target_ephemeral ≡ bound (some target_port)
  pub ends_at : ℕ
  pub in_time : turn.deadline lease ≡ some ends_at
  pub told : turn.published ≡ true

-- The same request once in each turn.
abbrev pub repeated : Text → RelayAllocationRequest → List Turn → List (Turn × ServiceEnvelope)
repeated sender r [] = []
repeated sender r (turn ∷ turns) =
    (turn, record { sender_pubkey = sender; payload = allocation_request r })
    ∷ repeated sender r turns

module _ (format : AddressFormat) (args : ServiceArgs) (ip : format.Ip)
    (parsed : format.parse_ip args.advertise_host ≡ some ip)
    (two_in_all : 1 < args.limits.max_active_sessions)
    (two_each : 1 < args.limits.max_sessions_per_requester) where
  check_passes :
      (relay : RelayRuntimeState) (id sender : Text) (now : ℕ)
      → AtMostOne id relay.active_sessions
      → ((allocation_rejection_for_requester relay sender now args.limits).1 ≡ none)
        × AtMostOne id
            (allocation_rejection_for_requester relay sender now args.limits).0.active_sessions
  unfolding allocation_rejection_for_requester
  check_passes relay id sender now h =
      let live : Text → RelayOperatorSessionState → Bool = λ k x. ltb now x.expires_at in
      let kept = AtMostOne-retain live id relay.active_sessions h in
      let m = retain live relay.active_sessions in
      (
        ground (arith, kept.0, count-le-length (requested_by sender) (values m), length-values m),
        kept,
      )

  started_alone :
      (relay : RelayRuntimeState) (x : RelayOperatorSessionState) (now : ℕ)
      → AtMostOne x.request_id relay.active_sessions
      → AtMostOne x.request_id (note_session_started relay x now).active_sessions
  unfolding note_session_started
  started_alone relay x now h =
      AtMostOne-insert x.request_id x _
        (AtMostOne-retain (λ k y. ltb now y.expires_at) x.request_id relay.active_sessions h)

  -- The turn went on with two more tasks and no further session on record.
  abbrev Replayed : ServiceState → Text → Loop → Type 0
  Replayed s id (stops s') = ⊥
  Replayed s id (goes_on s') =
      (s'.allocator ≡ none) × (length s'.spawned ≡ length s.spawned + 2) × Alone id s'.runtime.relay

  then_branch :
      (P : Loop → Type 0) (b : Bool) (l l' : Loop) → b ≡ true → P l → P (if b then l else l')
  then_branch P true l l' e h = h
  then_branch P false l l' e h = absurd (cc)

  started_Alone :
      (relay : Option RelayRuntimeState) (x : RelayOperatorSessionState) (now : ℕ)
      → Alone x.request_id relay
      → Alone x.request_id (map_option relay (λ r. note_session_started r x now))
  started_Alone none x now h = h
  started_Alone (some relay) x now h = started_alone relay x now h

  grant_until-Replayed :
      (s : ServiceState) (turn : Turn) (sender : Text) (request : Request) (legs : RelayLegPair)
      (deadline : ℕ)
      → turn.published ≡ true
      → s.allocator ≡ none
      → Alone request.request_id s.runtime.relay
      → Replayed s request.request_id
          (grant_until format args turn s sender request legs (some deadline))
  unfolding service_session_started
  grant_until-Replayed s turn sender request legs deadline told pick alone =
      then_branch (Replayed s request.request_id) turn.published _ _ told
        (pick, omega arith, started_Alone s.runtime.relay _ turn.noted_at alone)

  grant-Replayed :
      (s : ServiceState) (turn : Turn) (sender : Text) (request : Request) (legs : RelayLegPair)
      → IsClear request.lease turn
      → s.allocator ≡ none
      → Alone request.request_id s.runtime.relay
      → Replayed s request.request_id (grant format args turn s sender request legs)
  grant-Replayed s turn sender request legs clear pick alone =
      subst
        (λ o. Replayed s request.request_id (grant_until format args turn s sender request legs o))
        (sym clear.in_time)
        (grant_until-Replayed s turn sender request legs clear.ends_at clear.told pick alone)

  system_pair :
      (lease : ℕ) (turn : Turn) (clear : IsClear lease turn)
      → bind_relay_leg_pair format turn.bind turn.requester_ephemeral turn.target_ephemeral none
          args.advertise_host
        ≡ (
          none,
          some (
              ok (record {
                requester_socket = clear.requester_port;
                target_socket = clear.target_port;
                requester_ingress_endpoint = format.endpoint ip clear.requester_port;
                target_ingress_endpoint = format.endpoint ip clear.target_port;
              })),
        )
  unfolding bind_relay_leg_pair
  system_pair lease turn clear = rw (clear.requester_bound, clear.target_bound, parsed) refl

  after_check-Replayed :
      (s : ServiceState) (a : Option RelayPortAllocator) (turn : Turn) (sender : Text)
      (request : Request) (rejection : Option Rejection)
      → IsClear request.lease turn
      → a ≡ none
      → rejection ≡ none
      → Alone request.request_id s.runtime.relay
      → Replayed s request.request_id
          (after_check format args turn (record s { allocator = a }) sender request rejection)
  after_check-Replayed s (some a) turn sender request rejection clear pick passed alone =
      absurd (cc)
  after_check-Replayed s none turn sender request (some x) clear pick passed alone = absurd (cc)
  after_check-Replayed s none turn sender request none clear pick passed alone =
      subst
        (λ r.
          Replayed s request.request_id
            (after_bind format args turn (record s { allocator = r.0 }) sender request r.1))
        (sym (system_pair request.lease turn clear))
        (grant-Replayed (record s { allocator = none }) turn sender request _ clear refl alone)

  check_Alone :
      (relay : Option RelayRuntimeState) (id sender : Text) (now : ℕ)
      → Alone id relay
      → ((check_relay relay sender now args.limits).1 ≡ none)
        × Alone id (check_relay relay sender now args.limits).0
  check_Alone none id sender now h = absurd h
  check_Alone (some relay) id sender now h = check_passes relay id sender now h

  handle_request-Replayed :
      (s : ServiceState) (turn : Turn) (sender : Text) (request : Request)
      → IsClear request.lease turn
      → s.allocator ≡ none
      → Alone request.request_id s.runtime.relay
      → Replayed s request.request_id (handle_request format args turn s sender request)
  unfolding handle_request
  handle_request-Replayed s turn sender request clear pick alone =
      let checked = check_Alone s.runtime.relay request.request_id sender turn.checked_at alone in
      let relay = (check_relay s.runtime.relay sender turn.checked_at args.limits).0 in
      after_check-Replayed (record s { runtime = record s.runtime { relay = relay } }) s.allocator
        turn sender request _ clear pick checked.0 checked.1

  -- The loop goes on, with the ports left to the system and one session on record at most.
  abbrev Ready : Text → Loop → Type 0
  Ready id (stops s) = ⊥
  Ready id (goes_on s) = (s.allocator ≡ none) × Alone id s.runtime.relay

  Replayed-Ready : (s : ServiceState) (id : Text) (l : Loop) → Replayed s id l → Ready id l
  Replayed-Ready s id (stops s') h = h
  Replayed-Ready s id (goes_on s') h = (h.0, h.2)

  spawned_two :
      (s : ServiceState) (id : Text) (l : Loop)
      → Replayed s id l
      → length (state l).spawned ≡ length s.spawned + 2
  spawned_two s id (stops s') h = absurd h
  spawned_two s id (goes_on s') h = h.1

  replays_from :
      (l : Loop) (turns : List Turn) (sender : Text) (r : RelayAllocationRequest)
      → All (IsClear (max args.lease_secs 30)) turns
      → Ready r.request_id l
      → let l' = serve format args l (repeated sender r turns) in
        (length (state l').spawned ≡ length (state l).spawned + 2 * length turns)
        × Ready r.request_id l'
  unfolding serve handle_payload
  replays_from (stops s) turns sender r clear h = absurd h
  replays_from (goes_on s) [] sender r clear h = (omega arith, h)
  replays_from (goes_on s) (turn ∷ turns) sender r clear h =
      let request = allocation format args turn r in
      let l = handle_request format args turn s sender request in
      let step = handle_request-Replayed s turn sender request clear.0 h.0 h.1 in
      let rest =
        replays_from l turns sender r clear.1 (Replayed-Ready s request.request_id l step) in
      (omega (arith, rest.0, spawned_two s request.request_id l step), rest.1)

  Ready-Alone : (id : Text) (l : Loop) → Ready id l → Alone id (state l).runtime.relay
  Ready-Alone id (stops s) h = absurd h
  Ready-Alone id (goes_on s) h = h.1

  -- With room for two sessions, an advertised host that can be parsed, ports that the system picks
  -- and turns in which nothing fails, and no session on record but one of that id, a requester
  -- that sends one allocation request again and again is granted every one: each starts two more
  -- tasks, and the record that the limits are checked on still has one session at most.
  pub replays_spawn :
      (s : ServiceState) (turns : List Turn) (sender : Text) (r : RelayAllocationRequest)
      → All (IsClear (max args.lease_secs 30)) turns
      → s.allocator ≡ none
      → Alone r.request_id s.runtime.relay
      → let s' = state (serve format args (goes_on s) (repeated sender r turns)) in
        (length s'.spawned ≡ length s.spawned + 2 * length turns)
        × Alone r.request_id s'.runtime.relay
  replays_spawn s turns sender r clear pick alone =
      let all = replays_from (goes_on s) turns sender r clear (pick, alone) in
      (all.0, Ready-Alone r.request_id _ all.1)
