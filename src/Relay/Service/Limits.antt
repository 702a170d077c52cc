-- ===== src/Relay/Service/Limits.antt =====
-- The service keeps its sessions within the configured limits, whatever it is asked.
use nostr_vpn.Prelude.{
  ℕ, ◌≡◌, refl, Option, none, some, List, [], ◌∷◌, inl, inr, map_option, Bool-cases, subst,
}
use nostr_vpn.Prelude.Text.{Text}
use nostr_vpn.Prelude.Results.{Result, ok, err}
use nostr_vpn.Relay.Messages.{
  RelayOperatorSessionState, ServicePayload, ServiceEnvelope, allocation_request,
  allocation_granted, allocation_rejected, probe_request, probe_granted, probe_rejected,
}
use nostr_vpn.Relay.Forwarding.{RelayServiceLimits}
use nostr_vpn.Relay.Ports.{AddressFormat, RelayLegPair, PortError, bind_relay_leg_pair}
use nostr_vpn.Relay.Runtime.{service_session_started}
use nostr_vpn.Relay.Sessions.{
  RelayRuntimeState, Rejection, note_session_started, allocation_rejection_for_requester,
}
use nostr_vpn.Relay.Sessions.Admission.{
  IsWithin, prune_expired_sessions-IsWithin, admitted-IsWithin,
}
use nostr_vpn.Relay.Service.{
  ServiceState, Turn, Loop, goes_on, stops, ServiceArgs, Request, check_relay, grant_until,
  after_bind, after_check, handle_request, handle_payload, serve, allocation, probe,
}

abbrev pub state : Loop → ServiceState
state (goes_on s) = s
state (stops s) = s

-- The relay, if it is enabled, has its sessions within the limits.
abbrev pub Within : RelayServiceLimits → Option RelayRuntimeState → Type 0
Within limits none = Unit
Within limits (some relay) = IsWithin limits relay

module _ (limits : RelayServiceLimits) (sender : Text) (noted_at : ℕ) where
  -- A session of the sender may be recorded.
  Admits : Option RelayRuntimeState → Type 0
  Admits relay =
      (x : RelayOperatorSessionState)
      → x.requester_pubkey ≡ sender
      → Within limits (map_option relay (λ r. note_session_started r x noted_at))

  check_relay-Within :
      (relay : Option RelayRuntimeState) (now : ℕ)
      → Within limits relay
      → Within limits (check_relay relay sender now limits).0
  unfolding allocation_rejection_for_requester
  check_relay-Within none now w = tt
  check_relay-Within (some relay) now w = prune_expired_sessions-IsWithin limits relay now w

  check_relay-Admits :
      (relay : Option RelayRuntimeState) (now : ℕ)
      → Within limits relay
      → (check_relay relay sender now limits).1 ≡ none
      → Admits (check_relay relay sender now limits).0
  unfolding Admits
  check_relay-Admits none now w e = λ x own. tt
  check_relay-Admits (some relay) now w e = λ x own.
      subst
        (λ r.
          (allocation_rejection_for_requester relay r now limits).1 ≡ none
          → IsWithin limits (
              note_session_started (allocation_rejection_for_requester relay r now limits).0 x
                noted_at))
        own (admitted-IsWithin limits relay x now noted_at w) e

module _ (format : AddressFormat) (args : ServiceArgs) (turn : Turn) where
  grant_until-Within :
      (s : ServiceState) (sender : Text) (request : Request) (legs : RelayLegPair)
      (deadline : Option ℕ)
      → Within args.limits s.runtime.relay
      → Admits args.limits sender turn.noted_at s.runtime.relay
      → Within args.limits
          (state (grant_until format args turn s sender request legs deadline)).runtime.relay
  unfolding service_session_started Admits
  grant_until-Within s sender request legs none w a = w
  grant_until-Within s sender request legs (some deadline) w a = elim (Bool-cases turn.published) [
    | inl e ↦ rw e (a _ refl)
    | inr e ↦ rw e w
  ]

  after_bind-Within :
      (s : ServiceState) (sender : Text) (request : Request)
      (result : Option (Result PortError RelayLegPair))
      → Within args.limits s.runtime.relay
      → Admits args.limits sender turn.noted_at s.runtime.relay
      → Within args.limits
          (state (after_bind format args turn s sender request result)).runtime.relay
  after_bind-Within s sender request none w a = w
  after_bind-Within s sender request (some (err e)) w a = elim (Bool-cases turn.published) [
    | inl e ↦ rw e w
    | inr e ↦ rw e w
  ]
  after_bind-Within s sender request (some (ok legs)) w a =
      grant_until-Within s sender request legs (turn.deadline request.lease) w a

  after_check-Within :
      (s : ServiceState) (sender : Text) (request : Request) (rejection : Option Rejection)
      → Within args.limits s.runtime.relay
      → (rejection ≡ none → Admits args.limits sender turn.noted_at s.runtime.relay)
      → Within args.limits
          (state (after_check format args turn s sender request rejection)).runtime.relay
  after_check-Within s sender request none w a =
      after_bind-Within _ sender request
        (bind_relay_leg_pair format turn.bind turn.requester_ephemeral turn.target_ephemeral
          s.allocator args.advertise_host).1
        w (a refl)
  after_check-Within s sender request (some (reason, retry_after)) w a =
      elim (Bool-cases turn.published) [ inl e ↦ rw e w | inr e ↦ rw e w ]

  pub handle_request-Within :
      (s : ServiceState) (sender : Text) (request : Request)
      → Within args.limits s.runtime.relay
      → Within args.limits (state (handle_request format args turn s sender request)).runtime.relay
  unfolding handle_request
  handle_request-Within s sender request w =
      after_check-Within _ sender request
        (check_relay s.runtime.relay sender turn.checked_at args.limits).1
        (check_relay-Within args.limits sender turn.noted_at s.runtime.relay turn.checked_at w)
        (check_relay-Admits args.limits sender turn.noted_at s.runtime.relay turn.checked_at w)

  handle_payload-Within :
      (s : ServiceState) (sender : Text) (payload : ServicePayload)
      → Within args.limits s.runtime.relay
      → Within args.limits (state (handle_payload format args turn s sender payload)).runtime.relay
  unfolding handle_payload
  handle_payload-Within s sender (allocation_request r) w =
      handle_request-Within s sender (allocation format args turn r) w
  handle_payload-Within s sender (probe_request r) w =
      handle_request-Within s sender (probe format args turn sender r) w
  handle_payload-Within s sender (allocation_granted r) w = w
  handle_payload-Within s sender (allocation_rejected r) w = w
  handle_payload-Within s sender (probe_granted r) w = w
  handle_payload-Within s sender (probe_rejected r) w = w

-- From a state within the limits, no sequence of messages, from whatever senders and with whatever
-- clock, brings the sessions on record above the limit in all or for one requester, nor does it
-- give a request id two of them.
pub serve-Within :
    (format : AddressFormat) (args : ServiceArgs) (l : Loop)
    (messages : List (Turn × ServiceEnvelope))
    → Within args.limits (state l).runtime.relay
    → Within args.limits (state (serve format args l messages)).runtime.relay
unfolding serve
serve-Within format args (stops s) messages w = w
serve-Within format args (goes_on s) [] w = w
serve-Within format args (goes_on s) ((turn, m) ∷ rest) w =
    serve-Within format args (handle_payload format args turn s m.sender_pubkey m.payload) rest
      (handle_payload-Within format args turn s m.sender_pubkey m.payload w)
