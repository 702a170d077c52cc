-- ===== src/Relay/Ports.antt =====
-- nvpn_udp_relay/port_allocator.rs: the range of relay ports and the search for a free pair. What
-- the operating system answers to a bind is a function of the port for the time of one call. A
-- loop that comes round to its first port ends within the length of the range plus one rounds.
pub mod Cycle
pub mod Pair
pub mod Flags
pub mod Allocator
use nostr_vpn.Prelude.{
  not, ℕ, zero, suc, ◌+◌, ◌-◌, ◌*◌, ◌/◌, ◌≤◌, ◌<◌, ◌≡◌, ◌≢◌, refl, Bool, true, false, ◌&&◌, ◌||◌,
  Option, none, some, ltb, leb, ◌==◌, if◌then◌else◌,
}
use nostr_vpn.Prelude.Results.{Result, ok, err, ◌>>=◌, ◌>>◌, bail_if, ok_or}
use nostr_vpn.Prelude.Text.{Text}

pub data PortError : Type 0 where
  port_zero end_before_start : PortError
  flags_required_together flags_with_disabled_relay : PortError
  too_few_ports nat_assist_overlap too_many_sessions : PortError
  invalid_advertise_host : PortError
  requester_bind_failed target_bind_failed no_local_addr no_free_pair : PortError

pub record RelayPortRange : Type 0 where
  pub start : ℕ
  pub end : ℕ

-- RelayPortRange::new
unfoldable pub new_range : ℕ → ℕ → Result PortError RelayPortRange
new_range start end = do
  bail_if (start == 0 || end == 0) port_zero
  bail_if (ltb end start) end_before_start
  ok (record { start = start; end = end })

-- RelayPortRange::len
abbrev pub len : RelayPortRange → ℕ
len r = r.end - r.start + 1

abbrev pub capacity_sessions : RelayPortRange → ℕ
capacity_sessions r = len r / 2

abbrev pub contains : RelayPortRange → ℕ → Bool
contains r port = leb r.start port && leb port r.end

unfoldable pub next_after : RelayPortRange → ℕ → ℕ
next_after r port = if leb r.end port then r.start else port + 1

pub record RelayPortAllocator : Type 0 where
  pub range : RelayPortRange
  pub next_port : ℕ

unfoldable pub new_allocator : RelayPortRange → RelayPortAllocator
new_allocator r = record { range = r; next_port = r.start }

-- bind_udp_socket: `bound` has the port that `local_addr` reports, if it can be read.
pub data BindOutcome : Type 0 where
  bound : Option ℕ → BindOutcome
  addr_in_use : BindOutcome
  bind_error : BindOutcome

-- How a search loop ends: with a hit, by coming round, by an error, or without fuel.
pub data Search (A : Type 0) : Type 0 where
  found : A → Search A
  exhausted : Search A
  failed : PortError → Search A
  out_of_fuel : Search A

-- The two ports tried last, and the two that the sockets report.
pub record PortPair : Type 0 where
  pub first : ℕ
  pub second : ℕ
  pub requester_port : ℕ
  pub target_port : ℕ

module _ (bind : ℕ → BindOutcome) (r : RelayPortRange) where
  -- The body of the inner loop, after its two tests; `rest` is the loop at the next port.
  abbrev pub try_target : BindOutcome → ℕ → Search (ℕ × ℕ) → Search (ℕ × ℕ)
  try_target (bound (some port)) second rest = found (second, port)
  try_target (bound none) second rest = failed no_local_addr
  try_target addr_in_use second rest = rest
  try_target bind_error second rest = failed target_bind_failed

  unfoldable pub second_loop : ℕ → ℕ → ℕ → Bool → ℕ → Search (ℕ × ℕ)
  second_loop zero first second_start tried second = out_of_fuel
  second_loop (suc fuel) first second_start tried second =
      let rest = second_loop fuel first second_start true (next_after r second) in
      if tried && second == second_start
      then exhausted
      else if second == first
      then exhausted
      else try_target (bind second) second rest

  -- What the outer loop does with the result of the inner one; without a partner the requester's
  -- socket is dropped and the loop goes on, as `rest`.
  abbrev pub after_second : ℕ → ℕ → Search (ℕ × ℕ) → Search PortPair → Search PortPair
  after_second first port (found (second, target)) rest =
      found (record { first = first; second = second; requester_port = port; target_port = target })
  after_second first port exhausted rest = rest
  after_second first port (failed e) rest = failed e
  after_second first port out_of_fuel rest = out_of_fuel

  abbrev pub try_requester : BindOutcome → ℕ → Search PortPair → Search PortPair
  try_requester (bound (some port)) first rest =
      let second_start = next_after r first in
      after_second first port (second_loop (len r + 1) first second_start false second_start) rest
  try_requester (bound none) first rest = failed no_local_addr
  try_requester addr_in_use first rest = rest
  try_requester bind_error first rest = failed requester_bind_failed

  unfoldable pub first_loop : ℕ → ℕ → Bool → ℕ → Search PortPair
  first_loop zero start_port tried first = out_of_fuel
  first_loop (suc fuel) start_port tried first =
      let rest = first_loop fuel start_port true (next_after r first) in
      if tried && first == start_port then exhausted else try_requester (bind first) first rest

-- parse_advertise_ip and SocketAddr::to_string of the host's address.
pub record AddressFormat : Type 1 where
  pub Ip : Type 0
  pub parse_ip : Text → Option Ip
  pub endpoint : Ip → ℕ → Text

pub record RelayLegPair : Type 0 where
  pub requester_socket : ℕ
  pub target_socket : ℕ
  pub requester_ingress_endpoint : Text
  pub target_ingress_endpoint : Text

module _ (format : AddressFormat) (bind : ℕ → BindOutcome) where
  open format use {Ip, parse_ip, endpoint}

  abbrev pub search_pair : RelayPortAllocator → Search PortPair
  search_pair a = first_loop bind a.range (len a.range + 1) a.next_port false a.next_port

  -- The loop's end as the result, and the cursor behind the second port.
  abbrev pub finish :
      RelayPortAllocator
      → Ip
      → Search PortPair
      → RelayPortAllocator × Option (Result PortError RelayLegPair)
  finish a ip (found p) = (
    record a { next_port = next_after a.range p.second },
    some (
        ok (record {
          requester_socket = p.first;
          target_socket = p.second;
          requester_ingress_endpoint = endpoint ip p.requester_port;
          target_ingress_endpoint = endpoint ip p.target_port;
        })),
  )
  finish a ip exhausted = (a, some (err no_free_pair))
  finish a ip (failed e) = (a, some (err e))
  finish a ip out_of_fuel = (a, none)

  abbrev pub with_advertise_ip :
      RelayPortAllocator → Option Ip → RelayPortAllocator × Option (Result PortError RelayLegPair)
  with_advertise_ip a none = (a, some (err invalid_advertise_host))
  with_advertise_ip a (some ip) = finish a ip (search_pair a)

  -- RelayPortAllocator::bind_pair; `none` is the loop without fuel, which does not happen.
  unfoldable pub bind_pair :
      RelayPortAllocator → Text → RelayPortAllocator × Option (Result PortError RelayLegPair)
  bind_pair a advertise_host = with_advertise_ip a (parse_ip advertise_host)

-- The port of a socket that was bound to port 0, where a failure to bind is `error`.
abbrev pub ephemeral_port : BindOutcome → PortError → Result PortError ℕ
ephemeral_port (bound (some port)) error = ok port
ephemeral_port (bound none) error = err no_local_addr
ephemeral_port addr_in_use error = err error
ephemeral_port bind_error error = err error

abbrev pub is_bound : BindOutcome → Bool
is_bound (bound port) = true
is_bound addr_in_use = false
is_bound bind_error = false

module _ (format : AddressFormat) (bind : ℕ → BindOutcome) (requester target : BindOutcome) where
  open format use {parse_ip, endpoint}

  -- Without a configured range the system picks the ports; `requester` and `target` are what it
  -- answers. Both sockets are bound before their addresses are read.
  abbrev pub ephemeral_pair : Text → Result PortError RelayLegPair
  ephemeral_pair advertise_host = do
    bail_if (not (is_bound requester)) requester_bind_failed
    bail_if (not (is_bound target)) target_bind_failed
    requester_port ← ephemeral_port requester requester_bind_failed
    target_port ← ephemeral_port target target_bind_failed
    ip ← ok_or (parse_ip advertise_host) invalid_advertise_host
    ok (record {
      requester_socket = requester_port;
      target_socket = target_port;
      requester_ingress_endpoint = endpoint ip requester_port;
      target_ingress_endpoint = endpoint ip target_port;
    })

  unfoldable pub bind_relay_leg_pair :
      Option RelayPortAllocator
      → Text
      → Option RelayPortAllocator × Option (Result PortError RelayLegPair)
  unfolding bind_pair
  bind_relay_leg_pair none advertise_host = (none, some (ephemeral_pair advertise_host))
  bind_relay_leg_pair (some a) advertise_host =
      let (a', result) = bind_pair format bind a advertise_host in (some a', result)

-- The arguments of the program that the range depends on.
pub record Args : Type 0 where
  pub disable_relay : Bool
  pub enable_nat_assist : Bool
  pub nat_assist_port : ℕ
  pub relay_port_range_start : Option ℕ
  pub relay_port_range_end : Option ℕ
  pub max_active_sessions : ℕ

abbrev pub checked_range : Args → ℕ → ℕ → Result PortError (Option RelayPortRange)
checked_range args start end = do
  range ← new_range start end
  bail_if (capacity_sessions range == 0) too_few_ports
  bail_if (args.enable_nat_assist && contains range args.nat_assist_port) nat_assist_overlap
  bail_if (ltb (capacity_sessions range) args.max_active_sessions) too_many_sessions
  ok (some range)

abbrev pub range_of_flags : Args → Option ℕ → Option ℕ → Result PortError (Option RelayPortRange)
range_of_flags args none none = ok none
range_of_flags args (some start) none = err flags_required_together
range_of_flags args none (some end) = err flags_required_together
range_of_flags args (some start) (some end) =
    if args.disable_relay then err flags_with_disabled_relay else checked_range args start end

unfoldable pub relay_port_range : Args → Result PortError (Option RelayPortRange)
unfolding new_range
relay_port_range args = range_of_flags args args.relay_port_range_start args.relay_port_range_end
