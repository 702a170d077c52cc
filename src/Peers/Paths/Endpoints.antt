-- ===== src/Peers/Paths/Endpoints.antt =====
-- paths.rs: the host of an endpoint, whether it is a local one, and the endpoints of an
-- announcement.
use nostr_vpn.Prelude.{
  Bool, ◌||◌, Option, none, some, List, [], ◌∷◌, ◌++◌, map, ◌==◌, if◌then◌else◌, or_else,
  map_option, unwrap_or, any,
}
use nostr_vpn.Prelude.Text.{Text, codes, str_eq, trim, is_blank}
use nostr_vpn.Prelude.Chars.{trim_start_matches, trim_end_matches, to_ascii_lowercase}
use nostr_vpn.Net.{IpAddr, SocketAddr}
use nostr_vpn.Net.Parser.{parse_ip_addr, parse_socket_addr}
use nostr_vpn.Net.Classes.{is_loopback, is_loopback_v6, is_unicast_link_local, is_unique_local}
use nostr_vpn.Peers.Announcement.{PeerAnnouncement, is_private_ipv4}
use nostr_vpn.Peers.Paths.{PeerPathSource, local, public, relay, legacy}

-- `rsplit_once(':')`: what stands before the last colon.
unfoldable pub before_last_colon : Text → Option Text
before_last_colon [] = none
before_last_colon (c ∷ s) =
    or_else (map_option (before_last_colon s) (λ h. c ∷ h)) (if c == 58 then some [] else none)

unfoldable pub eq_ignore_ascii_case : Text → Text → Bool
unfolding str_eq
eq_ignore_ascii_case a b = str_eq (map to_ascii_lowercase a) (map to_ascii_lowercase b)

abbrev pub host_of : Text → Text
host_of endpoint =
    trim_end_matches 93
      (trim_start_matches 91 (trim (unwrap_or (before_last_colon endpoint) endpoint)))

abbrev pub host_is_local : Text → Option IpAddr → Bool
host_is_local host none = eq_ignore_ascii_case host (codes "localhost")
host_is_local host (some (IpAddr.v4 ip)) = is_private_ipv4 ip || is_loopback ip
host_is_local host (some (IpAddr.v6 ip)) =
    is_loopback_v6 ip || is_unicast_link_local ip || is_unique_local ip

unfoldable pub endpoint_is_local_only : Text → Bool
endpoint_is_local_only endpoint =
    let host = host_of endpoint in host_is_local host (parse_ip_addr host)

abbrev pub ip_of : SocketAddr → IpAddr
ip_of (SocketAddr.v4 ip port) = IpAddr.v4 ip
ip_of (SocketAddr.v6 ip port flowinfo scope_id) = IpAddr.v6 ip

-- endpoint_host; the source compares the hosts as they are printed, one text for one address.
unfoldable pub endpoint_host : Text → Option IpAddr
endpoint_host endpoint = map_option (parse_socket_addr endpoint) ip_of

abbrev pub Announced : Type 0
Announced = List (Text × PeerPathSource)

unfoldable pub is_announced : Announced → Text → Bool
unfolding any
is_announced announced endpoint = any (λ a. str_eq a.0 endpoint) announced

-- An endpoint that is not blank and was not seen, at the end of the list; what was seen is what the
-- list has.
unfoldable pub push_endpoint : Announced → Option Text → PeerPathSource → Announced
unfolding is_announced
push_endpoint announced none source = announced
push_endpoint announced (some endpoint) source =
    if is_blank endpoint || is_announced announced endpoint
    then announced
    else announced ++ ((endpoint, source) ∷ [])

unfoldable pub announcement_endpoints : PeerAnnouncement → Announced
unfolding push_endpoint
announcement_endpoints a =
    let with_local = push_endpoint [] a.local_endpoint local in
    let with_public = push_endpoint with_local a.public_endpoint public in
    let with_relay = push_endpoint with_public a.relay_endpoint relay in
    push_endpoint with_relay (some a.endpoint) legacy
