-- ===== src/Peers/Announcement.antt =====
-- control.rs: PeerAnnouncement, and the choice of the endpoint that it offers.
use nostr_vpn.Prelude.{
  ℕ, ◌/◌, Bool, false, ◌&&◌, ◌||◌, not, Option, none, some, List, leb, ◌==◌, if◌then◌else◌,
  is_some_and, filter_option, unwrap_or, any,
}
use nostr_vpn.Prelude.Text.{Text, is_blank}
use nostr_vpn.Net.{SocketAddr}
use nostr_vpn.Net.Parser.{parse_socket_addr}
use nostr_vpn.Net.Classes.{is_private, is_link_local, octet0, octet1}

pub record PeerAnnouncement : Type 0 where
  pub node_id : Text
  pub public_key : Text
  pub endpoint : Text
  pub local_endpoint : Option Text
  pub public_endpoint : Option Text
  pub relay_endpoint : Option Text
  pub relay_pubkey : Option Text
  pub relay_expires_at : Option ℕ
  pub tunnel_ip : Text
  pub advertised_routes : List Text
  pub timestamp : ℕ

unfoldable pub with_relay :
    PeerAnnouncement → Option Text → Option Text → Option ℕ → PeerAnnouncement
with_relay a relay_endpoint relay_pubkey relay_expires_at = record a {
  relay_endpoint = filter_option relay_endpoint (λ v. not (is_blank v));
  relay_pubkey = filter_option relay_pubkey (λ v. not (is_blank v));
  relay_expires_at = relay_expires_at;
}

unfoldable pub without_expired_relay : PeerAnnouncement → ℕ → PeerAnnouncement
without_expired_relay a now =
    if is_some_and a.relay_expires_at (λ expires_at. leb expires_at now)
    then record a { relay_endpoint = none; relay_pubkey = none; relay_expires_at = none }
    else a

-- is_private_ipv4: also the carrier-grade and the benchmark ranges.
unfoldable pub is_private_ipv4 : ℕ → Bool
is_private_ipv4 ip =
    is_private ip
    || is_link_local ip
    || (octet0 ip == 100 && leb 64 (octet1 ip) && leb (octet1 ip) 127)
    || (octet0 ip == 198 && (octet1 ip == 18 || octet1 ip == 19))

abbrev pub same_private_subnet : Option SocketAddr → Option SocketAddr → Bool
same_private_subnet (some (SocketAddr.v4 left p)) (some (SocketAddr.v4 right q)) =
    is_private_ipv4 left && is_private_ipv4 right && left / 256 == right / 256
same_private_subnet _ _ = false

unfoldable pub endpoints_share_private_ipv4_subnet : Text → Text → Bool
unfolding is_private_ipv4
endpoints_share_private_ipv4_subnet left right =
    same_private_subnet (parse_socket_addr left) (parse_socket_addr right)

unfoldable pub endpoint_shares_private_ipv4_subnet : Text → List Text → Bool
unfolding endpoints_share_private_ipv4_subnet any
endpoint_shares_private_ipv4_subnet endpoint own_local_endpoints =
    any (endpoints_share_private_ipv4_subnet endpoint) own_local_endpoints

-- The public endpoint, or the endpoint where that is missing or blank.
abbrev pub advertised_endpoint : PeerAnnouncement → Text
advertised_endpoint a =
    unwrap_or (filter_option a.public_endpoint (λ e. not (is_blank e))) a.endpoint

abbrev pub local_or : (Text → Bool) → Option Text → Text → Text
local_or shares none other = other
local_or shares (some peer_local) other = if shares peer_local then peer_local else other

unfoldable pub select_peer_endpoint_from_local_endpoints : PeerAnnouncement → List Text → Text
select_peer_endpoint_from_local_endpoints a own_local_endpoints =
    local_or (λ e. endpoint_shares_private_ipv4_subnet e own_local_endpoints) a.local_endpoint
      (advertised_endpoint a)

abbrev shares_with : Option Text → Text → Bool
shares_with none peer_local = false
shares_with (some own_local) peer_local = endpoints_share_private_ipv4_subnet peer_local own_local

unfoldable pub select_peer_endpoint : PeerAnnouncement → Option Text → Text
select_peer_endpoint a own_local_endpoint =
    local_or (shares_with own_local_endpoint) a.local_endpoint (advertised_endpoint a)
