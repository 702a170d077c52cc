-- ===== src/Net/Tests.antt =====
-- The parsers on the notations that they accept and on some that they do not.
use nostr_vpn.Prelude.{◌≡◌, refl, none, some, ◌*◌, ◌^◌, ◌+◌}
use nostr_vpn.Prelude.Text.{codes}
use nostr_vpn.Net.{IpAddr, SocketAddr}
use nostr_vpn.Net.Parser.{parse_ip_addr, parse_socket_addr}

v4_endpoint : parse_socket_addr (codes "192.168.1.20:51820") ≡ some (SocketAddr.v4 3232235796 51820)
unfolding parse_socket_addr
v4_endpoint = refl

octet_too_large : parse_ip_addr (codes "10.0.0.256") ≡ none
unfolding parse_ip_addr
octet_too_large = refl

leading_zero : parse_ip_addr (codes "10.0.0.01") ≡ none
unfolding parse_ip_addr
leading_zero = refl

loopback_v6 : parse_ip_addr (codes "::1") ≡ some (IpAddr.v6 1)
unfolding parse_ip_addr
loopback_v6 = refl

mapped_v4 : parse_ip_addr (codes "1:2:3:4:5:6:0.7.0.8") ≡ parse_ip_addr (codes "1:2:3:4:5:6:7:8")
unfolding parse_ip_addr
mapped_v4 = refl

two_gaps : parse_ip_addr (codes "1::2::3") ≡ none
unfolding parse_ip_addr
two_gaps = refl

scoped_v6 :
    parse_socket_addr (codes "[fe80::1%3]:53") ≡ some (SocketAddr.v6 (0xfe80 * 2 ^ 112 + 1) 53 0 3)
unfolding parse_socket_addr
scoped_v6 = refl

no_brackets : parse_socket_addr (codes "::1:80") ≡ none
unfolding parse_socket_addr
no_brackets = refl
