-- ===== src/Net/Classes.antt =====
-- std::net: the classes of addresses that the program asks for.
use nostr_vpn.Prelude.{ℕ, ◌/◌, ◌%◌, ◌^◌, Bool, ◌&&◌, ◌||◌, ◌==◌, leb}

-- The octets of an IPv4 address, from the front.
abbrev pub octet0 : ℕ → ℕ
octet0 ip = ip / 16777216

abbrev pub octet1 : ℕ → ℕ
octet1 ip = ip / 65536 % 256

abbrev pub is_private : ℕ → Bool
is_private ip =
    octet0 ip == 10
    || (octet0 ip == 172 && leb 16 (octet1 ip) && leb (octet1 ip) 31)
    || (octet0 ip == 192 && octet1 ip == 168)

abbrev pub is_link_local : ℕ → Bool
is_link_local ip = octet0 ip == 169 && octet1 ip == 254

abbrev pub is_loopback : ℕ → Bool
is_loopback ip = octet0 ip == 127

-- Of an IPv6 address: ::1, fe80::/10 and fc00::/7.
abbrev pub is_loopback_v6 : ℕ → Bool
is_loopback_v6 ip = ip == 1

abbrev pub is_unicast_link_local : ℕ → Bool
is_unicast_link_local ip = ip / 2 ^ 118 == 0x3fa

abbrev pub is_unique_local : ℕ → Bool
is_unique_local ip = ip / 2 ^ 121 == 0x7e
