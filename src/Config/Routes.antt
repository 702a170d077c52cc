-- ===== src/Config/Routes.antt =====
-- network_routes.rs: the routes that a node advertises.
pub mod Masks
pub mod Sets
pub mod Idempotent
use Prim.Native.Nat.{bit_and}
use nostr_vpn.Prelude.{
  ℕ, ◌+◌, ◌-◌, ◌*◌, ◌%◌, ◌^◌, Bool, true, false, ◌||◌, Option, none, some, List, [], ◌∷◌, ◌++◌, ltb,
  ◌==◌, if◌then◌else◌, and_then, map_option,
}
use nostr_vpn.Prelude.Text.{Text, codes, trim, str_eq, is_blank}
use nostr_vpn.Prelude.Chars.{split_once}
use nostr_vpn.Prelude.Decimal.{show, parse_unsigned}
use nostr_vpn.Prelude.Words.{u32_max}
use nostr_vpn.Collections.HashSet.{HashSet, contains, add, collect}
use nostr_vpn.Net.{IpAddr}
use nostr_vpn.Net.Parser.{parse_ip_addr}

-- `MAX << (width - bits)` on an integer of `width` bits.
abbrev pub mask_of : ℕ → ℕ → ℕ
mask_of width bits = if bits == 0 then 0 else (2 ^ width - 1) * 2 ^ (width - bits) % 2 ^ width

unfoldable pub mask_ipv4 : ℕ → ℕ → ℕ
mask_ipv4 ip bits = bit_and ip (mask_of 32 bits)

unfoldable pub mask_ipv6 : ℕ → ℕ → ℕ
mask_ipv6 ip bits = bit_and ip (mask_of 128 bits)

abbrev pub max_bits : IpAddr → ℕ
max_bits (IpAddr.v4 ip) = 32
max_bits (IpAddr.v6 ip) = 128

-- `?` on the address and on the length of the prefix, and the test of the length.
unfoldable pub checked_route : Option IpAddr → Option ℕ → Option (IpAddr × ℕ)
checked_route none bits = none
checked_route (some addr) none = none
checked_route (some addr) (some bits) = if ltb (max_bits addr) bits then none else some (addr, bits)

abbrev pub route_of_parts : Option (Text × Text) → Option (IpAddr × ℕ)
route_of_parts none = none
route_of_parts (some (addr, bits)) =
    checked_route (parse_ip_addr (trim addr)) (parse_unsigned 255 (trim bits))

-- The address and the length of the prefix that a route is written with.
unfoldable pub parse_route : Text → Option (IpAddr × ℕ)
unfolding split_once checked_route
parse_route value = route_of_parts (split_once 47 (trim value))

unfoldable pub network_of : IpAddr → ℕ → IpAddr
unfolding mask_ipv4 mask_ipv6
network_of (IpAddr.v4 ip) bits = IpAddr.v4 (mask_ipv4 ip bits)
network_of (IpAddr.v6 ip) bits = IpAddr.v6 (mask_ipv6 ip bits)

unfoldable pub exit_node_default_routes : List Text
exit_node_default_routes = codes "0.0.0.0/0" ∷ codes "::/0" ∷ []

unfoldable pub is_exit_node_route : Text → Bool
is_exit_node_route route = str_eq route (codes "0.0.0.0/0") || str_eq route (codes "::/0")

-- The routes that are not yet seen, each once.
unfoldable pub push_unseen : List Text → HashSet → List Text
unfolding contains add
push_unseen [] seen = []
push_unseen (r ∷ rs) seen =
    let fresh = push_unseen rs (add seen r) in
    let others = push_unseen rs seen in if contains seen r then others else r ∷ fresh

-- `display` is how the standard library prints an address.
module _ (display : IpAddr → Text) where
  -- `format!("{network}/{bits}")`
  abbrev pub route_text : IpAddr → ℕ → Text
  route_text network bits = display network ++ 47 ∷ show bits

  abbrev pub print_route : IpAddr × ℕ → Text
  print_route (addr, bits) = route_text (network_of addr bits) bits

  unfoldable pub normalize_advertised_route : Text → Option Text
  unfolding parse_route network_of
  normalize_advertised_route value = map_option (parse_route value) print_route

  -- The routes that can be normalised.
  unfoldable pub normalized_each : List Text → List Text
  unfolding normalize_advertised_route
  normalized_each [] = []
  normalized_each (r ∷ rs) = elim (normalize_advertised_route r) [
    | none ↦ normalized_each rs
    | some route ↦ route ∷ normalized_each rs
  ]

  unfoldable pub normalize_advertised_routes : List Text → List Text
  unfolding normalized_each push_unseen
  normalize_advertised_routes routes = push_unseen (normalized_each routes) []

  unfoldable pub effective_advertised_routes : List Text → Bool → List Text
  unfolding normalize_advertised_routes push_unseen collect exit_node_default_routes
  effective_advertised_routes routes advertise_exit_node =
      let effective = normalize_advertised_routes routes in
      if advertise_exit_node
      then effective ++ push_unseen exit_node_default_routes (collect effective)
      else effective

-- The address in 10.44.0.0/16 of a member, by the first two bytes of the digest of the network's
-- identifier and the member's key.
abbrev pub tunnel_ip_text : ℕ → ℕ → Text
tunnel_ip_text d0 d1 =
    codes "10.44." ++ show (d0 % 254 + 1) ++ 46 ∷ show (d1 % 254 + 1) ++ codes "/32"
