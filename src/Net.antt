-- ===== src/Net.antt =====
-- std::net: addresses as values.
pub mod Parser
pub mod Classes
pub mod Tests
use nostr_vpn.Prelude.{ℕ, ◌≡◌, Bool, true, false, ◌&&◌, arith, ◌==◌, ◌↔◌}

-- An IPv4 address as its 32-bit number, an IPv6 address as its 128-bit number.
pub data IpAddr : Type 0 where
  v4 : ℕ → IpAddr
  v6 : ℕ → IpAddr

-- SocketAddrV4 has an address and a port, SocketAddrV6 a flow label and a scope id as well.
pub data SocketAddr : Type 0 where
  v4 : ℕ → ℕ → SocketAddr
  v6 : ℕ → ℕ → ℕ → ℕ → SocketAddr

unfoldable pub addr_eq : SocketAddr → SocketAddr → Bool
addr_eq (SocketAddr.v4 i p) (SocketAddr.v4 j q) = i == j && p == q
addr_eq (SocketAddr.v6 i p f s) (SocketAddr.v6 j q g t) = i == j && p == q && f == g && s == t
addr_eq _ _ = false

pub addr_eq_iff : (a b : SocketAddr) → (addr_eq a b ≡ true) ↔ (a ≡ b)
unfolding addr_eq
addr_eq_iff (SocketAddr.v4 i p) (SocketAddr.v4 j q) = (λ h. ground arith, λ h. ground arith)
addr_eq_iff (SocketAddr.v6 i p f s) (SocketAddr.v6 j q g t) = (λ h. ground arith, λ h. ground arith)
addr_eq_iff (SocketAddr.v4 i p) (SocketAddr.v6 j q g t) = (λ h. cc, λ h. cc)
addr_eq_iff (SocketAddr.v6 i p f s) (SocketAddr.v4 j q) = (λ h. cc, λ h. cc)
