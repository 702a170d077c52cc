-- ===== src/Config/Routes/Masks.antt =====
-- The masks keep the leading bits of an address and clear the others.
use Prim.Native.Nat.{bit_and}
use nostr_vpn.Prelude.{
  Bool-cases, inl, inr, ℕ, zero, suc, ◌+◌, ◌-◌, ◌*◌, ◌/◌, ◌^◌, ◌≤◌, ◌<◌, ◌≡◌, refl, Bool, true,
  ◌&&◌, ◌==◌, ==_iff, arith, ap, ◌∙◌, subst,
}
use nostr_vpn.Prelude.Bits.{bit_and_mask, bit_and_twice}
use nostr_vpn.Net.{IpAddr}
use nostr_vpn.Config.Routes.{mask_of, mask_ipv4, mask_ipv6, network_of, max_bits}

all_upto : ℕ → (ℕ → Bool) → Bool
all_upto zero p = p 0
all_upto (suc n) p = p (suc n) && all_upto n p

all_upto_sound : (n : ℕ) (p : ℕ → Bool) (x : ℕ) → all_upto n p ≡ true → x ≤ n → p x ≡ true
unfolding all_upto
all_upto_sound zero p zero h le = h
all_upto_sound zero p (suc x) h le = absurd (omega arith)
all_upto_sound (suc n) p x h le = elim (Bool-cases (x == suc n)) [
  | inl e ↦ let s : x ≡ suc n = (==_iff x (suc n)).0 e in rw s (ground (arith, h))
  | inr e ↦ all_upto_sound n p x (ground arith) (ground arith)
]

-- The mask of every length, by evaluation.
mask32 : all_upto 32 (λ b. mask_of 32 b == (2 ^ b - 1) * 2 ^ (32 - b)) ≡ true
unfolding all_upto
mask32 = refl

mask128 : all_upto 128 (λ b. mask_of 128 b == (2 ^ b - 1) * 2 ^ (128 - b)) ≡ true
unfolding all_upto
mask128 = refl

bit_and-mask_of :
    (width ip bits : ℕ)
    → mask_of width bits ≡ (2 ^ bits - 1) * 2 ^ (width - bits)
    → bits ≤ width
    → ip < 2 ^ width
    → bit_and ip (mask_of width bits) ≡ ip / 2 ^ (width - bits) * 2 ^ (width - bits)
bit_and-mask_of width ip bits e h l =
    let w : width ≡ bits + (width - bits) = omega arith in
    ap (bit_and ip) e ∙ bit_and_mask (width - bits) bits ip (subst (λ n. ip < 2 ^ n) w l)

-- The masks by `<<` and `&` are a rounding down to a multiple of 2 ^ (width - bits), for every
-- prefix length that an address has.
mask_ipv4_lem :
    (ip bits : ℕ)
    → bits ≤ 32
    → ip < 2 ^ 32
    → mask_ipv4 ip bits ≡ ip / 2 ^ (32 - bits) * 2 ^ (32 - bits)
unfolding mask_ipv4
mask_ipv4_lem ip bits h l =
    bit_and-mask_of 32 ip bits ((==_iff _ _).0 (all_upto_sound 32 _ bits mask32 h)) h l

mask_ipv6_lem :
    (ip bits : ℕ)
    → bits ≤ 128
    → ip < 2 ^ 128
    → mask_ipv6 ip bits ≡ ip / 2 ^ (128 - bits) * 2 ^ (128 - bits)
unfolding mask_ipv6
mask_ipv6_lem ip bits h l =
    bit_and-mask_of 128 ip bits ((==_iff _ _).0 (all_upto_sound 128 _ bits mask128 h)) h l

pub network_of_twice :
    (a : IpAddr) (bits : ℕ) → network_of (network_of a bits) bits ≡ network_of a bits
unfolding network_of mask_ipv4 mask_ipv6
network_of_twice (IpAddr.v4 ip) bits = ap IpAddr.v4 (bit_and_twice ip (mask_of 32 bits))
network_of_twice (IpAddr.v6 ip) bits = ap IpAddr.v6 (bit_and_twice ip (mask_of 128 bits))

pub max_bits-network_of : (a : IpAddr) (bits : ℕ) → max_bits (network_of a bits) ≡ max_bits a
unfolding network_of
max_bits-network_of (IpAddr.v4 ip) bits = refl
max_bits-network_of (IpAddr.v6 ip) bits = refl
