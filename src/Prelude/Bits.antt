-- ===== src/Prelude/Bits.antt =====
-- A bitwise `and` with a mask of leading ones clears the trailing bits.
use Prim.Native.Nat.{
  ℕ, zero, suc, ◌+◌, ◌-◌, ◌*◌, ◌/◌, ◌%◌, ◌^◌, ◌≤◌, ◌<◌, min, bit_and, digits, bit_and-bitwise,
}
use mathlib.Core.Path.{◌≡◌, refl, ap, sym, subst, ◌∙◌}
use native.Mathlib.Nat.{div-div-eq-div-mul, mul_assoc, mul_comm, add-suc, add-zero, mul-one}
use native.Mathlib.Omega.{arith}

abbrev lowest_first : ℕ → ℕ → ℕ → ℕ
lowest_first fuel a b = digits (λ b. zero) min fuel a b

lowest_first_stable : (m n a b : ℕ) → a ≤ m → a ≤ n → lowest_first m a b ≡ lowest_first n a b
lowest_first_stable zero zero zero b h k = refl
lowest_first_stable zero (suc n) zero b h k = refl
lowest_first_stable (suc m) zero zero b h k = refl
lowest_first_stable (suc m) (suc n) zero b h k = refl
lowest_first_stable zero n (suc a) b h k = absurd (omega arith)
lowest_first_stable (suc m) zero (suc a) b h k = absurd (omega arith)
lowest_first_stable (suc m) (suc n) (suc a) b h k =
    omega (arith, lowest_first_stable m n (suc a / 2) (b / 2) (omega arith) (omega arith))

-- The lowest bit apart.
bit_and_low : (a b : ℕ) → bit_and a b ≡ bit_and (a / 2) (b / 2) * 2 + min (a % 2) (b % 2)
bit_and_low zero b = omega (arith, bit_and-bitwise 0 b, bit_and-bitwise 0 (b / 2))
bit_and_low (suc a) b = omega (
  arith,
  bit_and-bitwise (suc a) b,
  bit_and-bitwise (suc a / 2) (b / 2),
  lowest_first_stable a (suc a / 2) (suc a / 2) (b / 2) (omega arith) (omega arith),
)

pow_suc : (b : ℕ) → 2 ^ suc b ≡ 2 ^ b * 2
pow_suc b = omega arith

pub pow_pos : (b : ℕ) → 1 ≤ 2 ^ b
pow_pos zero = omega arith
pow_pos (suc b) = omega (arith, pow_suc b, pow_pos b)

double_half : (m : ℕ) → m * 2 / 2 ≡ m
double_half m = omega arith

half_ones : (b : ℕ) → (2 ^ suc b - 1) / 2 ≡ 2 ^ b - 1
half_ones b = omega (arith, pow_suc b, pow_pos b)

and_zero_fuel : (n a : ℕ) → a ≤ n → bit_and a 0 ≡ 0
and_zero_fuel n zero h = refl
and_zero_fuel zero (suc a) h = absurd (omega arith)
and_zero_fuel (suc n) (suc a) h =
    omega (arith, bit_and_low (suc a) 0, and_zero_fuel n (suc a / 2) (omega arith))

pub bit_and-zero : (a : ℕ) → bit_and a 0 ≡ 0
bit_and-zero a = and_zero_fuel a a (omega arith)

bit_and_ones : (b a : ℕ) → a < 2 ^ b → bit_and a (2 ^ b - 1) ≡ a
bit_and_ones zero a h = omega (arith, bit_and-zero a)
bit_and_ones (suc b) a h = omega (
  arith,
  pow_suc b,
  pow_pos b,
  bit_and_low a (2 ^ suc b - 1),
  bit_and_ones b (a / 2) (omega (arith, pow_suc b)),
  ap (bit_and (a / 2)) (half_ones b),
)

half_lt : (a b s : ℕ) → a < 2 ^ (b + suc s) → a / 2 < 2 ^ (b + s)
half_lt a b s h = omega (arith, pow_suc (b + s), ap (λ (n : ℕ). 2 ^ n) (add-suc b s))

mul_two : (m s : ℕ) → m * 2 ^ suc s ≡ m * 2 ^ s * 2
mul_two m s = ap (λ (p : ℕ). m * p) (pow_suc s) ∙ sym (mul_assoc m (2 ^ s) 2)

halved : (a p : ℕ) → a / (p * 2) ≡ a / 2 / p
halved a p = ap (λ (q : ℕ). a / q) (mul_comm p 2) ∙ sym (div-div-eq-div-mul a 2 p)

even_step :
    (a m p m2 p2 : ℕ)
    → p2 ≡ p * 2
    → m2 ≡ m * 2
    → bit_and (a / 2) m ≡ a / 2 / p * p
    → bit_and a m2 ≡ a / p2 * p2
even_step a m p m2 p2 e f ih =
    rw (e, f)
      (omega (
        arith,
        bit_and_low a (m * 2),
        ih,
        ap (bit_and (a / 2)) (double_half m),
        ap (λ (q : ℕ). q * p) (halved a p),
        sym (mul_assoc (a / (p * 2)) p 2),
      ))

whole : (a : ℕ) → a / 1 * 1 ≡ a
whole a = omega arith

-- A mask of `b` ones in front of `s` zeros.
pub bit_and_mask :
    (s b a : ℕ) → a < 2 ^ (b + s) → bit_and a ((2 ^ b - 1) * 2 ^ s) ≡ a / 2 ^ s * 2 ^ s
bit_and_mask zero b a h =
    ap (bit_and a) (mul-one (2 ^ b - 1))
    ∙ bit_and_ones b a (subst (λ n. a < 2 ^ n) (add-zero b) h)
    ∙ sym (whole a)
bit_and_mask (suc s) b a h =
    even_step a ((2 ^ b - 1) * 2 ^ s) (2 ^ s) _ _ (pow_suc s) (mul_two (2 ^ b - 1) s)
      (bit_and_mask s b (a / 2) (half_lt a b s h))

-- From a number's halves: the quotient and the remainder of an `and`.
bit_and-half : (a b : ℕ) → bit_and a b / 2 ≡ bit_and (a / 2) (b / 2)
bit_and-half a b = omega (arith, bit_and_low a b)

bit_and-parity : (a b : ℕ) → bit_and a b % 2 ≡ min (a % 2) (b % 2)
bit_and-parity a b = omega (arith, bit_and_low a b)

bit_and_twice_fuel : (n a m : ℕ) → a ≤ n → bit_and (bit_and a m) m ≡ bit_and a m
bit_and_twice_fuel n zero m h = ap (λ (c : ℕ). bit_and c m) (bit_and-bitwise 0 m)
bit_and_twice_fuel zero (suc a) m h = absurd (omega arith)
bit_and_twice_fuel (suc n) (suc a) m h = omega (
  arith,
  bit_and_low (bit_and (suc a) m) m,
  bit_and_low (suc a) m,
  bit_and-parity (suc a) m,
  ap (λ (c : ℕ). bit_and c (m / 2)) (bit_and-half (suc a) m),
  bit_and_twice_fuel n (suc a / 2) (m / 2) (omega arith),
)

pub bit_and_twice : (a m : ℕ) → bit_and (bit_and a m) m ≡ bit_and a m
bit_and_twice a m = bit_and_twice_fuel a a m (omega arith)
