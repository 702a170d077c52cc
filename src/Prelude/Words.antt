-- ===== src/Prelude/Words.antt =====
-- Rust's unsigned integers as native numbers: u64 and u32 with their saturating operations.
use Prim.Native.Nat.{ℕ, ◌+◌, ◌*◌, ◌%◌, min}

abbrev pub u64_max : ℕ
u64_max = 18446744073709551615

abbrev pub u32_max : ℕ
u32_max = 4294967295

abbrev pub u16_max : ℕ
u16_max = 65535

-- u64::saturating_add
abbrev pub sat_add : ℕ → ℕ → ℕ
sat_add a b = min (a + b) u64_max

-- u64::saturating_mul
abbrev pub sat_mul : ℕ → ℕ → ℕ
sat_mul a b = min (a * b) u64_max

-- `a + b` on u64, as the release build computes it.
abbrev pub wrapping_add : ℕ → ℕ → ℕ
wrapping_add a b = (a + b) % 18446744073709551616
