-- ===== src/Prelude/Decimal.antt =====
-- Numbers as decimal text: `format!("{n}")` and `parse` of an unsigned integer.
use Prim.Native.Nat.{ℕ, zero, suc, ◌+◌, ◌-◌, ◌*◌, ◌/◌, ◌%◌, ◌≤◌}
use mathlib.Core.Path.{◌≡◌, refl, ap, sym, ◌∙◌}
use mathlib.Core.Bool.{Bool, true, false, ◌&&◌}
use mathlib.Core.Option.{Option, none, some}
use mathlib.Core.List.{[], ◌∷◌, ◌++◌}
use native.Mathlib.Omega.{arith}
use nostr_vpn.Prelude.Tests.{ltb, leb, ◌==◌, if◌then◌else◌}
use nostr_vpn.Prelude.Lists.{is_empty, every, every-append, every_weaken}
use nostr_vpn.Prelude.Text.{Text}

-- The digits of a number below 10 ^ (fuel + 1).
show_fuel : ℕ → ℕ → Text
show_fuel zero n = (48 + n % 10) ∷ []
show_fuel (suc fuel) n =
    let front = show_fuel fuel (n / 10) in
    if ltb n 10 then (48 + n) ∷ [] else front ++ (48 + n % 10) ∷ []

unfoldable pub show : ℕ → Text
unfolding show_fuel
show n = show_fuel n n

unfoldable pub value_from : ℕ → Text → ℕ
value_from acc [] = acc
value_from acc (c ∷ s) = value_from (acc * 10 + (c - 48)) s

abbrev pub is_digit : ℕ → Bool
is_digit c = leb 48 c && leb c 57

unfoldable pub all_digits : Text → Bool
unfolding every
all_digits s = every is_digit s

abbrev digits_value : ℕ → Text → Option ℕ
digits_value limit s =
    if is_empty s
    then none
    else if all_digits s
    then (if leb (value_from 0 s) limit then some (value_from 0 s) else none)
    else none

-- `parse::<u8>()` for `limit` 255: a sign `+` may stand in front, and zeros.
unfoldable pub parse_unsigned : ℕ → Text → Option ℕ
unfolding value_from all_digits
parse_unsigned limit [] = none
parse_unsigned limit (c ∷ s) = if c == 43 then digits_value limit s else digits_value limit (c ∷ s)

value_from-append :
    (acc : ℕ) (s : Text) (c : ℕ) → value_from acc (s ++ c ∷ []) ≡ value_from acc s * 10 + (c - 48)
unfolding value_from
value_from-append acc [] c = refl
value_from-append acc (d ∷ s) c = value_from-append (acc * 10 + (d - 48)) s c

value_from-show_fuel : (fuel n : ℕ) → n ≤ fuel → value_from 0 (show_fuel fuel n) ≡ n
unfolding show_fuel value_from
value_from-show_fuel zero n h = omega arith
value_from-show_fuel (suc fuel) n h = ground (
  arith,
  value_from-append 0 (show_fuel fuel (n / 10)) (48 + n % 10),
  value_from-show_fuel fuel (n / 10) (omega arith),
)

pub value_from-show : (n : ℕ) → value_from 0 (show n) ≡ n
unfolding show
value_from-show n = value_from-show_fuel n n (omega arith)

-- Two numbers have two texts.
pub show_inj : (m n : ℕ) → show m ≡ show n → m ≡ n
show_inj m n e = sym (value_from-show m) ∙ ap (value_from 0) e ∙ value_from-show n

all_digits-show_fuel : (fuel n : ℕ) → all_digits (show_fuel fuel n) ≡ true
unfolding show_fuel all_digits every
all_digits-show_fuel zero n = ground arith
all_digits-show_fuel (suc fuel) n = ground (
  arith,
  every-append is_digit (show_fuel fuel (n / 10)) ((48 + n % 10) ∷ []),
  all_digits-show_fuel fuel (n / 10),
)

pub all_digits-show : (n : ℕ) → all_digits (show n) ≡ true
unfolding show
all_digits-show n = all_digits-show_fuel n n

pub every-show :
    (p : ℕ → Bool) → ((c : ℕ) → is_digit c ≡ true → p c ≡ true) → (n : ℕ) → every p (show n) ≡ true
unfolding all_digits
every-show p h n = every_weaken is_digit p (show n) h (all_digits-show n)

append_filled : (s : Text) (c : ℕ) → is_empty (s ++ c ∷ []) ≡ false
append_filled [] c = refl
append_filled (d ∷ s) c = refl

show_fuel_filled : (fuel n : ℕ) → is_empty (show_fuel fuel n) ≡ false
unfolding show_fuel
show_fuel_filled zero n = refl
show_fuel_filled (suc fuel) n =
    ground (arith, append_filled (show_fuel fuel (n / 10)) (48 + n % 10))

parse_digits :
    (limit : ℕ) (s : Text)
    → is_empty s ≡ false
    → all_digits s ≡ true
    → value_from 0 s ≤ limit
    → parse_unsigned limit s ≡ some (value_from 0 s)
unfolding parse_unsigned all_digits every
parse_digits limit [] f d l = ground arith
parse_digits limit (c ∷ s) f d l = ground arith

-- A number that fits is read from its text.
pub parse_unsigned-show : (limit n : ℕ) → n ≤ limit → parse_unsigned limit (show n) ≡ some n
unfolding show
parse_unsigned-show limit n h =
    parse_digits limit (show n) (show_fuel_filled n n) (all_digits-show n)
      (omega (arith, value_from-show n))
    ∙ ap some (value_from-show n)
