-- ===== src/Prelude/Text.antt =====
-- Rust strings as their lists of code points: equality, order (that of the UTF-8 bytes is that of
-- the code points) and `str::trim`.
use Prim.Native.Nat.{ℕ}
use Prim.Native.Char.{code}
use Prim.Native.String.{String}
use mathlib.Core.Path.{◌≡◌, refl}
use mathlib.Core.Logic.{◌↔◌}
use mathlib.Core.Bool.{Bool, true, false, ◌&&◌, ◌||◌}
use mathlib.Core.List.{List, [], ◌∷◌}
use native.Mathlib.Omega.{arith}
use nostr_vpn.Prelude.Tests.{ltb, leb, ◌==◌, if◌then◌else◌}
use nostr_vpn.Prelude.Lists.{is_empty}

abbrev pub Text : Type 0
Text = List ℕ

-- A literal.
abbrev pub codes : String → Text
codes String.[] = []
codes (String.◌∷◌ c s) = code c ∷ codes s

unfoldable pub str_eq : Text → Text → Bool
str_eq [] [] = true
str_eq [] (y ∷ ys) = false
str_eq (x ∷ xs) [] = false
str_eq (x ∷ xs) (y ∷ ys) = x == y && str_eq xs ys

pub str_eq_sound : (a b : Text) → str_eq a b ≡ true → a ≡ b
unfolding str_eq
str_eq_sound [] [] h = refl
str_eq_sound [] (y ∷ ys) h = cc
str_eq_sound (x ∷ xs) [] h = cc
str_eq_sound (x ∷ xs) (y ∷ ys) h = ground (arith, str_eq_sound xs ys)

pub str_eq_refl : (a : Text) → str_eq a a ≡ true
unfolding str_eq
str_eq_refl [] = refl
str_eq_refl (x ∷ xs) = ground (arith, str_eq_refl xs)

pub str_eq_iff : (a b : Text) → (str_eq a b ≡ true) ↔ (a ≡ b)
str_eq_iff a b = (str_eq_sound a b, λ e. rw e (str_eq_refl b))

-- `left.cmp(&right) != Greater`
unfoldable pub str_le : Text → Text → Bool
str_le [] ys = true
str_le (x ∷ xs) [] = false
str_le (x ∷ xs) (y ∷ ys) = ltb x y || (x == y && str_le xs ys)

pub str_le_total : (a b : Text) → str_le a b ≡ false → str_le b a ≡ true
unfolding str_le
str_le_total [] ys h = cc
str_le_total (x ∷ xs) [] h = refl
str_le_total (x ∷ xs) (y ∷ ys) h = ground (arith, str_le_total xs ys)

pub str_le_trans : (a b c : Text) → str_le a b ≡ true → str_le b c ≡ true → str_le a c ≡ true
unfolding str_le
str_le_trans [] b c h k = refl
str_le_trans (x ∷ a) [] c h k = cc
str_le_trans (x ∷ a) (y ∷ b) [] h k = cc
str_le_trans (x ∷ a) (y ∷ b) (z ∷ c) h k = ground (arith, str_le_trans a b c)

-- char::is_whitespace: the code points with the property White_Space.
unfoldable pub is_whitespace : ℕ → Bool
is_whitespace c =
    (leb 9 c && leb c 13)
    || c == 32
    || c == 133
    || c == 160
    || c == 5760
    || (leb 8192 c && leb c 8202)
    || c == 8232
    || c == 8233
    || c == 8239
    || c == 8287
    || c == 12288

unfoldable pub trim_start : Text → Text
unfolding is_whitespace
trim_start [] = []
trim_start (c ∷ s) = if is_whitespace c then trim_start s else c ∷ s

unfoldable pub trim_end : Text → Text
unfolding is_whitespace
trim_end [] = []
trim_end (c ∷ s) =
    let rest = trim_end s in if is_empty rest && is_whitespace c then [] else c ∷ rest

unfoldable pub trim : Text → Text
unfolding trim_start trim_end
trim s = trim_end (trim_start s)

-- `value.trim().is_empty()`
unfoldable pub is_blank : Text → Bool
unfolding trim
is_blank s = is_empty (trim s)
