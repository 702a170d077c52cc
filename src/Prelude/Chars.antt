-- ===== src/Prelude/Chars.antt =====
-- Rust strings cut at characters: prefixes, separators and the characters at the ends.
use Prim.Native.Nat.{ℕ, zero, suc, ◌+◌, ◌≤◌}
use mathlib.Core.Path.{◌≡◌, refl, ap, ◌∙◌}
use mathlib.Core.Bool.{Bool, true, false, ◌&&◌, ◌||◌, not}
use mathlib.Core.Option.{Option, none, some}
use mathlib.Core.List.{List, [], ◌∷◌, ◌++◌}
use native.Mathlib.Omega.{arith}
use nostr_vpn.Prelude.Tests.{leb, ◌==◌, if◌then◌else◌, map_option}
use nostr_vpn.Prelude.Lists.{is_empty, length, every}
use nostr_vpn.Prelude.Text.{Text, trim, trim_start, trim_end, is_whitespace}

-- `trim_start_matches` and `trim_end_matches` of one character.
unfoldable pub trim_start_matches : ℕ → Text → Text
trim_start_matches x [] = []
trim_start_matches x (c ∷ s) = let rest = trim_start_matches x s in if c == x then rest else c ∷ s

unfoldable pub trim_end_matches : ℕ → Text → Text
trim_end_matches x [] = []
trim_end_matches x (c ∷ s) =
    let rest = trim_end_matches x s in if is_empty rest && c == x then [] else c ∷ rest

-- `starts_with` and `ends_with` of one character.
unfoldable pub starts_with_char : ℕ → Text → Bool
starts_with_char x [] = false
starts_with_char x (c ∷ s) = c == x

unfoldable pub ends_with_char : ℕ → Text → Bool
ends_with_char x [] = false
ends_with_char x (c ∷ s) = if is_empty s then c == x else ends_with_char x s

abbrev pub to_ascii_lowercase : ℕ → ℕ
to_ascii_lowercase c = if leb 65 c && leb c 90 then c + 32 else c

abbrev pub is_ascii_alphanumeric : ℕ → Bool
is_ascii_alphanumeric c =
    (leb 48 c && leb c 57) || (leb 65 c && leb c 90) || (leb 97 c && leb c 122)

-- The printable ASCII characters but the space.
abbrev pub is_ascii_graphic : ℕ → Bool
is_ascii_graphic c = leb 33 c && leb c 126

-- `truncate`, of a text whose characters take one byte, and `chars().take(n)`.
unfoldable pub truncate : ℕ → Text → Text
truncate zero s = []
truncate (suc n) [] = []
truncate (suc n) (c ∷ s) = c ∷ truncate n s

unfoldable pub strip_prefix : Text → Text → Option Text
strip_prefix [] s = some s
strip_prefix (x ∷ p) [] = none
strip_prefix (x ∷ p) (c ∷ s) = if c == x then strip_prefix p s else none

-- `split_once`: what stands before the first `x` and what stands after it.
unfoldable pub split_once : ℕ → Text → Option (Text × Text)
split_once x [] = none
split_once x (c ∷ s) =
    if c == x then some ([], s) else map_option (split_once x s) (λ r. (c ∷ r.0, r.1))

-- `split`: the pieces between the separators, one more than there are separators.
unfoldable pub split : ℕ → Text → List Text
split x [] = [] ∷ []
split x (c ∷ s) =
    let pieces = split x s in
    if c == x then [] ∷ pieces else elim pieces [ [] ↦ [] | p ∷ ps ↦ (c ∷ p) ∷ ps ]

-- `join`
unfoldable pub join : ℕ → List Text → Text
join x [] = []
join x (p ∷ ps) = if is_empty ps then p else p ++ x ∷ join x ps

pub trim_start_matches-starts :
    (x : ℕ) (s : Text) → starts_with_char x (trim_start_matches x s) ≡ false
unfolding trim_start_matches starts_with_char
trim_start_matches-starts x [] = refl
trim_start_matches-starts x (c ∷ s) = ground (arith, trim_start_matches-starts x s)

pub trim_start_matches_fixed :
    (x : ℕ) (s : Text) → starts_with_char x s ≡ false → trim_start_matches x s ≡ s
unfolding trim_start_matches starts_with_char
trim_start_matches_fixed x [] h = refl
trim_start_matches_fixed x (c ∷ s) h = ground arith

pub trim_end_matches-ends : (x : ℕ) (s : Text) → ends_with_char x (trim_end_matches x s) ≡ false
unfolding trim_end_matches ends_with_char
trim_end_matches-ends x [] = refl
trim_end_matches-ends x (c ∷ s) = ground (arith, trim_end_matches-ends x s)

pub trim_end_matches_fixed :
    (x : ℕ) (s : Text) → ends_with_char x s ≡ false → trim_end_matches x s ≡ s
unfolding trim_end_matches ends_with_char
trim_end_matches_fixed x [] h = refl
trim_end_matches_fixed x (c ∷ []) h = ground arith
trim_end_matches_fixed x (c ∷ d ∷ s) h = ground (arith, trim_end_matches_fixed x (d ∷ s) h)

pub trim_start_matches-ends :
    (x : ℕ) (s : Text)
    → ends_with_char x s ≡ false
    → ends_with_char x (trim_start_matches x s) ≡ false
unfolding trim_start_matches ends_with_char
trim_start_matches-ends x [] h = refl
trim_start_matches-ends x (c ∷ []) h = ground arith
trim_start_matches-ends x (c ∷ d ∷ s) h = ground (arith, trim_start_matches-ends x (d ∷ s) h)

pub trim_end_matches-starts :
    (x : ℕ) (s : Text)
    → starts_with_char x s ≡ false
    → starts_with_char x (trim_end_matches x s) ≡ false
unfolding trim_end_matches starts_with_char
trim_end_matches-starts x [] h = refl
trim_end_matches-starts x (c ∷ s) h = ground arith

-- What does not start with `x` is not emptied.
pub trim_end_matches_some :
    (x : ℕ) (s : Text) → starts_with_char x s ≡ false → is_empty (trim_end_matches x s) ≡ is_empty s
unfolding trim_end_matches starts_with_char
trim_end_matches_some x [] h = refl
trim_end_matches_some x (c ∷ s) h = ground arith

pub length-trim_end_matches-le : (x : ℕ) (s : Text) → length (trim_end_matches x s) ≤ length s
unfolding trim_end_matches
length-trim_end_matches-le x [] = omega arith
length-trim_end_matches-le x (c ∷ s) = ground (arith, length-trim_end_matches-le x s)

pub length-truncate-le : (n : ℕ) (s : Text) → length (truncate n s) ≤ n
unfolding truncate
length-truncate-le zero s = omega arith
length-truncate-le (suc n) [] = omega arith
length-truncate-le (suc n) (c ∷ s) = omega (arith, length-truncate-le n s)

pub truncate-starts :
    (x n : ℕ) (s : Text) → starts_with_char x s ≡ false → starts_with_char x (truncate n s) ≡ false
unfolding truncate starts_with_char
truncate-starts x zero s h = refl
truncate-starts x (suc n) [] h = refl
truncate-starts x (suc n) (c ∷ s) h = h

-- No character is a `x`.
pub split_once_first :
    (x : ℕ) (s t : Text)
    → every (λ c. not (c == x)) s ≡ true
    → split_once x (s ++ x ∷ t) ≡ some (s, t)
unfolding split_once every
split_once_first x [] t h = ground arith
split_once_first x (c ∷ s) t h = ground (arith, split_once_first x s t)

trim_start-graphic : (s : Text) → every is_ascii_graphic s ≡ true → trim_start s ≡ s
unfolding trim_start every is_whitespace
trim_start-graphic [] h = refl
trim_start-graphic (c ∷ s) h = ground arith

trim_end-graphic : (s : Text) → every is_ascii_graphic s ≡ true → trim_end s ≡ s
unfolding trim_end every is_whitespace
trim_end-graphic [] h = refl
trim_end-graphic (c ∷ s) h = ground (arith, trim_end-graphic s)

pub trim-graphic : (s : Text) → every is_ascii_graphic s ≡ true → trim s ≡ s
unfolding trim
trim-graphic s h = ap trim_end (trim_start-graphic s h) ∙ trim_end-graphic s h
