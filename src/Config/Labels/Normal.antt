-- ===== src/Config/Labels/Normal.antt =====
-- What a normalised label looks like.
use mathlib.Core.Option.{some-injective}
use nostr_vpn.Prelude.{
  ℕ, zero, suc, ◌≤◌, ◌≡◌, refl, Bool, true, false, ◌&&◌, ◌||◌, not, none, some, [], ◌∷◌, leb, ◌==◌,
  if◌then◌else◌, length, is_empty, arith, Bool-cases, inl, inr, ◌∙◌, subst,
}
use nostr_vpn.Prelude.Text.{Text}
use nostr_vpn.Prelude.Chars.{
  trim_start_matches, trim_end_matches, ends_with_char, starts_with_char, truncate,
  trim_start_matches_fixed, trim_end_matches_fixed, trim_end_matches-ends, trim_start_matches-ends,
  trim_start_matches-starts, trim_end_matches-starts, truncate-starts, trim_end_matches_some,
  length-trim_end_matches-le, length-truncate-le,
}
use nostr_vpn.Config.Labels.{squash, normalize_magic_dns_label, max_label, cut_label, ltb}

-- a-z and 0-9
abbrev is_label_char : ℕ → Bool
is_label_char c = (leb 48 c && leb c 57) || (leb 97 c && leb c 122)

-- Lower-case letters and digits, with single dashes between them.
unfoldable pub is_dashed : Bool → Text → Bool
is_dashed previous_dash [] = true
is_dashed previous_dash (c ∷ s) =
    if is_label_char c then is_dashed false s else c == 45 && not previous_dash && is_dashed true s

-- A DNS label as RFC 1035 has it, in lower case and with no two dashes in a row.
pub record IsLabel (l : Text) : Type 0 where
  pub dashed : is_dashed false l ≡ true
  pub starts : starts_with_char 45 l ≡ false
  pub ends : ends_with_char 45 l ≡ false
  pub filled : is_empty l ≡ false
  pub short : length l ≤ 63

is_dashed-squash : (d : Bool) (s : Text) → is_dashed d (squash d s) ≡ true
unfolding is_dashed squash
is_dashed-squash d [] = refl
is_dashed-squash d (c ∷ s) = ground (arith, is_dashed-squash true s, is_dashed-squash false s)

squash_fixed : (d : Bool) (s : Text) → is_dashed d s ≡ true → squash d s ≡ s
unfolding is_dashed squash
squash_fixed d [] h = refl
squash_fixed d (c ∷ s) h = ground (arith, squash_fixed true s, squash_fixed false s)

is_dashed_weaken : (s : Text) → is_dashed true s ≡ true → is_dashed false s ≡ true
unfolding is_dashed
is_dashed_weaken [] h = refl
is_dashed_weaken (c ∷ s) h = ground arith

is_dashed-trim_start :
    (d : Bool) (s : Text) → is_dashed d s ≡ true → is_dashed false (trim_start_matches 45 s) ≡ true
unfolding is_dashed trim_start_matches
is_dashed-trim_start d [] h = refl
is_dashed-trim_start d (c ∷ s) h = ground (arith, is_dashed-trim_start true s, is_dashed_weaken s)

is_dashed-trim_end :
    (d : Bool) (s : Text) → is_dashed d s ≡ true → is_dashed d (trim_end_matches 45 s) ≡ true
unfolding is_dashed trim_end_matches
is_dashed-trim_end d [] h = refl
is_dashed-trim_end d (c ∷ s) h =
    ground (arith, is_dashed-trim_end true s, is_dashed-trim_end false s)

is_dashed-truncate :
    (n : ℕ) (d : Bool) (s : Text) → is_dashed d s ≡ true → is_dashed d (truncate n s) ≡ true
unfolding is_dashed truncate
is_dashed-truncate zero d s h = refl
is_dashed-truncate (suc n) d [] h = refl
is_dashed-truncate (suc n) d (c ∷ s) h =
    ground (arith, is_dashed-truncate n true s, is_dashed-truncate n false s)

truncate_filled : (n : ℕ) (s : Text) → is_empty s ≡ false → is_empty (truncate (suc n) s) ≡ false
unfolding truncate
truncate_filled n [] h = h
truncate_filled n (c ∷ s) h = refl

-- What the two trims leave of the characters.
record IsTrimmed (s : Text) : Type 0 where
  dashed : is_dashed false s ≡ true
  starts : starts_with_char 45 s ≡ false
  ends : ends_with_char 45 s ≡ false

trimmed : Text → Text
trimmed value = trim_start_matches 45 (trim_end_matches 45 (squash false value))

trimmed-IsTrimmed : (value : Text) → IsTrimmed (trimmed value)
unfolding trimmed
trimmed-IsTrimmed value = record {
  dashed = is_dashed-trim_start false _ (is_dashed-trim_end false _ (is_dashed-squash false value));
  starts = trim_start_matches-starts 45 (trim_end_matches 45 (squash false value));
  ends = trim_start_matches-ends 45 _ (trim_end_matches-ends 45 (squash false value));
}

cut-IsLabel : (s : Text) → IsTrimmed s → is_empty s ≡ false → IsLabel (cut_label s)
cut-IsLabel s h f = elim (Bool-cases (ltb max_label (length s))) [
  | inl e ↦ rw e (record {
    dashed = is_dashed-trim_end false _ (is_dashed-truncate 63 false s h.dashed);
    starts = trim_end_matches-starts 45 _ (truncate-starts 45 63 s h.starts);
    ends = trim_end_matches-ends 45 (truncate 63 s);
    filled = trim_end_matches_some 45 _ (truncate-starts 45 63 s h.starts) ∙ truncate_filled 62 s f;
    short = omega (arith, length-trim_end_matches-le 45 (truncate 63 s), length-truncate-le 63 s);
  })
  | inr e ↦ rw e (record {
    dashed = h.dashed;
    starts = h.starts;
    ends = h.ends;
    filled = f;
    short = ground arith;
  })
]

-- A cut label is not empty: the last test of the source does not fail.
normalize_magic_dns_label_lem :
    (value : Text)
    → normalize_magic_dns_label value
      ≡ (if is_empty (trimmed value) then none else some (cut_label (trimmed value)))
unfolding normalize_magic_dns_label trimmed
normalize_magic_dns_label_lem value = elim (Bool-cases (is_empty (trimmed value))) [
  | inl e ↦ rw e refl
  | inr e ↦ rw (e, (cut-IsLabel (trimmed value) (trimmed-IsTrimmed value) e).filled) refl
]

normalize_magic_dns_label-IsLabel :
    (value label : Text) → normalize_magic_dns_label value ≡ some label → IsLabel label
normalize_magic_dns_label-IsLabel value label h = elim (Bool-cases (is_empty (trimmed value))) [
  | inl e ↦ ground (arith, normalize_magic_dns_label_lem value)
  | inr e ↦
      let s : some (cut_label (trimmed value)) ≡ some label =
        ground (arith, normalize_magic_dns_label_lem value) in
      subst IsLabel (some-injective _ _ s) (cut-IsLabel _ (trimmed-IsTrimmed value) e)
]

trimmed_fixed : (label : Text) → IsLabel label → trimmed label ≡ label
unfolding trimmed
trimmed_fixed label l =
    rw
      (
        squash_fixed false label l.dashed,
        trim_end_matches_fixed 45 label l.ends,
        trim_start_matches_fixed 45 label l.starts,
      )
      refl

cut_fixed : (label : Text) → IsLabel label → cut_label label ≡ label
cut_fixed label l = ground (arith, l.short)

-- A DNS label is left as it is.
normalize_magic_dns_label_fixed :
    (label : Text) → IsLabel label → normalize_magic_dns_label label ≡ some label
normalize_magic_dns_label_fixed label l =
    ground (
      arith,
      normalize_magic_dns_label_lem label,
      trimmed_fixed label l,
      cut_fixed label l,
      l.filled,
    )

-- A label that a value is normalised to is a DNS label, of 1 to 63 lower-case letters, digits and
-- single dashes with no dash at either end, and a second normalisation leaves it as it is.
pub normalize_magic_dns_label_twice :
    (value label : Text)
    → normalize_magic_dns_label value ≡ some label
    → IsLabel label × (normalize_magic_dns_label label ≡ some label)
normalize_magic_dns_label_twice value label h =
    let l = normalize_magic_dns_label-IsLabel value label h in
    (l, normalize_magic_dns_label_fixed label l)
