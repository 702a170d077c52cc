-- ===== src/Config/Routes/Idempotent.antt =====
-- A normalised route is left as it is.
use mathlib.Core.Option.{some-injective}
use nostr_vpn.Prelude.{
  subst, ℕ, ◌≤◌, ◌≡◌, refl, sym, ap, ◌∙◌, Bool, true, ◌&&◌, ◌||◌, not, Option, none, some, ◌∷◌,
  arith, Bool-cases, Option-cases, inl, inr, leb, ltb, ◌==◌, every, every-append, every_weaken,
  map_option,
}
use nostr_vpn.Prelude.Text.{Text, trim}
use nostr_vpn.Prelude.Chars.{split_once, split_once_first, is_ascii_graphic, trim-graphic}
use nostr_vpn.Prelude.Decimal.{show, every-show, parse_unsigned-show}
use nostr_vpn.Net.{IpAddr}
use nostr_vpn.Net.Parser.{parse_ip_addr}
use nostr_vpn.Config.Routes.{
  parse_route, network_of, checked_route, route_of_parts, print_route, max_bits, route_text,
  normalize_advertised_route,
}
use nostr_vpn.Config.Routes.Masks.{network_of_twice, max_bits-network_of}

-- The characters of a printed address: digits, a to f, the dot and the colon.
abbrev is_addr_char : ℕ → Bool
is_addr_char c = c == 46 || (leb 48 c && leb c 58) || (leb 97 c && leb c 102)

-- What the standard library says of a printed address: it has these characters, and `parse` reads
-- the address back.
pub record ReadsBack (display : IpAddr → Text) (a : IpAddr) : Type 0 where
  pub reads : parse_ip_addr (display a) ≡ some a
  pub chars : every is_addr_char (display a) ≡ true

checked_some :
    (a : IpAddr) (bits : ℕ)
    → bits ≤ max_bits a
    → checked_route (some a) (some bits) ≡ some (a, bits)
unfolding checked_route
checked_some a bits h = elim (Bool-cases (ltb (max_bits a) bits)) [
  | inl e ↦ absurd (ground arith)
  | inr e ↦ rw e refl
]

checked_le :
    (o : Option IpAddr) (b : Option ℕ) (r : IpAddr × ℕ)
    → checked_route o b ≡ some r
    → r.1 ≤ max_bits r.0
unfolding checked_route
checked_le none b r h = cc
checked_le (some addr) none r h = cc
checked_le (some addr) (some bits) r h = elim (Bool-cases (ltb (max_bits addr) bits)) [
  | inl e ↦ absurd (ground arith)
  | inr e ↦
      let s : some (addr, bits) ≡ some r = ground arith in
      subst (λ (x : IpAddr × ℕ). x.1 ≤ max_bits x.0) (some-injective _ _ s) (ground arith)
]

route_of_parts_le :
    (o : Option (Text × Text)) (r : IpAddr × ℕ) → route_of_parts o ≡ some r → r.1 ≤ max_bits r.0
route_of_parts_le none r h = cc
route_of_parts_le (some (addr, bits)) r h = checked_le _ _ r h

module _ (display : IpAddr → Text) (a : IpAddr) (r : ReadsBack display a) where
  display_graphic : every is_ascii_graphic (display a) ≡ true
  display_graphic =
      every_weaken is_addr_char is_ascii_graphic (display a) (λ c h. ground arith) r.chars

  display_slashless : every (λ c. not (c == 47)) (display a) ≡ true
  display_slashless =
      every_weaken is_addr_char (λ c. not (c == 47)) (display a) (λ c h. ground arith) r.chars

  show_graphic : (n : ℕ) → every is_ascii_graphic (show n) ≡ true
  show_graphic n = every-show is_ascii_graphic (λ c h. ground arith) n

  route_graphic : (bits : ℕ) → every is_ascii_graphic (route_text display a bits) ≡ true
  unfolding every
  route_graphic bits = ground (
    arith,
    every-append is_ascii_graphic (display a) (47 ∷ show bits),
    display_graphic,
    show_graphic bits,
  )

  -- A route with the network of its own is read as it was printed.
  parse_route-route_text :
      (bits : ℕ)
      → bits ≤ max_bits a
      → bits ≤ 255
      → parse_route (route_text display a bits) ≡ some (a, bits)
  unfolding parse_route
  parse_route-route_text bits h l =
      rw
        (
          trim-graphic (route_text display a bits) (route_graphic bits),
          split_once_first 47 (display a) (show bits) display_slashless,
          trim-graphic (display a) display_graphic,
          r.reads,
          trim-graphic (show bits) (show_graphic bits),
          parse_unsigned-show 255 bits l,
        )
        (ground arith)

-- A prefix that is read is no longer than the address.
parse_route-le : (value : Text) (r : IpAddr × ℕ) → parse_route value ≡ some r → r.1 ≤ max_bits r.0
unfolding parse_route
parse_route-le value r h = route_of_parts_le (split_once 47 (trim value)) r h

max_bits-le : (a : IpAddr) → max_bits a ≤ 128
max_bits-le (IpAddr.v4 ip) = omega arith
max_bits-le (IpAddr.v6 ip) = omega arith

-- Where the standard library reads the printed network back, a normalised route is normalised to
-- itself: what a node announces is what the others keep.
pub normalize_advertised_route_fixed :
    (display : IpAddr → Text) (value route : Text)
    → normalize_advertised_route display value ≡ some route
    → ((a : IpAddr) (bits : ℕ)
        → parse_route value ≡ some (a, bits)
        → ReadsBack display (network_of a bits))
    → normalize_advertised_route display route ≡ some route
unfolding normalize_advertised_route
normalize_advertised_route_fixed display value route h reads =
    elim (Option-cases (parse_route value)) [
      | inl e ↦ ground arith
      | inr ((a, bits), e) ↦
          let network = network_of a bits in
          let le : bits ≤ max_bits network =
            rw (max_bits-network_of a bits) (parse_route-le value (a, bits) e) in
          let text : some (route_text display network bits) ≡ some route =
            sym (ap (λ o. map_option o (print_route display)) e) ∙ h in
          let again =
            parse_route-route_text display network (reads a bits e) bits le
              (omega (arith, max_bits-le network)) in
          subst (λ s. normalize_advertised_route display s ≡ some s) (some-injective _ _ text)
            (ap (λ o. map_option o (print_route display)) again
              ∙ ap (λ n. some (route_text display n bits)) (network_of_twice a bits))
    ]
