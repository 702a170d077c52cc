-- ===== src/Net/Parser.antt =====
-- core::net::parser: `parse` of IpAddr and of SocketAddr, over the code points of the text. A
-- reader takes what it needs from the front and leaves the rest.
use nostr_vpn.Prelude.{
  ℕ, zero, suc, ◌+◌, ◌-◌, ◌*◌, Bool, true, false, ◌&&◌, not, Option, none, some, List, [], ◌∷◌, ltb,
  leb, ◌==◌, if◌then◌else◌, length, ◌++◌, or_else, map_option, is_empty, ◌/◌, ◌%◌,
}
use nostr_vpn.Prelude.Text.{Text}
use nostr_vpn.Net.{IpAddr, SocketAddr}

abbrev pub Reader : Type 0 → Type 0
Reader A = Text → Option (A × Text)

infixl 5 ◌>>=◌ ◌>>◌
abbrev ◌>>=◌ : {A B : Type 0} → Reader A → (A → Reader B) → Reader B
◌>>=◌ m f s = elim (m s) [ none ↦ none | some (a, rest) ↦ f a rest ]

abbrev ◌>>◌ : {A B : Type 0} → Reader A → Reader B → Reader B
m >> n = m >>= λ _. n

abbrev pure : {A : Type 0} → A → Reader A
pure a s = some (a, s)

abbrev read_given_char : ℕ → Reader (Unit {0})
read_given_char c [] = none
read_given_char c (x ∷ s) = if x == c then some (tt, s) else none

-- char::to_digit
abbrev to_digit : ℕ → ℕ → Option ℕ
to_digit radix c =
    if leb 48 c && leb c 57
    then (if ltb (c - 48) radix then some (c - 48) else none)
    else if leb 97 c && leb c 102
    then (if ltb (c - 87) radix then some (c - 87) else none)
    else if leb 65 c && leb c 70
    then (if ltb (c - 55) radix then some (c - 55) else none)
    else none

-- The digits at the front, their number and their value.
read_digits : ℕ → ℕ → ℕ → Text → (ℕ × ℕ) × Text
read_digits radix count value [] = ((count, value), [])
read_digits radix count value (c ∷ s) = elim (to_digit radix c) [
  | none ↦ ((count, value), c ∷ s)
  | some d ↦ read_digits radix (count + 1) (value * radix + d) s
]

abbrev leads_with_zero : Text → Bool
leads_with_zero [] = false
leads_with_zero (c ∷ s) = c == 48

-- `read_number` with at most `digits` digits, for a type of numbers up to `limit`.
unfoldable pub read_number : ℕ → ℕ → Bool → ℕ → Reader ℕ
unfolding read_digits
read_number radix digits allow_zero_prefix limit s =
    let ((count, value), rest) = read_digits radix 0 0 s in
    if count == 0
    then none
    else if ltb digits count
    then none
    else if not allow_zero_prefix && leads_with_zero s && ltb 1 count
    then none
    else if ltb limit value
    then none
    else some (value, rest)

-- A port or a scope id may have any number of digits: no text has more than its length.
abbrev read_unbounded : ℕ → Reader ℕ
read_unbounded limit s = read_number 10 (length s) true limit s

unfoldable pub read_ipv4_addr : Reader ℕ
unfolding read_number
read_ipv4_addr = do
  a ← read_number 10 3 false 255
  read_given_char 46
  b ← read_number 10 3 false 255
  read_given_char 46
  c ← read_number 10 3 false 255
  read_given_char 46
  d ← read_number 10 3 false 255
  pure (((a * 256 + b) * 256 + c) * 256 + d)

-- `read_separator(':', index, inner)`
abbrev separated : {A : Type 0} → Bool → Reader A → Reader A
separated true inner = inner
separated false inner = do read_given_char 58; inner

-- `read_groups` for the groups that are left, the first of them with no separator before it: the
-- groups that were read, and whether an IPv4 address ended them.
read_groups : ℕ → Bool → Text → (List ℕ × Bool) × Text
unfolding read_ipv4_addr
read_groups zero at_start s = (([], false), s)
read_groups (suc left) at_start s =
    let ipv4 : Option (ℕ × Text) =
      if leb 1 left then separated at_start read_ipv4_addr s else none in
    elim ipv4 [
      | some (v, rest) ↦ (((v / 65536) ∷ (v % 65536) ∷ [], true), rest)
      | none ↦ elim (separated at_start (read_number 16 4 true 65535) s) [
        | none ↦ (([], false), s)
        | some (g, rest) ↦
            let ((groups, ipv4_end), rest') = read_groups left false rest in
            ((g ∷ groups, ipv4_end), rest')
      ]
    ]

abbrev zeros : ℕ → List ℕ
zeros zero = []
zeros (suc n) = 0 ∷ zeros n

abbrev join_groups : ℕ → List ℕ → ℕ
join_groups acc [] = acc
join_groups acc (g ∷ gs) = join_groups (acc * 65536 + g) gs

-- The groups after `::`, in front of which zeros fill the address up.
abbrev read_tail : List ℕ → Reader ℕ
read_tail head s =
    let ((tail, ipv4_end), rest) = read_groups (7 - length head) true s in
    some (join_groups 0 (head ++ zeros (8 - length head - length tail) ++ tail), rest)

unfoldable pub read_ipv6_addr : Reader ℕ
unfolding read_groups
read_ipv6_addr s =
    let ((head, ipv4_end), rest) = read_groups 8 true s in
    if length head == 8
    then some (join_groups 0 head, rest)
    else if ipv4_end
    then none
    else (do read_given_char 58; read_given_char 58; read_tail head) rest

abbrev map_reader : {A B : Type 0} → (A → B) → Reader A → Reader B
map_reader f m s = map_option (m s) (λ r. (f r.0, r.1))

abbrev read_ip_addr : Reader IpAddr
read_ip_addr s =
    or_else (map_reader IpAddr.v4 read_ipv4_addr s) (map_reader IpAddr.v6 read_ipv6_addr s)

abbrev read_socket_addr_v4 : Reader SocketAddr
read_socket_addr_v4 = do
  ip ← read_ipv4_addr
  read_given_char 58
  port ← read_unbounded 65535
  pure (SocketAddr.v4 ip port)

-- `read_scope_id().unwrap_or(0)`
abbrev read_scope : Reader ℕ
read_scope s = or_else ((do read_given_char 37; read_unbounded 4294967295) s) (some (0, s))

abbrev read_socket_addr_v6 : Reader SocketAddr
read_socket_addr_v6 = do
  read_given_char 91
  ip ← read_ipv6_addr
  scope ← read_scope
  read_given_char 93
  read_given_char 58
  port ← read_unbounded 65535
  pure (SocketAddr.v6 ip port 0 scope)

-- `parse_with`: the whole text must be read.
abbrev whole : {A : Type 0} → Option (A × Text) → Option A
whole none = none
whole (some (a, rest)) = if is_empty rest then some a else none

unfoldable pub parse_ip_addr : Text → Option IpAddr
unfolding read_ipv4_addr read_ipv6_addr
parse_ip_addr s = whole (read_ip_addr s)

unfoldable pub parse_socket_addr : Text → Option SocketAddr
unfolding read_ipv4_addr read_ipv6_addr
parse_socket_addr s = whole (or_else (read_socket_addr_v4 s) (read_socket_addr_v6 s))
