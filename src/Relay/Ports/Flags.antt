-- ===== src/Relay/Ports/Flags.antt =====
-- What relay_port_range checks at the start of the program, and what it is good for: as long as
-- fewer sessions than the configured number hold their two ports, bind_pair finds another pair.
use nostr_vpn.Prelude.{
  ℕ, zero, suc, ◌+◌, ◌*◌, ◌≤◌, ◌<◌, ◌≡◌, ◌≢◌, refl, Bool, true, false, not, ◌⊎◌, inl, inr, some,
  List, [], ◌∷◌, arith, ◌==◌, if◌then◌else◌, length, any, keep, Bool-cases, length-keep-le,
}
use nostr_vpn.Prelude.Results.{ok}
use nostr_vpn.Prelude.Text.{Text}
use nostr_vpn.Relay.Ports.{
  RelayPortRange, RelayPortAllocator, RelayLegPair, Args, relay_port_range, new_allocator, len,
  BindOutcome, bound, addr_in_use, AddressFormat, bind_pair, contains,
}
use nostr_vpn.Relay.Ports.Pair.{OnlyInUse}
use nostr_vpn.Relay.Ports.Allocator.{IsReady, bind_pair_succeeds}

-- A range that the flags may configure.
pub record IsConfigured (args : Args) (r : RelayPortRange) : Type 0 where
  pub start_flag : args.relay_port_range_start ≡ some r.start
  pub end_flag : args.relay_port_range_end ≡ some r.end
  pub positive : 0 < r.start
  pub ordered : r.start ≤ r.end
  pub has_pair : 2 ≤ len r
  pub has_room : 2 * args.max_active_sessions ≤ len r
  pub relay_enabled : args.disable_relay ≡ false
  pub apart : (args.enable_nat_assist ≡ false) ⊎ (contains r args.nat_assist_port ≡ false)

-- The accepted flags give a range with a port pair for every session that may be active, apart
-- from the port of the NAT assist service.
pub relay_port_range-IsConfigured :
    (args : Args) (r : RelayPortRange) → relay_port_range args ≡ ok (some r) → IsConfigured args r
unfolding relay_port_range
relay_port_range-IsConfigured args r h = ground arith

pub new_allocator-IsReady :
    (args : Args) (r : RelayPortRange)
    → relay_port_range args ≡ ok (some r)
    → IsReady (new_allocator r)
unfolding new_allocator
new_allocator-IsReady args r h = omega (arith, (relay_port_range-IsConfigured args r h).ordered)

abbrev other : ℕ → ℕ → Bool
other q x = not (x == q)

length-keep-lt :
    (q : ℕ) (held : List ℕ)
    → any (λ x. x == q) held ≡ true
    → length (keep (other q) held) < length held
unfolding any keep
length-keep-lt q [] h = cc
length-keep-lt q (x ∷ held) h = ground (arith, length-keep-lt q held, length-keep-le (other q) held)

any-keep :
    (p q : ℕ) (held : List ℕ)
    → p ≢ q
    → any (λ x. x == p) (keep (other q) held) ≡ any (λ x. x == p) held
unfolding any keep
any-keep p q [] ne = refl
any-keep p q (x ∷ held) ne = ground (arith, any-keep p q held ne)

-- Among `n` consecutive ports, fewer than `n` held ones leave one free.
free_port :
    (n start : ℕ) (held : List ℕ)
    → length held < n
    → (p : ℕ) × (start ≤ p) × (p < start + n) × (any (λ x. x == p) held ≡ false)
free_port zero start held h = elim h [ ]
free_port (suc n) start held h = elim (Bool-cases (any (λ x. x == start + n) held)) [
  | inr e ↦ (start + n, omega arith, omega arith, e)
  | inl e ↦
      let (p, lo, hi, f) =
        free_port n start (keep (other (start + n)) held)
          (omega (arith, length-keep-lt (start + n) held e)) in
      (p, lo, omega arith, rw (← any-keep p (start + n) held (omega arith)) f)
]

fresh :
    (p q : ℕ) (held : List ℕ)
    → any (λ x. x == q) (p ∷ held) ≡ false
    → (p ≢ q) × (any (λ x. x == q) held ≡ false)
unfolding any
fresh p q held h = ground arith

-- The operating system while the ports of `held` are taken and no others.
pub bind_with : List ℕ → ℕ → BindOutcome
bind_with held p = if any (λ x. x == p) held then addr_in_use else bound (some p)

bind_with_only : (held : List ℕ) (r : RelayPortRange) → OnlyInUse (bind_with held) r
unfolding bind_with
bind_with_only held r p h = ground arith

bind_free :
    (p : ℕ) (held : List ℕ) → any (λ x. x == p) held ≡ false → bind_with held p ≡ bound (some p)
unfolding bind_with
bind_free p held e = rw e

-- Under accepted flags, with a host that can be parsed and a cursor in the range, the search cannot
-- run dry below the configured number of sessions: while the sessions hold two ports fewer than all
-- of them would, and nothing else holds a port of the range, there is another pair.
pub bind_pair_has_room :
    (format : AddressFormat) (args : Args) (a : RelayPortAllocator) (held : List ℕ) (host : Text)
    (ip : format.Ip)
    → relay_port_range args ≡ ok (some a.range)
    → format.parse_ip host ≡ some ip
    → IsReady a
    → length held + 2 ≤ 2 * args.max_active_sessions
    → (legs : RelayLegPair) × ((bind_pair format (bind_with held) a host).1 ≡ some (ok legs))
unfolding bind_with
bind_pair_has_room format args a held host ip flags parsed ready room =
    let c = relay_port_range-IsConfigured args a.range flags in
    let (p, plo, phi, pfree) =
      free_port (len a.range) a.range.start held (omega (arith, c.has_room)) in
    let (q, qlo, qhi, qfree) =
      free_port (len a.range) a.range.start (p ∷ held) (omega (arith, c.has_room)) in
    bind_pair_succeeds format (bind_with held) a host p q ip parsed ready
      (bind_with_only held a.range) (plo, omega arith) (qlo, omega arith) (fresh p q held qfree).0
      (bind_free p held pfree) (bind_free q held (fresh p q held qfree).1)
