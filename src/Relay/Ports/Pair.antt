-- ===== src/Relay/Ports/Pair.antt =====
-- bind_pair: what a pair that it returns is, and that it finds one if two ports are free.
use nostr_vpn.Prelude.{
  ℕ, zero, suc, ◌+◌, ◌<◌, ◌≡◌, ◌≢◌, refl, Bool, true, false, ◌⊎◌, inl, some, arith,
}
use nostr_vpn.Relay.Ports.{
  RelayPortRange, len, next_after, BindOutcome, bound, addr_in_use, Search, found, exhausted,
  failed, out_of_fuel, second_loop, first_loop, PortPair,
}
use nostr_vpn.Relay.Ports.Cycle.{
  ahead_before, InRange, ahead, next_after-InRange, ahead-lt-len, ahead-next_after,
  ahead-next_after_self, ahead_self,
}

-- A socket on an explicit port reports that port.
abbrev pub ReportsPort : (ℕ → BindOutcome) → Type 0
ReportsPort bind = (p q : ℕ) → bind p ≡ bound (some q) → p ≡ q

-- The only reason for which a bind in the range fails is that the port is in use.
abbrev pub OnlyInUse : (ℕ → BindOutcome) → RelayPortRange → Type 0
OnlyInUse bind r = (p : ℕ) → InRange r p → (bind p ≡ bound (some p)) ⊎ (bind p ≡ addr_in_use)

abbrev pub IsFound : {A : Type 0} → Search A → Type 0
IsFound (found a) = Unit
IsFound exhausted = ⊥
IsFound (failed e) = ⊥
IsFound out_of_fuel = ⊥

-- Two distinct ports of the range that could be bound, each reported as it was asked for.
pub record Usable (bind : ℕ → BindOutcome) (r : RelayPortRange) (p : PortPair) : Type 0 where
  pub distinct : p.first ≢ p.second
  pub first_in : InRange r p.first
  pub second_in : InRange r p.second
  pub first_bound : bind p.first ≡ bound (some p.first)
  pub second_bound : bind p.second ≡ bound (some p.second)
  pub first_reported : p.requester_port ≡ p.first
  pub second_reported : p.target_port ≡ p.second

module _ (bind : ℕ → BindOutcome) (r : RelayPortRange) where
  pub second_loop-found :
      (fuel first start : ℕ) (tried : Bool) (second s q : ℕ)
      → InRange r second
      → second_loop bind r fuel first start tried second ≡ found (s, q)
      → (s ≢ first) × InRange r s × (bind s ≡ bound (some q))
  unfolding second_loop
  second_loop-found zero first start tried second s q h e = cc
  second_loop-found (suc fuel) first start tried second s q h e = ground (
    arith,
    second_loop-found fuel first start true (next_after r second) s q,
    next_after-InRange r second h,
  )

  -- The search ends within the fuel: `first` is reached before the round is over.
  pub second_loop-ends :
      (fuel first start : ℕ) (tried : Bool) (second : ℕ)
      → InRange r first
      → InRange r second
      → ahead r second first < fuel
      → second_loop bind r fuel first start tried second ≢ out_of_fuel
  unfolding second_loop
  second_loop-ends zero first start tried second hf hs lt e = elim lt [ ]
  second_loop-ends (suc fuel) first start tried second hf hs lt e = ground (
    arith,
    second_loop-ends fuel first start true (next_after r second) hf
        (next_after-InRange r second hs),
    ahead-next_after r second first hs hf,
  )

  pub second_loop-finds :
      (fuel first : ℕ) (tried : Bool) (second t : ℕ)
      → InRange r first
      → InRange r second
      → InRange r t
      → OnlyInUse bind r
      → bind t ≡ bound (some t)
      → (tried ≡ false) ⊎ (suc (ahead r second first) < len r)
      → ahead r second t < ahead r second first
      → ahead r second first < fuel
      → IsFound (second_loop bind r fuel first (next_after r first) tried second)
  unfolding second_loop
  second_loop-finds zero first tried second t hf hs ht only free going before lt = elim lt [ ]
  second_loop-finds (suc fuel) first tried second t hf hs ht only free going before lt = ground (
    arith,
    only second hs,
    ahead_self r first,
    ahead-next_after_self r first hf,
    ahead-next_after r second first hs hf,
    ahead-next_after r second t hs ht,
    ahead-lt-len r second first hs hf,
    second_loop-finds fuel first true (next_after r second) t hf (next_after-InRange r second hs) ht
        only free,
  )

  pub first_loop-found :
      (fuel start : ℕ) (tried : Bool) (first : ℕ) (p : PortPair)
      → ReportsPort bind
      → InRange r first
      → first_loop bind r fuel start tried first ≡ found p
      → Usable bind r p
  unfolding first_loop
  first_loop-found zero start tried first p reports h e = cc
  first_loop-found (suc fuel) start tried first p reports h e = ground (
    arith,
    first_loop-found fuel start true (next_after r first) p reports (next_after-InRange r first h),
    second_loop-found (len r + 1) first (next_after r first) false (next_after r first) p.second
        p.target_port (next_after-InRange r first h),
    reports first p.requester_port,
    reports p.second p.target_port,
  )

  second_loop_enough :
      (first : ℕ)
      → InRange r first
      → second_loop bind r (len r + 1) first (next_after r first) false (next_after r first)
        ≢ out_of_fuel
  second_loop_enough first hf =
      let next = next_after-InRange r first hf in
      second_loop-ends (len r + 1) first (next_after r first) false (next_after r first) hf next
        (omega (arith, ahead-lt-len r (next_after r first) first next hf))

  -- How many more rounds the outer loop may need.
  abbrev pub rounds : ℕ → Bool → ℕ → ℕ
  rounds start true first = ahead r first start
  rounds start false first = len r

  pub first_loop-ends :
      (fuel start : ℕ) (tried : Bool) (first : ℕ)
      → InRange r start
      → InRange r first
      → (tried ≡ true) ⊎ (first ≡ start)
      → rounds start tried first < fuel
      → first_loop bind r fuel start tried first ≢ out_of_fuel
  unfolding first_loop
  first_loop-ends zero start tried first hs hf re lt e = elim lt [ ]
  first_loop-ends (suc fuel) start tried first hs hf re lt e = ground (
    arith,
    first_loop-ends fuel start true (next_after r first) hs (next_after-InRange r first hf)
        (inl refl),
    ahead-next_after r first start hf hs,
    ahead-next_after_self r first hf,
    second_loop_enough first hf,
  )

  partner-IsFound :
      (first t : ℕ)
      → InRange r first
      → InRange r t
      → OnlyInUse bind r
      → bind t ≡ bound (some t)
      → t ≢ first
      → IsFound
          (second_loop bind r (len r + 1) first (next_after r first) false (next_after r first))
  partner-IsFound first t hf ht only free ne =
      let next = next_after-InRange r first hf in
      second_loop-finds (len r + 1) first false (next_after r first) t hf next ht only free
        (inl refl) (ahead_before r first t hf ht ne)
        (omega (arith, ahead-lt-len r (next_after r first) first next hf))

  -- With two free ports `a` and `b` the outer loop stops at `a` or before.
  pub first_loop-finds :
      (fuel start : ℕ) (tried : Bool) (first a b : ℕ)
      → InRange r start
      → InRange r first
      → InRange r a
      → InRange r b
      → OnlyInUse bind r
      → bind a ≡ bound (some a)
      → bind b ≡ bound (some b)
      → a ≢ b
      → (tried ≡ true) ⊎ (first ≡ start)
      → ahead r first a < rounds start tried first
      → rounds start tried first < fuel
      → IsFound (first_loop bind r fuel start tried first)
  unfolding first_loop
  first_loop-finds zero start tried first a b hs hf ha hb only fa fb ne re before lt = elim lt [ ]
  first_loop-finds (suc fuel) start tried first a b hs hf ha hb only fa fb ne re before lt =
      ground (
        arith,
        only first hf,
        first_loop-finds fuel start true (next_after r first) a b hs (next_after-InRange r first hf)
            ha hb only fa fb ne,
        partner-IsFound first a hf ha only fa,
        partner-IsFound first b hf hb only fb,
        ahead_self r start,
        ahead_before r first a hf ha,
        ahead-next_after r first a hf ha,
        ahead-next_after r first start hf hs,
        ahead-next_after_self r first hf,
        second_loop_enough first hf,
      )
