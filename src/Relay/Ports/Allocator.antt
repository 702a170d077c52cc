-- ===== src/Relay/Ports/Allocator.antt =====
-- RelayPortAllocator::bind_pair as its callers see it.
use nostr_vpn.Prelude.{Option-cases, ℕ, ◌+◌, ◌≡◌, ◌≢◌, refl, false, inl, inr, none, some, arith}
use nostr_vpn.Prelude.Text.{Text}
use nostr_vpn.Relay.Ports.{
  failed, found, exhausted, out_of_fuel, finish, Search, RelayPortRange, RelayPortAllocator,
  RelayLegPair, len, BindOutcome, bound, PortPair, AddressFormat, bind_pair, search_pair, ok,
}
use nostr_vpn.Relay.Ports.Cycle.{InRange, next_after-InRange, ahead-lt-len}
use nostr_vpn.Relay.Ports.Pair.{
  Usable, ReportsPort, OnlyInUse, IsFound, first_loop-found, first_loop-ends, first_loop-finds,
}

-- The cursor of the allocator stands in its range.
abbrev pub IsReady : RelayPortAllocator → Type 0
IsReady a = InRange a.range a.next_port

-- A pair of legs on two ports of the range that were free, advertised under these ports.
pub record IsLegPair (format : AddressFormat) (bind : ℕ → BindOutcome) (r : RelayPortRange)
    (ip : format.Ip) (legs : RelayLegPair) : Type 0 where
  pub distinct : legs.requester_socket ≢ legs.target_socket
  pub requester_in : InRange r legs.requester_socket
  pub target_in : InRange r legs.target_socket
  pub requester_bound : bind legs.requester_socket ≡ bound (some legs.requester_socket)
  pub target_bound : bind legs.target_socket ≡ bound (some legs.target_socket)
  pub requester_advertised :
      legs.requester_ingress_endpoint ≡ format.endpoint ip legs.requester_socket
  pub target_advertised : legs.target_ingress_endpoint ≡ format.endpoint ip legs.target_socket

module _ (format : AddressFormat) (bind : ℕ → BindOutcome) (a : RelayPortAllocator)
    (host : Text) where
  search_ends : IsReady a → search_pair format bind a ≢ out_of_fuel
  search_ends h =
      first_loop-ends bind a.range (len a.range + 1) a.next_port false a.next_port h h (inr refl)
        (omega arith)

  search_finds :
      (p q : ℕ)
      → IsReady a
      → OnlyInUse bind a.range
      → InRange a.range p
      → InRange a.range q
      → p ≢ q
      → bind p ≡ bound (some p)
      → bind q ≡ bound (some q)
      → IsFound (search_pair format bind a)
  search_finds p q h only hp hq ne fp fq =
      first_loop-finds bind a.range (len a.range + 1) a.next_port false a.next_port p q h h hp hq
        only fp fq ne (inr refl) (ahead-lt-len a.range a.next_port p h hp) (omega arith)

  -- From a cursor in the range the call ends: with a pair or with an error.
  pub bind_pair-ends : IsReady a → (bind_pair format bind a host).1 ≢ none
  unfolding bind_pair
  bind_pair-ends h = ground (arith, search_ends h, Option-cases (format.parse_ip host))

  search-Usable :
      (p : PortPair)
      → ReportsPort bind
      → IsReady a
      → search_pair format bind a ≡ found p
      → Usable bind a.range p
  search-Usable p reports h =
      first_loop-found bind a.range (len a.range + 1) a.next_port false a.next_port p reports h

  finish-IsReady :
      (ip : format.Ip) (s : Search PortPair)
      → ReportsPort bind
      → IsReady a
      → search_pair format bind a ≡ s
      → ((finish format bind a ip s).0.range ≡ a.range) × IsReady (finish format bind a ip s).0
  finish-IsReady ip (found p) reports h e =
      (refl, next_after-InRange a.range p.second (search-Usable p reports h e).second_in)
  finish-IsReady ip exhausted reports h e = (refl, h)
  finish-IsReady ip (failed x) reports h e = (refl, h)
  finish-IsReady ip out_of_fuel reports h e = (refl, h)

  -- If a socket on an explicit port reports that port and the cursor is in the range, the range is
  -- as before and the cursor is in it again, whether or not there is a pair.
  bind_pair-IsReady :
      ReportsPort bind
      → IsReady a
      → ((bind_pair format bind a host).0.range ≡ a.range)
        × IsReady (bind_pair format bind a host).0
  unfolding bind_pair
  bind_pair-IsReady reports h = elim (Option-cases (format.parse_ip host)) [
    | inl e ↦ rw e (refl, h)
    | inr (ip, e) ↦ rw e (finish-IsReady ip (search_pair format bind a) reports h refl)
  ]

  finish-IsLegPair :
      (ip : format.Ip) (s : Search PortPair) (legs : RelayLegPair)
      → ReportsPort bind
      → IsReady a
      → search_pair format bind a ≡ s
      → (finish format bind a ip s).1 ≡ some (ok legs)
      → IsLegPair format bind a.range ip legs
  finish-IsLegPair ip (found p) legs reports h e r =
      let u = search-Usable p reports h e in
      record {
        distinct = ground (arith, u.distinct);
        requester_in = ground (arith, u.first_in);
        target_in = ground (arith, u.second_in);
        requester_bound = ground (arith, u.first_bound);
        target_bound = ground (arith, u.second_bound);
        requester_advertised = ground (arith, u.first_reported);
        target_advertised = ground (arith, u.second_reported);
      }
  finish-IsLegPair ip exhausted legs reports h e r = cc
  finish-IsLegPair ip (failed x) legs reports h e r = cc
  finish-IsLegPair ip out_of_fuel legs reports h e r = cc

  -- If a socket on an explicit port reports that port and the cursor is in the range, what is
  -- returned is a pair of distinct ports of the range, both of them bound just now, each advertised
  -- on the parsed host.
  pub bind_pair-IsLegPair :
      (legs : RelayLegPair)
      → ReportsPort bind
      → IsReady a
      → (bind_pair format bind a host).1 ≡ some (ok legs)
      → (ip : format.Ip) × (format.parse_ip host ≡ some ip) × IsLegPair format bind a.range ip legs
  unfolding bind_pair
  bind_pair-IsLegPair legs reports h e = elim (Option-cases (format.parse_ip host)) [
    | inl n ↦ ground arith
    | inr (ip, n) ↦
        (ip, n, finish-IsLegPair ip (search_pair format bind a) legs reports h refl (ground arith))
  ]

  finish-ok :
      (ip : format.Ip) (s : Search PortPair)
      → IsFound s
      → (legs : RelayLegPair) × ((finish format bind a ip s).1 ≡ some (ok legs))
  finish-ok ip (found p) h = (_, refl)
  finish-ok ip exhausted h = absurd h
  finish-ok ip (failed x) h = absurd h
  finish-ok ip out_of_fuel h = absurd h

  -- If the host can be parsed, the cursor is in the range, two ports of the range are free, and no
  -- bind in the range fails but for a port in use, there is a pair.
  pub bind_pair_succeeds :
      (p q : ℕ) (ip : format.Ip)
      → format.parse_ip host ≡ some ip
      → IsReady a
      → OnlyInUse bind a.range
      → InRange a.range p
      → InRange a.range q
      → p ≢ q
      → bind p ≡ bound (some p)
      → bind q ≡ bound (some q)
      → (legs : RelayLegPair) × ((bind_pair format bind a host).1 ≡ some (ok legs))
  unfolding bind_pair
  bind_pair_succeeds p q ip e h only hp hq ne fp fq =
      rw e (finish-ok ip (search_pair format bind a) (search_finds p q h only hp hq ne fp fq))
