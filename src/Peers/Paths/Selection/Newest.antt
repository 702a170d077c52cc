-- ===== src/Peers/Paths/Selection/Newest.antt =====
-- What endpoint is selected.
use nostr_vpn.Prelude.{
  none, ◌-◌, ◌<◌, inl, inr, refl, ◌∷◌, ℕ, ◌≤◌, ◌≡◌, some, List, [], arith, All, if◌then◌else◌,
  Bool-cases, ◌⊎◌, Option-cases,
}
use nostr_vpn.Prelude.Text.{Text, str_eq_iff, str_eq_refl}
use nostr_vpn.Collections.HashMap.{HashMap, get, Distinct, Absent, contains_key}
use nostr_vpn.Peers.Paths.{
  TrackedPeerPath, Option, is_empty, filter_option, PeerPathBook, false, PeerPathState,
}
use nostr_vpn.Peers.Paths.Selection.{
  CandidateRank, Entry, rank_le, max_by_key, choose, applied_success, select_tracked, ok,
  select_endpoint_for_local_endpoints, PeerAnnouncement, against_current, candidate_rank,
  select_peer_endpoint_from_local_endpoints,
}

max_by_key-All :
    (P : Entry → Type 0) (key : Entry → CandidateRank) (best : Entry) (xs : List Entry)
    → P best
    → All P xs
    → P (max_by_key key best xs)
unfolding max_by_key
max_by_key-All P key best [] h a = h
max_by_key-All P key best (x ∷ xs) h a =
    max_by_key-All P key (if rank_le (key best) (key x) then x else best) xs
      (elim (Bool-cases (rank_le (key best) (key x))) [ inl e ↦ rw e a.0 | inr e ↦ rw e h ]) a.1

max_by_key-le :
    (key : Entry → CandidateRank) (best : Entry) (xs : List Entry) (n : ℕ)
    → n ≤ (key best).success_at
    → n ≤ (key (max_by_key key best xs)).success_at
unfolding max_by_key
max_by_key-le key best [] n h = h
max_by_key-le key best (x ∷ xs) n h =
    max_by_key-le key (if rank_le (key best) (key x) then x else best) xs n
      (elim (Bool-cases (rank_le (key best) (key x))) [ inl e ↦ ground arith | inr e ↦ rw e h ])

-- The maximum has the newest success.
max_by_key_newest :
    (key : Entry → CandidateRank) (best : Entry) (xs : List Entry)
    → All (λ x. (key x).success_at ≤ (key (max_by_key key best xs)).success_at) xs
unfolding max_by_key
max_by_key_newest key best [] = tt
max_by_key_newest key best (x ∷ xs) =
    let next = if rank_le (key best) (key x) then x else best in
    (
      max_by_key-le key next xs (key x).success_at (elim (Bool-cases (rank_le (key best) (key x))) [
        | inl e ↦ rw e (omega arith)
        | inr e ↦ ground arith
      ]),
      max_by_key_newest key next xs,
    )

get_behind :
    (k : Text) (t : TrackedPeerPath) (m xs : HashMap TrackedPeerPath)
    → Absent k xs
    → All (λ x. get m x.0 ≡ some x.1) xs
    → All (λ x. get ((k, t) ∷ m) x.0 ≡ some x.1) xs
unfolding get
get_behind k t m [] a h = tt
get_behind k t m ((j, u) ∷ xs) a h =
    (ground (arith, a.0, h.0, str_eq_iff k j, str_eq_iff j k), get_behind k t m xs a.1 h.1)

-- Every entry is the one that its key finds.
get_entries : (m : HashMap TrackedPeerPath) → Distinct m → All (λ x. get m x.0 ≡ some x.1) m
unfolding get
get_entries [] d = tt
get_entries ((k, t) ∷ m) d = (rw (str_eq_refl k) refl, get_behind k t m m d.0 (get_entries m d.1))

-- The endpoint was selected less than the retry period ago.
abbrev pub Waits : ℕ → ℕ → TrackedPeerPath → Type 0
Waits now retry_after_secs t =
    (at : ℕ) × (t.last_selected_at ≡ some at) × (now - at < retry_after_secs)

-- No endpoint has a newer success that still applies.
abbrev pub IsNewest : List Text → HashMap TrackedPeerPath → Text → TrackedPeerPath → Type 0
IsNewest own m e t = All (λ x. applied_success own x.0 x.1 ≤ applied_success own e t) m

module _ (own : List Text) (now retry_after_secs : ℕ) where
  choose-cases :
      (c : Text) (ct : TrackedPeerPath) (p : Text) (pt : TrackedPeerPath)
      → (choose own now retry_after_secs c ct p pt ≡ p)
        ⊎ ((choose own now retry_after_secs c ct p pt ≡ c)
            × ((applied_success own p pt ≤ applied_success own c ct)
                ⊎ Waits now retry_after_secs ct))
  choose-cases c ct p pt = ground arith

  newest_trans :
      (n k : ℕ) (m : HashMap TrackedPeerPath)
      → All (λ x. applied_success own x.0 x.1 ≤ n) m
      → n ≤ k
      → All (λ x. applied_success own x.0 x.1 ≤ k) m
  newest_trans n k [] a h = tt
  newest_trans n k (x ∷ m) a h = (omega (arith, a.0, h), newest_trans n k m a.1 h)

  -- What is selected, as an entry of the endpoints.
  abbrev Selected : Text → Option Text → HashMap TrackedPeerPath → Type 0
  Selected d current m =
      (e : Text) × (t : TrackedPeerPath) × (select_tracked own now retry_after_secs d current m
        ≡ ok (some e))
      × (get m e ≡ some t)
      × (IsNewest own m e t ⊎ ((current ≡ some e) × Waits now retry_after_secs t))

  -- The entry that was preferred, against the current endpoint.
  choose-Selected :
      (m : HashMap TrackedPeerPath) (current : Option Text) (p : Entry) (c : Text)
      (ct : TrackedPeerPath)
      → current ≡ some c
      → get m c ≡ some ct
      → get m p.0 ≡ some p.1
      → IsNewest own m p.0 p.1
      → (e : Text) × (t : TrackedPeerPath) × (choose own now retry_after_secs c ct p.0 p.1 ≡ e)
        × (get m e ≡ some t)
        × (IsNewest own m e t ⊎ ((current ≡ some e) × Waits now retry_after_secs t))
  choose-Selected m current p c ct cur gc gp newest = elim (choose-cases c ct p.0 p.1) [
    | inl e ↦ (p.0, p.1, e, gp, inl newest)
    | inr (e, why) ↦ (
      c,
      ct,
      e,
      gc,
      elim why [
        | inl le ↦ inl (newest_trans (applied_success own p.0 p.1) _ m newest le)
        | inr w ↦ inr (cur, w)
      ],
    )
  ]

  against_current-Selected :
      (m : HashMap TrackedPeerPath) (current kept : Option Text) (p : Entry)
      → filter_option current (contains_key m) ≡ kept
      → get m p.0 ≡ some p.1
      → IsNewest own m p.0 p.1
      → (e : Text) × (t : TrackedPeerPath) × (against_current own now retry_after_secs m p.0 kept
          ≡ ok (some e))
        × (get m e ≡ some t)
        × (IsNewest own m e t ⊎ ((current ≡ some e) × Waits now retry_after_secs t))
  against_current-Selected m current none p f gp newest = (p.0, p.1, refl, gp, inl newest)
  against_current-Selected m current (some c) p f gp newest = elim (Option-cases (get m c)) [
    | inl n ↦ absurd (ground (arith, n))
    | inr (ct, gc) ↦
        let (e, t, chosen, g, why) =
          choose-Selected m current p c ct (ground (arith, gc)) gc gp newest in
        (e, t, rw (gc, gp, chosen) refl, g, why)
  ]

  select_tracked-Selected :
      (d : Text) (current : Option Text) (m : HashMap TrackedPeerPath)
      → is_empty m ≡ false
      → Distinct m
      → Selected d current m
  unfolding candidate_rank
  select_tracked-Selected d current [] h distinct = cc
  select_tracked-Selected d current (x ∷ xs) h distinct =
      let key = candidate_rank own d in
      let p = max_by_key key x xs in
      let own_entries = get_entries (x ∷ xs) distinct in
      against_current-Selected (x ∷ xs) current _ p refl
        (max_by_key-All (λ y. get (x ∷ xs) y.0 ≡ some y.1) key x xs own_entries.0 own_entries.1)
        (max_by_key-le key x xs (key x).success_at (omega arith), max_by_key_newest key x xs)

-- Where endpoints of a peer are tracked, each with one entry, one of them is selected, and no
-- panic occurs. It has the newest success that still applies, or it is the current endpoint,
-- selected less than the retry period ago.
pub select-IsNewest :
    (b : PeerPathBook) (participant : Text) (a : PeerAnnouncement) (own : List Text)
    (now retry_after_secs : ℕ) (s : PeerPathState)
    → get b.peers participant ≡ some s
    → is_empty s.endpoints ≡ false
    → Distinct s.endpoints
    → (e : Text) × (t : TrackedPeerPath) × (select_endpoint_for_local_endpoints b participant a own
          now retry_after_secs
        ≡ ok (some e))
      × (get s.endpoints e ≡ some t)
      × (IsNewest own s.endpoints e t
          ⊎ ((s.current_endpoint ≡ some e) × Waits now retry_after_secs t))
unfolding select_endpoint_for_local_endpoints
select-IsNewest b participant a own now retry_after_secs s g some_tracked distinct = rw g (
    select_tracked-Selected own now retry_after_secs
      (select_peer_endpoint_from_local_endpoints a own) s.current_endpoint s.endpoints some_tracked
      distinct)
