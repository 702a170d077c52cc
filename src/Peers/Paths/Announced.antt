-- ===== src/Peers/Paths/Announced.antt =====
-- What a refresh leaves of the paths.
use nostr_vpn.Prelude.{
  refl, any, Option-cases, inl, inr, subst, Bool-cases, ℕ, ◌≡◌, ◌⊎◌, Bool, true, false, Option,
  none, some, [], ◌∷◌, arith, All, unwrap_or,
}
use nostr_vpn.Prelude.Text.{Text, str_eq, str_eq_iff, str_eq_refl}
use nostr_vpn.Collections.HashMap.{get-retain, retain, Distinct, HashMap, get, insert, get-insert}
use nostr_vpn.Peers.Paths.Refresh.{
  refresh_from_announcement, announce_path, announce_paths, announced_as_relay, survives,
}
use nostr_vpn.Peers.Announcement.{PeerAnnouncement}
use nostr_vpn.Peers.Paths.{
  PeerPathBook, state_of, with_state, PeerPathState, new_path, is_relay, PeerPathSource,
  TrackedPeerPath,
}
use nostr_vpn.Peers.Paths.Endpoints.{Announced, announcement_endpoints}

-- The entry is no relay path, or `known` as one.
abbrev RelayOnly : Bool → Option TrackedPeerPath → Type 0
RelayOnly known none = Unit
RelayOnly known (some t) = (is_relay t.source ≡ false) ⊎ (known ≡ true)

announce_path-RelayOnly :
    (known : Bool) (o : Option TrackedPeerPath) (source : PeerPathSource) (seen_at : ℕ)
    → (is_relay source ≡ false) ⊎ (known ≡ true)
    → RelayOnly known o
    → RelayOnly known
        (some (announce_path (unwrap_or o (new_path source seen_at)) source seen_at).0)
announce_path-RelayOnly known none source seen_at a h = ground arith
announce_path-RelayOnly known (some t) source seen_at a h = ground arith

insert-RelayOnly :
    (known : Text → Bool) (m : HashMap TrackedPeerPath) (k : Text) (endpoint : Text)
    (t : TrackedPeerPath)
    → RelayOnly (known endpoint) (some t)
    → RelayOnly (known k) (get m k)
    → RelayOnly (known k) (get (insert m endpoint t) k)
insert-RelayOnly known m k endpoint t a h = elim (Bool-cases (str_eq endpoint k)) [
  | inl e ↦
      rw (get-insert, e) (subst (λ j. RelayOnly (known j) (some t)) ((str_eq_iff endpoint k).0 e) a)
  | inr e ↦ rw (get-insert, e) h
]

announce_paths-RelayOnly :
    (announced all : Announced) (seen_at : ℕ) (m : HashMap TrackedPeerPath) (k : Text)
    → All (λ a. (is_relay a.1 ≡ false) ⊎ (announced_as_relay all a.0 ≡ true)) announced
    → ((j : Text) → RelayOnly (announced_as_relay all j) (get m j))
    → RelayOnly (announced_as_relay all k) (get (announce_paths announced seen_at m).0 k)
unfolding announce_paths
announce_paths-RelayOnly [] all seen_at m k a h = h k
announce_paths-RelayOnly ((endpoint, source) ∷ announced) all seen_at m k a h =
    announce_paths-RelayOnly announced all seen_at (insert m endpoint _) k a.1 (λ j.
      insert-RelayOnly (announced_as_relay all) m j endpoint _
        (announce_path-RelayOnly (announced_as_relay all endpoint) (get m endpoint) source seen_at
          a.0 (h endpoint))
        (h j))

-- Of the entries that `retain` leaves, a relay path is announced as one.
survives-RelayOnly :
    (announced : Announced) (seen_at : ℕ) (m : HashMap TrackedPeerPath) (k : Text)
    → Distinct m
    → RelayOnly (announced_as_relay announced k) (get (retain (survives announced seen_at) m) k)
survives-RelayOnly announced seen_at m k d = elim (Option-cases (get m k)) [
  | inl e ↦ rw (get-retain (survives announced seen_at) m k d, e) tt
  | inr (t, e) ↦ rw (get-retain (survives announced seen_at) m k d, e) (ground arith)
]

abbrev KnownRelay : Announced → Announced → Type 0
KnownRelay all announced =
    All (λ a. (is_relay a.1 ≡ false) ⊎ (announced_as_relay all a.0 ≡ true)) announced

KnownRelay-cons :
    (x : Text × PeerPathSource) (all announced : Announced)
    → KnownRelay all announced
    → KnownRelay (x ∷ all) announced
unfolding announced_as_relay any
KnownRelay-cons x all [] h = tt
KnownRelay-cons x all (a ∷ announced) h = (ground (arith, h.0), KnownRelay-cons x all announced h.1)

KnownRelay-self : (all : Announced) → KnownRelay all all
unfolding announced_as_relay any
KnownRelay-self [] = tt
KnownRelay-self (x ∷ all) =
    (ground (arith, str_eq_refl x.0), KnownRelay-cons x all all (KnownRelay-self all))

relay_announced :
    (known : Bool) (o : Option TrackedPeerPath) (t : TrackedPeerPath)
    → RelayOnly known o
    → o ≡ some t
    → is_relay t.source ≡ true
    → known ≡ true
relay_announced known none t h e r = cc
relay_announced known (some u) t h e r = ground (arith, h)

state_of-with_state :
    (b : PeerPathBook) (participant : Text) (s : PeerPathState)
    → state_of (with_state b participant s) participant ≡ s
state_of-with_state b participant s = rw (get-insert, str_eq_refl) refl

-- Where an endpoint has one entry, after a refresh every path that counts as a relay path is
-- announced as one: the paths of an earlier lease are gone.
pub refresh_relay_paths :
    (b : PeerPathBook) (participant : Text) (a : PeerAnnouncement) (seen_at : ℕ) (k : Text)
    (t : TrackedPeerPath)
    → Distinct (state_of b participant).endpoints
    → let (b', changed) = refresh_from_announcement b participant a seen_at in
      get (state_of b' participant).endpoints k ≡ some t
      → is_relay t.source ≡ true
      → announced_as_relay (announcement_endpoints a) k ≡ true
unfolding refresh_from_announcement
refresh_relay_paths b participant a seen_at k t distinct found is_relay_path =
    let all = announcement_endpoints a in
    let m = (state_of b participant).endpoints in
    relay_announced (announced_as_relay all k) _ t
      (announce_paths-RelayOnly all all seen_at (retain (survives all seen_at) m) k
        (KnownRelay-self all) (λ j. survives-RelayOnly all seen_at m j distinct))
      (subst (λ s. get s.endpoints k ≡ some t) (state_of-with_state b participant _) found)
      is_relay_path
