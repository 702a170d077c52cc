-- ===== src/Peers/Paths/Tracking.antt =====
-- Whatever happens to the book, the current endpoint of a peer is among its endpoints.
use nostr_vpn.Prelude.{
  ℕ, ◌≡◌, refl, Bool, true, Option, none, some, [], ◌∷◌, arith, is_none_or, unwrap_or, Bool-cases,
  inl, inr, leb,
}
use nostr_vpn.Prelude.Text.{Text, str_eq_refl}
use nostr_vpn.Collections.HashMap.{
  insert, contains_key, Distinct, get-insert, insert-Distinct, retain-Distinct,
}
use nostr_vpn.Collections.Entries.{Values}
use nostr_vpn.Peers.Paths.{
  TrackedPeerPath, PeerPathState, PeerPathBook, no_paths, keep_paths, select_path, succeed_path,
  observed_path,
}
use nostr_vpn.Peers.Paths.Endpoints.{Announced}
use nostr_vpn.Peers.Paths.Refresh.{refresh_state, announce_paths, survives}

-- An endpoint has one entry, and the current endpoint has one.
pub record IsState (s : PeerPathState) : Type 0 where
  pub distinct : Distinct s.endpoints
  pub current_tracked : is_none_or s.current_endpoint (contains_key s.endpoints) ≡ true

-- A peer has one state, and that is in order.
pub record IsPathBook (b : PeerPathBook) : Type 0 where
  pub distinct : Distinct b.peers
  pub states : Values IsState b.peers

pub no_paths-IsState : IsState no_paths
no_paths-IsState = record { distinct = tt; current_tracked = refl }

pub keep_paths-IsState :
    (p : Text → TrackedPeerPath → Bool) (s : PeerPathState) → IsState s → IsState (keep_paths p s).0
keep_paths-IsState p s h = record {
  distinct = retain-Distinct p s.endpoints h.distinct;
  current_tracked = ground arith;
}

pub select_path-IsState :
    (s : PeerPathState) (endpoint : Text) (at : ℕ)
    → IsState s
    → IsState (select_path s endpoint at).0
select_path-IsState s endpoint at h = record {
  distinct = insert-Distinct s.endpoints endpoint _ h.distinct;
  current_tracked = rw (get-insert, str_eq_refl) refl;
}

insert_tracks :
    (s : PeerPathState) (endpoint : Text) (t : TrackedPeerPath)
    → IsState s
    → IsState (record s { endpoints = insert s.endpoints endpoint t })
insert_tracks s endpoint t h = record {
  distinct = insert-Distinct s.endpoints endpoint t h.distinct;
  current_tracked = tracked s.current_endpoint h.current_tracked;
}
  where
    tracked :
        (c : Option Text)
        → is_none_or c (contains_key s.endpoints) ≡ true
        → is_none_or c (contains_key (insert s.endpoints endpoint t)) ≡ true
    tracked none e = refl
    tracked (some c) e = ground (arith, get-insert s.endpoints endpoint c t)

pub succeed_path-IsState :
    (s : PeerPathState) (endpoint : Text) (at : ℕ)
    → IsState s
    → IsState (succeed_path s endpoint at).0
succeed_path-IsState s endpoint at h =
    let entry = observed_path s endpoint at in
    elim (Bool-cases (leb at (unwrap_or entry.last_success_at 0))) [
      | inl e ↦ rw e (insert_tracks s endpoint entry h)
      | inr e ↦ rw e (insert_tracks s endpoint (record entry { last_success_at = some at }) h)
    ]

announce_paths-IsState :
    (announced : Announced) (seen_at : ℕ) (s : PeerPathState)
    → IsState s
    → IsState (record s { endpoints = (announce_paths announced seen_at s.endpoints).0 })
unfolding announce_paths
announce_paths-IsState [] seen_at s h = record {
  distinct = h.distinct;
  current_tracked = h.current_tracked;
}
announce_paths-IsState ((endpoint, source) ∷ announced) seen_at s h =
    announce_paths-IsState announced seen_at
      (record s { endpoints = insert s.endpoints endpoint _ }) (insert_tracks s endpoint _ h)

pub refresh_state-IsState :
    (s : PeerPathState) (announced : Announced) (seen_at : ℕ)
    → IsState s
    → IsState (refresh_state s announced seen_at).0
refresh_state-IsState s announced seen_at h =
    announce_paths-IsState announced seen_at (keep_paths (survives announced seen_at) s).0
      (keep_paths-IsState (survives announced seen_at) s h)
