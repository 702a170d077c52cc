-- ===== src/Peers/Paths/Fresh.antt =====
-- What prune_stale leaves of the paths.
use nostr_vpn.Prelude.{
  ℕ, ◌-◌, ◌<◌, ◌≡◌, refl, true, none, [], ◌∷◌, arith, filter_option, Option-cases, inl, inr,
  is_empty,
}
use nostr_vpn.Prelude.Text.{Text, str_eq_iff}
use nostr_vpn.Collections.HashMap.{HashMap, get, get-retain, get-Absent, Distinct}
use nostr_vpn.Peers.Paths.{
  TrackedPeerPath, PeerPathState, PeerPathBook, keep_paths, prune_peers, prune_stale, is_fresh,
}
use nostr_vpn.Peers.Paths.Selection.{path_of}
use nostr_vpn.Peers.Paths.Runs.{Absent-prune_peers}
use nostr_vpn.Peers.Paths.Tracking.{IsPathBook}

get_empty : (m : HashMap TrackedPeerPath) (k : Text) → is_empty m ≡ true → get m k ≡ none
unfolding get
get_empty [] k e = refl
get_empty (x ∷ m) k e = cc

kept_path :
    (cutoff : ℕ) (s : PeerPathState) (endpoint : Text)
    → Distinct s.endpoints
    → get (keep_paths (λ e t. is_fresh cutoff t) s).0.endpoints endpoint
      ≡ filter_option (get s.endpoints endpoint) (is_fresh cutoff)
kept_path cutoff s endpoint d = elim (Option-cases (get s.endpoints endpoint)) [
  | inl e ↦ rw (get-retain (λ e t. is_fresh cutoff t) s.endpoints endpoint d, e) refl
  | inr (t, e) ↦ rw (get-retain (λ e t. is_fresh cutoff t) s.endpoints endpoint d, e) refl
]

path_of-prune_peers :
    (cutoff : ℕ) (m : HashMap PeerPathState) (participant endpoint : Text)
    → IsPathBook (record { peers = m })
    → path_of (get (prune_peers cutoff m).0 participant) endpoint
      ≡ filter_option (path_of (get m participant) endpoint) (is_fresh cutoff)
unfolding prune_peers get
path_of-prune_peers cutoff [] participant endpoint h = refl
path_of-prune_peers cutoff ((j, s) ∷ m) participant endpoint h = ground (
  arith,
  path_of-prune_peers cutoff m participant endpoint
      (record { distinct = h.distinct.1; states = h.states.1 }),
  str_eq_iff j participant,
  kept_path cutoff s endpoint h.states.0.distinct,
  get_empty (keep_paths (λ e t. is_fresh cutoff t) s).0.endpoints endpoint,
  get-Absent (prune_peers cutoff m).0 j (Absent-prune_peers cutoff m j h.distinct.0),
)

-- In a book in order, under a time limit, pruning leaves of each participant's paths those that
-- were announced, selected or proven within the limit, as they were, and no others.
pub path_of-prune_stale :
    (b : PeerPathBook) (now stale_after_secs : ℕ) (participant endpoint : Text)
    → IsPathBook b
    → 0 < stale_after_secs
    → let (b', changed) = prune_stale b now stale_after_secs in
      path_of (get b'.peers participant) endpoint
      ≡ filter_option
          (path_of (get b.peers participant) endpoint)
          (is_fresh (now - stale_after_secs))
unfolding prune_stale
path_of-prune_stale b now secs participant endpoint h lt =
    ground (arith, path_of-prune_peers (now - secs) b.peers participant endpoint h)
