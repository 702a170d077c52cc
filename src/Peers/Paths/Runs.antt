-- ===== src/Peers/Paths/Runs.antt =====
-- The book after any sequence of calls.
use nostr_vpn.Prelude.{
  refl, [], ◌∷◌, true, Bool, if◌then◌else◌, ℕ, false, Option, none, some, List, ◌==◌, ◌-◌,
  Bool-cases, inl, inr, is_empty, unwrap_or, ◌≡◌,
}
use nostr_vpn.Prelude.Text.{Text}
use nostr_vpn.Collections.HashMap.{
  HashMap, get, insert-Distinct, retain-Distinct, remove-Distinct, Absent,
}
use nostr_vpn.Collections.HashSet.{HashSet, contains}
use nostr_vpn.Collections.Entries.{insert-Values, retain-Values, remove-Values, get-Values}
use nostr_vpn.Peers.Announcement.{PeerAnnouncement, select_peer_endpoint_from_local_endpoints}
use nostr_vpn.Peers.Paths.{
  TrackedPeerPath, PeerPathState, PeerPathBook, cleared, state_of, with_state, keep_paths,
  note_selected, note_success, prune_peers, prune_stale, retain_participants, remove_relay_paths,
  remove_relay_paths_for_participant, is_fresh, is_relay, not, no_paths,
}
use nostr_vpn.Peers.Paths.Endpoints.{announcement_endpoints}
use nostr_vpn.Peers.Paths.Refresh.{refresh_from_announcement}
use nostr_vpn.Peers.Paths.Selection.{select_endpoint_for_local_endpoints, select_tracked}
use nostr_vpn.Peers.Paths.Selection.Newest.{select-IsNewest}
use nostr_vpn.Prelude.Results.{ok}
use nostr_vpn.Peers.Paths.Tracking.{
  IsState, IsPathBook, no_paths-IsState, keep_paths-IsState, select_path-IsState,
  succeed_path-IsState, refresh_state-IsState,
}

-- A call of one of the operations that change the book.
pub data PathStep : Type 0 where
  refreshed : Text → PeerAnnouncement → ℕ → PathStep
  selected succeeded : Text → Text → ℕ → PathStep
  pruned : ℕ → ℕ → PathStep
  retained : HashSet → PathStep
  relay_paths_removed : Text → PathStep
  all_cleared : PathStep

unfoldable pub step : PeerPathBook → PathStep → PeerPathBook
step b (refreshed participant a seen_at) = (refresh_from_announcement b participant a seen_at).0
step b (selected participant endpoint at) = (note_selected b participant endpoint at).0
step b (succeeded participant endpoint at) = (note_success b participant endpoint at).0
step b (pruned now stale_after_secs) = (prune_stale b now stale_after_secs).0
step b (retained participants) = retain_participants b participants
step b (relay_paths_removed participant) = (remove_relay_paths_for_participant b participant).0
step b all_cleared = cleared

unfoldable pub run : PeerPathBook → List PathStep → PeerPathBook
run b [] = b
run b (x ∷ xs) = run (step b x) xs

state_of-IsState :
    (b : PeerPathBook) (participant : Text) → IsPathBook b → IsState (state_of b participant)
state_of-IsState b participant h =
    get-Values IsState b.peers participant _ h.states no_paths-IsState

with_state-IsPathBook :
    (b : PeerPathBook) (participant : Text) (s : PeerPathState)
    → IsPathBook b
    → IsState s
    → IsPathBook (with_state b participant s)
with_state-IsPathBook b participant s h t = record {
  distinct = insert-Distinct b.peers participant s h.distinct;
  states = insert-Values IsState b.peers participant s h.states t;
}

pub Absent-prune_peers :
    (cutoff : ℕ) (m : HashMap PeerPathState) (k : Text)
    → Absent k m
    → Absent k (prune_peers cutoff m).0
unfolding prune_peers
Absent-prune_peers cutoff [] k a = tt
Absent-prune_peers cutoff ((j, s) ∷ m) k a =
    elim (Bool-cases (is_empty (keep_paths (λ e t. is_fresh cutoff t) s).0.endpoints)) [
      | inl e ↦ rw e (Absent-prune_peers cutoff m k a.1)
      | inr e ↦ rw e (a.0, Absent-prune_peers cutoff m k a.1)
    ]

prune_peers-IsPathBook :
    (cutoff : ℕ) (m : HashMap PeerPathState)
    → IsPathBook (record { peers = m })
    → IsPathBook (record { peers = (prune_peers cutoff m).0 })
unfolding prune_peers
prune_peers-IsPathBook cutoff [] h = record { distinct = tt; states = tt }
prune_peers-IsPathBook cutoff ((j, s) ∷ m) h =
    let rest =
      prune_peers-IsPathBook cutoff m (record { distinct = h.distinct.1; states = h.states.1 }) in
    let kept = keep_paths-IsState (λ e t. is_fresh cutoff t) s h.states.0 in
    elim (Bool-cases (is_empty (keep_paths (λ e t. is_fresh cutoff t) s).0.endpoints)) [
      | inl e ↦ rw e rest
      | inr e ↦ rw e (record {
        distinct = (Absent-prune_peers cutoff m j h.distinct.0, rest.distinct);
        states = (kept, rest.states);
      })
    ]

remove_relay_paths-IsPathBook :
    (b : PeerPathBook) (participant : Text) (o : Option PeerPathState)
    → IsPathBook b
    → IsState (unwrap_or o (state_of b participant))
    → IsPathBook (remove_relay_paths b participant o).0
remove_relay_paths-IsPathBook b participant none h t = h
remove_relay_paths-IsPathBook b participant (some s) h t =
    let kept = keep_paths-IsState (λ e p. not (is_relay p.source)) s t in
    elim (Bool-cases (is_empty (keep_paths (λ e p. not (is_relay p.source)) s).0.endpoints)) [
      | inl e ↦ rw e (record {
        distinct = remove-Distinct b.peers participant h.distinct;
        states = remove-Values IsState b.peers participant h.states;
      })
      | inr e ↦ rw e (with_state-IsPathBook b participant _ h kept)
    ]

either-IsPathBook :
    (c : Bool) (b b' : PeerPathBook) (changed changed' : Bool)
    → IsPathBook b
    → IsPathBook b'
    → let r : PeerPathBook × Bool = if c then (b, changed) else (b', changed') in IsPathBook r.0
either-IsPathBook true b b' changed changed' h h' = h
either-IsPathBook false b b' changed changed' h h' = h'

step-IsPathBook : (b : PeerPathBook) (x : PathStep) → IsPathBook b → IsPathBook (step b x)
unfolding step refresh_from_announcement note_selected note_success prune_stale retain_participants
    remove_relay_paths_for_participant
step-IsPathBook b (refreshed participant a seen_at) h =
    with_state-IsPathBook b participant _ h (
      refresh_state-IsState _ (announcement_endpoints a) seen_at (state_of-IsState b participant h))
step-IsPathBook b (selected participant endpoint at) h =
    with_state-IsPathBook b participant _ h
      (select_path-IsState _ endpoint at (state_of-IsState b participant h))
step-IsPathBook b (succeeded participant endpoint at) h =
    with_state-IsPathBook b participant _ h
      (succeed_path-IsState _ endpoint at (state_of-IsState b participant h))
step-IsPathBook b (pruned now stale_after_secs) h =
    either-IsPathBook (stale_after_secs == 0) b _ false _ h
      (prune_peers-IsPathBook (now - stale_after_secs) b.peers h)
step-IsPathBook b (retained participants) h = record {
  distinct = retain-Distinct (λ k s. contains participants k) b.peers h.distinct;
  states = retain-Values IsState (λ k s. contains participants k) b.peers h.states;
}
step-IsPathBook b (relay_paths_removed participant) h =
    remove_relay_paths-IsPathBook b participant (get b.peers participant) h
      (get-Values IsState b.peers participant _ h.states (state_of-IsState b participant h))
step-IsPathBook b all_cleared h = record { distinct = tt; states = tt }

-- From a book in order, no sequence of calls leads to one that is not: each current endpoint is
-- tracked, and no participant and no endpoint has two entries.
pub run-IsPathBook : (b : PeerPathBook) (xs : List PathStep) → IsPathBook b → IsPathBook (run b xs)
unfolding run
run-IsPathBook b [] h = h
run-IsPathBook b (x ∷ xs) h = run-IsPathBook (step b x) xs (step-IsPathBook b x h)

select_tracked_none :
    (own : List Text) (now retry_after_secs : ℕ) (d : Text) (current : Option Text)
    (m : HashMap TrackedPeerPath)
    → is_empty m ≡ true
    → select_tracked own now retry_after_secs d current m ≡ ok (some d)
select_tracked_none own now retry d current [] e = refl
select_tracked_none own now retry d current (x ∷ xs) e = cc

selected_or_default :
    (b : PeerPathBook) (participant : Text) (a : PeerAnnouncement) (own : List Text)
    (now retry_after_secs : ℕ) (o : Option PeerPathState)
    → get b.peers participant ≡ o
    → IsState (unwrap_or o no_paths)
    → (e : Text) × (select_endpoint_for_local_endpoints b participant a own now retry_after_secs
        ≡ ok (some e))
unfolding select_endpoint_for_local_endpoints
selected_or_default b participant a own now retry none g h =
    (select_peer_endpoint_from_local_endpoints a own, rw g refl)
selected_or_default b participant a own now retry (some s) g h =
    elim (Bool-cases (is_empty s.endpoints)) [
      | inl e ↦ (
        select_peer_endpoint_from_local_endpoints a own,
        rw g (
            select_tracked_none own now retry (select_peer_endpoint_from_local_endpoints a own)
              s.current_endpoint s.endpoints e),
      )
      | inr e ↦
          let (endpoint, t, r, found, why) =
            select-IsNewest b participant a own now retry s g e h.distinct in
          (endpoint, r)
    ]

-- After any sequence of calls on a new book, an endpoint is selected for every participant: neither
-- `expect` of the selection panics.
pub select_runs :
    (xs : List PathStep) (participant : Text) (a : PeerAnnouncement) (own : List Text)
    (now retry_after_secs : ℕ)
    → (e : Text) × (select_endpoint_for_local_endpoints
          (run cleared xs)
          participant
          a
          own
          now
          retry_after_secs
        ≡ ok (some e))
select_runs xs participant a own now retry_after_secs =
    let h = run-IsPathBook cleared xs (record { distinct = tt; states = tt }) in
    selected_or_default (run cleared xs) participant a own now retry_after_secs _ refl
      (state_of-IsState (run cleared xs) participant h)
