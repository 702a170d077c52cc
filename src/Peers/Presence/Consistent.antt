-- ===== src/Peers/Presence/Consistent.antt =====
-- How the four maps of the book hang together, and what an announcement may change.
use nostr_vpn.Prelude.{◌⊎◌, ℕ, ◌≤◌, ◌≡◌, true, Option, none, some, arith, is_some, if◌then◌else◌}
use nostr_vpn.Prelude.Text.{Text, str_eq_iff, str_eq_refl}
use nostr_vpn.Collections.HashMap.{
  get, get-insert, get-remove, get-retain, Distinct, insert-Distinct, remove-Distinct,
}
use nostr_vpn.Collections.HashSet.{HashSet, contains}
use nostr_vpn.Peers.Announcement.{PeerAnnouncement}
use nostr_vpn.Peers.Signal.{SignalPayload, hello, announce, roster, disconnect, join_request}
use nostr_vpn.Peers.Presence.{
  PeerPresenceBook, apply_signal, restore_known, retain_participants, announcement_for,
}

-- The maps have one entry for a key.
pub record IsBook (b : PeerPresenceBook) : Type 0 where
  pub active_distinct : Distinct b.active
  pub known_distinct : Distinct b.known
  pub seen_distinct : Distinct b.last_seen_at
  pub since_distinct : Distinct b.active_since_at

-- An active peer is known, was seen, and has the time since which it is active; only an active
-- peer has that time.
pub record IsConsistent (b : PeerPresenceBook) (k : Text) : Type 0 where
  pub active_known : (get b.active k ≡ none) ⊎ (is_some (get b.known k) ≡ true)
  pub active_seen : (get b.active k ≡ none) ⊎ (is_some (get b.last_seen_at k) ≡ true)
  pub active_since : is_some (get b.active_since_at k) ≡ is_some (get b.active k)

module _ (b : PeerPresenceBook) (sender : Text) (seen_at : ℕ) where
  pub apply_signal-IsBook :
      (payload : SignalPayload) → IsBook b → IsBook (apply_signal b sender payload seen_at).0
  unfolding apply_signal
  apply_signal-IsBook hello h = record {
    active_distinct = h.active_distinct;
    known_distinct = h.known_distinct;
    seen_distinct = insert-Distinct b.last_seen_at sender seen_at h.seen_distinct;
    since_distinct = h.since_distinct;
  }
  apply_signal-IsBook (roster r) h = record {
    active_distinct = h.active_distinct;
    known_distinct = h.known_distinct;
    seen_distinct = insert-Distinct b.last_seen_at sender seen_at h.seen_distinct;
    since_distinct = h.since_distinct;
  }
  apply_signal-IsBook (join_request t r) h = record {
    active_distinct = h.active_distinct;
    known_distinct = h.known_distinct;
    seen_distinct = insert-Distinct b.last_seen_at sender seen_at h.seen_distinct;
    since_distinct = h.since_distinct;
  }
  apply_signal-IsBook (disconnect n) h = record {
    active_distinct = remove-Distinct b.active sender h.active_distinct;
    known_distinct = remove-Distinct b.known sender h.known_distinct;
    seen_distinct = insert-Distinct b.last_seen_at sender seen_at h.seen_distinct;
    since_distinct = remove-Distinct b.active_since_at sender h.since_distinct;
  }
  apply_signal-IsBook (announce a) h =
      let active = insert-Distinct b.active sender a h.active_distinct in
      let known = insert-Distinct b.known sender a h.known_distinct in
      let seen = insert-Distinct b.last_seen_at sender seen_at h.seen_distinct in
      let since = insert-Distinct b.active_since_at sender seen_at h.since_distinct in
      record {
        active_distinct = ground (arith, active, h.active_distinct);
        known_distinct = ground (arith, known, h.known_distinct);
        seen_distinct = ground (arith, seen);
        since_distinct = ground (arith, since, h.since_distinct);
      }

  -- Every signal keeps the maps consistent for every peer for which they are.
  pub apply_signal-IsConsistent :
      (payload : SignalPayload) (k : Text)
      → IsConsistent b k
      → IsConsistent (apply_signal b sender payload seen_at).0 k
  unfolding apply_signal
  apply_signal-IsConsistent hello k h = ground (arith, get-insert b.last_seen_at sender k seen_at)
  apply_signal-IsConsistent (roster r) k h =
      ground (arith, get-insert b.last_seen_at sender k seen_at)
  apply_signal-IsConsistent (join_request t r) k h =
      ground (arith, get-insert b.last_seen_at sender k seen_at)
  apply_signal-IsConsistent (disconnect n) k h = ground (
    arith,
    get-insert b.last_seen_at sender k seen_at,
    get-remove b.active sender k,
    get-remove b.known sender k,
    get-remove b.active_since_at sender k,
  )
  apply_signal-IsConsistent (announce a) k h = ground (
    arith,
    str_eq_iff sender k,
    get-insert b.last_seen_at sender k seen_at,
    get-insert b.active sender k a,
    get-insert b.known sender k a,
    get-insert b.active_since_at sender k seen_at,
  )

-- The timestamp of an announcement, 0 where there is none.
abbrev pub stamp : Option PeerAnnouncement → ℕ
stamp none = 0
stamp (some a) = a.timestamp

-- No announcement, however late it arrives, replaces a newer one of its sender or touches that of
-- another peer, among the active peers and among the known ones; the result tells whether the
-- announcement is now the active one.
pub announce_newest :
    (b : PeerPresenceBook) (sender : Text) (a : PeerAnnouncement) (seen_at : ℕ) (k : Text)
    → let (b', changed) = apply_signal b sender (announce a) seen_at in
      (stamp (get b.active k) ≤ stamp (get b'.active k))
      × (stamp (get b.known k) ≤ stamp (get b'.known k))
      × ((sender ≡ k) ⊎ (get b'.active k ≡ get b.active k))
      × ((sender ≡ k) ⊎ (get b'.known k ≡ get b.known k))
      × (get b'.active sender ≡ (if changed then some a else get b.active sender))
unfolding apply_signal
announce_newest b sender a seen_at k = ground (
  arith,
  str_eq_iff sender k,
  str_eq_refl sender,
  get-insert b.active sender k a,
  get-insert b.known sender k a,
  get-insert b.active sender sender a,
)

-- After a disconnect nothing is announced for the peer, and the others are as before.
disconnect_forgets :
    (b : PeerPresenceBook) (sender node_id : Text) (seen_at : ℕ) (k : Text)
    → let b' = (apply_signal b sender (disconnect node_id) seen_at).0 in
      (announcement_for b' sender ≡ none)
      × ((sender ≡ k) ⊎ (announcement_for b' k ≡ announcement_for b k))
unfolding apply_signal announcement_for
disconnect_forgets b sender node_id seen_at k = ground (
  arith,
  str_eq_refl sender,
  str_eq_iff sender k,
  get-remove b.active sender sender,
  get-remove b.known sender sender,
  get-remove b.active sender k,
  get-remove b.known sender k,
)

pub restore_known-IsConsistent :
    (b : PeerPresenceBook) (sender : Text) (a : PeerAnnouncement) (seen : Option ℕ) (k : Text)
    → IsConsistent b k
    → IsConsistent (restore_known b sender a seen) k
unfolding restore_known
restore_known-IsConsistent b sender a none k h = ground (arith, get-insert b.known sender k a)
restore_known-IsConsistent b sender a (some t) k h =
    ground (arith, get-insert b.known sender k a, get-insert b.last_seen_at sender k t)

pub retain_participants-IsConsistent :
    (b : PeerPresenceBook) (participants : HashSet) (k : Text)
    → IsBook b
    → IsConsistent b k
    → IsConsistent (retain_participants b participants) k
unfolding retain_participants
retain_participants-IsConsistent b participants k w h = ground (
  arith,
  get-retain (λ j v. contains participants j) b.active k w.active_distinct,
  get-retain (λ j v. contains participants j) b.known k w.known_distinct,
  get-retain (λ j v. contains participants j) b.last_seen_at k w.seen_distinct,
  get-retain (λ j v. contains participants j) b.active_since_at k w.since_distinct,
)
