-- ===== src/Peers/Presence.antt =====
-- presence.rs: PeerPresenceBook, the peers that are active and those that are known.
pub mod Consistent
pub mod Pruning
use nostr_vpn.Prelude.{
  ℕ, ◌-◌, ◌≤◌, ◌<◌, Bool, true, false, ◌||◌, not, Option, none, some, List, [], ◌∷◌, ltb, leb, ◌==◌,
  if◌then◌else◌, is_none_or, is_some_and, is_some, or_else,
}
use nostr_vpn.Prelude.Text.{Text, str_le}
use nostr_vpn.Prelude.Sorting.{sort}
use nostr_vpn.Collections.HashMap.{HashMap, get, insert, remove, retain, keys, contains_key}
use nostr_vpn.Collections.HashSet.{HashSet, contains}
use nostr_vpn.Peers.Announcement.{PeerAnnouncement}
use nostr_vpn.Peers.Signal.{SignalPayload, hello, announce, roster, disconnect, join_request}

pub record PeerPresenceBook : Type 0 where
  pub active : HashMap PeerAnnouncement
  pub known : HashMap PeerAnnouncement
  pub last_seen_at : HashMap ℕ
  pub active_since_at : HashMap ℕ

-- PeerPresenceBook::default
abbrev pub empty_book : PeerPresenceBook
empty_book = record { active = []; known = []; last_seen_at = []; active_since_at = [] }

-- `existing.timestamp <= announcement.timestamp`, or no announcement so far.
abbrev pub not_older : Option PeerAnnouncement → PeerAnnouncement → Bool
not_older existing a = is_none_or existing (λ e. leb e.timestamp a.timestamp)

abbrev pub apply_announce : PeerPresenceBook → Text → PeerAnnouncement → ℕ → PeerPresenceBook × Bool
apply_announce b sender a seen_at =
    let known = if not_older (get b.known sender) a then insert b.known sender a else b.known in
    if not_older (get b.active sender) a
    then (
      record b {
        known = known;
        active_since_at =
            if contains_key b.active sender
            then b.active_since_at
            else insert b.active_since_at sender seen_at;
        active = insert b.active sender a;
      },
      true,
    )
    else (record b { known = known }, false)

abbrev pub apply_payload : PeerPresenceBook → Text → SignalPayload → ℕ → PeerPresenceBook × Bool
apply_payload b sender hello seen_at = (b, false)
apply_payload b sender (announce a) seen_at = apply_announce b sender a seen_at
apply_payload b sender (disconnect node_id) seen_at = (
  record b {
    active = remove b.active sender;
    active_since_at = remove b.active_since_at sender;
    known = remove b.known sender;
  },
  contains_key b.active sender || contains_key b.known sender,
)
apply_payload b sender (roster r) seen_at = (b, false)
apply_payload b sender (join_request requested_at r) seen_at = (b, false)

unfoldable pub apply_signal : PeerPresenceBook → Text → SignalPayload → ℕ → PeerPresenceBook × Bool
apply_signal b sender payload seen_at =
    apply_payload (record b { last_seen_at = insert b.last_seen_at sender seen_at }) sender payload
      seen_at

unfoldable pub announcement_for : PeerPresenceBook → Text → Option PeerAnnouncement
announcement_for b sender = or_else (get b.active sender) (get b.known sender)

abbrev pub restore_seen : HashMap ℕ → Text → Option ℕ → HashMap ℕ
restore_seen m sender none = m
restore_seen m sender (some t) = insert m sender t

unfoldable pub restore_known :
    PeerPresenceBook → Text → PeerAnnouncement → Option ℕ → PeerPresenceBook
restore_known b sender a last_seen_at = record b {
  known = insert b.known sender a;
  last_seen_at = restore_seen b.last_seen_at sender last_seen_at;
}

-- `self.last_seen_at.get(sender).is_some_and(|last_seen| last_seen > cutoff)`
abbrev pub recently_seen : PeerPresenceBook → ℕ → Text → Bool
recently_seen b cutoff sender = is_some_and (get b.last_seen_at sender) (λ t. ltb cutoff t)

-- The keys of the active peers that the test of `retain` drops, in the order of its visits.
unfoldable pub stale_keys : (Text → Bool) → HashMap PeerAnnouncement → List Text
stale_keys keep [] = []
stale_keys keep ((k, a) ∷ m) = if keep k then stale_keys keep m else k ∷ stale_keys keep m

unfoldable pub remove_all : HashMap ℕ → List Text → HashMap ℕ
remove_all m [] = m
remove_all m (k ∷ ks) = remove_all (remove m k) ks

unfoldable pub prune_stale : PeerPresenceBook → ℕ → ℕ → PeerPresenceBook × List Text
prune_stale b now stale_after_secs =
    if stale_after_secs == 0
    then (b, [])
    else let keep = recently_seen b (now - stale_after_secs) in
      let removed = stale_keys keep b.active in
      (
        record b {
          active = retain (λ k a. keep k) b.active;
          active_since_at = remove_all b.active_since_at removed;
        },
        sort str_le removed,
      )

unfoldable pub retain_participants : PeerPresenceBook → HashSet → PeerPresenceBook
retain_participants b participants = record {
  active = retain (λ k v. contains participants k) b.active;
  known = retain (λ k v. contains participants k) b.known;
  last_seen_at = retain (λ k v. contains participants k) b.last_seen_at;
  active_since_at = retain (λ k v. contains participants k) b.active_since_at;
}
