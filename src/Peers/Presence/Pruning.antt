-- ===== src/Peers/Presence/Pruning.antt =====
-- What prune_stale drops.
use nostr_vpn.Prelude.{
  ℕ, ◌+◌, ◌-◌, ◌<◌, ◌≤◌, ◌≡◌, ◌⊎◌, refl, Bool, ◌&&◌, not, Option, none, some, List, [], ◌∷◌, arith,
  is_some, if◌then◌else◌,
}
use nostr_vpn.Prelude.Text.{Text, str_eq_iff}
use nostr_vpn.Collections.HashMap.{
  HashMap, get, get-remove, get-retain, Distinct, get-Absent, remove,
}
use nostr_vpn.Collections.HashSet.{contains}
use nostr_vpn.Peers.Announcement.{PeerAnnouncement}
use nostr_vpn.Peers.Presence.{PeerPresenceBook, prune_stale, stale_keys, remove_all, recently_seen}
use nostr_vpn.Peers.Presence.Consistent.{IsBook, IsConsistent}

-- The dropped keys are those of the entries that fail the test.
contains-stale_keys :
    (keep : Text → Bool) (m : HashMap PeerAnnouncement) (k : Text)
    → Distinct m
    → contains (stale_keys keep m) k ≡ (is_some (get m k) && not (keep k))
unfolding contains stale_keys get
contains-stale_keys keep [] k d = refl
contains-stale_keys keep ((j, a) ∷ m) k d =
    ground (arith, contains-stale_keys keep m k d.1, str_eq_iff j k, get-Absent m j d.0)

get-remove_all :
    (m : HashMap ℕ) (ks : List Text) (k : Text)
    → get (remove_all m ks) k ≡ (if contains ks k then none else get m k)
unfolding remove_all contains
get-remove_all m [] k = refl
get-remove_all m (j ∷ ks) k = ground (arith, get-remove_all (remove m j) ks k, get-remove m j k)

-- A peer that was last seen at `last`, after the time 0 and less than `secs` seconds before `now`.
abbrev pub SeenWithin : ℕ → ℕ → Option ℕ → Type 0
SeenWithin secs now none = ⊥
SeenWithin secs now (some last) = (0 < last) × (now < last + secs)

-- It was not seen, or too long ago.
abbrev pub Unseen : ℕ → ℕ → Option ℕ → Type 0
Unseen secs now none = Unit
Unseen secs now (some last) = (last ≡ 0) ⊎ (last + secs ≤ now)

pub prune_stale-IsConsistent :
    (b : PeerPresenceBook) (now stale_after_secs : ℕ) (k : Text)
    → IsBook b
    → IsConsistent b k
    → IsConsistent (prune_stale b now stale_after_secs).0 k
unfolding prune_stale
prune_stale-IsConsistent b now secs k w h =
    let keep = recently_seen b (now - secs) in
    ground (
      arith,
      get-retain (λ j a. keep j) b.active k w.active_distinct,
      get-remove_all b.active_since_at (stale_keys keep b.active) k,
      contains-stale_keys keep b.active k w.active_distinct,
    )
