-- ===== src/Peers/Tests.antt =====
-- The directory and the presence book on a few announcements.
use nostr_vpn.Prelude.{◌≡◌, ◌≤◌, ◌⊎◌, inl, ℕ, none, some, [], ◌∷◌, refl, List, if◌then◌else◌}
use nostr_vpn.Prelude.Text.{codes, Text}
use nostr_vpn.Collections.HashMap
use nostr_vpn.Peers.Announcement.{PeerAnnouncement}
use nostr_vpn.Peers.Signal.{announce}
use nostr_vpn.Peers.Directory.{PeerDirectory, apply_all, get}
use nostr_vpn.Peers.Directory.Newest.{newest_of, get-apply_all}
use nostr_vpn.Peers.Presence.{PeerPresenceBook, empty_book, apply_signal}
use nostr_vpn.Peers.Presence.Consistent.{
  IsConsistent, stamp, apply_signal-IsConsistent, announce_newest,
}

abbrev pub announced : Text → ℕ → PeerAnnouncement
announced node_id timestamp = record {
  node_id = node_id;
  public_key = codes "k";
  endpoint = codes "203.0.113.7:51820";
  local_endpoint = none;
  public_endpoint = none;
  relay_endpoint = none;
  relay_pubkey = none;
  relay_expires_at = none;
  tunnel_ip = codes "10.44.0.2/32";
  advertised_routes = [];
  timestamp = timestamp;
}

abbrev pub node : Text
node = codes "node"

abbrev other_node : Text
other_node = codes "other"

abbrev nobody : PeerDirectory
nobody = record { peers = [] }

abbrev two_announced : List PeerAnnouncement
two_announced = announced node 7 ∷ announced other_node 3 ∷ announced node 5 ∷ []

get-apply_all_example :
    get (apply_all nobody two_announced) node ≡ newest_of node (get nobody node) two_announced
get-apply_all_example = get-apply_all nobody two_announced node

-- A book with one active peer, seen at 100.
abbrev pub one_active : PeerPresenceBook
one_active = record {
  active = (node, announced node 7) ∷ [];
  known = (node, announced node 7) ∷ [];
  last_seen_at = (node, 100) ∷ [];
  active_since_at = (node, 40) ∷ [];
}

empty_book-IsConsistent : IsConsistent empty_book node
unfolding HashMap.get
empty_book-IsConsistent = record {
  active_known = inl refl;
  active_seen = inl refl;
  active_since = refl;
}

apply_signal-IsConsistent_example :
    IsConsistent (apply_signal empty_book node (announce (announced node 7)) 100).0 node
apply_signal-IsConsistent_example =
    apply_signal-IsConsistent empty_book node 100 (announce (announced node 7)) node
      empty_book-IsConsistent

-- An announcement that was overtaken by a later one.
announce_newest_example :
    let (b', changed) = apply_signal one_active node (announce (announced node 5)) 101 in
    (stamp (HashMap.get one_active.active node) ≤ stamp (HashMap.get b'.active node))
    × (stamp (HashMap.get one_active.known node) ≤ stamp (HashMap.get b'.known node))
    × ((node ≡ node) ⊎ (HashMap.get b'.active node ≡ HashMap.get one_active.active node))
    × ((node ≡ node) ⊎ (HashMap.get b'.known node ≡ HashMap.get one_active.known node))
    × (HashMap.get b'.active node
        ≡ (if changed then some (announced node 5) else HashMap.get one_active.active node))
announce_newest_example = announce_newest one_active node (announced node 5) 101 node
