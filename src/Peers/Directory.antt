-- ===== src/Peers/Directory.antt =====
-- control.rs: PeerDirectory, the newest announcement of each node.
pub mod Newest
use nostr_vpn.Prelude.{
  ℕ, ◌<◌, Bool, Option, none, some, List, [], ◌∷◌, ltb, if◌then◌else◌, is_some_and,
}
use nostr_vpn.Prelude.Text.{Text, str_le}
use nostr_vpn.Prelude.Sorting.{sort}
use nostr_vpn.Collections.HashMap
use nostr_vpn.Collections.HashMap.{HashMap}
use nostr_vpn.Peers.Announcement.{PeerAnnouncement}

pub record PeerDirectory : Type 0 where
  pub peers : HashMap PeerAnnouncement

unfoldable pub apply : PeerDirectory → PeerAnnouncement → PeerDirectory
apply d a =
    if is_some_and (HashMap.get d.peers a.node_id) (λ existing. ltb a.timestamp existing.timestamp)
    then d
    else record { peers = HashMap.insert d.peers a.node_id a }

unfoldable pub get : PeerDirectory → Text → Option PeerAnnouncement
get d node_id = HashMap.get d.peers node_id

unfoldable pub remove : PeerDirectory → Text → PeerDirectory × Option PeerAnnouncement
remove d node_id = (record { peers = HashMap.remove d.peers node_id }, HashMap.get d.peers node_id)

unfoldable pub all : PeerDirectory → List PeerAnnouncement
all d = sort (λ x y. str_le x.node_id y.node_id) (HashMap.values d.peers)

-- A sequence of announcements.
unfoldable pub apply_all : PeerDirectory → List PeerAnnouncement → PeerDirectory
apply_all d [] = d
apply_all d (a ∷ rest) = apply_all (apply d a) rest
