-- ===== src/Peers/Directory/Newest.antt =====
-- The directory as a function of what was announced.
use nostr_vpn.Prelude.{
  ◌≡◌, ◌≢◌, refl, ◌∙◌, Option, none, some, List, [], ◌∷◌, ltb, if◌then◌else◌, arith,
}
use nostr_vpn.Prelude.Text.{Text, str_eq, str_eq_iff}
use nostr_vpn.Collections.HashMap.{get-insert}
use nostr_vpn.Peers.Announcement.{PeerAnnouncement}
use nostr_vpn.Peers.Directory.{PeerDirectory, apply, apply_all, get}

-- The later of two announcements; of two with one timestamp, the one that came second.
abbrev pub newer : Option PeerAnnouncement → PeerAnnouncement → Option PeerAnnouncement
newer none a = some a
newer (some b) a = if ltb a.timestamp b.timestamp then some b else some a

-- The specification: of the announcements of one node, the newest.
abbrev pub newest_of :
    Text → Option PeerAnnouncement → List PeerAnnouncement → Option PeerAnnouncement
newest_of node_id so_far [] = so_far
newest_of node_id so_far (a ∷ rest) =
    newest_of node_id (if str_eq a.node_id node_id then newer so_far a else so_far) rest

get-apply :
    (d : PeerDirectory) (a : PeerAnnouncement) (node_id : Text)
    → get (apply d a) node_id
      ≡ (if str_eq a.node_id node_id then newer (get d node_id) a else get d node_id)
unfolding get apply
get-apply d a node_id =
    ground (arith, get-insert d.peers a.node_id node_id a, str_eq_iff a.node_id node_id)

-- After any sequence of announcements the directory has, for each node, the newest announcement
-- of that node, and of several with the newest timestamp the last.
pub get-apply_all :
    (d : PeerDirectory) (announcements : List PeerAnnouncement) (node_id : Text)
    → get (apply_all d announcements) node_id ≡ newest_of node_id (get d node_id) announcements
unfolding apply_all
get-apply_all d [] node_id = refl
get-apply_all d (a ∷ rest) node_id =
    get-apply_all (apply d a) rest node_id ∙ rw (get-apply d a node_id) refl

-- Announcements of different timestamps may arrive in either order: every node is then known by
-- the same announcement.
apply_comm :
    (d : PeerDirectory) (a b : PeerAnnouncement) (node_id : Text)
    → a.timestamp ≢ b.timestamp
    → get (apply (apply d a) b) node_id ≡ get (apply (apply d b) a) node_id
apply_comm d a b node_id ne = ground (
  arith,
  get-apply (apply d a) b node_id,
  get-apply (apply d b) a node_id,
  get-apply d a node_id,
  get-apply d b node_id,
  str_eq_iff a.node_id node_id,
  str_eq_iff b.node_id node_id,
)
