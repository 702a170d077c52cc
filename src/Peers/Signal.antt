-- ===== src/Peers/Signal.antt =====
-- signaling.rs: the payloads of the signaling between the nodes of a network.
use nostr_vpn.Prelude.{ℕ, List}
use nostr_vpn.Prelude.Text.{Text}
use nostr_vpn.Collections.HashMap.{HashMap}
use nostr_vpn.Peers.Announcement.{PeerAnnouncement}

-- join_requests.rs
pub record MeshJoinRequest : Type 0 where
  pub network_id : Text
  pub requester_node_name : Text

pub record NetworkRoster : Type 0 where
  pub network_name : Text
  pub participants : List Text
  pub admins : List Text
  pub aliases : HashMap Text
  pub signed_at : ℕ

pub data SignalPayload : Type 0 where
  hello : SignalPayload
  announce : PeerAnnouncement → SignalPayload
  roster : NetworkRoster → SignalPayload
  disconnect : Text → SignalPayload
  join_request : ℕ → MeshJoinRequest → SignalPayload
