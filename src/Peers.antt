-- ===== src/Peers.antt =====
-- crates/nostr-vpn-core/src: what a node knows of its peers.
pub mod Announcement
pub mod Signal
pub mod Directory
pub mod Presence
pub mod Paths
pub mod Tests
