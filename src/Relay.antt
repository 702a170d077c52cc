-- ===== src/Relay.antt =====
-- crates/nostr-vpn-relay/src/bin: the public UDP relay service.
pub mod Messages
pub mod Ports
pub mod Forwarding
pub mod Sessions
pub mod Runtime
pub mod Legs
pub mod Service
pub mod Tests
