-- ===== src/Client.antt =====
-- crates/nostr-vpn-cli/src/relay_runtime.rs: what the daemon knows of the relay services that it
-- asks for sessions.
pub mod Providers
pub mod Reconcile
pub mod Standby
pub mod Tests
