-- ===== src/Config.antt =====
-- config.rs with network_roster.rs, network_routes.rs, config_magic_dns.rs and config_defaults.rs:
-- the networks that a node is configured for.
pub mod Animals
pub mod Labels
pub mod Routes
pub mod State
pub mod Roster
pub mod Networks
pub mod Aliases
pub mod Operations
pub mod Shared
pub mod Defaults
pub mod Steps
pub mod Tests
