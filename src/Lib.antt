-- ===== src/Lib.antt =====
-- nostr-vpn: the relay service, the configuration of a node and its networks, and what a node
-- knows of its peers and its relays.
--
-- nostr-vpn joins machines into a WireGuard mesh. The nodes signal over Nostr relays: a node
-- announces its endpoints, the others keep the announcements, and each node picks for every peer an
-- endpoint to send to. Where two nodes do not reach each other, a node asks a relay service for a
-- session; the service binds two UDP ports and carries the datagrams between them.
--
-- Relay: crates/nostr-vpn-relay/src/bin, the program nvpn-udp-relay.
--   Relay/Messages: the records of crates/nostr-vpn-core/src/relay.rs and the payloads of
--     service_signaling.rs.
--   Relay/Ports: nvpn_udp_relay/port_allocator.rs. RelayPortAllocator::bind_pair is `bind_pair`,
--     its loops are `first_loop` and `second_loop`. What the system answers to a bind is a function
--     of the port. Each loop has fuel for one port more than the range has, which is enough: a loop
--     ends when it comes round. Cycle has the order of the search, Pair its results, Allocator what
--     a caller sees, Flags the range that the program's flags configure.
--   Relay/Forwarding: SessionForwardingState::allow_forward of nvpn_udp_relay/relay_runtime.rs, the
--     byte quota (Quota) and the rate limit (Bucket). The credit for a period is a parameter, since
--     the source computes it in floats; Bucket says how far it may be rounded.
--   Relay/Sessions, Relay/Runtime: RelayRuntimeState, NatAssistRuntimeState and ServiceRuntimeState
--     of relay_runtime.rs: the sessions on record, the limits on their number (Admission), the
--     snapshots for the operator (Snapshots) and the state after a restart (Restore, Restart). The
--     JSON parser is a parameter.
--   Relay/Legs: the body of spawn_leg in nvpn-udp-relay.rs, that is, what one datagram does to a
--     session: who is sent to (Pinning), what it costs (Charging) and what is noted for the
--     operator (Task).
--   Relay/Service: the loop of main in nvpn-udp-relay.rs, a turn for each message. A turn has what
--     is read from the clock, the Instant at which a lease ends (or a panic, where it is out of
--     range), what the system answers to binds, and whether publishing worked.
--     Limits, Grants and Replay are about runs of that loop.
--
-- Peers: crates/nostr-vpn-core/src.
--   Peers/Announcement, Peers/Directory: control.rs, the announcement of a node and PeerDirectory.
--   Peers/Signal: the payloads of signaling.rs and the request of join_requests.rs.
--   Peers/Presence: presence.rs, PeerPresenceBook.
--   Peers/Paths: paths.rs, PeerPathBook, with Endpoints, Refresh and Selection for its functions,
--     and Tracking, Runs, Announced, Fresh and Selection/Newest for the proofs.
--
-- Client: crates/nostr-vpn-cli/src/relay_runtime.rs, what a node knows of the relay services.
--   Client/Providers: the book of providers, with Backoff on the cooldowns and Pruned on what
--     pruning forgets.
--   Client/Standby: the sessions in reserve, with Promotion on the one that takes over.
--   Client/Reconcile: reconcile_active_relay_sessions and what it reads in main.rs of the tunnel;
--     Settled on the sessions that are left, Reported on what it returns. The decoding of keys is a
--     parameter (KeyText).
--
-- Config: crates/nostr-vpn-core/src, the configuration of a node.
--   Config/State: the records of config.rs. A method with `&mut self` and a Result is a function
--     from a configuration to the configuration it leaves behind and its result, composed with do
--     blocks; a method that fails returns the configuration as it then is. What the source takes
--     from nostr_sdk, sha2, hex and the Unicode tables is the record Libraries, which the
--     definitions take as an argument. The clock and whatever is generated are arguments too.
--   Config/Roster: network_roster.rs, with Requests on the join requests and Sets on the lists of
--     keys as sets.
--   Config/Routes: network_routes.rs. Masks has the masks, Sets the lists of routes as sets, and
--     Idempotent the second normalisation. The printing of an address is an argument.
--   Config/Labels, Config/Animals: config_magic_dns.rs. Normal is on normalised labels, Fresh on
--     names that are made unique. The loop of uniquify_network_entry_id has no bound in the source;
--     `search_entry_id` has fuel for as many rounds as there are used identifiers.
--   Config/Networks, Config/Operations, Config/Aliases, Config/Shared, Config/Defaults: the methods
--     of AppConfig: lookups, the methods that change networks and members, the aliases, the shared
--     roster, and ensure_defaults with maybe_autoconfigure_node of config_defaults.rs. active_network
--     panics without a network in the source, where the definition gives a blank one.
--   Config/Steps: the methods as steps from one configuration to the next. Operations/Frames, Kept
--     and Counted, Steps/Kept and Defaults/Whole are what it rests on.
--
-- Below these: Prelude (names passed on, tests on numbers, texts, sorting, results), Collections
-- (HashMap and HashSet as lists of entries; the order of the list stands for the order of
-- iteration, over which the statements quantify) and Net (the grammar of IP addresses and socket
-- addresses, and their classes).
--
-- A text is the list of its code points. Numbers of 64 bits are natural numbers with the saturation
-- of the source written out (Prelude/Words); the sum of the start and the lease of a session wraps
-- as in a release build. Time is a number that the caller gives.
--
-- Not modelled: the order in which a node tries its relay providers; sockets, tasks, files and the
-- Nostr client, which are input and output; reading and writing the configuration file; the
-- magic DNS server and the daemon; the user interfaces and the platform integration; keys and
-- WireGuard.
pub mod Prelude
pub mod Collections
pub mod Config
pub mod Net
pub mod Peers
pub mod Relay
pub mod Client
