-- ===== src/Peers/Paths/Refresh.antt =====
-- paths.rs: refresh_from_announcement.
use nostr_vpn.Prelude.{
  ℕ, ◌-◌, Bool, false, ◌&&◌, ◌||◌, not, Option, none, some, [], ◌∷◌, ltb, leb, ◌==◌, if◌then◌else◌,
  is_some_and, unwrap_or, any,
}
use nostr_vpn.Prelude.Text.{Text, str_eq}
use nostr_vpn.Net.{IpAddr}
use nostr_vpn.Collections.HashMap.{HashMap, get, insert}
use nostr_vpn.Peers.Announcement.{PeerAnnouncement}
use nostr_vpn.Peers.Paths.{
  PeerPathSource, TrackedPeerPath, PeerPathState, PeerPathBook, observed, source_eq, is_relay,
  merge, new_path, keep_paths, state_of, with_state,
}
use nostr_vpn.Peers.Paths.Endpoints.{
  Announced, announcement_endpoints, endpoint_is_local_only, endpoint_host,
}

-- OBSERVED_PUBLIC_ENDPOINT_STICKY_SECS
abbrev pub sticky_secs : ℕ
sticky_secs = 180

abbrev pub ip_eq : IpAddr → IpAddr → Bool
ip_eq (IpAddr.v4 a) (IpAddr.v4 b) = a == b
ip_eq (IpAddr.v6 a) (IpAddr.v6 b) = a == b
ip_eq _ _ = false

-- Some announced endpoint that is neither local nor this one has the same host.
abbrev pub host_announced : Text → Option IpAddr → Announced → Bool
host_announced endpoint none announced = false
host_announced endpoint (some host) announced =
    any
      (λ a.
        not (source_eq a.1 observed)
        && not (endpoint_is_local_only a.0)
        && not (str_eq endpoint a.0)
        && is_some_and (endpoint_host a.0) (λ h. ip_eq h host))
      announced

abbrev pub succeeded_recently : TrackedPeerPath → ℕ → Bool
succeeded_recently t seen_at = is_some_and t.last_success_at (λ s. leb (seen_at - s) sticky_secs)

unfoldable pub observed_endpoint_superseded_by_announcement :
    Text → TrackedPeerPath → Announced → ℕ → Bool
observed_endpoint_superseded_by_announcement endpoint t announced seen_at =
    source_eq t.source observed
    && not (endpoint_is_local_only endpoint)
    && not (succeeded_recently t seen_at)
    && host_announced endpoint (endpoint_host endpoint) announced

-- `announced_relay_endpoints.contains(endpoint)`
unfoldable pub announced_as_relay : Announced → Text → Bool
unfolding any
announced_as_relay announced endpoint = any (λ a. is_relay a.1 && str_eq a.0 endpoint) announced

abbrev pub survives : Announced → ℕ → Text → TrackedPeerPath → Bool
survives announced seen_at endpoint t =
    (not (is_relay t.source) || announced_as_relay announced endpoint)
    && not (observed_endpoint_superseded_by_announcement endpoint t announced seen_at)

-- The body of the last loop: the entry for one announced endpoint, and whether it changed.
abbrev pub announce_path : TrackedPeerPath → PeerPathSource → ℕ → TrackedPeerPath × Bool
announce_path t source seen_at =
    let merged_source = merge t.source source in
    (
      record t {
        source = merged_source;
        announced_at = if ltb t.announced_at seen_at then seen_at else t.announced_at;
      },
      not (source_eq t.source merged_source) || ltb t.announced_at seen_at,
    )

unfoldable pub announce_paths :
    Announced → ℕ → HashMap TrackedPeerPath → HashMap TrackedPeerPath × Bool
announce_paths [] seen_at m = (m, false)
announce_paths ((endpoint, source) ∷ announced) seen_at m =
    let (t, changed) =
      announce_path (unwrap_or (get m endpoint) (new_path source seen_at)) source seen_at in
    let (m', others_changed) = announce_paths announced seen_at (insert m endpoint t) in
    (m', changed || others_changed)

abbrev pub refresh_state : PeerPathState → Announced → ℕ → PeerPathState × Bool
refresh_state s announced seen_at =
    let (kept, dropped) = keep_paths (survives announced seen_at) s in
    let (endpoints, changed) = announce_paths announced seen_at kept.endpoints in
    (record kept { endpoints = endpoints }, dropped || changed)

unfoldable pub refresh_from_announcement :
    PeerPathBook → Text → PeerAnnouncement → ℕ → PeerPathBook × Bool
refresh_from_announcement b participant a seen_at =
    let (s, changed) = refresh_state (state_of b participant) (announcement_endpoints a) seen_at in
    (with_state b participant s, changed)
