-- ===== src/Peers/Paths/Tests.antt =====
-- The book on a peer with a public and an observed endpoint.
use nostr_vpn.Prelude.{◌≡◌, ◌⊎◌, refl, true, none, some, [], ◌∷◌, List, any}
use nostr_vpn.Prelude.Text.{
  Text, codes, str_eq, is_blank, trim, trim_start, trim_end, is_whitespace,
}
use nostr_vpn.Prelude.Results.{ok}
use nostr_vpn.Collections.HashMap.{get, insert, retain}
use nostr_vpn.Peers.Announcement.{PeerAnnouncement}
use nostr_vpn.Peers.Paths.{
  PeerPathState, PeerPathBook, TrackedPeerPath, public, observed, relay, cleared, state_of,
}
use nostr_vpn.Peers.Paths.Endpoints.{announcement_endpoints, push_endpoint, is_announced}
use nostr_vpn.Peers.Paths.Refresh.{refresh_from_announcement, announced_as_relay, announce_paths}
use nostr_vpn.Peers.Paths.Selection.{select_endpoint_for_local_endpoints}
use nostr_vpn.Peers.Paths.Selection.Newest.{select-IsNewest, IsNewest, Waits}
use nostr_vpn.Peers.Paths.Tracking.{IsPathBook}
use nostr_vpn.Peers.Paths.Runs.{
  PathStep, refreshed, selected, succeeded, pruned, run, run-IsPathBook, select_runs,
}
use nostr_vpn.Peers.Paths.Announced.{refresh_relay_paths}
use nostr_vpn.Peers.Tests.{announced, node}

abbrev public_endpoint : Text
public_endpoint = codes "203.0.113.7:51820"

abbrev seen_endpoint : Text
seen_endpoint = codes "203.0.113.7:33063"

abbrev relay_endpoint : Text
relay_endpoint = codes "198.51.100.30:40001"

abbrev paths : PeerPathState
paths = record {
  current_endpoint = some seen_endpoint;
  endpoints =
      (
        public_endpoint,
        record {
          source = public;
          announced_at = 100;
          last_selected_at = none;
          last_success_at = none;
        },
      )
      ∷ (
        seen_endpoint,
        record {
          source = observed;
          announced_at = 90;
          last_selected_at = some 99;
          last_success_at = some 98;
        },
      )
      ∷ [];
}

abbrev book : PeerPathBook
book = record { peers = (node, paths) ∷ [] }

book-IsPathBook : IsPathBook book
unfolding get str_eq
book-IsPathBook = record {
  distinct = (tt, tt);
  states = (record { distinct = ((refl, tt), (tt, tt)); current_tracked = refl }, tt);
}

paths_found : get book.peers node ≡ some paths
unfolding get str_eq
paths_found = refl

abbrev steps : List PathStep
steps =
    refreshed node (announced node 7) 100
    ∷ succeeded node seen_endpoint 101
    ∷ selected node seen_endpoint 101
    ∷ pruned 150 60
    ∷ []

run-IsPathBook_example : IsPathBook (run book steps)
run-IsPathBook_example = run-IsPathBook book steps book-IsPathBook

select_runs_example :
    (e : Text) × (select_endpoint_for_local_endpoints
        (run cleared steps)
        node
        (announced node 7)
        []
        160
        5
      ≡ ok (some e))
select_runs_example = select_runs steps node (announced node 7) [] 160 5

select-IsNewest_example :
    (e : Text) × (t : TrackedPeerPath) × (select_endpoint_for_local_endpoints book node
        (announced node 7)
        []
        160
        5
      ≡ ok (some e))
    × (get paths.endpoints e ≡ some t)
    × (IsNewest [] paths.endpoints e t ⊎ ((some seen_endpoint ≡ some e) × Waits 160 5 t))
unfolding str_eq
select-IsNewest_example =
    select-IsNewest book node (announced node 7) [] 160 5 paths paths_found refl
      ((refl, tt), (tt, tt))

-- The peer announces that it can be reached through a relay.
abbrev through_relay : PeerAnnouncement
through_relay = record (announced node 7) { relay_endpoint = some relay_endpoint }

relay_path_found :
    get
      (state_of (refresh_from_announcement cleared node through_relay 100).0 node).endpoints
      relay_endpoint
    ≡ some (record {
      source = relay;
      announced_at = 100;
      last_selected_at = none;
      last_success_at = none;
    })
unfolding refresh_from_announcement announce_paths announcement_endpoints push_endpoint is_announced
    any is_blank trim trim_start trim_end is_whitespace str_eq get insert retain
relay_path_found = refl

refresh_relay_paths_example :
    announced_as_relay (announcement_endpoints through_relay) relay_endpoint ≡ true
unfolding get
refresh_relay_paths_example =
    refresh_relay_paths cleared node through_relay 100 relay_endpoint
      (record {
        source = relay;
        announced_at = 100;
        last_selected_at = none;
        last_success_at = none;
      })
      tt relay_path_found refl
