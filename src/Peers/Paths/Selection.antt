-- ===== src/Peers/Paths/Selection.antt =====
-- paths.rs: the choice of a peer's endpoint. The two calls of `expect` are the errors of
-- SelectPanic.
pub mod Newest
use nostr_vpn.Prelude.{
  ℕ, ◌-◌, Bool, true, false, ◌&&◌, ◌||◌, not, Option, none, some, List, [], ◌∷◌, ltb, leb, ◌==◌,
  if◌then◌else◌, is_some, is_some_and, unwrap_or, map_option, filter_option,
}
use nostr_vpn.Prelude.Text.{Text, str_eq}
use nostr_vpn.Prelude.Results.{Result, ok, err}
use nostr_vpn.Collections.HashMap.{HashMap, get, contains_key}
use nostr_vpn.Peers.Announcement.{
  PeerAnnouncement, endpoint_shares_private_ipv4_subnet, select_peer_endpoint_from_local_endpoints,
}
use nostr_vpn.Peers.Paths.{TrackedPeerPath, PeerPathState, PeerPathBook, rank}
use nostr_vpn.Peers.Paths.Endpoints.{endpoint_is_local_only}

unfoldable pub path_success_still_applies : Text → TrackedPeerPath → Bool → Bool
path_success_still_applies endpoint t same_subnet_local =
    is_some t.last_success_at && (not (endpoint_is_local_only endpoint) || same_subnet_local)

-- The tuple that candidates are compared by, from the front.
pub record CandidateRank : Type 0 where
  pub success_at : ℕ
  pub source_rank : ℕ
  pub default_match : ℕ
  pub announced_at : ℕ

abbrev pub rank_le : CandidateRank → CandidateRank → Bool
rank_le a b =
    ltb a.success_at b.success_at
    || (a.success_at == b.success_at
        && (ltb a.source_rank b.source_rank
            || (a.source_rank == b.source_rank
                && (ltb a.default_match b.default_match
                    || (a.default_match == b.default_match && leb a.announced_at b.announced_at)))))

abbrev pub Entry : Type 0
Entry = Text × TrackedPeerPath

-- Iterator::max_by_key: of several maxima the last.
unfoldable pub max_by_key : (Entry → CandidateRank) → Entry → List Entry → Entry
max_by_key key best [] = best
max_by_key key best (x ∷ xs) = max_by_key key (if rank_le (key best) (key x) then x else best) xs

pub data SelectPanic : Type 0 where
  no_current_endpoint no_preferred_endpoint : SelectPanic

module _ (own_local_endpoints : List Text) where
  abbrev pub same_subnet : Text → Bool
  same_subnet endpoint = endpoint_shares_private_ipv4_subnet endpoint own_local_endpoints

  -- The last success on a path, or 0 if there is none that still applies.
  abbrev pub applied_success : Text → TrackedPeerPath → ℕ
  applied_success endpoint t =
      if path_success_still_applies endpoint t (same_subnet endpoint)
      then unwrap_or t.last_success_at 0
      else 0

  unfoldable pub candidate_rank : Text → Entry → CandidateRank
  candidate_rank default_endpoint (endpoint, t) = record {
    success_at = applied_success endpoint t;
    source_rank = rank t.source (same_subnet endpoint);
    default_match = if str_eq endpoint default_endpoint then 1 else 0;
    announced_at = t.announced_at;
  }

  module _ (now retry_after_secs : ℕ) where
    abbrev pub can_rotate : TrackedPeerPath → Bool
    can_rotate t =
        unwrap_or (map_option t.last_selected_at (λ at. leb retry_after_secs (now - at))) true

    -- Whether the current endpoint gives way to the preferred one.
    abbrev pub choose : Text → TrackedPeerPath → Text → TrackedPeerPath → Text
    choose current_endpoint current preferred preferred_state =
        if str_eq current_endpoint preferred
        then preferred
        else if endpoint_is_local_only current_endpoint && not (same_subnet current_endpoint)
        then preferred
        else let current_success_at = applied_success current_endpoint current in
          let preferred_success_at = applied_success preferred preferred_state in
          if ltb 0 current_success_at
          then (if ltb current_success_at preferred_success_at then preferred else current_endpoint)
          else if can_rotate current
          then preferred
          else current_endpoint

    abbrev pub expect_both :
        Text
        → Option TrackedPeerPath
        → Text
        → Option TrackedPeerPath
        → Result SelectPanic (Option Text)
    expect_both current_endpoint none preferred p = err no_current_endpoint
    expect_both current_endpoint (some c) preferred none = err no_preferred_endpoint
    expect_both current_endpoint (some c) preferred (some p) =
        ok (some (choose current_endpoint c preferred p))

    abbrev pub against_current :
        HashMap TrackedPeerPath → Text → Option Text → Result SelectPanic (Option Text)
    against_current m preferred none = ok (some preferred)
    against_current m preferred (some current) =
        expect_both current (get m current) preferred (get m preferred)

    abbrev pub select_tracked :
        Text → Option Text → HashMap TrackedPeerPath → Result SelectPanic (Option Text)
    select_tracked default_endpoint current [] = ok (some default_endpoint)
    select_tracked default_endpoint current (x ∷ xs) =
        against_current (x ∷ xs) (max_by_key (candidate_rank default_endpoint) x xs).0
          (filter_option current (contains_key (x ∷ xs)))

    abbrev pub select_in : Text → Option PeerPathState → Result SelectPanic (Option Text)
    select_in default_endpoint none = ok (some default_endpoint)
    select_in default_endpoint (some s) =
        select_tracked default_endpoint s.current_endpoint s.endpoints

unfoldable pub select_endpoint_for_local_endpoints :
    PeerPathBook → Text → PeerAnnouncement → List Text → ℕ → ℕ → Result SelectPanic (Option Text)
select_endpoint_for_local_endpoints b participant a own_local_endpoints now retry_after_secs =
    select_in own_local_endpoints now retry_after_secs
      (select_peer_endpoint_from_local_endpoints a own_local_endpoints) (get b.peers participant)

abbrev local_endpoints : Option Text → List Text
local_endpoints none = []
local_endpoints (some endpoint) = endpoint ∷ []

unfoldable pub select_endpoint :
    PeerPathBook → Text → PeerAnnouncement → Option Text → ℕ → ℕ → Result SelectPanic (Option Text)
unfolding select_endpoint_for_local_endpoints
select_endpoint b participant a own_local_endpoint now retry_after_secs =
    select_endpoint_for_local_endpoints b participant a (local_endpoints own_local_endpoint) now
      retry_after_secs

abbrev recently_proven : List Text → Text → ℕ → ℕ → Option TrackedPeerPath → Bool
recently_proven own_local_endpoints endpoint now stale_after_secs none = false
recently_proven own_local_endpoints endpoint now stale_after_secs (some t) =
    path_success_still_applies endpoint t (same_subnet own_local_endpoints endpoint)
    && is_some_and t.last_success_at (λ at. leb (now - at) stale_after_secs)

abbrev pub path_of : Option PeerPathState → Text → Option TrackedPeerPath
path_of none endpoint = none
path_of (some s) endpoint = get s.endpoints endpoint

unfoldable pub endpoint_has_recent_success_for_local_endpoints :
    PeerPathBook → Text → Text → List Text → ℕ → ℕ → Bool
endpoint_has_recent_success_for_local_endpoints b participant endpoint own now stale_after_secs =
    not (stale_after_secs == 0)
    && recently_proven own endpoint now stale_after_secs
        (path_of (get b.peers participant) endpoint)
