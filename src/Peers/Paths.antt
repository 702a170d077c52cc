-- ===== src/Peers/Paths.antt =====
-- paths.rs: PeerPathBook, the endpoints at which each peer may be reached, and what is known of
-- them.
pub mod Endpoints
pub mod Refresh
pub mod Selection
pub mod Tracking
pub mod Runs
pub mod Announced
pub mod Fresh
pub mod Tests
use nostr_vpn.Prelude.{
  ℕ, ◌-◌, max, Bool, true, false, ◌&&◌, ◌||◌, not, Option, none, some, List, [], ◌∷◌, ltb, leb,
  ◌==◌, if◌then◌else◌, unwrap_or, filter_option, is_some_and, is_none, length, is_empty,
}
use nostr_vpn.Prelude.Text.{Text, str_eq}
use nostr_vpn.Collections.HashMap.{HashMap, get, insert, retain, remove, contains_key}
use nostr_vpn.Collections.HashSet.{HashSet, contains}

pub data PeerPathSource : Type 0 where
  local public relay legacy observed : PeerPathSource

-- The derived order of the variants.
abbrev pub index : PeerPathSource → ℕ
index local = 0
index public = 1
index relay = 2
index legacy = 3
index observed = 4

abbrev pub source_eq : PeerPathSource → PeerPathSource → Bool
source_eq a b = index a == index b

abbrev pub merge : PeerPathSource → PeerPathSource → PeerPathSource
merge a b = if leb (index a) (index b) then b else a

abbrev pub is_relay : PeerPathSource → Bool
is_relay s = source_eq s relay

abbrev pub rank : PeerPathSource → Bool → ℕ
rank relay same_subnet_local = 5
rank local same_subnet_local = if same_subnet_local then 4 else 0
rank public same_subnet_local = if same_subnet_local then 4 else 2
rank legacy same_subnet_local = if same_subnet_local then 4 else 1
rank observed same_subnet_local = if same_subnet_local then 4 else 2

pub record TrackedPeerPath : Type 0 where
  pub source : PeerPathSource
  pub announced_at : ℕ
  pub last_selected_at : Option ℕ
  pub last_success_at : Option ℕ

-- TrackedPeerPath::new
abbrev pub new_path : PeerPathSource → ℕ → TrackedPeerPath
new_path source announced_at = record {
  source = source;
  announced_at = announced_at;
  last_selected_at = none;
  last_success_at = none;
}

abbrev pub freshness_at : TrackedPeerPath → ℕ
freshness_at t =
    max (max t.announced_at (unwrap_or t.last_selected_at 0)) (unwrap_or t.last_success_at 0)

pub record PeerPathState : Type 0 where
  pub current_endpoint : Option Text
  pub endpoints : HashMap TrackedPeerPath

-- PeerPathState::default
abbrev pub no_paths : PeerPathState
no_paths = record { current_endpoint = none; endpoints = [] }

pub record PeerPathBook : Type 0 where
  pub peers : HashMap PeerPathState

-- PeerPathBook::clear, which leaves what PeerPathBook::default makes.
abbrev pub cleared : PeerPathBook
cleared = record { peers = [] }

-- The current endpoint is dropped if it is not among the endpoints any more.
abbrev pub without_lost : PeerPathState → PeerPathState
without_lost s = record s {
  current_endpoint = filter_option s.current_endpoint (contains_key s.endpoints);
}

abbrev pub loses_current : PeerPathState → Bool
loses_current s = is_some_and s.current_endpoint (λ e. not (contains_key s.endpoints e))

-- `retain` on the endpoints and what follows it: the state, and whether it changed.
abbrev pub keep_paths : (Text → TrackedPeerPath → Bool) → PeerPathState → PeerPathState × Bool
keep_paths p s =
    let kept = retain p s.endpoints in
    let s' = record s { endpoints = kept } in
    (without_lost s', not (length kept == length s.endpoints) || loses_current s')

-- `self.peers.entry(participant).or_default()`
abbrev pub state_of : PeerPathBook → Text → PeerPathState
state_of b participant = unwrap_or (get b.peers participant) no_paths

abbrev pub with_state : PeerPathBook → Text → PeerPathState → PeerPathBook
with_state b participant s = record { peers = insert b.peers participant s }

abbrev pub has_value : Option ℕ → ℕ → Bool
has_value o n = is_some_and o (λ m. m == n)

-- `entry(endpoint).or_insert_with(|| TrackedPeerPath::new(Observed, at))`
abbrev pub observed_path : PeerPathState → Text → ℕ → TrackedPeerPath
observed_path s endpoint at = unwrap_or (get s.endpoints endpoint) (new_path observed at)

abbrev pub select_path : PeerPathState → Text → ℕ → PeerPathState × Bool
select_path s endpoint selected_at =
    let entry = observed_path s endpoint selected_at in
    (
      record {
        current_endpoint = some endpoint;
        endpoints =
            insert s.endpoints endpoint (record entry { last_selected_at = some selected_at });
      },
      not (has_value entry.last_selected_at selected_at)
          || not (is_some_and s.current_endpoint (λ e. str_eq e endpoint)),
    )

unfoldable pub note_selected : PeerPathBook → Text → Text → ℕ → PeerPathBook × Bool
note_selected b participant endpoint selected_at =
    let (s, changed) = select_path (state_of b participant) endpoint selected_at in
    (with_state b participant s, changed)

abbrev pub succeed_path : PeerPathState → Text → ℕ → PeerPathState × Bool
succeed_path s endpoint success_at =
    let entry = observed_path s endpoint success_at in
    if leb success_at (unwrap_or entry.last_success_at 0)
    then (record s { endpoints = insert s.endpoints endpoint entry }, false)
    else (
      record s {
        endpoints =
            insert s.endpoints endpoint (record entry { last_success_at = some success_at });
      },
      true,
    )

unfoldable pub note_success : PeerPathBook → Text → Text → ℕ → PeerPathBook × Bool
note_success b participant endpoint success_at =
    let (s, changed) = succeed_path (state_of b participant) endpoint success_at in
    (with_state b participant s, changed)

abbrev pub is_fresh : ℕ → TrackedPeerPath → Bool
is_fresh cutoff t = ltb cutoff (freshness_at t)

-- `self.peers.retain`, whose closure prunes the state that it visits.
unfoldable pub prune_peers : ℕ → HashMap PeerPathState → HashMap PeerPathState × Bool
prune_peers cutoff [] = ([], false)
prune_peers cutoff ((participant, s) ∷ m) =
    let (s', changed) = keep_paths (λ endpoint t. is_fresh cutoff t) s in
    let (m', others_changed) = prune_peers cutoff m in
    if is_empty s'.endpoints
    then (m', true)
    else ((participant, s') ∷ m', changed || others_changed)

unfoldable pub prune_stale : PeerPathBook → ℕ → ℕ → PeerPathBook × Bool
prune_stale b now stale_after_secs =
    let (peers, changed) = prune_peers (now - stale_after_secs) b.peers in
    if stale_after_secs == 0 then (b, false) else (record { peers = peers }, changed)

unfoldable pub retain_participants : PeerPathBook → HashSet → PeerPathBook
retain_participants b participants = record {
  peers = retain (λ participant s. contains participants participant) b.peers;
}

abbrev pub remove_relay_paths : PeerPathBook → Text → Option PeerPathState → PeerPathBook × Bool
remove_relay_paths b participant none = (b, false)
remove_relay_paths b participant (some s) =
    let (s', changed) = keep_paths (λ endpoint t. not (is_relay t.source)) s in
    if is_empty s'.endpoints
    then (record { peers = remove b.peers participant }, true)
    else (with_state b participant s', changed)

unfoldable pub remove_relay_paths_for_participant : PeerPathBook → Text → PeerPathBook × Bool
remove_relay_paths_for_participant b participant =
    remove_relay_paths b participant (get b.peers participant)
