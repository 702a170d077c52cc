-- ===== src/Config/Operations.antt =====
-- config.rs: the operations that add, change and remove networks and their members.
pub mod Frames
pub mod Kept
pub mod Counted
use nostr_vpn.Prelude.{
  ℕ, ◌+◌, max, Bool, true, false, ◌&&◌, ◌||◌, not, Option, none, some, List, [], ◌∷◌, ◌++◌, map,
  length, ltb, leb, ◌==◌, any, find, keep, head_or, is_empty, if◌then◌else◌,
}
use nostr_vpn.Prelude.Results.{Result, ok, err}
use nostr_vpn.Prelude.Text.{Text, str_eq, trim, is_blank}
use nostr_vpn.Prelude.Sorting.{sort}
use nostr_vpn.Collections.HashSet.{HashSet, contains, collect}
use nostr_vpn.Config.State.{
  Libraries, NetworkConfig, PendingInboundJoinRequest, AppConfig, Operation, edit_first, edited,
  ◌>>=◌, ◌>>◌, pure, lift, fail_if, modify, normalize_nostr_pubkey, normalize_runtime_network_id,
  ConfigError, network_name_empty, network_not_found, network_required, active_network_required,
  network_id_empty, last_admin,
}
use nostr_vpn.Config.Labels.{
  uniquify_network_entry_id, default_network_entry_id, default_network_name,
}
use nostr_vpn.Config.Roster.{sorted_unique, requester_le}
use nostr_vpn.Config.Networks.{
  blank_network, with_network, network_by_id, active_network, normalize_selected_exit_node,
  enable_first_if_none, note_network_roster_local_change,
}
use nostr_vpn.Config.Aliases.{normalize_peer_aliases}

abbrev pub ids_of : List NetworkConfig → List Text
ids_of ns = map (λ n. n.id) ns

abbrev pub disabled : NetworkConfig → NetworkConfig
disabled n = record n { enabled = false }

-- `for (index, network) ... { network.enabled = index == position }`
unfoldable pub enable_only : (NetworkConfig → Bool) → List NetworkConfig → List NetworkConfig
enable_only test [] = []
enable_only test (n ∷ ns) =
    let others = map disabled ns in
    let rest = enable_only test ns in
    if test n then record n { enabled = true } ∷ others else disabled n ∷ rest

-- What is done with the network that has the identifier, and with the others.
unfoldable pub set_found : Text → Bool → Option NetworkConfig → Operation (Unit {0})
unfolding enable_only with_network
set_found id enabled none c = (c, err network_not_found)
set_found id true (some n) c =
    (record c { networks = enable_only (λ m. str_eq m.id id) c.networks }, ok tt)
set_found id false (some n) c =
    if n.enabled
    then (c, err active_network_required)
    else with_network id (λ m. (disabled m, ok tt)) c

unfoldable pub set_network_enabled : Text → Bool → Operation (Unit {0})
unfolding network_by_id set_found
set_network_enabled id enabled c = set_found id enabled (network_by_id c id) c

unfoldable pub set_network_join_requests_enabled : Text → Bool → Operation (Unit {0})
unfolding with_network
set_network_join_requests_enabled id enabled =
    with_network id (λ n. (record n { listen_for_join_requests = enabled }, ok tt))

unfoldable pub join_requests_enabled : AppConfig → Bool
unfolding any
join_requests_enabled c = any (λ n. n.listen_for_join_requests) c.networks

unfoldable pub set_network_mesh_id : Text → Text → Operation (Unit {0})
unfolding normalize_runtime_network_id with_network
set_network_mesh_id id mesh_id = do
  fail_if (is_empty (normalize_runtime_network_id mesh_id)) network_id_empty
  with_network id (λ n. (record n { network_id = normalize_runtime_network_id mesh_id }, ok tt))

unfoldable pub set_active_network_id : Text → Operation (Unit {0})
unfolding set_network_mesh_id active_network
set_active_network_id mesh_id c = let n = active_network c in set_network_mesh_id n.id mesh_id c

-- A request that is newer, or has another name, for the first entry of its requester.
unfoldable pub renew_request :
    PendingInboundJoinRequest
    → List PendingInboundJoinRequest
    → Option (List PendingInboundJoinRequest × Bool)
renew_request r [] = none
renew_request r (e ∷ es) =
    let rest = renew_request r es in
    if str_eq e.requester r.requester
    then some (
        if ltb e.requested_at r.requested_at
          || not (str_eq e.requester_node_name r.requester_node_name)
        then (
          record e {
            requested_at = max e.requested_at r.requested_at;
            requester_node_name = r.requester_node_name;
          }
              ∷ es,
          true,
        )
        else (e ∷ es, false))
    else elim rest [ none ↦ none | some (es1, changed) ↦ some (e ∷ es1, changed) ]

abbrev pub request_entries :
    PendingInboundJoinRequest
    → List PendingInboundJoinRequest
    → List PendingInboundJoinRequest × Bool
request_entries r es = elim (renew_request r es) [
  | some entries ↦ entries
  | none ↦ (sort requester_le (es ++ r ∷ []), true)
]

abbrev pub request_in : PendingInboundJoinRequest → NetworkConfig → NetworkConfig × Option Text
request_in r n =
    if contains n.participants r.requester
    then (n, none)
    else let (entries, changed) = request_entries r n.inbound_join_requests in
      (record n { inbound_join_requests = entries }, if changed then some n.name else none)

abbrev pub answer_in :
    PendingInboundJoinRequest → NetworkConfig → NetworkConfig × Result ConfigError (Option Text)
answer_in r n = let (n1, name) = request_in r n in (n1, ok name)

abbrev pub listens_for : Text → NetworkConfig → Bool
listens_for network_id n =
    n.listen_for_join_requests && str_eq (normalize_runtime_network_id n.network_id) network_id

-- The name of the network that has a new request.
abbrev pub in_listening_network : Text → PendingInboundJoinRequest → Operation (Option Text)
in_listening_network network_id r c =
    edited (ok none) c (edit_first (listens_for network_id) (answer_in r) c.networks)

abbrev pub added_network : Text → Text → ℕ → NetworkConfig
added_network id name ordinal =
    blank_network id (if is_blank name then default_network_name ordinal else trim name) false

-- `push`, `sort` and `dedup`, unless the key is there already.
abbrev pub with_key : Text → List Text → List Text
with_key key keys = if contains keys key then keys else sorted_unique (keys ++ key ∷ [])

abbrev pub without_key : Text → List Text → List Text
without_key key keys = keep (λ k. not (str_eq k key)) keys

abbrev pub inviter_after : Text → List Text → Text → Text
inviter_after key admins inviter = if str_eq inviter key then head_or admins [] else inviter

abbrev pub drop_participant : Text → NetworkConfig → NetworkConfig × Result ConfigError (Unit {0})
drop_participant key n =
    if length n.admins == 1 && contains n.admins key
    then (n, err last_admin)
    else let admins = without_key key n.admins in
      (
        record n {
          participants = without_key key n.participants;
          admins = admins;
          invite_inviter = inviter_after key admins n.invite_inviter;
        },
        ok tt,
      )

abbrev pub insert_admin : Text → NetworkConfig → NetworkConfig × Result ConfigError (Unit {0})
insert_admin key n = (
  record n {
    admins = with_key key n.admins;
    invite_inviter = if is_empty n.invite_inviter then key else n.invite_inviter;
  },
  ok tt,
)

-- Whether the key was an admin's: if not, the source returns at once.
abbrev pub drop_admin : Text → NetworkConfig → NetworkConfig × Result ConfigError Bool
drop_admin key n =
    if not (contains n.admins key)
    then (n, ok false)
    else if leb (length n.admins) 1
    then (n, err last_admin)
    else let admins = without_key key n.admins in
      (
        record n { admins = admins; invite_inviter = inviter_after key admins n.invite_inviter },
        ok true,
      )

module _ (lib : Libraries) where
  unfoldable pub record_inbound_join_request : Text → Text → Text → ℕ → Operation (Option Text)
  unfolding normalize_runtime_network_id edit_first contains renew_request sort
  record_inbound_join_request requested_network_id requester requester_node_name requested_at =
      let network_id = normalize_runtime_network_id requested_network_id in
      if is_empty network_id then pure none else (do
        key ← lift (normalize_nostr_pubkey lib requester)
        in_listening_network network_id (record {
          requester = key;
          requester_node_name = trim requester_node_name;
          requested_at = requested_at;
        }))

  -- The identifier of the new network, and the configuration with it. `note` fails for no network
  -- that exists, and its result is dropped.
  unfoldable pub add_network : ℕ → Text → AppConfig → AppConfig × Text
  unfolding collect uniquify_network_entry_id note_network_roster_local_change
  add_network now name c =
      let ordinal = length c.networks + 1 in
      let id =
        (uniquify_network_entry_id (default_network_entry_id ordinal)
          (collect (ids_of c.networks))).0 in
      let c1 = record c { networks = c.networks ++ added_network id name ordinal ∷ [] } in
      ((note_network_roster_local_change lib now id c1).0, id)

  unfoldable pub rename_network : ℕ → Text → Text → Operation (Unit {0})
  unfolding with_network note_network_roster_local_change
  rename_network now id name = do
    fail_if (is_empty (trim name)) network_name_empty
    with_network id (λ n. (record n { name = trim name }, ok tt))
    note_network_roster_local_change lib now id

  -- `normalize_selected_exit_node()` and `normalize_peer_aliases()`
  abbrev pub tidy : AppConfig → AppConfig
  tidy c = normalize_peer_aliases lib (normalize_selected_exit_node c)

  unfoldable pub remove_network : Text → Operation (Unit {0})
  unfolding keep any normalize_selected_exit_node normalize_peer_aliases
  remove_network id c =
      let kept = keep (λ n. not (str_eq n.id id)) c.networks in
      if leb (length c.networks) 1
      then (c, err network_required)
      else if length kept == length c.networks
      then (record c { networks = kept }, err network_not_found)
      else (tidy (record c { networks = enable_first_if_none kept }), ok tt)

  unfoldable pub add_participant_to_network : ℕ → Text → Text → Operation Text
  unfolding with_network contains sorted_unique normalize_selected_exit_node normalize_peer_aliases
  add_participant_to_network now id participant = do
    key ← lift (normalize_nostr_pubkey lib participant)
    with_network id (λ n. (record n { participants = with_key key n.participants }, ok tt))
    note_network_roster_local_change lib now id
    modify tidy
    pure key

  unfoldable pub remove_participant_from_network : ℕ → Text → Text → Operation (Unit {0})
  unfolding with_network contains keep normalize_selected_exit_node normalize_peer_aliases
  remove_participant_from_network now id participant = do
    key ← lift (normalize_nostr_pubkey lib participant)
    with_network id (drop_participant key)
    note_network_roster_local_change lib now id
    modify tidy

  unfoldable pub add_admin_to_network : ℕ → Text → Text → Operation Text
  unfolding with_network contains sorted_unique normalize_selected_exit_node
  add_admin_to_network now id admin = do
    key ← lift (normalize_nostr_pubkey lib admin)
    with_network id (insert_admin key)
    note_network_roster_local_change lib now id
    modify normalize_selected_exit_node
    pure key

  abbrev pub after_admin_drop : ℕ → Text → Bool → Operation (Unit {0})
  after_admin_drop now id false = pure tt
  after_admin_drop now id true = do
    note_network_roster_local_change lib now id
    modify normalize_selected_exit_node

  unfoldable pub remove_admin_from_network : ℕ → Text → Text → Operation (Unit {0})
  unfolding with_network contains keep normalize_selected_exit_node
  remove_admin_from_network now id admin = do
    key ← lift (normalize_nostr_pubkey lib admin)
    dropped ← with_network id (drop_admin key)
    after_admin_drop now id dropped

  unfoldable pub is_network_admin : AppConfig → Text → Text → Bool
  unfolding network_by_id contains
  is_network_admin c id pubkey = elim (lib.parse_pubkey pubkey) [
    | none ↦ false
    | some key ↦ elim (network_by_id c id) [ none ↦ false | some n ↦ contains n.admins key ]
  ]
