-- ===== src/Config/Roster.antt =====
-- network_roster.rs: the members and the join requests of a network in their normal form.
pub mod Requests
pub mod Sets
use nostr_vpn.Prelude.{
  ℕ, Bool, true, false, ◌||◌, not, Option, none, some, List, [], ◌∷◌, leb, if◌then◌else◌, keep,
  is_empty, is_some_and, map_option, unwrap_or, any,
}
use nostr_vpn.Prelude.Results.{Result, ok, err}
use nostr_vpn.Prelude.Text.{Text, codes, str_eq, str_le, trim}
use nostr_vpn.Prelude.Chars.{strip_prefix}
use nostr_vpn.Prelude.Sorting.{sort}
use nostr_vpn.Collections.HashMap.{HashMap, get, insert, values}
use nostr_vpn.Collections.HashSet.{contains}
use nostr_vpn.Config.State.{
  Libraries, ConfigError, PendingOutboundJoinRequest, PendingInboundJoinRequest,
  normalize_nostr_pubkey, invalid_participant_pubkey,
}

-- Vec::dedup
unfoldable pub dedup : List Text → List Text
dedup [] = []
dedup (x ∷ xs) = elim (dedup xs) [
  | [] ↦ x ∷ []
  | y ∷ ys ↦ if str_eq x y then y ∷ ys else x ∷ y ∷ ys
]

-- `sort()` and then `dedup()`
unfoldable pub sorted_unique : List Text → List Text
unfolding dedup sort
sorted_unique xs = dedup (sort str_le xs)

-- `filter_map`
unfoldable pub filter_map : {A B : Type 0} → (A → Option B) → List A → List B
filter_map f [] = []
filter_map f (x ∷ xs) = let rest = filter_map f xs in elim (f x) [ none ↦ rest | some y ↦ y ∷ rest ]

abbrev pub requester_le : PendingInboundJoinRequest → PendingInboundJoinRequest → Bool
requester_le a b = str_le a.requester b.requester

-- Without an admin, the inviter; without an inviter, the node itself.
abbrev pub admins_or : List Text → Option Text → Option Text → List Text
admins_or (a ∷ rest) inviter own = a ∷ rest
admins_or [] (some inviter) own = inviter ∷ []
admins_or [] none (some own) = own ∷ []
admins_or [] none none = []

abbrev pub without_own : Option Text → List Text → List Text
without_own none keys = keys
without_own (some own) keys = keep (λ key. not (str_eq key own)) keys

abbrev pub finish_participants :
    Option Text → Result ConfigError (List Text) → Result ConfigError (List Text)
finish_participants own (ok keys) = ok (sorted_unique (without_own own keys))
finish_participants own (err e) = err e

abbrev pub with_recipient :
    (Text → Option Text) → PendingOutboundJoinRequest → Option PendingOutboundJoinRequest
with_recipient f r = map_option (f r.recipient) (λ key. record r { recipient = key })

-- A request that the map does not yet have in as new a form.
abbrev pub record_newer :
    HashMap PendingInboundJoinRequest
    → PendingInboundJoinRequest
    → HashMap PendingInboundJoinRequest
record_newer deduped r =
    if is_some_and (get deduped r.requester) (λ e. leb r.requested_at e.requested_at)
    then deduped
    else insert deduped r.requester r

-- The request with its requester's key, unless that is a participant.
abbrev pub admissible :
    PendingInboundJoinRequest → List Text → Option Text → Option PendingInboundJoinRequest
admissible r participants none = none
admissible r participants (some key) =
    if contains participants key
    then none
    else some (record r { requester = key; requester_node_name = trim r.requester_node_name })

abbrev pub note_request :
    HashMap PendingInboundJoinRequest
    → Option PendingInboundJoinRequest
    → HashMap PendingInboundJoinRequest
note_request deduped none = deduped
note_request deduped (some r) = record_newer deduped r

module _ (lib : Libraries) where
  unfoldable pub normalize_network_admins : List Text → Option Text → Text → List Text
  unfolding filter_map sorted_unique
  normalize_network_admins admins own_pubkey_hex invite_inviter =
      admins_or (sorted_unique (filter_map lib.parse_pubkey admins))
        (lib.parse_pubkey invite_inviter) own_pubkey_hex

  -- `map(normalize_nostr_pubkey).collect::<Result<Vec<_>>>()`
  unfoldable pub parse_all : List Text → Result ConfigError (List Text)
  parse_all [] = ok []
  parse_all (p ∷ ps) =
      let rest = parse_all ps in
      elim (lib.parse_pubkey p) [
        | none ↦ err invalid_participant_pubkey
        | some key ↦ elim rest [ ok keys ↦ ok (key ∷ keys) | err e ↦ err e ]
      ]

  unfoldable pub normalize_shared_roster_participants :
      List Text → Option Text → Result ConfigError (List Text)
  unfolding parse_all keep sorted_unique
  normalize_shared_roster_participants participants own_pubkey_hex =
      finish_participants own_pubkey_hex (parse_all participants)

  unfoldable pub canonical_npub_key : Text → Option Text
  canonical_npub_key value =
      map_option (lib.parse_pubkey value) (λ key. unwrap_or (lib.to_bech32 key) key)

  unfoldable pub normalize_outbound_join_request :
      Option PendingOutboundJoinRequest → List Text → Option PendingOutboundJoinRequest
  normalize_outbound_join_request none participants = none
  normalize_outbound_join_request (some r) participants = with_recipient lib.parse_pubkey r

  unfoldable pub canonicalize_outbound_join_request :
      Option PendingOutboundJoinRequest → Option PendingOutboundJoinRequest
  unfolding canonical_npub_key
  canonicalize_outbound_join_request none = none
  canonicalize_outbound_join_request (some r) = with_recipient canonical_npub_key r

  unfoldable pub collect_requests :
      HashMap PendingInboundJoinRequest
      → List PendingInboundJoinRequest
      → List Text
      → HashMap PendingInboundJoinRequest
  unfolding get insert contains
  collect_requests deduped [] participants = deduped
  collect_requests deduped (r ∷ rs) participants =
      collect_requests
        (note_request deduped (admissible r participants (lib.parse_pubkey r.requester))) rs
        participants

  unfoldable pub normalize_inbound_join_requests :
      List PendingInboundJoinRequest → List Text → List PendingInboundJoinRequest
  unfolding collect_requests sort
  normalize_inbound_join_requests requests participants =
      sort requester_le (values (collect_requests [] requests participants))

  unfoldable pub canonicalize_inbound_join_requests :
      List PendingInboundJoinRequest → List PendingInboundJoinRequest
  unfolding filter_map canonical_npub_key
  canonicalize_inbound_join_requests requests =
      filter_map
        (λ r. map_option (canonical_npub_key r.requester) (λ key. record r { requester = key }))
        requests

  unfoldable pub normalize_npub_key : Text → Option Text
  unfolding strip_prefix canonical_npub_key trim
  normalize_npub_key value = elim (strip_prefix (codes "npub1") (trim value)) [
    | none ↦ none
    | some rest ↦ canonical_npub_key (trim value)
  ]
