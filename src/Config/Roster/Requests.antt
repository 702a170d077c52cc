-- ===== src/Config/Roster/Requests.antt =====
-- The join requests of a network in their normal form.
use mathlib.Core.List.{Perm}
use nostr_vpn.Prelude.{
  ◌≡◌, refl, sym, ap, ◌∙◌, Option, none, some, List, [], ◌∷◌, true, false, map_option, is_some_and,
  Bool-cases, inl, inr, leb, if◌then◌else◌,
}
use nostr_vpn.Prelude.Text.{Text, str_eq, str_eq_iff, str_le, trim, str_le_total, str_le_trans}
use nostr_vpn.Prelude.Sorting.{IsOrder, InOrder, IsSorted-InOrder, sort-IsSorted, sort-perm}
use nostr_vpn.Collections.HashMap.{HashMap, get, get-insert, values, Distinct, insert-Distinct}
use nostr_vpn.Collections.HashSet.{contains}
use nostr_vpn.Config.State.{Libraries, PendingInboundJoinRequest}
use nostr_vpn.Config.Roster.{
  admissible, record_newer, note_request, collect_requests, requester_le,
  normalize_inbound_join_requests,
}

-- The later of two requests; the first where both are as old.
abbrev pub newer :
    Option PendingInboundJoinRequest → PendingInboundJoinRequest → PendingInboundJoinRequest
newer none r = r
newer (some e) r = if leb r.requested_at e.requested_at then e else r

-- What a request makes of the newest one of `key` so far.
abbrev pub step_of :
    Text
    → Option PendingInboundJoinRequest
    → Option PendingInboundJoinRequest
    → Option PendingInboundJoinRequest
step_of key best none = best
step_of key best (some q) = if str_eq q.requester key then some (newer best q) else best

get-record_newer :
    (m : HashMap PendingInboundJoinRequest) (r : PendingInboundJoinRequest)
    (o : Option PendingInboundJoinRequest) (k : Text)
    → get m r.requester ≡ o
    → get (record_newer m r) k ≡ step_of k (get m k) (some r)
get-record_newer m r none k e =
    rw (e, get-insert)
      (elim (Bool-cases (str_eq r.requester k)) [
        | inl f ↦
            rw f (ap (λ x. some (newer x r)) (sym (ap (get m) (sym ((str_eq_iff _ _).0 f)) ∙ e)))
        | inr f ↦ rw f refl
      ])
get-record_newer m r (some x) k e = elim (Bool-cases (leb r.requested_at x.requested_at)) [
  | inl l ↦
      rw (e, l)
        (elim (Bool-cases (str_eq r.requester k)) [
          | inl f ↦ rw f (
              let g : get m k ≡ some x = ap (get m) (sym ((str_eq_iff _ _).0 f)) ∙ e in
              rw (g, l) refl)
          | inr f ↦ rw f refl
        ])
  | inr l ↦
      rw (e, l, get-insert)
        (elim (Bool-cases (str_eq r.requester k)) [
          | inl f ↦ rw f (
              let g : get m k ≡ some x = ap (get m) (sym ((str_eq_iff _ _).0 f)) ∙ e in
              rw (g, l) refl)
          | inr f ↦ rw f refl
        ])
]

get-note_request :
    (m : HashMap PendingInboundJoinRequest) (o : Option PendingInboundJoinRequest) (k : Text)
    → get (note_request m o) k ≡ step_of k (get m k) o
get-note_request m none k = refl
get-note_request m (some r) k = get-record_newer m r (get m r.requester) k refl

requester_le-IsOrder : IsOrder requester_le
requester_le-IsOrder = record {
  total = λ a b h. str_le_total a.requester b.requester h;
  trans = λ a b c h k. str_le_trans a.requester b.requester c.requester h k;
}

module _ (lib : Libraries) where
  -- The newest admissible request of `key`, the first of them where two are as old.
  newest_of :
      Text
      → List Text
      → Option PendingInboundJoinRequest
      → List PendingInboundJoinRequest
      → Option PendingInboundJoinRequest
  newest_of key participants best [] = best
  newest_of key participants best (r ∷ rs) =
      newest_of key participants
        (step_of key best (admissible r participants (lib.parse_pubkey r.requester))) rs

  -- A request with the key of its requester and the name of its node, trimmed.
  abbrev pub read_request : PendingInboundJoinRequest → Option PendingInboundJoinRequest
  read_request r =
      map_option (lib.parse_pubkey r.requester)
        (λ key. record r { requester = key; requester_node_name = trim r.requester_node_name })

  -- The newest request that `key` made, whoever is a participant.
  unfoldable pub newest_request :
      Text
      → Option PendingInboundJoinRequest
      → List PendingInboundJoinRequest
      → Option PendingInboundJoinRequest
  newest_request key best [] = best
  newest_request key best (r ∷ rs) = newest_request key (step_of key best (read_request r)) rs

  get-collect_requests :
      (rs : List PendingInboundJoinRequest) (participants : List Text)
      (m : HashMap PendingInboundJoinRequest) (k : Text)
      → get (collect_requests lib m rs participants) k ≡ newest_of k participants (get m k) rs
  unfolding collect_requests newest_of
  get-collect_requests [] participants m k = refl
  get-collect_requests (r ∷ rs) participants m k =
      let o = admissible r participants (lib.parse_pubkey r.requester) in
      get-collect_requests rs participants (note_request m o) k
      ∙ ap (λ b. newest_of k participants b rs) (get-note_request m o k)

  step_participant :
      (key : Text) (participants : List Text) (best : Option PendingInboundJoinRequest)
      (r : PendingInboundJoinRequest) (o : Option Text)
      → contains participants key ≡ true
      → step_of key best (admissible r participants o) ≡ best
  step_participant key participants best r none h = refl
  step_participant key participants best r (some k) h = elim (Bool-cases (str_eq k key)) [
    | inl e ↦ rw (ap (contains participants) ((str_eq_iff k key).0 e) ∙ h) refl
    | inr e ↦ elim (Bool-cases (contains participants k)) [
      | inl f ↦ rw f refl
      | inr f ↦ rw (f, e) refl
    ]
  ]

  step_stranger :
      (key : Text) (participants : List Text) (best : Option PendingInboundJoinRequest)
      (r : PendingInboundJoinRequest) (o : Option Text)
      → contains participants key ≡ false
      → step_of key best (admissible r participants o)
        ≡ step_of key best (
            map_option o
              (λ k. record r { requester = k; requester_node_name = trim r.requester_node_name }))
  step_stranger key participants best r none h = refl
  step_stranger key participants best r (some k) h = elim (Bool-cases (str_eq k key)) [
    | inl e ↦ rw (ap (contains participants) ((str_eq_iff k key).0 e) ∙ h) refl
    | inr e ↦ elim (Bool-cases (contains participants k)) [
      | inl f ↦ rw (f, e) refl
      | inr f ↦ rw f refl
    ]
  ]

  newest_of-participant :
      (key : Text) (participants : List Text) (best : Option PendingInboundJoinRequest)
      (rs : List PendingInboundJoinRequest)
      → contains participants key ≡ true
      → newest_of key participants best rs ≡ best
  unfolding newest_of
  newest_of-participant key participants best [] h = refl
  newest_of-participant key participants best (r ∷ rs) h =
      newest_of-participant key participants
        (step_of key best (admissible r participants (lib.parse_pubkey r.requester))) rs h
      ∙ step_participant key participants best r (lib.parse_pubkey r.requester) h

  newest_of-newest_request :
      (key : Text) (participants : List Text) (best : Option PendingInboundJoinRequest)
      (rs : List PendingInboundJoinRequest)
      → contains participants key ≡ false
      → newest_of key participants best rs ≡ newest_request key best rs
  unfolding newest_of newest_request
  newest_of-newest_request key participants best [] h = refl
  newest_of-newest_request key participants best (r ∷ rs) h =
      newest_of-newest_request key participants
        (step_of key best (admissible r participants (lib.parse_pubkey r.requester))) rs h
      ∙ ap (λ b. newest_request key b rs)
          (step_stranger key participants best r (lib.parse_pubkey r.requester) h)

  newest_of_lem :
      (key : Text) (participants : List Text) (rs : List PendingInboundJoinRequest)
      → newest_of key participants none rs
        ≡ (if contains participants key then none else newest_request key none rs)
  newest_of_lem key participants rs = elim (Bool-cases (contains participants key)) [
    | inl e ↦ rw e (newest_of-participant key participants none rs e)
    | inr e ↦ rw e (newest_of-newest_request key participants none rs e)
  ]

  note_request-Distinct :
      (m : HashMap PendingInboundJoinRequest) (o : Option PendingInboundJoinRequest)
      → Distinct m
      → Distinct (note_request m o)
  note_request-Distinct m none d = d
  note_request-Distinct m (some r) d =
      elim (Bool-cases (is_some_and (get m r.requester) (λ e. leb r.requested_at e.requested_at))) [
        | inl e ↦ rw e d
        | inr e ↦ rw e (insert-Distinct m r.requester r d)
      ]

  collect_requests-Distinct :
      (m : HashMap PendingInboundJoinRequest) (rs : List PendingInboundJoinRequest)
      (participants : List Text)
      → Distinct m
      → Distinct (collect_requests lib m rs participants)
  unfolding collect_requests
  collect_requests-Distinct m [] participants d = d
  collect_requests-Distinct m (r ∷ rs) participants d =
      let o = admissible r participants (lib.parse_pubkey r.requester) in
      collect_requests-Distinct (note_request m o) rs participants (note_request-Distinct m o d)

  -- The normal form of the join requests: in the order of their requesters, and, up to that order,
  -- the values of a map with one entry for a key, which has nothing for a participant and for any
  -- other key the newest of the requests that it made, with the key as the requester and the node's
  -- name trimmed; of two that are as old, the first.
  pub normalize_inbound_join_requests_lem :
      (requests : List PendingInboundJoinRequest) (participants : List Text)
      → let normalized = normalize_inbound_join_requests lib requests participants in
        InOrder (λ a b. str_le a.requester b.requester ≡ true) normalized
        × ((m : HashMap PendingInboundJoinRequest) × Distinct m
            × Perm normalized (values m)
            × ((key : Text)
                → get m key
                  ≡ (if contains participants key then none else newest_request key none requests)))
  unfolding normalize_inbound_join_requests
  normalize_inbound_join_requests_lem requests participants =
      let m = collect_requests lib [] requests participants in
      (
        IsSorted-InOrder requester_le _ (sort-IsSorted requester_le-IsOrder (values m)),
        (
          m,
          collect_requests-Distinct [] requests participants tt,
          sort-perm requester_le (values m),
          λ key.
              get-collect_requests requests participants [] key
              ∙ newest_of_lem key participants requests,
        ),
      )
