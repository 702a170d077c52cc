-- ===== src/Client/Reconcile/Settled.antt =====
-- The sessions that are left after a review.
use nostr_vpn.Prelude.{
  ℕ, ◌+◌, ◌<◌, is_some, ◌≡◌, refl, Option-cases, subst, true, false, Option, none, some, List, [],
  ◌∷◌, arith, Bool-cases, inl, inr, ◌⊎◌,
}
use nostr_vpn.Prelude.Text.{Text, is_blank, str_eq, str_eq_iff, str_eq_refl}
use nostr_vpn.Collections.HashMap.{HashMap, get, insert, remove, keys, get-insert, get-remove}
use nostr_vpn.Collections.HashSet.{contains}
use nostr_vpn.Peers.Presence.{PeerPresenceBook}
use nostr_vpn.Client.Standby.{
  ActiveRelaySession, Standbys, relay_session_is_active, relay_session_verification_timed_out,
  pop_next_standby_relay_session, RelayFailureCooldowns,
}
use nostr_vpn.Client.Standby.Promotion.{Promoted, pop_next-Promoted, Promoted-live}
use nostr_vpn.Client.Reconcile.{
  KeyText, RuntimePeers, Review, put_next, replace, review_ended, review_verified, review_failed,
  review_unverified, review_session, review, review_all, reconcile_active_relay_sessions,
}

-- The session is live, and verified or still within the time for it.
abbrev pub IsSettled : ℕ → Option ActiveRelaySession → Type 0
IsSettled now none = Unit
IsSettled now (some s) =
    (relay_session_is_active s now ≡ true) × (relay_session_verification_timed_out s now ≡ false)

-- The session has not run out, has both endpoints, and is verified or was granted less than 8
-- seconds ago.
abbrev pub Serves : ℕ → Option ActiveRelaySession → Type 0
Serves now none = Unit
Serves now (some s) =
    (now < s.expires_at)
    × (is_blank s.local_ingress_endpoint ≡ false)
    × (is_blank s.advertised_ingress_endpoint ≡ false)
    × ((is_some s.verified_at ≡ true) ⊎ (now < s.granted_at + 8))

IsSettled-Serves : (now : ℕ) (o : Option ActiveRelaySession) → IsSettled now o → Serves now o
unfolding relay_session_is_active relay_session_verification_timed_out
IsSettled-Serves now none h = tt
IsSettled-Serves now (some s) h = (
  ground (arith, h.0),
  ground (arith, h.0),
  ground (arith, h.0),
  elim (Bool-cases (is_some s.verified_at)) [
    | inl e ↦ inl e
    | inr e ↦ inr (ground (arith, h.1, e))
  ],
)

-- A review of one participant leaves a settled session for it, if any, and the sessions of the
-- others as they are.
pub record Reviewed (now : ℕ) (participant : Text) (before after : HashMap ActiveRelaySession)
    : Type 0 where
  pub settled : IsSettled now (get after participant)
  pub others : (k : Text) → str_eq participant k ≡ false → get after k ≡ get before k

same-Reviewed :
    (now : ℕ) (participant : Text) (m : HashMap ActiveRelaySession)
    → IsSettled now (get m participant)
    → Reviewed now participant m m
same-Reviewed now participant m h = record { settled = h; others = λ k e. refl }

insert-Reviewed :
    (now : ℕ) (participant : Text) (m : HashMap ActiveRelaySession) (s : ActiveRelaySession)
    → IsSettled now (some s)
    → Reviewed now participant m (insert m participant s)
insert-Reviewed now participant m s h = record {
  settled = rw (get-insert, str_eq_refl) h;
  others = λ k e. rw (get-insert, e) refl;
}

remove-Reviewed :
    (now : ℕ) (participant : Text) (m : HashMap ActiveRelaySession)
    → Reviewed now participant m (remove m participant)
remove-Reviewed now participant m = record {
  settled = rw (get-remove, str_eq_refl) tt;
  others = λ k e. rw (get-remove, e) refl;
}

then-Reviewed :
    (now : ℕ) (participant : Text) (m m' m'' : HashMap ActiveRelaySession)
    → Reviewed now participant m m'
    → Reviewed now participant m' m''
    → Reviewed now participant m m''
then-Reviewed now participant m m' m'' h h' = record {
  settled = h'.settled;
  others = λ k e. rw (h'.others k e) (h.others k e);
}

promoted-IsSettled :
    (now : ℕ) (s : ActiveRelaySession)
    → relay_session_is_active s now ≡ true
    → s.granted_at ≡ now
    → IsSettled now (some s)
unfolding relay_session_verification_timed_out
promoted-IsSettled now s h e = (h, ground (arith, e))

put_next-Reviewed :
    (r : Review) (participant : Text) (now : ℕ) (standbys : Standbys)
    (failures : RelayFailureCooldowns) (p : Standbys × Option ActiveRelaySession)
    (otherwise : Review)
    → Promoted standbys failures participant now p.0 p.1
    → Reviewed now participant r.relay_sessions otherwise.relay_sessions
    → Reviewed now participant r.relay_sessions (put_next r participant p otherwise).relay_sessions
put_next-Reviewed r participant now standbys failures (standbys', none) otherwise h same = same
put_next-Reviewed r participant now standbys failures (standbys', some s) otherwise h same =
    let (live, granted) = Promoted-live standbys failures participant now standbys' s h in
    insert-Reviewed now participant r.relay_sessions s (promoted-IsSettled now s live granted)

replace-Reviewed :
    (r : Review) (participant : Text) (now : ℕ) (otherwise : Review)
    → Reviewed now participant r.relay_sessions otherwise.relay_sessions
    → Reviewed now participant r.relay_sessions (replace r participant now otherwise).relay_sessions
replace-Reviewed r participant now otherwise =
    put_next-Reviewed r participant now r.standby_relay_sessions r.relay_failures
      (pop_next_standby_relay_session r.standby_relay_sessions r.relay_failures participant now)
      otherwise (pop_next-Promoted r.standby_relay_sessions r.relay_failures participant now)

pub review_ended-Reviewed :
    (r : Review) (participant : Text) (now : ℕ)
    → Reviewed now participant r.relay_sessions (review_ended r participant now).relay_sessions
review_ended-Reviewed r participant now =
    let m' = remove r.relay_sessions participant in
    let gone = record r { relay_sessions = m' } in
    then-Reviewed now participant r.relay_sessions m' _
      (remove-Reviewed now participant r.relay_sessions)
      (replace-Reviewed gone participant now _ (
        same-Reviewed now participant m'
          (remove-Reviewed now participant r.relay_sessions).settled))

pub review_failed-Reviewed :
    (r : Review) (participant : Text) (s : ActiveRelaySession) (now : ℕ)
    → Reviewed now participant r.relay_sessions (review_failed r participant s now).relay_sessions
review_failed-Reviewed r participant s now =
    let m' = remove r.relay_sessions participant in
    then-Reviewed now participant r.relay_sessions m' _
      (remove-Reviewed now participant r.relay_sessions)
      (replace-Reviewed _ participant now _ (
        same-Reviewed now participant m'
          (remove-Reviewed now participant r.relay_sessions).settled))

review_verified-Reviewed :
    (r : Review) (participant : Text) (s : ActiveRelaySession) (at now : ℕ)
    → get r.relay_sessions participant ≡ some s
    → relay_session_is_active s now ≡ true
    → Reviewed now participant r.relay_sessions (review_verified r participant s at).relay_sessions
unfolding relay_session_is_active relay_session_verification_timed_out
review_verified-Reviewed r participant s at now e h = elim (Option-cases s.verified_at) [
  | inl f ↦ rw f (
      insert-Reviewed now participant r.relay_sessions (record s { verified_at = some at })
        (h, refl))
  | inr f ↦ rw f.1 (same-Reviewed now participant r.relay_sessions (rw e (h, ground (arith, f.1))))
]

review_unverified-Reviewed :
    (r : Review) (participant : Text) (s : ActiveRelaySession) (now : ℕ) (o : Option ℕ)
    → get r.relay_sessions participant ≡ some s
    → relay_session_is_active s now ≡ true
    → Reviewed now participant r.relay_sessions
        (review_unverified r participant s now o).relay_sessions
review_unverified-Reviewed r participant s now (some at) e h =
    review_verified-Reviewed r participant s at now e h
review_unverified-Reviewed r participant s now none e h =
    elim (Bool-cases (relay_session_verification_timed_out s now)) [
      | inl f ↦ rw f (review_failed-Reviewed r participant s now)
      | inr f ↦ rw f (same-Reviewed now participant r.relay_sessions (rw e (h, f)))
    ]

module _ (lib : KeyText) (presence : PeerPresenceBook) (runtime_peers : RuntimePeers) where
  review_session-Reviewed :
      (r : Review) (participant : Text) (now : ℕ) (o : Option ActiveRelaySession)
      → get r.relay_sessions participant ≡ o
      → Reviewed now participant r.relay_sessions
          (review_session lib presence runtime_peers r participant now o).relay_sessions
  review_session-Reviewed r participant now none e =
      same-Reviewed now participant r.relay_sessions (rw e tt)
  review_session-Reviewed r participant now (some s) e =
      elim (Bool-cases (relay_session_is_active s now)) [
        | inl h ↦ rw h (review_unverified-Reviewed r participant s now _ e h)
        | inr h ↦ rw h (review_ended-Reviewed r participant now)
      ]

  review-Reviewed :
      (r : Review) (participant : Text) (now : ℕ)
      → Reviewed now participant r.relay_sessions
          (review lib presence runtime_peers r participant now).relay_sessions
  unfolding review
  review-Reviewed r participant now =
      review_session-Reviewed r participant now (get r.relay_sessions participant) refl

  review-settles :
      (r : Review) (participant k : Text) (now : ℕ)
      → IsSettled now (get r.relay_sessions k) ⊎ (str_eq participant k ≡ true)
      → IsSettled now (get (review lib presence runtime_peers r participant now).relay_sessions k)
  review-settles r participant k now h =
      let v = review-Reviewed r participant now in
      elim (Bool-cases (str_eq participant k)) [
        | inl e ↦
            subst
              (λ j.
                IsSettled now
                  (get (review lib presence runtime_peers r participant now).relay_sessions j))
              ((str_eq_iff participant k).0 e) v.settled
        | inr e ↦ rw (v.others k e) (elim h [ inl s ↦ s | inr f ↦ ground (arith, e, f) ])
      ]

  review_all-settles :
      (r : Review) (participants : List Text) (k : Text) (now : ℕ)
      → IsSettled now (get r.relay_sessions k) ⊎ (contains participants k ≡ true)
      → IsSettled now
          (get (review_all lib presence runtime_peers r participants now).relay_sessions k)
  unfolding review_all contains
  review_all-settles r [] k now (inl h) = h
  review_all-settles r [] k now (inr h) = ground (arith, h)
  review_all-settles r (participant ∷ participants) k now (inl h) =
      review_all-settles (review lib presence runtime_peers r participant now) participants k now
        (inl (review-settles r participant k now (inl h)))
  review_all-settles r (participant ∷ participants) k now (inr h) =
      review_all-settles (review lib presence runtime_peers r participant now) participants k now
        (elim (Bool-cases (str_eq participant k)) [
          | inl e ↦ inl (review-settles r participant k now (inr e))
          | inr e ↦ inr (ground (arith, e, h))
        ])

  keys-settle :
      (m : HashMap ActiveRelaySession) (k : Text) (now : ℕ)
      → IsSettled now (get m k) ⊎ (contains (keys m) k ≡ true)
  unfolding get contains
  keys-settle [] k now = inl tt
  keys-settle ((j, s) ∷ m) k now = elim (Bool-cases (str_eq j k)) [
    | inl e ↦ inr (rw e refl)
    | inr e ↦ rw e (keys-settle m k now)
  ]

  -- After a review, the session of any participant that has one has not run out, it has both
  -- endpoints, and it is verified or was granted less than 8 seconds ago.
  pub reconcile_settles :
      (r : Review) (now : ℕ) (participant : Text)
      → Serves now (
          get
            (reconcile_active_relay_sessions lib presence runtime_peers r now).relay_sessions
            participant)
  unfolding reconcile_active_relay_sessions
  reconcile_settles r now participant = IsSettled-Serves now _ (
      review_all-settles (record r { changed = [] }) (keys r.relay_sessions) participant now
        (keys-settle r.relay_sessions participant now))
