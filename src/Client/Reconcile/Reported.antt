-- ===== src/Client/Reconcile/Reported.antt =====
-- What a review reports of the sessions that it changes.
use nostr_vpn.Prelude.{
  ℕ, ◌≡◌, refl, sym, Option-cases, subst, ap, ◌∙◌, true, false, Option, none, some, List, [], ◌∷◌,
  ◌++◌, arith, Bool-cases, inl, inr, map_option,
}
use nostr_vpn.Prelude.Text.{Text, str_eq, str_eq_iff}
use nostr_vpn.Collections.HashMap.{get, keys, get-insert}
use nostr_vpn.Collections.HashSet.{contains, contains-append}
use nostr_vpn.Config.Roster.Sets.{contains-sorted_unique}
use nostr_vpn.Peers.Presence.{PeerPresenceBook}
use nostr_vpn.Client.Standby.{
  ActiveRelaySession, Standbys, relay_session_is_active, relay_session_verification_timed_out,
}
use nostr_vpn.Client.Reconcile.{
  KeyText, RuntimePeers, Review, put_next, give_up, forget_session, review_ended, review_verified,
  review_failed, review_unverified, review_session, review, review_all,
  reconcile_active_relay_sessions,
}
use nostr_vpn.Client.Reconcile.Settled.{Reviewed, review_ended-Reviewed, review_failed-Reviewed}

-- A session but for the time at which it was verified.
abbrev pub route_of : Option ActiveRelaySession → Option ActiveRelaySession
route_of o = map_option o (λ s. record s { verified_at = none })

-- What was reported stays so, and a participant that is not has the session that it had.
record Reported (r r' : Review) : Type 0 where
  grows : (k : Text) → contains r.changed k ≡ true → contains r'.changed k ≡ true
  kept :
      (k : Text)
      → contains r'.changed k ≡ false
      → route_of (get r'.relay_sessions k) ≡ route_of (get r.relay_sessions k)

same-Reported : (r : Review) → Reported r r
same-Reported r = record { grows = λ k h. h; kept = λ k h. refl }

then-Reported : (r r' r'' : Review) → Reported r r' → Reported r' r'' → Reported r r''
then-Reported r r' r'' h h' = record {
  grows = λ k e. h'.grows k (h.grows k e);
  kept = λ k e.
      h'.kept k e
      ∙ h.kept k (elim (Bool-cases (contains r'.changed k)) [
        | inl f ↦ ground (arith, e, h'.grows k f)
        | inr f ↦ f
      ]);
}

put_next-reports :
    (r : Review) (participant : Text) (p : Standbys × Option ActiveRelaySession)
    (otherwise : Review)
    → otherwise.changed ≡ r.changed
    → (put_next r participant p otherwise).changed ++ (participant ∷ [])
      ≡ r.changed ++ (participant ∷ [])
put_next-reports r participant (standbys, none) otherwise e = rw e refl
put_next-reports r participant (standbys, some s) otherwise e = refl

-- A review that changes the session of one participant only, and reports it.
changed-Reported :
    (r r' : Review) (participant : Text) (now : ℕ)
    → r'.changed ≡ r.changed ++ (participant ∷ [])
    → Reviewed now participant r.relay_sessions r'.relay_sessions
    → Reported r r'
unfolding contains
changed-Reported r r' participant now e h = record {
  grows = λ k f. rw (e, contains-append, f) refl;
  kept = λ k f. ap route_of (
      h.others k (
        ground (
          arith,
          subst (λ c. contains c k ≡ false) e f,
          contains-append r.changed (participant ∷ []) k,
        )));
}

review_verified-Reported :
    (r : Review) (participant : Text) (s : ActiveRelaySession) (at : ℕ)
    → get r.relay_sessions participant ≡ some s
    → Reported r (review_verified r participant s at)
review_verified-Reported r participant s at e = elim (Option-cases s.verified_at) [
  | inr f ↦ rw f.1 (record { grows = λ k h. h; kept = λ k h. refl })
  | inl f ↦ rw f (record {
    grows = λ k h. h;
    kept = λ k h. elim (Bool-cases (str_eq participant k)) [
      | inl g ↦ rw (get-insert, g, sym ((str_eq_iff participant k).0 g), e) refl
      | inr g ↦ rw (get-insert, g) refl
    ];
  })
]

review_unverified-Reported :
    (r : Review) (participant : Text) (s : ActiveRelaySession) (now : ℕ) (o : Option ℕ)
    → get r.relay_sessions participant ≡ some s
    → Reported r (review_unverified r participant s now o)
review_unverified-Reported r participant s now (some at) e =
    review_verified-Reported r participant s at e
review_unverified-Reported r participant s now none e =
    elim (Bool-cases (relay_session_verification_timed_out s now)) [
      | inl f ↦ rw f (
          changed-Reported r (review_failed r participant s now) participant now
            (put_next-reports (give_up r participant s now) participant _ _ refl)
            (review_failed-Reviewed r participant s now))
      | inr f ↦ rw f (same-Reported r)
    ]

module _ (lib : KeyText) (presence : PeerPresenceBook) (runtime_peers : RuntimePeers) where
  review_session-Reported :
      (r : Review) (participant : Text) (now : ℕ) (o : Option ActiveRelaySession)
      → get r.relay_sessions participant ≡ o
      → Reported r (review_session lib presence runtime_peers r participant now o)
  review_session-Reported r participant now none e = same-Reported r
  review_session-Reported r participant now (some s) e =
      elim (Bool-cases (relay_session_is_active s now)) [
        | inl h ↦ rw h (review_unverified-Reported r participant s now _ e)
        | inr h ↦ rw h (
            changed-Reported r (review_ended r participant now) participant now
              (put_next-reports (forget_session r participant) participant _ _ refl)
              (review_ended-Reviewed r participant now))
      ]

  review_all-Reported :
      (r : Review) (participants : List Text) (now : ℕ)
      → Reported r (review_all lib presence runtime_peers r participants now)
  unfolding review_all review
  review_all-Reported r [] now = same-Reported r
  review_all-Reported r (participant ∷ participants) now =
      then-Reported r (review lib presence runtime_peers r participant now) _
        (review_session-Reported r participant now (get r.relay_sessions participant) refl)
        (review_all-Reported (review lib presence runtime_peers r participant now) participants now)

  -- A participant that a review does not report has a session after it exactly if it had one before,
  -- and the same one, but for the time at which it was verified.
  pub reconcile_reports :
      (r : Review) (now : ℕ) (participant : Text)
      → let r' = reconcile_active_relay_sessions lib presence runtime_peers r now in
        contains r'.changed participant ≡ false
        → route_of (get r'.relay_sessions participant) ≡ route_of (get r.relay_sessions participant)
  unfolding reconcile_active_relay_sessions
  reconcile_reports r now participant h =
      (review_all-Reported (record r { changed = [] }) (keys r.relay_sessions) now).kept participant
        (sym (contains-sorted_unique _ participant) ∙ h)
