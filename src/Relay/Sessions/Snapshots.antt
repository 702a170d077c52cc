-- ===== src/Relay/Sessions/Snapshots.antt =====
-- What the operator is shown.
use nostr_vpn.Prelude.{
  ℕ, ◌+◌, ◌*◌, ◌-◌, ◌≤◌, ◌<◌, ◌≡◌, ◌⊎◌, inl, inr, List, [], ◌∷◌, ◌++◌, arith, ltb, All, subst, Bool,
  true, sym, Bool-cases, if◌then◌else◌,
}
use mathlib.Core.List.{Perm, perm_middle}
use mathlib.Core.List.Perm
use native.Mathlib.Nat.{div-add-mod, mod-lt}
use nostr_vpn.Prelude.Words.{u64_max}
use nostr_vpn.Prelude.Text.{Text, str_le, str_le_total, str_le_trans}
use nostr_vpn.Prelude.Sorting.{
  sort, IsSorted, InOrder, IsSorted-InOrder, IsOrder, sort-IsSorted, sort-perm, sort-All,
}
use nostr_vpn.Collections.HashMap.{HashMap, retain, values}
use nostr_vpn.Relay.Messages.{RelayOperatorSessionState}
use nostr_vpn.Relay.Sessions.{
  RelayRuntimeState, snapshot, session_le, prune_expired_sessions, sample_rate,
  note_forwarded_bytes,
}

str_le-IsOrder : IsOrder str_le
str_le-IsOrder = record { total = str_le_total; trans = str_le_trans }

session_le-IsOrder : IsOrder session_le
session_le-IsOrder = record {
  total = λ x y h. ground (arith, str_le_total x.request_id y.request_id);
  trans = λ x y z h k. ground (arith, str_le_trans x.request_id y.request_id z.request_id);
}

-- Earlier, or at the same time with a request id that is not greater.
abbrev pub ByStart : RelayOperatorSessionState → RelayOperatorSessionState → Type 0
ByStart x y =
    (x.started_at < y.started_at)
    ⊎ ((x.started_at ≡ y.started_at) × (str_le x.request_id y.request_id ≡ true))

session_le-ByStart : (x y : RelayOperatorSessionState) → session_le x y ≡ true → ByStart x y
session_le-ByStart x y h = elim (Bool-cases (ltb x.started_at y.started_at)) [
  | inl e ↦ inl (ground arith)
  | inr e ↦ inr (ground arith, ground arith)
]

All-ByStart :
    (x : RelayOperatorSessionState) (ys : List RelayOperatorSessionState)
    → All (λ y. session_le x y ≡ true) ys
    → All (ByStart x) ys
All-ByStart x [] h = tt
All-ByStart x (y ∷ ys) h = (session_le-ByStart x y h.0, All-ByStart x ys h.1)

sorted-InOrder : (xs : List RelayOperatorSessionState) → IsSorted session_le xs → InOrder ByStart xs
sorted-InOrder [] h = tt
sorted-InOrder (x ∷ xs) h = (All-ByStart x xs h.0, sorted-InOrder xs h.1)

-- The values that a test on entries drops.
dropped :
    (Text → RelayOperatorSessionState → Bool)
    → HashMap RelayOperatorSessionState
    → List RelayOperatorSessionState
dropped p [] = []
dropped p ((k, x) ∷ m) = if p k x then dropped p m else x ∷ dropped p m

retain-dropped-perm :
    (p : Text → RelayOperatorSessionState → Bool) (m : HashMap RelayOperatorSessionState)
    → Perm (values (retain p m) ++ dropped p m) (values m)
unfolding retain dropped
retain-dropped-perm p [] = Perm.refl _
retain-dropped-perm p ((k, x) ∷ m) = elim (Bool-cases (p k x)) [
  | inl e ↦ rw e (Perm.cons x (retain-dropped-perm p m))
  | inr e ↦ rw e (
      Perm.trans (perm_middle (values (retain p m)) (dropped p m))
        (Perm.cons x (retain-dropped-perm p m)))
]

abbrev live : ℕ → Text → RelayOperatorSessionState → Bool
live now k x = ltb now x.expires_at

live-All :
    (now : ℕ) (m : HashMap RelayOperatorSessionState)
    → All (λ x. now < x.expires_at) (values (retain (live now) m))
unfolding retain
live-All now [] = tt
live-All now ((k, x) ∷ m) = ground (arith, live-All now m)

dropped-All :
    (now : ℕ) (m : HashMap RelayOperatorSessionState)
    → All (λ x. x.expires_at ≤ now) (dropped (live now) m)
unfolding dropped
dropped-All now [] = tt
dropped-All now ((k, x) ∷ m) = ground (arith, dropped-All now m)

-- The sessions on record are those that are shown and those that have run out.
abbrev pub Shown : ℕ → List RelayOperatorSessionState → List RelayOperatorSessionState → Type 0
Shown now on_record shown =
    (expired : List RelayOperatorSessionState) × Perm (shown ++ expired) on_record
    × All (λ x. now < x.expires_at) shown
    × All (λ x. x.expires_at ≤ now) expired

-- A sample changes nothing but the rate and the sample itself.
sample_rate_keeps :
    (s : RelayRuntimeState) (now : ℕ)
    → ((sample_rate s now).active_sessions ≡ s.active_sessions)
      × ((sample_rate s now).known_peer_pubkeys ≡ s.known_peer_pubkeys)
      × ((sample_rate s now).total_forwarded_bytes ≡ s.total_forwarded_bytes)
      × ((sample_rate s now).total_sessions_served ≡ s.total_sessions_served)
sample_rate_keeps s now = ground arith

-- A snapshot lists the sessions on record that have not run out, each as often as it is on record
-- and no other, by the time of their start and then by request id, and the known peers in order;
-- its totals are those of the state, which keeps exactly the sessions that are listed.
pub snapshot_lem :
    (s : RelayRuntimeState) (now : ℕ)
    → let (s', shown) = snapshot s now in
      Shown now (values s.active_sessions) shown.active_sessions
      × InOrder ByStart shown.active_sessions
      × Perm shown.active_sessions (values s'.active_sessions)
      × Perm shown.known_peer_pubkeys s.known_peer_pubkeys
      × InOrder (λ x y. str_le x y ≡ true) shown.known_peer_pubkeys
      × (shown.total_forwarded_bytes ≡ s.total_forwarded_bytes)
      × (shown.total_sessions_served ≡ s.total_sessions_served)
unfolding snapshot prune_expired_sessions
snapshot_lem s now =
    let pruned = prune_expired_sessions s now in
    let kept = sample_rate_keeps pruned now in
    let m = retain (live now) s.active_sessions in
    (
      subst (λ m'. Shown now (values s.active_sessions) (sort session_le (values m'))) (sym kept.0)
          (
            dropped (live now) s.active_sessions,
            Perm.trans
                (Perm.append_right (dropped (live now) s.active_sessions)
                  (sort-perm session_le (values m)))
                (retain-dropped-perm (live now) s.active_sessions),
            sort-All session_le (λ x. now < x.expires_at) (values m)
                (live-All now s.active_sessions),
            dropped-All now s.active_sessions,
          ),
      sorted-InOrder _ (sort-IsSorted session_le-IsOrder _),
      sort-perm session_le _,
      subst (λ l. Perm (sort str_le (sample_rate pruned now).known_peer_pubkeys) l) kept.1
          (sort-perm str_le _),
      IsSorted-InOrder str_le _ (sort-IsSorted str_le-IsOrder _),
      kept.2,
      kept.3,
    )

-- The samples of the forwarding rate never run ahead of the totals.
pub record IsSampled (s : RelayRuntimeState) : Type 0 where
  pub bytes : s.last_rate_sample_bytes ≤ s.total_forwarded_bytes
  pub range : s.total_forwarded_bytes ≤ u64_max

-- Where the samples do not run ahead of the totals and time has passed since the last sample, the
-- shown rate, over the seconds since then, is the number of bytes forwarded since
-- then, rounded down, and the invariant that makes the difference exact is kept.
snapshot_rate :
    (s : RelayRuntimeState) (now : ℕ)
    → IsSampled s
    → s.last_rate_sample_at < now
    → let (s', shown) = snapshot s now in
      IsSampled s'
      × (s.last_rate_sample_bytes + shown.current_forward_bps * (now - s.last_rate_sample_at)
          ≤ s.total_forwarded_bytes)
      × (s.total_forwarded_bytes
          < s.last_rate_sample_bytes
            + (shown.current_forward_bps + 1) * (now - s.last_rate_sample_at))
unfolding snapshot
snapshot_rate s now h lt = grind (arith, div-add-mod, mod-lt)

pub note_forwarded_bytes-IsSampled :
    (s : RelayRuntimeState) (request_id : Text) (requester_leg : Bool) (bytes : ℕ)
    → IsSampled s
    → IsSampled (note_forwarded_bytes s request_id requester_leg bytes)
unfolding note_forwarded_bytes
note_forwarded_bytes-IsSampled s request_id leg bytes h = record {
  bytes = omega (arith, h.bytes, h.range);
  range = omega arith;
}
