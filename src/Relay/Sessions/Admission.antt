-- ===== src/Relay/Sessions/Admission.antt =====
-- The limits on the number of sessions.
use nostr_vpn.Prelude.{
  refl, inl, inr, Option-cases, [], ◌∷◌, ℕ, ◌≤◌, ◌≡◌, Bool, none, arith, ltb, length, count, All,
  ◌<◌,
}
use nostr_vpn.Prelude.Text.{Text, str_eq_iff}
use nostr_vpn.Collections.HashMap.{
  retain, values, Distinct, insert-Distinct, retain-Distinct, length-retain-le, length-insert-le,
  HashMap, get,
}
use nostr_vpn.Collections.Counting.{
  count-insert-le, count-retain-le, length-insert_old, count-insert_same,
}
use nostr_vpn.Relay.Messages.{RelayOperatorSessionState}
use nostr_vpn.Relay.Forwarding.{RelayServiceLimits}
use nostr_vpn.Relay.Sessions.{
  RelayRuntimeState, prune_expired_sessions, allocation_rejection_for_requester,
  note_session_started, requested_by, note_forwarded_bytes, credit,
}

-- No more sessions are on record than the limits allow, in all and for each requester, and each
-- request id has one.
pub record IsWithin (limits : RelayServiceLimits) (s : RelayRuntimeState) : Type 0 where
  pub in_all : length s.active_sessions ≤ limits.max_active_sessions
  pub each :
      (r : Text)
      → count (requested_by r) (values s.active_sessions) ≤ limits.max_sessions_per_requester
  pub distinct : Distinct s.active_sessions

module _ (limits : RelayServiceLimits) where
  pub prune_expired_sessions-IsWithin :
      (s : RelayRuntimeState) (now : ℕ)
      → IsWithin limits s
      → IsWithin limits (prune_expired_sessions s now)
  unfolding prune_expired_sessions
  prune_expired_sessions-IsWithin s now w =
      let live : Text → RelayOperatorSessionState → Bool = λ k x. ltb now x.expires_at in
      record {
        in_all = omega (arith, length-retain-le live s.active_sessions, w.in_all);
        each =
            λ r. omega (arith, count-retain-le (requested_by r) live s.active_sessions, w.each r);
        distinct = retain-Distinct live s.active_sessions w.distinct;
      }

  -- If the check lets the requester of a session in, the check and the registration of the session
  -- that follows it keep the state within the limits, whatever the clock does in between.
  pub admitted-IsWithin :
      (s : RelayRuntimeState) (x : RelayOperatorSessionState) (checked_at started_at : ℕ)
      → IsWithin limits s
      → (allocation_rejection_for_requester s x.requester_pubkey checked_at limits).1 ≡ none
      → IsWithin limits (
          note_session_started
            (allocation_rejection_for_requester s x.requester_pubkey checked_at limits).0
            x
            started_at)
  unfolding allocation_rejection_for_requester note_session_started
  admitted-IsWithin s x checked_at started_at w none_rejected =
      let live : ℕ → Text → RelayOperatorSessionState → Bool = λ t k y. ltb t y.expires_at in
      let m = retain (live checked_at) s.active_sessions in
      let m' = retain (live started_at) m in
      record {
        in_all =
            ground
              (arith, length-retain-le (live started_at) m, length-insert-le m' x.request_id x);
        each = λ r. ground (
          arith,
          w.each r,
          count-retain-le (requested_by r) (live checked_at) s.active_sessions,
          count-retain-le (requested_by r) (live started_at) m,
          count-insert-le (requested_by r) m' x.request_id x,
          str_eq_iff x.requester_pubkey r,
        );
        distinct = insert-Distinct m' x.request_id x (
            retain-Distinct (live started_at) m
              (retain-Distinct (live checked_at) s.active_sessions w.distinct));
      }

  -- Traffic on a session does not change what the limits count.
  pub note_forwarded_bytes-IsWithin :
      (s : RelayRuntimeState) (request_id : Text) (requester_leg : Bool) (bytes : ℕ)
      → IsWithin limits s
      → IsWithin limits (note_forwarded_bytes s request_id requester_leg bytes)
  unfolding note_forwarded_bytes
  note_forwarded_bytes-IsWithin s request_id leg bytes w =
      elim (Option-cases (get s.active_sessions request_id)) [
        | inl e ↦ rw e (record { in_all = w.in_all; each = w.each; distinct = w.distinct })
        | inr (x, e) ↦ rw e (record {
          in_all =
              rw (length-insert_old s.active_sessions request_id (credit leg bytes x) (rw e))
                w.in_all;
          each = λ r.
              rw
                (count-insert_same (requested_by r) s.active_sessions request_id
                  (credit leg bytes x) x e (credit_requested r x))
                (w.each r);
          distinct = insert-Distinct s.active_sessions request_id (credit leg bytes x) w.distinct;
        })
      ]
    where
      credit_requested :
          (r : Text) (x : RelayOperatorSessionState)
          → requested_by r (credit leg bytes x) ≡ requested_by r x
      credit_requested r x = ground arith

  retain_expired :
      (now : ℕ) (m : HashMap RelayOperatorSessionState)
      → All (λ x. x.expires_at ≤ now) (values m)
      → retain (λ k x. ltb now x.expires_at) m ≡ []
  unfolding retain
  retain_expired now [] a = refl
  retain_expired now ((k, x) ∷ m) a = ground (arith, retain_expired now m a.1)

  -- Sessions that have run out hold no place: where all have, and the limits are above 0, a
  -- requester is let in.
  pub expired_free_places :
      (s : RelayRuntimeState) (requester : Text) (now : ℕ)
      → All (λ x. x.expires_at ≤ now) (values s.active_sessions)
      → 0 < limits.max_active_sessions
      → 0 < limits.max_sessions_per_requester
      → (allocation_rejection_for_requester s requester now limits).1 ≡ none
  unfolding allocation_rejection_for_requester count
  expired_free_places s requester now a h k =
      rw (retain_expired now s.active_sessions a) (ground arith)
