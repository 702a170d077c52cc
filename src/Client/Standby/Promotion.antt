-- ===== src/Client/Standby/Promotion.antt =====
-- Which session takes the place of one that is lost.
use nostr_vpn.Prelude.{
  ℕ, ◌<◌, ◌≤◌, ◌≡◌, ◌⊎◌, refl, sym, ap, ◌∙◌, Bool, true, false, Option, none, some, List, [], ◌∷◌,
  ◌++◌, arith, All, Bool-cases, inl, inr, unwrap_or, is_empty, if◌then◌else◌, map_option,
  is_some_and, ltb,
}
use nostr_vpn.Prelude.Text.{Text, str_eq, str_eq_iff, str_eq_refl, is_blank}
use nostr_vpn.Collections.HashMap.{get, get-insert, get-remove, insert, remove}
use nostr_vpn.Client.Standby.{
  ActiveRelaySession, Standbys, RelayFailureCooldowns, take_first, promote, is_usable,
  pop_next_standby_relay_session, relay_session_is_active, relay_is_in_failure_cooldown,
  relay_failure_key,
}

-- The sessions in reserve for a participant.
abbrev pub reserve : Standbys → Text → List ActiveRelaySession
reserve standbys participant = unwrap_or (get standbys participant) []

-- A cooldown, if there is one, is over.
abbrev pub IsOver : ℕ → Option ℕ → Type 0
IsOver now none = Unit {0}
IsOver now (some until) = until ≤ now

-- The session has not run out and has both endpoints, and its relay is not cooling down for the
-- participant.
abbrev pub IsFit : RelayFailureCooldowns → Text → ℕ → ActiveRelaySession → Type 0
IsFit failures participant now s =
    (now < s.expires_at)
    × (is_blank s.local_ingress_endpoint ≡ false)
    × (is_blank s.advertised_ingress_endpoint ≡ false)
    × IsOver now (get failures (relay_failure_key participant s.relay_pubkey))

cooling_cases :
    (now : ℕ) (o : Option ℕ)
    → (IsOver now o × (is_some_and o (λ until. ltb now until) ≡ false))
      ⊎ ((¬ IsOver now o) × (is_some_and o (λ until. ltb now until) ≡ true))
cooling_cases now none = inl (tt, refl)
cooling_cases now (some until) = elim (Bool-cases (ltb now until)) [
  | inl e ↦ inr ((λ h. absurd (ground arith)), e)
  | inr e ↦ inl (ground arith, e)
]

live_cases :
    (s : ActiveRelaySession) (now : ℕ)
    → ((now < s.expires_at)
        × (is_blank s.local_ingress_endpoint ≡ false)
        × (is_blank s.advertised_ingress_endpoint ≡ false)
        × (relay_session_is_active s now ≡ true))
      ⊎ ((¬ (
            (now < s.expires_at)
            × (is_blank s.local_ingress_endpoint ≡ false)
            × (is_blank s.advertised_ingress_endpoint ≡ false)))
          × (relay_session_is_active s now ≡ false))
unfolding relay_session_is_active
live_cases s now = elim (Bool-cases (relay_session_is_active s now)) [
  | inl e ↦ inl (ground arith, ground arith, ground arith, e)
  | inr e ↦ inr ((λ h. absurd (ground (arith, h.0, h.1, h.2))), e)
]

IsFit-cases :
    (failures : RelayFailureCooldowns) (participant : Text) (now : ℕ) (s : ActiveRelaySession)
    → (IsFit failures participant now s × (is_usable failures participant now s ≡ true))
      ⊎ ((¬ IsFit failures participant now s) × (is_usable failures participant now s ≡ false))
unfolding relay_is_in_failure_cooldown
IsFit-cases failures participant now s = elim (live_cases s now) [
  | inr (dead, e) ↦ inr ((λ h. dead (h.0, h.1, h.2)), rw e refl)
  | inl (l, a, b, e) ↦
      elim (cooling_cases now (get failures (relay_failure_key participant s.relay_pubkey))) [
        | inl (over, f) ↦ inl ((l, a, b, over), rw (e, f) refl)
        | inr (cooling, f) ↦ inr ((λ h. cooling h.3), rw (e, f) refl)
      ]
]

-- The first fit session comes out of the list, and the others stay in their order.
abbrev pub Taken :
    (ActiveRelaySession → Type 0)
    → List ActiveRelaySession
    → ActiveRelaySession
    → List ActiveRelaySession
    → Type 0
Taken Fit sessions s others =
    (before : List ActiveRelaySession) × (after : List ActiveRelaySession) × (sessions
      ≡ before ++ s ∷ after)
    × (others ≡ before ++ after)
    × All (λ x. ¬ Fit x) before
    × Fit s

abbrev TakenOr :
    (ActiveRelaySession → Type 0)
    → List ActiveRelaySession
    → Option (ActiveRelaySession × List ActiveRelaySession)
    → Type 0
TakenOr Fit sessions none = All (λ s. ¬ Fit s) sessions
TakenOr Fit sessions (some (s, others)) = Taken Fit sessions s others

cons-TakenOr :
    (Fit : ActiveRelaySession → Type 0) (s : ActiveRelaySession)
    (sessions : List ActiveRelaySession) (o : Option (ActiveRelaySession × List ActiveRelaySession))
    → ¬ Fit s
    → TakenOr Fit sessions o
    → TakenOr Fit (s ∷ sessions) (map_option o (λ r. (r.0, s ∷ r.1)))
cons-TakenOr Fit s sessions none n h = (n, h)
cons-TakenOr Fit s sessions (some (t, others)) n (before, after, e, f, a, u) =
    (s ∷ before, after, ap (λ l. s ∷ l) e, ap (λ l. s ∷ l) f, (n, a), u)

take_first-TakenOr :
    (Fit : ActiveRelaySession → Type 0) (p : ActiveRelaySession → Bool)
    (sessions : List ActiveRelaySession)
    → ((s : ActiveRelaySession) → (Fit s × (p s ≡ true)) ⊎ ((¬ Fit s) × (p s ≡ false)))
    → TakenOr Fit sessions (take_first p sessions)
unfolding take_first
take_first-TakenOr Fit p [] cases = tt
take_first-TakenOr Fit p (s ∷ sessions) cases = elim (cases s) [
  | inl (u, e) ↦ rw e ([], sessions, refl, refl, tt, u)
  | inr (n, e) ↦ rw e (cons-TakenOr Fit s sessions _ n (take_first-TakenOr Fit p sessions cases))
]

-- Nothing is promoted, since no session in reserve is fit, and nothing changes; or the first fit
-- session in reserve is promoted, granted now and to be verified again, the others stay in reserve
-- in their order, and so do those for the other participants.
abbrev pub Promoted :
    Standbys → RelayFailureCooldowns → Text → ℕ → Standbys → Option ActiveRelaySession → Type 0
Promoted standbys failures participant now standbys' none =
    All (λ s. ¬ IsFit failures participant now s) (reserve standbys participant)
    × (standbys' ≡ standbys)
Promoted standbys failures participant now standbys' (some s) =
    ((t : ActiveRelaySession) × Taken (IsFit failures participant now)
        (reserve standbys participant) t (reserve standbys' participant)
      × (s ≡ record t { granted_at = now; verified_at = none }))
    × ((k : Text) → (k ≡ participant) ⊎ (get standbys' k ≡ get standbys k))

left : Standbys → Text → List ActiveRelaySession → Standbys
left standbys participant others =
    if is_empty others then remove standbys participant else insert standbys participant others

reserve-left :
    (standbys : Standbys) (participant : Text) (others : List ActiveRelaySession)
    → others ≡ reserve (left standbys participant others) participant
unfolding left
reserve-left standbys participant [] = rw (get-remove, str_eq_refl) refl
reserve-left standbys participant (s ∷ others) = rw (get-insert, str_eq_refl) refl

get-left :
    (standbys : Standbys) (participant : Text) (others : List ActiveRelaySession) (k : Text)
    → (k ≡ participant) ⊎ (get (left standbys participant others) k ≡ get standbys k)
unfolding left
get-left standbys participant others k = elim (Bool-cases (str_eq participant k)) [
  | inl e ↦ inl (sym ((str_eq_iff participant k).0 e))
  | inr e ↦ elim (Bool-cases (is_empty others)) [
    | inl f ↦ inr (rw (f, get-remove, e) refl)
    | inr f ↦ inr (rw (f, get-insert, e) refl)
  ]
]

promote-Promoted :
    (standbys : Standbys) (failures : RelayFailureCooldowns) (participant : Text) (now : ℕ)
    (o : Option (ActiveRelaySession × List ActiveRelaySession))
    → TakenOr (IsFit failures participant now) (reserve standbys participant) o
    → let (standbys', next) = promote standbys participant now o in
      Promoted standbys failures participant now standbys' next
unfolding left
promote-Promoted standbys failures participant now none h = (h, refl)
promote-Promoted standbys failures participant now (some (t, others)) (before, after, e, f, a, u) =
    (
      (t, (before, after, e, sym (reserve-left standbys participant others) ∙ f, a, u), refl),
      get-left standbys participant others,
    )

-- A session is promoted exactly if one in reserve for the participant has not run out, has both
-- endpoints and a relay that is not cooling down for the participant; it is the first such session,
-- granted now and to be verified again but otherwise as it was, and it alone leaves the reserve.
-- The reserves of the other participants stay, and without such a session nothing changes.
pub pop_next-Promoted :
    (standbys : Standbys) (failures : RelayFailureCooldowns) (participant : Text) (now : ℕ)
    → let (standbys', next) = pop_next_standby_relay_session standbys failures participant now in
      Promoted standbys failures participant now standbys' next
unfolding pop_next_standby_relay_session
pop_next-Promoted standbys failures participant now =
    promote-Promoted standbys failures participant now _ (
      take_first-TakenOr (IsFit failures participant now) (is_usable failures participant now)
        (reserve standbys participant) (IsFit-cases failures participant now))

-- A promoted session is live and was granted now.
pub Promoted-live :
    (standbys : Standbys) (failures : RelayFailureCooldowns) (participant : Text) (now : ℕ)
    (standbys' : Standbys) (s : ActiveRelaySession)
    → Promoted standbys failures participant now standbys' (some s)
    → (relay_session_is_active s now ≡ true) × (s.granted_at ≡ now)
unfolding relay_session_is_active
Promoted-live standbys failures participant now standbys' s ((t, taken, e), others) =
    let (_, _, _, _, _, fit) = taken in (rw e (ground (arith, fit)), rw e refl)
