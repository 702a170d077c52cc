-- ===== src/Config/Shared/Published.antt =====
-- A roster that is published after a local change reaches the members.
use nostr_vpn.Prelude.{
  ℕ, ◌≤◌, ◌<◌, ◌≡◌, refl, true, false, Option, some, List, [], ◌∷◌, arith, leb, ltb, find, is_empty,
}
use nostr_vpn.Prelude.Results.{ok}
use nostr_vpn.Prelude.Text.{Text}
use nostr_vpn.Prelude.Words.{sat_add, u64_max}
use nostr_vpn.Collections.HashSet.{contains}
use nostr_vpn.Config.State.{
  Libraries, NetworkConfig, AppConfig, own_nostr_pubkey_hex, normalize_runtime_network_id,
}
use nostr_vpn.Config.Roster.{normalize_network_admins, normalize_shared_roster_participants}
use nostr_vpn.Config.Networks.{signed_roster}
use nostr_vpn.Config.Shared.{
  SignedRoster, adopt_members, adopt_roster, adopted, has_runtime_id, max_future_secs,
  apply_admin_signed_shared_roster,
}
use nostr_vpn.Config.Shared.Applied.{edit_first-some, IsDue}

module _ (lib : Libraries) where
  adopt_members-some :
      (signer : Text) (r : SignedRoster) (n : NetworkConfig) (ps admins : List Text)
      → is_empty admins ≡ false
      → adopt_members lib signer r n (ok ps) admins
        ≡ (adopted lib signer r ps admins n, ok (some (adopted lib signer r ps admins n)))
  adopt_members-some signer r n ps [] h = cc
  adopt_members-some signer r n ps (a ∷ admins) h = refl

  adopt_roster-some :
      (own : Option Text) (signer : Text) (r : SignedRoster) (n : NetworkConfig) (ps : List Text)
      → IsDue lib signer r n
      → normalize_shared_roster_participants lib r.participants own ≡ ok ps
      → is_empty (normalize_network_admins lib r.admins own n.invite_inviter) ≡ false
      → let n1 =
          adopted lib signer r ps (normalize_network_admins lib r.admins own n.invite_inviter) n in
        adopt_roster lib own signer r n ≡ (n1, ok (some n1))
  unfolding adopt_roster
  adopt_roster-some own signer r n ps d p a =
      let late : leb r.signed_at n.shared_roster_updated_at ≡ false = ground (arith, d.newer) in
      rw (d.admin, late, p) (adopt_members-some signer r n ps _ a)

  -- A roster that is due, timely and well formed is applied.
  due_applies :
      (now : ℕ) (r : SignedRoster) (c : AppConfig) (signer : Text) (n : NetworkConfig)
      (ps : List Text)
      → is_empty (normalize_runtime_network_id r.network_id) ≡ false
      → lib.parse_pubkey r.signed_by ≡ some signer
      → r.signed_at ≤ sat_add now max_future_secs
      → find (has_runtime_id (normalize_runtime_network_id r.network_id)) c.networks ≡ some n
      → IsDue lib signer r n
      → normalize_shared_roster_participants lib r.participants (own_nostr_pubkey_hex lib c) ≡ ok ps
      → is_empty
          (normalize_network_admins lib r.admins (own_nostr_pubkey_hex lib c) n.invite_inviter)
        ≡ false
      → (apply_admin_signed_shared_roster lib now r c).1 ≡ ok true
  unfolding apply_admin_signed_shared_roster
  due_applies now r c signer n ps i p t f d m a =
      let timely : ltb (sat_add now max_future_secs) r.signed_at ≡ false = ground arith in
      rw
        (
          i,
          p,
          timely,
          edit_first-some (has_runtime_id (normalize_runtime_network_id r.network_id))
              (adopt_roster lib (own_nostr_pubkey_hex lib c) signer r) c.networks n f,
          adopt_roster-some (own_nostr_pubkey_hex lib c) signer r n ps d m a,
        )
        refl

-- A local change by an admin is newer than what was, and not older than the clock.
pub signed_roster-newer :
    (now : ℕ) (own : Text) (n : NetworkConfig)
    → contains n.admins own ≡ true
    → n.shared_roster_updated_at < u64_max
    → let n1 = signed_roster now (some own) n in
      (n.shared_roster_updated_at < n1.shared_roster_updated_at)
      × (now ≤ n1.shared_roster_updated_at)
      × (n1.shared_roster_signed_by ≡ own)
signed_roster-newer now own n h l = rw h (omega arith, omega arith, refl)

-- Where an admin changes a network locally and signs the roster with the new timestamp, a member
-- applies it that has no later roster, knows the admin, has a clock at most 600 seconds behind the
-- timestamp, and can read the roster's keys, an admin's among them.
pub published_applies :
    (lib : Libraries) (now : ℕ) (own : Text) (n : NetworkConfig) (later : ℕ) (r : SignedRoster)
    (c : AppConfig) (m : NetworkConfig) (ps : List Text)
    → contains n.admins own ≡ true
    → n.shared_roster_updated_at < u64_max
    → lib.parse_pubkey r.signed_by ≡ some own
    → (let n1 = signed_roster now (some own) n in r.signed_at ≡ n1.shared_roster_updated_at)
    → is_empty (normalize_runtime_network_id r.network_id) ≡ false
    → find (has_runtime_id (normalize_runtime_network_id r.network_id)) c.networks ≡ some m
    → contains m.admins own ≡ true
    → m.shared_roster_updated_at ≤ n.shared_roster_updated_at
    → r.signed_at ≤ sat_add later max_future_secs
    → normalize_shared_roster_participants lib r.participants (own_nostr_pubkey_hex lib c) ≡ ok ps
    → is_empty (normalize_network_admins lib r.admins (own_nostr_pubkey_hex lib c) m.invite_inviter)
      ≡ false
    → (apply_admin_signed_shared_roster lib later r c).1 ≡ ok true
published_applies lib now own n later r c m ps a l p s i f am le t ps_ok ad =
    let (newer, _, _) = signed_roster-newer now own n a l in
    due_applies lib later r c own m ps i p t f (record { admin = am; newer = omega (arith, s) })
      ps_ok ad
