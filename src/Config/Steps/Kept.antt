-- ===== src/Config/Steps/Kept.antt =====
-- The roster that is applied and the alias that is set keep the identifiers and the active network.
use nostr_vpn.Prelude.{
  ℕ, ◌≡◌, refl, ap, ◌∙◌, Bool, true, false, not, Option, none, some, List, [], ◌∷◌, Bool-cases,
  Option-cases, inl, inr, leb, is_empty, if◌then◌else◌,
}
use nostr_vpn.Prelude.Results.{Result, ok, err}
use nostr_vpn.Prelude.Text.{Text, trim}
use nostr_vpn.Collections.HashSet.{contains}
use nostr_vpn.Config.State.{
  Libraries, NetworkConfig, AppConfig, Operation, ConfigError, normalize_nostr_pubkey,
  own_nostr_pubkey_hex, normalize_runtime_network_id, modify, pure, npub_for_pubkey_hex,
}
use nostr_vpn.Config.Labels.{normalize_magic_dns_label}
use nostr_vpn.Config.Networks.{all_network_member_pubkeys_hex}
use nostr_vpn.Config.Aliases.{
  normalize_peer_aliases, set_peer_alias, note_changes, update_alias, stored_alias, networks_with,
}
use nostr_vpn.Config.Operations.Frames.{
  Keeps, frames, frame, bind-Keeps, then-Keeps, pure-Keeps, lift-Keeps, fail_if-Keeps, modify-Keeps,
  edit_frames, note-Keeps, normalize_peer_aliases_networks,
}
use nostr_vpn.Config.Shared.Applied.{after_adoption_networks}
use nostr_vpn.Config.Shared.{
  SignedRoster, adopt_roster, adopt_members, after_adoption, adopt_in_network,
  apply_admin_signed_shared_roster, has_runtime_id,
}

module _ (lib : Libraries) where
  frame-adopt_members :
      (signer : Text) (r : SignedRoster) (n : NetworkConfig) (ps : Result ConfigError (List Text))
      (admins : List Text)
      → frame (adopt_members lib signer r n ps admins).0 ≡ frame n
  frame-adopt_members signer r n (err e) admins = refl
  frame-adopt_members signer r n (ok ps) [] = refl
  frame-adopt_members signer r n (ok ps) (a ∷ admins) = refl

  frame-adopt_roster :
      (own : Option Text) (signer : Text) (r : SignedRoster) (n : NetworkConfig)
      → frame (adopt_roster lib own signer r n).0 ≡ frame n
  unfolding adopt_roster
  frame-adopt_roster own signer r n = elim (Bool-cases (contains n.admins signer)) [
    | inr e ↦ rw e refl
    | inl e ↦ elim (Bool-cases (leb r.signed_at n.shared_roster_updated_at)) [
      | inl f ↦ rw (e, f) refl
      | inr f ↦ rw (e, f) (frame-adopt_members signer r n _ _)
    ]
  ]

  after_adoption-Keeps :
      (r : SignedRoster) (n : Option NetworkConfig) → Keeps (after_adoption lib r n)
  after_adoption-Keeps r none = record { kept = λ c. refl }
  after_adoption-Keeps r (some n) = record {
    kept = λ c. ap frames (after_adoption_networks lib r n c);
  }

  choose-Keeps : (b : Bool) (op : Operation Bool) → Keeps op → Keeps (if b then pure false else op)
  choose-Keeps true op k = pure-Keeps false
  choose-Keeps false op k = k

  pub apply-Keeps :
      (now : ℕ) (r : SignedRoster) → Keeps (apply_admin_signed_shared_roster lib now r)
  unfolding apply_admin_signed_shared_roster
  apply-Keeps now r = choose-Keeps (is_empty (normalize_runtime_network_id r.network_id)) _ (
      bind-Keeps (lift-Keeps (normalize_nostr_pubkey lib r.signed_by)) (λ signer.
        then-Keeps (fail_if-Keeps _ _) (bind-Keeps (adopt-Keeps signer) (after_adoption-Keeps r))))
    where
      adopt-Keeps :
          (signer : Text)
          → Keeps (adopt_in_network lib (normalize_runtime_network_id r.network_id) signer r)
      adopt-Keeps signer = record {
        kept = λ c.
            edit_frames (ok none) (has_runtime_id (normalize_runtime_network_id r.network_id))
              (adopt_roster lib (own_nostr_pubkey_hex lib c) signer r)
              (frame-adopt_roster (own_nostr_pubkey_hex lib c) signer r) c;
      }

  frames-note_changes :
      (now : ℕ) (ids : List Text) (c : AppConfig)
      → frames (note_changes lib now ids c).networks ≡ frames c.networks
  unfolding note_changes
  frames-note_changes now [] c = refl
  frames-note_changes now (id ∷ ids) c =
      frames-note_changes now ids _ ∙ (note-Keeps lib now id).kept c

  update_alias-Keeps : (npub label : Text) → Keeps (update_alias npub label)
  update_alias-Keeps npub label = record {
    kept = λ c. elim (Bool-cases (is_empty label)) [
      | inl e ↦ rw e refl
      | inr e ↦ elim (Option-cases (normalize_magic_dns_label label)) [
        | inl f ↦ rw (e, f) refl
        | inr (l, f) ↦ rw (e, f) refl
      ]
    ];
  }

  note_changes-Keeps : (now : ℕ) (ids : List Text) → Keeps (modify (note_changes lib now ids))
  note_changes-Keeps now ids = record { kept = frames-note_changes now ids }

  stored_alias-Keeps : (npub : Text) → Keeps (stored_alias npub)
  stored_alias-Keeps npub = record { kept = λ c. refl }

  pub set_peer_alias-Keeps :
      (now : ℕ) (participant label : Text) → Keeps (set_peer_alias lib now participant label)
  unfolding set_peer_alias
  set_peer_alias-Keeps now participant label = record {
    kept = λ c.
        (bind-Keeps (lift-Keeps (normalize_nostr_pubkey lib participant)) (λ key.
            then-Keeps (fail_if-Keeps (not (contains (all_network_member_pubkeys_hex c) key)) _) (
              then-Keeps (update_alias-Keeps _ (trim label)) (
                then-Keeps
                  (modify-Keeps (normalize_peer_aliases lib) (normalize_peer_aliases_networks lib))
                  (then-Keeps (note_changes-Keeps now (networks_with key c.networks))
                    (stored_alias-Keeps (npub_for_pubkey_hex lib key))))))).kept
          c;
  }
