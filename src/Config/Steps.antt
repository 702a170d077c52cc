-- ===== src/Config/Steps.antt =====
-- The configurations that the methods lead to from a loaded one.
mod Kept
use nostr_vpn.Prelude.{
  ℕ, ◌≡◌, refl, ap, ◌∙◌, Bool, true, false, not, Option, none, some, List, [], ◌∷◌, Bool-cases,
  Option-cases, inl, inr, leb, is_empty, if◌then◌else◌,
}
use nostr_vpn.Prelude.Results.{Result, ok, err}
use nostr_vpn.Prelude.Text.{Text, trim}
use nostr_vpn.Collections.HashSet.{contains}
use nostr_vpn.Net.{IpAddr}
use nostr_vpn.Config.State.{
  Libraries, NetworkConfig, AppConfig, Operation, ConfigError, normalize_nostr_pubkey,
  own_nostr_pubkey_hex, normalize_runtime_network_id, modify, pure, npub_for_pubkey_hex,
}
use nostr_vpn.Config.Labels.{normalize_magic_dns_label}
use nostr_vpn.Config.Networks.{all_network_member_pubkeys_hex}
use nostr_vpn.Config.Aliases.{
  normalize_peer_aliases, set_peer_alias, note_changes, update_alias, stored_alias, networks_with,
}
use nostr_vpn.Config.Operations.{
  set_network_enabled, set_network_join_requests_enabled, set_network_mesh_id,
  set_active_network_id, record_inbound_join_request, add_network, rename_network, remove_network,
  add_participant_to_network, remove_participant_from_network, add_admin_to_network,
  remove_admin_from_network,
}
use nostr_vpn.Config.Operations.Frames.{
  Keeps, frames, frame, bind-Keeps, then-Keeps, pure-Keeps, lift-Keeps, fail_if-Keeps, modify-Keeps,
  edit_frames, note-Keeps, normalize_peer_aliases_networks,
}
use nostr_vpn.Config.Operations.Kept.{
  join_requests-Keeps, mesh_id-Keeps, active_network_id-Keeps, record_inbound-Keeps, rename-Keeps,
  add_participant-Keeps, remove_participant-Keeps, add_admin-Keeps, remove_admin-Keeps,
}
use nostr_vpn.Config.Operations.Counted.{
  IsConfigured, frames-IsConfigured, set_network_enabled-IsConfigured, add_network-IsConfigured,
  remove_network-IsConfigured,
}
use nostr_vpn.Config.Defaults.{Generated, ensure_defaults}
use nostr_vpn.Config.Defaults.Whole.{ensure_defaults-IsConfigured}
use nostr_vpn.Config.Shared.Applied.{after_adoption_networks}
use nostr_vpn.Config.Shared.{
  SignedRoster, adopt_roster, adopt_members, after_adoption, adopt_in_network,
  apply_admin_signed_shared_roster, has_runtime_id,
}
use nostr_vpn.Config.Steps.Kept.{apply-Keeps, set_peer_alias-Keeps}

module _ (lib : Libraries) where
  -- A step is a method that changes the configuration, whether or not it succeeds.
  pub data Step (display : IpAddr → Text) : AppConfig → AppConfig → Type 0 where
    loaded : (c : AppConfig) (g : Generated) → Step display c (ensure_defaults lib display g c)
    added : (c : AppConfig) (now : ℕ) (name : Text) → Step display c (add_network lib now name c).0
    renamed :
        (c : AppConfig) (now : ℕ) (id name : Text)
        → Step display c (rename_network lib now id name c).0
    removed : (c : AppConfig) (id : Text) → Step display c (remove_network lib id c).0
    switched :
        (c : AppConfig) (id : Text) (enabled : Bool)
        → Step display c (set_network_enabled id enabled c).0
    listened :
        (c : AppConfig) (id : Text) (enabled : Bool)
        → Step display c (set_network_join_requests_enabled id enabled c).0
    meshed :
        (c : AppConfig) (id mesh_id : Text) → Step display c (set_network_mesh_id id mesh_id c).0
    active_meshed :
        (c : AppConfig) (mesh_id : Text) → Step display c (set_active_network_id mesh_id c).0
    requested :
        (c : AppConfig) (network_id requester name : Text) (at : ℕ)
        → Step display c (record_inbound_join_request lib network_id requester name at c).0
    participant_added :
        (c : AppConfig) (now : ℕ) (id participant : Text)
        → Step display c (add_participant_to_network lib now id participant c).0
    participant_removed :
        (c : AppConfig) (now : ℕ) (id participant : Text)
        → Step display c (remove_participant_from_network lib now id participant c).0
    admin_added :
        (c : AppConfig) (now : ℕ) (id admin : Text)
        → Step display c (add_admin_to_network lib now id admin c).0
    admin_removed :
        (c : AppConfig) (now : ℕ) (id admin : Text)
        → Step display c (remove_admin_from_network lib now id admin c).0
    alias_set :
        (c : AppConfig) (now : ℕ) (participant label : Text)
        → Step display c (set_peer_alias lib now participant label c).0
    roster_applied :
        (c : AppConfig) (now : ℕ) (r : SignedRoster)
        → Step display c (apply_admin_signed_shared_roster lib now r c).0

  -- From a loaded configuration on.
  pub data Reachable (display : IpAddr → Text) : AppConfig → Type 0 where
    start : (c : AppConfig) (g : Generated) → Reachable display (ensure_defaults lib display g c)
    next : (c d : AppConfig) → Reachable display c → Step display c d → Reachable display d

  Keeps-IsConfigured :
      {A : Type 0} (op : Operation A) (c : AppConfig)
      → Keeps op
      → IsConfigured c.networks
      → IsConfigured (op c).0.networks
  Keeps-IsConfigured op c k h = frames-IsConfigured c.networks (op c).0.networks (k.kept c) h

  Step-IsConfigured :
      (display : IpAddr → Text) (c d : AppConfig)
      → Step display c d
      → IsConfigured c.networks
      → IsConfigured d.networks
  Step-IsConfigured display _ _ (loaded c g) h = ensure_defaults-IsConfigured lib display g c
  Step-IsConfigured display _ _ (added c now name) h = add_network-IsConfigured lib now name c h
  Step-IsConfigured display _ _ (renamed c now id name) h =
      Keeps-IsConfigured (rename_network lib now id name) c (rename-Keeps lib now id name) h
  Step-IsConfigured display _ _ (removed c id) h = remove_network-IsConfigured lib id c h
  Step-IsConfigured display _ _ (switched c id enabled) h =
      set_network_enabled-IsConfigured id enabled c h
  Step-IsConfigured display _ _ (listened c id enabled) h =
      Keeps-IsConfigured (set_network_join_requests_enabled id enabled) c
        (join_requests-Keeps id enabled) h
  Step-IsConfigured display _ _ (meshed c id mesh_id) h =
      Keeps-IsConfigured (set_network_mesh_id id mesh_id) c (mesh_id-Keeps id mesh_id) h
  Step-IsConfigured display _ _ (active_meshed c mesh_id) h =
      Keeps-IsConfigured (set_active_network_id mesh_id) c (active_network_id-Keeps mesh_id) h
  Step-IsConfigured display _ _ (requested c network_id requester name at) h =
      Keeps-IsConfigured (record_inbound_join_request lib network_id requester name at) c
        (record_inbound-Keeps lib network_id requester name at) h
  Step-IsConfigured display _ _ (participant_added c now id participant) h =
      Keeps-IsConfigured (add_participant_to_network lib now id participant) c
        (add_participant-Keeps lib now id participant) h
  Step-IsConfigured display _ _ (participant_removed c now id participant) h =
      Keeps-IsConfigured (remove_participant_from_network lib now id participant) c
        (remove_participant-Keeps lib now id participant) h
  Step-IsConfigured display _ _ (admin_added c now id admin) h =
      Keeps-IsConfigured (add_admin_to_network lib now id admin) c
        (add_admin-Keeps lib now id admin) h
  Step-IsConfigured display _ _ (admin_removed c now id admin) h =
      Keeps-IsConfigured (remove_admin_from_network lib now id admin) c
        (remove_admin-Keeps lib now id admin) h
  Step-IsConfigured display _ _ (alias_set c now participant label) h =
      Keeps-IsConfigured (set_peer_alias lib now participant label) c
        (set_peer_alias-Keeps lib now participant label) h
  Step-IsConfigured display _ _ (roster_applied c now r) h =
      Keeps-IsConfigured (apply_admin_signed_shared_roster lib now r) c (apply-Keeps lib now r) h

  -- In every configuration that the methods lead to from a loaded one, errors included, exactly one
  -- network is active, and no two networks have one identifier.
  pub Reachable-IsConfigured :
      (display : IpAddr → Text) (c : AppConfig) → Reachable display c → IsConfigured c.networks
  Reachable-IsConfigured display _ (start c g) = ensure_defaults-IsConfigured lib display g c
  Reachable-IsConfigured display _ (next c d r s) =
      Step-IsConfigured display c d s (Reachable-IsConfigured display c r)
