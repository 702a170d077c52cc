-- ===== src/Config/Operations/Kept.antt =====
-- The operations on one network keep the identifiers and the active network.
use nostr_vpn.Prelude.{
  ℕ, ◌≡◌, refl, ◌∙◌, Bool, true, false, Option, none, Bool-cases, inl, inr, length, leb, ◌==◌, ◌&&◌,
  is_empty, if◌then◌else◌,
}
use nostr_vpn.Prelude.Results.{ok}
use nostr_vpn.Prelude.Text.{Text}
use nostr_vpn.Collections.HashSet.{contains}
use nostr_vpn.Config.State.{
  Libraries, NetworkConfig, Operation, modify, pure, normalize_nostr_pubkey,
  normalize_runtime_network_id, PendingInboundJoinRequest,
}
use nostr_vpn.Config.Networks.{normalize_selected_exit_node, active_network}
use nostr_vpn.Config.Operations.{
  set_network_join_requests_enabled, set_network_mesh_id, set_active_network_id, answer_in,
  listens_for, record_inbound_join_request, rename_network, tidy, insert_admin,
  add_participant_to_network, drop_participant, remove_participant_from_network,
  add_admin_to_network, drop_admin, after_admin_drop, remove_admin_from_network,
}
use nostr_vpn.Config.Operations.Frames.{
  Keeps, frame, bind-Keeps, then-Keeps, pure-Keeps, lift-Keeps, fail_if-Keeps, with_network-Keeps,
  note-Keeps, modify-Keeps, edit_frames, normalize_selected_exit_node_networks,
  normalize_peer_aliases_networks,
}

pub join_requests-Keeps :
    (id : Text) (enabled : Bool) → Keeps (set_network_join_requests_enabled id enabled)
unfolding set_network_join_requests_enabled
join_requests-Keeps id enabled = with_network-Keeps id _ (λ n. refl)

pub mesh_id-Keeps : (id mesh_id : Text) → Keeps (set_network_mesh_id id mesh_id)
unfolding set_network_mesh_id
mesh_id-Keeps id mesh_id = then-Keeps (fail_if-Keeps _ _) (with_network-Keeps id _ (λ n. refl))

pub active_network_id-Keeps : (mesh_id : Text) → Keeps (set_active_network_id mesh_id)
unfolding set_active_network_id
active_network_id-Keeps mesh_id = record {
  kept = λ c. let n = active_network c in (mesh_id-Keeps n.id mesh_id).kept c;
}

request_in_frame :
    (r : PendingInboundJoinRequest) (n : NetworkConfig) → frame (answer_in r n).0 ≡ frame n
request_in_frame r n = elim (Bool-cases (contains n.participants r.requester)) [
  | inl e ↦ rw e refl
  | inr e ↦ rw e refl
]

frame-drop_participant :
    (key : Text) (n : NetworkConfig) → frame (drop_participant key n).0 ≡ frame n
frame-drop_participant key n = elim (Bool-cases (length n.admins == 1 && contains n.admins key)) [
  | inl e ↦ rw e refl
  | inr e ↦ rw e refl
]

frame-drop_admin : (key : Text) (n : NetworkConfig) → frame (drop_admin key n).0 ≡ frame n
frame-drop_admin key n = elim (Bool-cases (contains n.admins key)) [
  | inr e ↦ rw e refl
  | inl e ↦ elim (Bool-cases (leb (length n.admins) 1)) [
    | inl f ↦ rw (e, f) refl
    | inr f ↦ rw (e, f) refl
  ]
]

module _ (lib : Libraries) where
  tidied-Keeps : Keeps (modify (tidy lib))
  tidied-Keeps = modify-Keeps (tidy lib) (λ c.
      normalize_peer_aliases_networks lib (normalize_selected_exit_node c)
      ∙ normalize_selected_exit_node_networks c)

  exit_node-Keeps : Keeps (modify normalize_selected_exit_node)
  exit_node-Keeps = modify-Keeps _ normalize_selected_exit_node_networks

  record_inbound_frames :
      (b : Bool) (op : Operation (Option Text)) → Keeps op → Keeps (if b then pure none else op)
  record_inbound_frames true op k = pure-Keeps none
  record_inbound_frames false op k = k

  pub record_inbound-Keeps :
      (network_id requester name : Text) (at : ℕ)
      → Keeps (record_inbound_join_request lib network_id requester name at)
  unfolding record_inbound_join_request
  record_inbound-Keeps network_id requester name at =
      record_inbound_frames (is_empty (normalize_runtime_network_id network_id)) _ (
        bind-Keeps (lift-Keeps (normalize_nostr_pubkey lib requester)) (λ key. record {
          kept =
              edit_frames (ok none) (listens_for (normalize_runtime_network_id network_id))
                (answer_in _) (request_in_frame _);
        }))

  pub rename-Keeps : (now : ℕ) (id name : Text) → Keeps (rename_network lib now id name)
  unfolding rename_network
  rename-Keeps now id name =
      then-Keeps (fail_if-Keeps _ _)
        (then-Keeps (with_network-Keeps id _ (λ n. refl)) (note-Keeps lib now id))

  pub add_participant-Keeps :
      (now : ℕ) (id participant : Text) → Keeps (add_participant_to_network lib now id participant)
  unfolding add_participant_to_network
  add_participant-Keeps now id participant =
      bind-Keeps (lift-Keeps (normalize_nostr_pubkey lib participant)) (λ key.
        then-Keeps (with_network-Keeps id _ (λ n. refl))
          (then-Keeps (note-Keeps lib now id) (then-Keeps tidied-Keeps (pure-Keeps key))))

  pub remove_participant-Keeps :
      (now : ℕ) (id participant : Text)
      → Keeps (remove_participant_from_network lib now id participant)
  unfolding remove_participant_from_network
  remove_participant-Keeps now id participant =
      bind-Keeps (lift-Keeps (normalize_nostr_pubkey lib participant)) (λ key.
        then-Keeps (with_network-Keeps id (drop_participant key) (frame-drop_participant key))
          (then-Keeps (note-Keeps lib now id) tidied-Keeps))

  pub add_admin-Keeps : (now : ℕ) (id admin : Text) → Keeps (add_admin_to_network lib now id admin)
  unfolding add_admin_to_network
  add_admin-Keeps now id admin = bind-Keeps (lift-Keeps (normalize_nostr_pubkey lib admin)) (λ key.
      then-Keeps (with_network-Keeps id (insert_admin key) (λ n. refl))
        (then-Keeps (note-Keeps lib now id) (then-Keeps exit_node-Keeps (pure-Keeps key))))

  after_admin_drop-Keeps :
      (now : ℕ) (id : Text) (dropped : Bool) → Keeps (after_admin_drop lib now id dropped)
  after_admin_drop-Keeps now id false = pure-Keeps tt
  after_admin_drop-Keeps now id true = then-Keeps (note-Keeps lib now id) exit_node-Keeps

  pub remove_admin-Keeps :
      (now : ℕ) (id admin : Text) → Keeps (remove_admin_from_network lib now id admin)
  unfolding remove_admin_from_network
  remove_admin-Keeps now id admin =
      bind-Keeps (lift-Keeps (normalize_nostr_pubkey lib admin)) (λ key.
        bind-Keeps (with_network-Keeps id (drop_admin key) (frame-drop_admin key))
          (after_admin_drop-Keeps now id))
