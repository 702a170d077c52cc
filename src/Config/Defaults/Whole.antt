-- ===== src/Config/Defaults/Whole.antt =====
-- A configuration is whole once it is loaded.
use nostr_vpn.Prelude.{
  ℕ, ◌+◌, ◌≤◌, ◌≡◌, refl, sym, ap, subst, ◌∙◌, Bool, true, false, Option, List, [], ◌∷◌, map, arith,
  Bool-cases, inl, inr, length, count, if◌then◌else◌, suc,
}
use nostr_vpn.Prelude.Text.{Text, str_eq_iff}
use nostr_vpn.Collections.HashSet.{HashSet, contains, is_unique, contains-add}
use nostr_vpn.Net.{IpAddr}
use nostr_vpn.Config.State.{Libraries, NetworkConfig, AppConfig, own_nostr_pubkey_hex}
use nostr_vpn.Config.Labels.{uniquify_network_entry_id}
use nostr_vpn.Config.Labels.Fresh.{uniquify_network_entry_id_fresh, AddsNew}
use nostr_vpn.Config.Networks.{
  is_enabled, disable_later, ensure_single_active_network, derived_network,
  derive_default_network_ids,
}
use nostr_vpn.Config.Operations.{ids_of}
use nostr_vpn.Config.Operations.Frames.{frames, frame, normalize_selected_exit_node_networks}
use nostr_vpn.Config.Operations.Counted.{
  IsConfigured, enable_first_if_none-IsConfigured, frames-IsConfigured,
}
use nostr_vpn.Config.Defaults.{
  Generated, ensure_defaults, ensure_fields, ensure_networks, ensure_network_id, ensure_network,
  some_network,
}

-- At most one network is left active, and none once one was found.
count-disable_later :
    (found : Bool) (ns : List NetworkConfig)
    → count is_enabled (disable_later found ns) ≤ (if found then 0 else 1)
unfolding disable_later count
count-disable_later found [] = ground arith
count-disable_later found (n ∷ ns) =
    ground (arith, count-disable_later found ns, count-disable_later true ns)

disable_later_ids :
    (found : Bool) (ns : List NetworkConfig) → ids_of (disable_later found ns) ≡ ids_of ns
unfolding disable_later
disable_later_ids found [] = refl
disable_later_ids found (n ∷ ns) = elim (Bool-cases n.enabled) [
  | inr e ↦ rw e (ap (λ xs. n.id ∷ xs) (disable_later_ids found ns))
  | inl e ↦ elim (Bool-cases found) [
    | inl f ↦ rw (e, f) (ap (λ xs. n.id ∷ xs) (disable_later_ids true ns))
    | inr f ↦ rw (e, f) (ap (λ xs. n.id ∷ xs) (disable_later_ids true ns))
  ]
]

length_ids : (ns : List NetworkConfig) → length (ids_of ns) ≡ length ns
length_ids [] = refl
length_ids (n ∷ ns) = ap suc (length_ids ns)

ensure_single_active_network-IsConfigured :
    (c : AppConfig)
    → 1 ≤ length c.networks
    → is_unique (ids_of c.networks) ≡ true
    → IsConfigured (ensure_single_active_network c).networks
unfolding ensure_single_active_network
ensure_single_active_network-IsConfigured c l u =
    enable_first_if_none-IsConfigured (disable_later false c.networks)
      (count-disable_later false c.networks)
      (omega (
        arith,
        length_ids (disable_later false c.networks),
        length_ids c.networks,
        ap length (disable_later_ids false c.networks),
      ))
      (ap is_unique (disable_later_ids false c.networks) ∙ u)

frame-derived_network :
    (lib : Libraries) (own : Option Text) (n : NetworkConfig)
    → frame (derived_network lib own n) ≡ frame n
unfolding derived_network
frame-derived_network lib own n = refl

derived_frames :
    (lib : Libraries) (own : Option Text) (ns : List NetworkConfig)
    → frames (map (derived_network lib own) ns) ≡ frames ns
unfolding frames
derived_frames lib own [] = refl
derived_frames lib own (n ∷ ns) =
    ground (arith, frame-derived_network lib own n, derived_frames lib own ns)

uniquify_network_entry_id-AddsNew :
    (candidate : Text) (used : HashSet) → AddsNew used (uniquify_network_entry_id candidate used)
unfolding uniquify_network_entry_id
uniquify_network_entry_id-AddsNew candidate used =
    (uniquify_network_entry_id_fresh candidate used, λ k. contains-add used _ k)

module _ (lib : Libraries) where
  ensure_network_id-AddsNew :
      (id : Text) (ordinal : ℕ) (used : HashSet) → AddsNew used (ensure_network_id id ordinal used)
  unfolding ensure_network_id
  ensure_network_id-AddsNew id ordinal used = uniquify_network_entry_id-AddsNew _ used

  ensure_network-id :
      (own : Option Text) (ordinal : ℕ) (id : Text) (n : NetworkConfig)
      → frame (ensure_network lib own ordinal id n) ≡ (id, n.enabled)
  unfolding ensure_network
  ensure_network-id own ordinal id n = refl

  -- The identifiers are new: they are not in `used`, and each stands once.
  ensure_networks_ids :
      (own : Option Text) (ordinal : ℕ) (used : HashSet) (ns : List NetworkConfig)
      → (is_unique (ids_of (ensure_networks lib own ordinal used ns)) ≡ true)
        × ((k : Text)
            → contains used k ≡ true
            → contains (ids_of (ensure_networks lib own ordinal used ns)) k ≡ false)
  unfolding ensure_networks is_unique contains ensure_network
  ensure_networks_ids own ordinal used [] = (refl, λ k h. refl)
  ensure_networks_ids own ordinal used (n ∷ ns) =
      let r = ensure_network_id n.id ordinal used in
      let (new, adds) = ensure_network_id-AddsNew n.id ordinal used in
      let (u, d) = ensure_networks_ids own (ordinal + 1) r.1 ns in
      (
        ground (arith, adds r.0, d r.0, str_eq_iff r.0 r.0),
        λ k h. ground (arith, adds k, d k, str_eq_iff r.0 k, new),
      )

  length-ensure_networks :
      (own : Option Text) (ordinal : ℕ) (used : HashSet) (ns : List NetworkConfig)
      → length (ensure_networks lib own ordinal used ns) ≡ length ns
  unfolding ensure_networks
  length-ensure_networks own ordinal used [] = refl
  length-ensure_networks own ordinal used (n ∷ ns) =
      ap suc (length-ensure_networks own (ordinal + 1) _ ns)

  some_network-length : (ns : List NetworkConfig) → 1 ≤ length (some_network ns)
  some_network-length [] = omega arith
  some_network-length (n ∷ ns) = omega arith

  -- However a configuration was stored, once loaded it has one active network, and identifiers
  -- that tell the networks apart.
  pub ensure_defaults-IsConfigured :
      (display : IpAddr → Text) (g : Generated) (c : AppConfig)
      → IsConfigured (ensure_defaults lib display g c).networks
  unfolding ensure_defaults derive_default_network_ids
  ensure_defaults-IsConfigured display g c0 =
      let c = ensure_fields lib display g c0 in
      let own = own_nostr_pubkey_hex lib c in
      let ns = ensure_networks lib own 1 [] (some_network c.networks) in
      let c1 = ensure_single_active_network (record c { networks = ns }) in
      let c2 = derive_default_network_ids lib c1 in
      let h1 =
        ensure_single_active_network-IsConfigured (record c { networks = ns })
          (omega (
            arith,
            length-ensure_networks own 1 [] (some_network c.networks),
            some_network-length c.networks,
          ))
          (ensure_networks_ids own 1 [] (some_network c.networks)).0 in
      let h2 =
        frames-IsConfigured c1.networks c2.networks
          (derived_frames lib (own_nostr_pubkey_hex lib c1) c1.networks) h1 in
      subst IsConfigured (sym (normalize_selected_exit_node_networks c2)) h2
