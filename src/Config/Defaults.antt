-- ===== src/Config/Defaults.antt =====
-- config.rs and config_defaults.rs: the configuration as it is made whole on loading, and with
-- its keys as they are shown on saving.
pub mod Whole
use nostr_vpn.Prelude.{
  ℕ, ◌+◌, Bool, true, false, ◌||◌, not, Option, none, some, List, [], ◌∷◌, ◌++◌, map, ◌==◌, any,
  keep, is_empty, if◌then◌else◌, and_then, map_option, or_else, unwrap_or, is_some_and,
}
use nostr_vpn.Prelude.Text.{Text, codes, str_eq, trim, is_blank}
use nostr_vpn.Prelude.Decimal.{show}
use nostr_vpn.Collections.HashMap.{HashMap}
use nostr_vpn.Collections.HashSet.{HashSet}
use nostr_vpn.Net.{IpAddr}
use nostr_vpn.Peers.Paths.Endpoints.{host_of}
use nostr_vpn.Config.State.{
  Libraries, NetworkConfig, AppConfig, NodeConfig, NostrConfig, own_nostr_pubkey_hex,
  npub_for_pubkey_hex, normalize_runtime_network_id,
}
use nostr_vpn.Config.Labels.{
  normalize_magic_dns_suffix, default_node_name_from_hostname, default_network_name,
  default_network_entry_id, normalize_network_entry_id, uniquify_network_entry_id,
}
use nostr_vpn.Config.Routes.{normalize_advertised_routes, is_exit_node_route, tunnel_ip_text}
use nostr_vpn.Config.Roster.{
  sorted_unique, filter_map, normalize_network_admins, normalize_outbound_join_request,
  normalize_inbound_join_requests, canonical_npub_key, canonicalize_outbound_join_request,
  canonicalize_inbound_join_requests,
}
use nostr_vpn.Config.Networks.{
  active_network, blank_network, default_network_id, ensure_single_active_network,
  derive_default_network_ids, normalize_selected_exit_node,
}
use nostr_vpn.Config.Aliases.{
  normalize_peer_aliases, default_magic_dns_label_for_pubkey, byte0, byte1,
}

-- What the source makes up or asks the host for: an identity (secret and public key), a WireGuard
-- key pair (private and public key), a UUID, and the host's name.
pub record Generated : Type 0 where
  pub identity : Text × Text
  pub key_pair : Text × Text
  pub uuid : Text
  pub hostname : Option Text

-- DEFAULT_RELAYS
abbrev pub default_relays : List Text
default_relays =
    codes "wss://temp.iris.to"
    ∷ codes "wss://relay.damus.io"
    ∷ codes "wss://relay.snort.social"
    ∷ codes "wss://relay.primal.net"
    ∷ []

abbrev pub default_endpoint : Text
default_endpoint = codes "127.0.0.1:51820"

abbrev pub default_tunnel_ip : Text
default_tunnel_ip = codes "10.44.0.1/32"

abbrev pub default_listen_port : ℕ
default_listen_port = 51820

abbrev pub default_node_name : Text
default_node_name = codes "nostr-vpn-node"

-- Where there is nothing but blanks, the default.
abbrev pub filled_or : Text → Text → Text
filled_or value default = if is_blank value then default else value

-- The routes without the default routes, and whether the node is an exit node.
unfoldable pub split_exit_routes : List Text → Bool → List Text × Bool
unfolding keep any is_exit_node_route
split_exit_routes routes advertise_exit_node = (
  keep (λ r. not (is_exit_node_route r)) routes,
  advertise_exit_node || any is_exit_node_route routes,
)

unfoldable pub needs_endpoint_autoconfig : Text → Bool
needs_endpoint_autoconfig endpoint =
    let value = trim endpoint in
    let host = host_of value in
    is_empty value
    || str_eq host (codes "127.0.0.1")
    || str_eq host (codes "0.0.0.0")
    || str_eq host (codes "localhost")
    || str_eq host (codes "::1")

unfoldable pub needs_tunnel_ip_autoconfig : Text → Bool
needs_tunnel_ip_autoconfig tunnel_ip =
    let value = trim tunnel_ip in is_empty value || str_eq value default_tunnel_ip

-- The entry of a network in the loop, with the identifiers that the earlier ones have.
unfoldable pub ensure_network_id : Text → ℕ → HashSet → Text × HashSet
unfolding normalize_network_entry_id uniquify_network_entry_id
ensure_network_id id ordinal used =
    uniquify_network_entry_id
      (if is_blank id
        then default_network_entry_id ordinal
        else normalize_network_entry_id id ordinal)
      used

abbrev pub some_network : List NetworkConfig → List NetworkConfig
some_network [] = blank_network (default_network_entry_id 1) (default_network_name 1) true ∷ []
some_network (n ∷ ns) = n ∷ ns

abbrev pub ensure_node : (IpAddr → Text) → Generated → NodeConfig → NodeConfig
ensure_node display g n =
    let (routes, exit_node) =
      split_exit_routes (normalize_advertised_routes display n.advertised_routes)
        n.advertise_exit_node in
    let no_keys = is_blank n.private_key || is_blank n.public_key in
    record n {
      id = filled_or n.id g.uuid;
      endpoint = filled_or n.endpoint default_endpoint;
      tunnel_ip = filled_or n.tunnel_ip default_tunnel_ip;
      listen_port = if n.listen_port == 0 then default_listen_port else n.listen_port;
      advertised_routes = routes;
      advertise_exit_node = exit_node;
      private_key = if no_keys then g.key_pair.0 else n.private_key;
      public_key = if no_keys then g.key_pair.1 else n.public_key;
    }

abbrev pub some_relays : List Text → List Text
some_relays [] = default_relays
some_relays (r ∷ rs) = r ∷ rs

abbrev pub other_exit_node : Option Text → Text → Text
other_exit_node own exit_node = if is_some_and own (str_eq exit_node) then [] else exit_node

-- `effective_network_id`
abbrev pub effective_network_id : AppConfig → Text
effective_network_id c = let n = active_network c in normalize_runtime_network_id n.network_id

abbrev pub autoconfigured_endpoint : (IpAddr → Text) → Option IpAddr → NodeConfig → Text
autoconfigured_endpoint display none n = n.endpoint
autoconfigured_endpoint display (some ip) n =
    if needs_endpoint_autoconfig n.endpoint
    then display ip ++ 58 ∷ show n.listen_port
    else n.endpoint

module _ (lib : Libraries) where
  unfoldable pub derive_mesh_tunnel_ip : Text → Text → Option Text
  unfolding normalize_runtime_network_id trim
  derive_mesh_tunnel_ip network_id own_pubkey_hex =
      let id = trim (normalize_runtime_network_id network_id) in
      let own = trim own_pubkey_hex in
      let digest = lib.sha256 (id ++ 10 ∷ own) in
      if is_empty id || is_empty own
      then none
      else some (tunnel_ip_text (byte0 digest) (byte1 digest))

  abbrev pub default_node_name_for_pubkey : Text → Text
  default_node_name_for_pubkey key = default_magic_dns_label_for_pubkey lib key []

  unfoldable pub uses_default_node_name : Text → Option Text → Bool
  unfolding default_magic_dns_label_for_pubkey
  uses_default_node_name value own =
      let trimmed = trim value in
      is_empty trimmed
      || str_eq trimmed default_node_name
      || is_some_and own (λ key. str_eq trimmed (default_node_name_for_pubkey key))

  -- default_node_name_for_hostname_or_pubkey, where the node has a key.
  abbrev pub node_name_for : Option Text → Option Text → Text
  node_name_for own hostname =
      unwrap_or
        (or_else (and_then hostname default_node_name_from_hostname)
          (map_option own default_node_name_for_pubkey))
        default_node_name

  unfoldable pub ensure_nostr_identity : Text × Text → NostrConfig → NostrConfig
  ensure_nostr_identity (secret, public) n =
      if is_blank n.secret_key
      then record n { secret_key = secret; public_key = public }
      else elim (lib.pubkey_of_secret n.secret_key) [
        | none ↦ record n { secret_key = secret; public_key = public }
        | some key ↦
            if is_blank n.public_key
            then record n { public_key = npub_for_pubkey_hex lib key }
            else n
      ]

  abbrev pub some_key : Text → Text
  some_key value = unwrap_or (lib.parse_pubkey value) []

  unfoldable pub ensure_network : Option Text → ℕ → Text → NetworkConfig → NetworkConfig
  unfolding filter_map sorted_unique normalize_network_admins normalize_outbound_join_request
      normalize_inbound_join_requests
  ensure_network own ordinal id n =
      let participants = sorted_unique (filter_map lib.parse_pubkey n.participants) in
      let inviter = some_key n.invite_inviter in
      let signed_by = some_key n.shared_roster_signed_by in
      record n {
        name = if is_blank n.name then default_network_name ordinal else trim n.name;
        id = id;
        network_id = filled_or n.network_id default_network_id;
        invite_inviter = inviter;
        participants = participants;
        admins = normalize_network_admins lib n.admins own inviter;
        outbound_join_request =
            normalize_outbound_join_request lib n.outbound_join_request participants;
        inbound_join_requests =
            normalize_inbound_join_requests lib n.inbound_join_requests participants;
        shared_roster_signed_by = signed_by;
        shared_roster_updated_at = if is_empty signed_by then 0 else n.shared_roster_updated_at;
      }

  unfoldable pub ensure_networks :
      Option Text → ℕ → HashSet → List NetworkConfig → List NetworkConfig
  unfolding ensure_network_id ensure_network
  ensure_networks own ordinal used [] = []
  ensure_networks own ordinal used (n ∷ ns) =
      let (id, used1) = ensure_network_id n.id ordinal used in
      ensure_network own ordinal id n ∷ ensure_networks own (ordinal + 1) used1 ns

  -- The fields of `ensure_defaults` up to the networks.
  unfoldable pub ensure_fields : (IpAddr → Text) → Generated → AppConfig → AppConfig
  unfolding ensure_nostr_identity uses_default_node_name default_magic_dns_label_for_pubkey
      default_node_name_from_hostname normalize_magic_dns_suffix normalize_advertised_routes
      split_exit_routes
  ensure_fields display g c0 =
      let c = record c0 { nostr = ensure_nostr_identity g.identity c0.nostr } in
      let own = own_nostr_pubkey_hex lib c in
      let nostr = c.nostr in
      record c {
        auto_disconnect_relays_when_mesh_ready = false;
        node_name =
            if uses_default_node_name c.node_name own
            then node_name_for own g.hostname
            else c.node_name;
        magic_dns_suffix = normalize_magic_dns_suffix c.magic_dns_suffix;
        nostr = record nostr { relays = some_relays nostr.relays };
        node = ensure_node display g c.node;
        exit_node = other_exit_node own (some_key (trim c.exit_node));
      }

  unfoldable pub ensure_defaults : (IpAddr → Text) → Generated → AppConfig → AppConfig
  unfolding ensure_fields ensure_networks ensure_single_active_network derive_default_network_ids
      normalize_selected_exit_node normalize_peer_aliases
  ensure_defaults display g c0 =
      let c = ensure_fields display g c0 in
      let own = own_nostr_pubkey_hex lib c in
      normalize_peer_aliases lib (
        normalize_selected_exit_node (
          derive_default_network_ids lib (
            ensure_single_active_network
              (record c { networks = ensure_networks own 1 [] (some_network c.networks) }))))

  abbrev pub canonical_or_empty : Text → Text
  canonical_or_empty value = unwrap_or (canonical_npub_key lib value) []

  unfoldable pub canonicalize_network : NetworkConfig → NetworkConfig
  unfolding filter_map canonical_npub_key sorted_unique canonicalize_outbound_join_request
      canonicalize_inbound_join_requests
  canonicalize_network n =
      let signed_by = canonical_or_empty n.shared_roster_signed_by in
      record n {
        participants = sorted_unique (filter_map (canonical_npub_key lib) n.participants);
        admins = sorted_unique (filter_map (canonical_npub_key lib) n.admins);
        invite_inviter = canonical_or_empty n.invite_inviter;
        outbound_join_request = canonicalize_outbound_join_request lib n.outbound_join_request;
        inbound_join_requests = canonicalize_inbound_join_requests lib n.inbound_join_requests;
        shared_roster_signed_by = signed_by;
        shared_roster_updated_at = if is_empty signed_by then 0 else n.shared_roster_updated_at;
      }

  unfoldable pub canonicalize_user_facing_pubkeys : AppConfig → AppConfig
  unfolding canonicalize_network normalize_peer_aliases
  canonicalize_user_facing_pubkeys c =
      let nostr = c.nostr in
      normalize_peer_aliases lib (record c {
        nostr = record nostr { public_key = canonical_or_empty nostr.public_key };
        exit_node = canonical_or_empty c.exit_node;
        networks = map canonicalize_network c.networks;
      })

  abbrev pub autoconfigured_tunnel_ip : AppConfig → Text
  autoconfigured_tunnel_ip c =
      let n = c.node in
      if needs_tunnel_ip_autoconfig n.tunnel_ip
      then unwrap_or
          (and_then (own_nostr_pubkey_hex lib c) (derive_mesh_tunnel_ip (effective_network_id c)))
          n.tunnel_ip
      else n.tunnel_ip

  -- The address is what `detect_primary_ipv4` finds.
  unfoldable pub maybe_autoconfigure_node :
      (IpAddr → Text) → Generated → Option IpAddr → AppConfig → AppConfig
  unfolding ensure_defaults needs_endpoint_autoconfig needs_tunnel_ip_autoconfig
      derive_mesh_tunnel_ip active_network
  maybe_autoconfigure_node display g detected c0 =
      let c = ensure_defaults display g c0 in
      let n = c.node in
      record c {
        node = record n {
          endpoint = autoconfigured_endpoint display detected n;
          tunnel_ip = autoconfigured_tunnel_ip c;
        };
      }
