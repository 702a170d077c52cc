-- ===== src/Config/Tests.antt =====
-- A node `a` with a network of two, and what it computes.
mod Naming
mod Members
use nostr_vpn.Prelude.{
  ℕ, ◌≡◌, ◌≤◌, ◌<◌, refl, Bool, true, false, ◌==◌, Option, none, some, List, [], ◌∷◌, map, arith,
  if◌then◌else◌, length,
}
use nostr_vpn.Prelude.Results.{ok}
use nostr_vpn.Prelude.Text.{Text, codes, str_eq}
use nostr_vpn.Prelude.Chars.{to_ascii_lowercase}
use nostr_vpn.Net.{IpAddr}
use nostr_vpn.Config.State.{Libraries, NetworkConfig, AppConfig, PendingInboundJoinRequest}
use nostr_vpn.Config.Labels.{
  normalize_magic_dns_label, uniquify_network_entry_id, uniquify_magic_dns_label,
  normalize_magic_dns_suffix,
}
use nostr_vpn.Config.Networks.{blank_network}
use nostr_vpn.Config.Shared.{SignedRoster}
use nostr_vpn.Config.Defaults.{Generated}

-- Keys are single characters; the npub of `a` is `npub1a`.
abbrev pub parse_key : Text → Option Text
parse_key v =
    if str_eq v (codes "npub1a") then some (codes "a") else if length v == 1 then some v else none

abbrev pub npub_of : Text → Option Text
npub_of key = if str_eq key (codes "a") then some (codes "npub1a") else none

abbrev pub test_libraries : Libraries
test_libraries = record {
  parse_pubkey = parse_key;
  to_bech32 = npub_of;
  pubkey_of_secret = λ s. none;
  sha256 = λ s. length s ∷ 7 ∷ [];
  hex_encode = λ bs. bs;
  to_lowercase = map to_ascii_lowercase;
}

abbrev pub display_ten : IpAddr → Text
display_ten a = codes "10.0.0.0"

abbrev pub home : NetworkConfig
home =
    let n = blank_network (codes "network-1") (codes "Home") true in
    record n {
      network_id = codes "mesh";
      participants = codes "b" ∷ [];
      admins = codes "a" ∷ [];
      shared_roster_updated_at = 100;
      shared_roster_signed_by = codes "a";
    }

abbrev pub node_a : AppConfig
node_a = record {
  networks = home ∷ [];
  node_name = codes "Alpha";
  use_public_relay_fallback = true;
  relay_for_others = false;
  provide_nat_assist = false;
  auto_disconnect_relays_when_mesh_ready = false;
  lan_discovery_enabled = true;
  launch_on_startup = true;
  autoconnect = true;
  exit_node = [];
  close_to_tray_on_close = true;
  magic_dns_suffix = codes "nvpn";
  peer_aliases = (codes "b", codes "beta") ∷ [];
  nat = record { enabled = true; stun_servers = []; reflectors = []; discovery_timeout_secs = 2 };
  nostr = record { relays = []; secret_key = []; public_key = codes "a" };
  node = record {
    id = codes "id";
    private_key = codes "x";
    public_key = codes "y";
    endpoint = [];
    tunnel_ip = [];
    listen_port = 0;
    advertised_routes = codes "0.0.0.0/0" ∷ codes "10.1.2.3/8" ∷ [];
    advertise_exit_node = false;
  };
}

-- The same network as the member `b` has it.
abbrev pub node_b : AppConfig
node_b = let n = node_a.nostr in record node_a { nostr = record n { public_key = codes "b" } }

abbrev pub made_up : Generated
made_up = record {
  identity = (codes "s", codes "p");
  key_pair = (codes "x", codes "y");
  uuid = codes "u";
  hostname = none;
}

-- The roster that `a` signs at time 500, with a new member `c`.
abbrev pub new_roster : SignedRoster
new_roster = record {
  network_id = codes "mesh";
  network_name = codes " Den ";
  participants = codes "b" ∷ codes "c" ∷ [];
  admins = codes "a" ∷ [];
  aliases = (codes "c", codes "Gamma") ∷ [];
  signed_at = 500;
  signed_by = codes "a";
}
