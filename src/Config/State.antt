-- ===== src/Config/State.antt =====
-- config.rs: the configuration of a node and of its networks, with the operations on it as state
-- passing.
use nostr_vpn.Prelude.{
  ℕ, Bool, Option, none, some, List, [], ◌∷◌, if◌then◌else◌, or_else, unwrap_or, map_option,
}
use nostr_vpn.Prelude.Results.{Result, ok, err}
use nostr_vpn.Prelude.Text.{Text, codes, trim}
use nostr_vpn.Prelude.Chars.{strip_prefix}
use nostr_vpn.Collections.HashMap.{HashMap}

pub record PendingOutboundJoinRequest : Type 0 where
  pub recipient : Text
  pub requested_at : ℕ

pub record PendingInboundJoinRequest : Type 0 where
  pub requester : Text
  pub requester_node_name : Text
  pub requested_at : ℕ

pub record NetworkConfig : Type 0 where
  pub id : Text
  pub name : Text
  pub enabled : Bool
  pub network_id : Text
  pub participants : List Text
  pub admins : List Text
  pub listen_for_join_requests : Bool
  pub invite_inviter : Text
  pub outbound_join_request : Option PendingOutboundJoinRequest
  pub inbound_join_requests : List PendingInboundJoinRequest
  pub shared_roster_updated_at : ℕ
  pub shared_roster_signed_by : Text

pub record NatConfig : Type 0 where
  pub enabled : Bool
  pub stun_servers : List Text
  pub reflectors : List Text
  pub discovery_timeout_secs : ℕ

pub record NostrConfig : Type 0 where
  pub relays : List Text
  pub secret_key : Text
  pub public_key : Text

pub record NodeConfig : Type 0 where
  pub id : Text
  pub private_key : Text
  pub public_key : Text
  pub endpoint : Text
  pub tunnel_ip : Text
  pub listen_port : ℕ
  pub advertised_routes : List Text
  pub advertise_exit_node : Bool

pub record AppConfig : Type 0 where
  pub networks : List NetworkConfig
  pub node_name : Text
  pub use_public_relay_fallback : Bool
  pub relay_for_others : Bool
  pub provide_nat_assist : Bool
  pub auto_disconnect_relays_when_mesh_ready : Bool
  pub lan_discovery_enabled : Bool
  pub launch_on_startup : Bool
  pub autoconnect : Bool
  pub exit_node : Text
  pub close_to_tray_on_close : Bool
  pub magic_dns_suffix : Text
  pub peer_aliases : HashMap Text
  pub nat : NatConfig
  pub nostr : NostrConfig
  pub node : NodeConfig

pub record SharedNetworkRoster : Type 0 where
  pub id : Text
  pub network_id : Text
  pub name : Text
  pub participants : List Text
  pub admins : List Text
  pub aliases : HashMap Text
  pub updated_at : ℕ
  pub signed_by : Text

-- What the source takes from nostr_sdk, sha2 and hex, and from the standard library's Unicode
-- tables: a public key in hexadecimal for any of its notations, the npub of such a key, the key of
-- a secret key, the digest of a text's bytes, and text in lower case.
pub record Libraries : Type 0 where
  pub parse_pubkey : Text → Option Text
  pub to_bech32 : Text → Option Text
  pub pubkey_of_secret : Text → Option Text
  pub sha256 : Text → List ℕ
  pub hex_encode : List ℕ → Text
  pub to_lowercase : Text → Text

pub data ConfigError : Type 0 where
  invalid_participant_pubkey : ConfigError
  network_name_empty : ConfigError
  network_not_found : ConfigError
  network_required : ConfigError
  active_network_required : ConfigError
  network_id_empty : ConfigError
  last_admin : ConfigError
  roster_too_new : ConfigError
  roster_without_admin : ConfigError
  participant_not_configured : ConfigError
  invalid_alias : ConfigError
  alias_not_persisted : ConfigError

-- `&mut self` and a Result: an operation that fails returns the configuration as it then is.
abbrev pub Operation : Type 0 → Type 0
Operation A = AppConfig → AppConfig × Result ConfigError A

abbrev pub then_run :
    {A B : Type 0}
    → (A → Operation B)
    → AppConfig × Result ConfigError A
    → AppConfig × Result ConfigError B
then_run k (c, ok a) = k a c
then_run k (c, err e) = (c, err e)

infixl 5 ◌>>=◌ ◌>>◌
abbrev pub ◌>>=◌ : {A B : Type 0} → Operation A → (A → Operation B) → Operation B
◌>>=◌ m k c = then_run k (m c)

abbrev pub ◌>>◌ : {A B : Type 0} → Operation A → Operation B → Operation B
m >> n = m >>= λ _. n

abbrev pub pure : {A : Type 0} → A → Operation A
pure a c = (c, ok a)

-- `?` on a Result, and `if test { return Err(error) }`.
abbrev pub lift : {A : Type 0} → Result ConfigError A → Operation A
lift r c = (c, r)

abbrev pub fail_if : Bool → ConfigError → Operation (Unit {0})
fail_if test e c = if test then (c, err e) else (c, ok tt)

-- A method that does not fail.
abbrev pub modify : (AppConfig → AppConfig) → Operation (Unit {0})
modify f c = (f c, ok tt)

-- `iter_mut().find(test)` and what is then done with the network.
unfoldable pub edit_first :
    {A : Type 0}
    → (NetworkConfig → Bool)
    → (NetworkConfig → NetworkConfig × A)
    → List NetworkConfig
    → Option (List NetworkConfig × A)
edit_first test f [] = none
edit_first test f (n ∷ ns) =
    let rest = edit_first test f ns in
    if test n then some ((f n).0 ∷ ns, (f n).1) else map_option rest (λ r. (n ∷ r.0, r.1))

-- The configuration with the edited network, or what is returned where there is none.
abbrev pub edited :
    {A : Type 0}
    → Result ConfigError A
    → AppConfig
    → Option (List NetworkConfig × Result ConfigError A)
    → AppConfig × Result ConfigError A
edited missing c none = (c, missing)
edited missing c (some (networks, r)) = (record c { networks = networks }, r)

abbrev pub pubkey_result : Option Text → Result ConfigError Text
pubkey_result none = err invalid_participant_pubkey
pubkey_result (some key) = ok key

abbrev pub normalize_nostr_pubkey : Libraries → Text → Result ConfigError Text
normalize_nostr_pubkey lib value = pubkey_result (lib.parse_pubkey value)

abbrev pub npub_for_pubkey_hex : Libraries → Text → Text
npub_for_pubkey_hex lib pubkey_hex = unwrap_or (lib.to_bech32 pubkey_hex) pubkey_hex

-- `own_nostr_pubkey_hex().ok()`
abbrev pub own_nostr_pubkey_hex : Libraries → AppConfig → Option Text
own_nostr_pubkey_hex lib c =
    or_else (lib.parse_pubkey c.nostr.public_key) (lib.pubkey_of_secret c.nostr.secret_key)

unfoldable pub normalize_runtime_network_id : Text → Text
unfolding strip_prefix trim
normalize_runtime_network_id value =
    let trimmed = trim value in unwrap_or (strip_prefix (codes "nostr-vpn:") trimmed) trimmed
