-- ===== src/Config/Base.antt =====
-- testing-framework/configs/src/topology/configs/{base,bootstrap,blend,api,time,tracing}.rs and
-- create_kms_configs of core/src/topology/utils.rs: what a node is configured with besides consensus
-- and network. The tracing settings of a node are those of its index.
pub mod Keys
use logos_blockchain_testing.Prelude.{
  ℕ, suc, ◌*◌, Bool, true, false, Option, none, some, List, [], ◌∷◌, map, String, if◌then◌else◌,
  ltb,
}
use Prim.Native.Nat.{Ordering}
use Prim.Native.String.{compare}
use logos_blockchain_testing.Vendor.{Vendor}
use logos_blockchain_testing.Os.{
  NodeId, Os, Io, ◌>>=◌, pure, lift, convert, traverse, get_available_tcp_port,
}
use logos_blockchain_testing.Wallet.{WalletAccount, WalletConfig, public_key}
use logos_blockchain_testing.Config.Ledger.{Ledger}
use logos_blockchain_testing.Config.Consensus.{
  ConsensusConfigError, ConsensusParams, GeneralConsensusConfig, create_consensus_configs,
}
use logos_blockchain_testing.Config.Network.{
  NetworkConfigError, NetworkParams, GeneralNetworkConfig, create_network_configs, localhost,
}

-- `std::time::Duration`, in nanoseconds
abbrev pub Duration : Type 0
Duration = ℕ

abbrev pub from_secs : ℕ → Duration
from_secs s = s * 1000000000

pub record GeneralBootstrapConfig : Type 0 where
  pub prolonged_bootstrap_period : Duration

abbrev pub short_prolonged_bootstrap_period : Duration
short_prolonged_bootstrap_period = from_secs 1

unfoldable pub create_bootstrap_configs : List NodeId → Duration → List GeneralBootstrapConfig
create_bootstrap_configs ids period = map (λ _. record { prolonged_bootstrap_period = period }) ids

pub record SocketAddr : Type 0 where
  pub ip : List ℕ
  pub port : ℕ

pub record GeneralApiConfig : Type 0 where
  pub address : SocketAddr
  pub testing_http_address : SocketAddr

pub data ApiConfigError : Type 0 where
  port_allocation_failed : ApiConfigError

-- The closure of `create_api_configs`.
unfoldable pub create_api_config : NodeId → Io GeneralApiConfig ApiConfigError
unfolding get_available_tcp_port
create_api_config id = do
  address_port ← get_available_tcp_port port_allocation_failed
  testing_port ← get_available_tcp_port port_allocation_failed
  pure (record {
    address = record { ip = localhost; port = address_port };
    testing_http_address = record { ip = localhost; port = testing_port };
  })

unfoldable pub create_api_configs : List NodeId → Io (List GeneralApiConfig) ApiConfigError
unfolding create_api_config traverse
create_api_configs ids = traverse create_api_config ids

pub record GeneralTimeConfig : Type 0 where
  pub slot_duration : Duration
  pub chain_start_time : ℕ
  pub ntp_server : String
  pub timeout : Duration
  pub interface : List ℕ
  pub update_interval : Duration

-- `.filter(|value| *value > 0).unwrap_or(DEFAULT_SLOT_TIME)`
unfoldable pub slot_secs : Option ℕ → ℕ
slot_secs none = 2
slot_secs (some value) = if ltb 0 value then value else 2

unfoldable pub default_time_config : Os → GeneralTimeConfig
unfolding slot_secs
default_time_config os = record {
  slot_duration = from_secs (slot_secs os.slot_time);
  chain_start_time = os.now;
  ntp_server = "pool.ntp.org";
  timeout = from_secs 5;
  interface = 0 ∷ 0 ∷ 0 ∷ 0 ∷ [];
  update_interval = from_secs 16;
}

pub record CoreBlendBackendSettings (v : Vendor) : Type 0 where
  pub listening_address : v.Multiaddr
  -- the inclusive range
  pub core_peering_degree : ℕ × ℕ
  pub minimum_messages_coefficient : ℕ
  -- a fraction
  pub normalization_constant : ℕ × ℕ
  pub edge_node_connection_timeout : Duration
  pub max_edge_node_incoming_connections : ℕ
  pub max_dial_attempts_per_peer : ℕ
  pub protocol_name : String

pub record EdgeBlendBackendSettings : Type 0 where
  pub max_dial_attempts_per_peer_per_message : ℕ
  pub protocol_name : String
  pub replication_factor : ℕ

pub record GeneralBlendConfig (v : Vendor) : Type 0 where
  pub backend_core : CoreBlendBackendSettings v
  pub backend_edge : EdgeBlendBackendSettings
  pub private_key : v.Ed25519Key
  pub secret_zk_key : v.ZkKey
  pub signer : v.Ed25519Key

pub data Key (v : Vendor) : Type 0 where
  ed25519 : v.Ed25519Key → Key v
  zk : v.ZkKey → Key v

-- A `HashMap<String, Key>` as the list of its entries.
pub record PreloadKmsBackendSettings (v : Vendor) : Type 0 where
  pub keys : List (String × Key v)

abbrev pub is_equal : Ordering → Bool
is_equal Ordering.lt = false
is_equal Ordering.eq = true
is_equal Ordering.gt = false

unfoldable pub contains_key {ℓ} : {A : Type ℓ} → String → List (String × A) → Bool
contains_key key [] = false
contains_key key ((k, a) ∷ rest) = if is_equal (compare key k) then true else contains_key key rest

-- `entry(key).or_insert_with(|| value)`
unfoldable pub or_insert {ℓ} : {A : Type ℓ} → List (String × A) → String → A → List (String × A)
unfolding contains_key
or_insert entries key value = if contains_key key entries then entries else (key, value) ∷ entries

module _ (v : Vendor) where
  unfoldable pub localhost_quic_address : ℕ → v.Multiaddr
  localhost_quic_address port =
      v.push (v.push (v.push v.empty_multiaddr (v.ip4 localhost)) (v.udp port)) v.quic_v1

  -- The closure of `create_blend_configs`.
  unfoldable pub create_blend_config : NodeId → ℕ → GeneralBlendConfig v
  unfolding localhost_quic_address
  create_blend_config id port =
      let signer = v.ed25519_key id in
      record {
        backend_core = record {
          listening_address = localhost_quic_address port;
          core_peering_degree = (1, 3);
          minimum_messages_coefficient = 1;
          normalization_constant = (103, 100);
          edge_node_connection_timeout = from_secs 1;
          max_edge_node_incoming_connections = 300;
          max_dial_attempts_per_peer = 3;
          protocol_name = "/blend/integration-tests";
        };
        backend_edge = record {
          max_dial_attempts_per_peer_per_message = 1;
          protocol_name = "/blend/integration-tests";
          replication_factor = 1;
        };
        private_key = signer;
        secret_zk_key = v.zk_key (v.ed25519_public_bytes signer);
        signer = signer;
      }

  unfoldable pub create_blend_configs : List NodeId → List ℕ → List (GeneralBlendConfig v)
  unfolding create_blend_config
  create_blend_configs (id ∷ ids) (port ∷ ports) =
      create_blend_config id port ∷ create_blend_configs ids ports
  create_blend_configs _ _ = []

  -- `enumerate()` from index `i` on
  unfoldable pub create_tracing_configs : ℕ → List NodeId → List v.TracingSettings
  create_tracing_configs i [] = []
  create_tracing_configs i (id ∷ ids) = v.tracing_settings i ∷ create_tracing_configs (suc i) ids

  -- The loop over the wallet accounts.
  unfoldable pub add_account_keys :
      List (WalletAccount v) → List (String × Key v) → List (String × Key v)
  unfolding or_insert public_key
  add_account_keys [] keys = keys
  add_account_keys (a ∷ rest) keys =
      add_account_keys rest
        (or_insert keys (v.hex (v.zk_public_bytes (public_key v a))) (zk a.secret_key))

  unfoldable pub create_kms_configs :
      List (GeneralBlendConfig v) → List (WalletAccount v) → List (PreloadKmsBackendSettings v)
  unfolding add_account_keys
  create_kms_configs blend_configs accounts =
      map
        (λ (b : GeneralBlendConfig v). record {
          keys = add_account_keys accounts (
              or_insert
                ((v.hex (v.zk_public_bytes (v.to_public_key b.secret_zk_key)), zk b.secret_zk_key)
                  ∷ [])
                (v.hex (v.ed25519_public_bytes b.signer)) (ed25519 b.signer));
        })
        blend_configs

pub data BaseConfigError : Type 0 where
  consensus : ConsensusConfigError → BaseConfigError
  network : NetworkConfigError → BaseConfigError

pub record BaseConfigs (v : Vendor) (l : Ledger v) : Type 0 where
  pub consensus_configs : List (GeneralConsensusConfig v l)
  pub bootstrap_configs : List GeneralBootstrapConfig
  pub network_configs : List (GeneralNetworkConfig v)
  pub blend_configs : List (GeneralBlendConfig v)

unfoldable pub build_base_configs :
    (v : Vendor) (l : Ledger v)
    → List NodeId
    → ConsensusParams v
    → NetworkParams
    → WalletConfig v
    → List ℕ
    → Io (BaseConfigs v l) BaseConfigError
unfolding create_consensus_configs create_network_configs create_bootstrap_configs
    create_blend_configs
build_base_configs v l ids consensus_params network_params wallet_config blend_ports = do
  consensus_configs ←
      convert consensus (lift (create_consensus_configs v l ids consensus_params wallet_config))
  network_configs ← convert network (create_network_configs v ids network_params)
  pure (record {
    consensus_configs = consensus_configs;
    bootstrap_configs = create_bootstrap_configs ids short_prolonged_bootstrap_period;
    network_configs = network_configs;
    blend_configs = create_blend_configs v ids blend_ports;
  })
