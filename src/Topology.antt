-- ===== src/Topology.antt =====
-- testing-framework/core/src/topology/{config,utils,generation}.rs: the generated topology. The
-- functions below are the steps of TopologyBuilder::build.
pub mod Builder
pub mod Nodes
pub mod Genesis
pub mod Bases
pub mod Build
pub mod Promise
use logos_blockchain_testing.Prelude.{
  ℕ, zero, suc, ◌+◌, ◌*◌, Bool, true, false, not, ◌==◌, Option, none, some, List, [], ◌∷◌, map,
  replicate, length, get_elem?, String, if◌then◌else◌, Result, ok, err, map_err, ok_or, ◌>>=◌,
}
use logos_blockchain_testing.Vendor.{Vendor}
use logos_blockchain_testing.Os.{
  NodeId, Os, Io, ◌>>=◌ as ◌>>=ᴵ◌, pure, lift, convert, traverse, random_id, get_available_udp_port,
}
use logos_blockchain_testing.Wallet.{WalletAccount, WalletConfig}
use logos_blockchain_testing.Config.Invariants.{TopologyInvariantError}
use logos_blockchain_testing.Config.Ledger.{Ledger, ServiceType, MantleTx}
use logos_blockchain_testing.Config.Consensus.{
  ConsensusConfigError, ConsensusParams, GeneralConsensusConfig, ProviderInfo, ServiceNote,
  create_genesis_tx_with_declarations,
}
use logos_blockchain_testing.Config.Network.{
  Libp2pNetworkLayout, NetworkParams, GeneralNetworkConfig, default_params,
}
use logos_blockchain_testing.Config.Base.{
  Duration, GeneralBootstrapConfig, GeneralApiConfig, ApiConfigError, GeneralTimeConfig,
  GeneralBlendConfig, PreloadKmsBackendSettings, BaseConfigError, BaseConfigs, build_base_configs,
  create_api_configs, create_tracing_configs, default_time_config, create_kms_configs,
}

pub data TopologyResolveError : Type 0 where
  id_count_mismatch : ℕ → ℕ → TopologyResolveError
  port_count_mismatch : String → ℕ → ℕ → TopologyResolveError
  port_allocation_failed : String → TopologyResolveError

pub data TopologyBuildError : Type 0 where
  empty_participants : TopologyBuildError
  invariants : TopologyInvariantError → TopologyBuildError
  resolve : TopologyResolveError → TopologyBuildError
  base : BaseConfigError → TopologyBuildError
  api : ApiConfigError → TopologyBuildError
  genesis : ConsensusConfigError → TopologyBuildError
  missing_consensus_config : TopologyBuildError
  vector_len_mismatch : String → ℕ → ℕ → TopologyBuildError

pub record TopologyConfig (v : Vendor) : Type 0 where
  pub n_nodes : ℕ
  pub consensus_params : ConsensusParams v
  pub network_params : NetworkParams
  pub wallet_config : WalletConfig v

pub record GeneralConfig (v : Vendor) (l : Ledger v) : Type 0 where
  pub api_config : GeneralApiConfig
  pub consensus_config : GeneralConsensusConfig v l
  pub bootstrapping_config : GeneralBootstrapConfig
  pub network_config : GeneralNetworkConfig v
  pub blend_config : GeneralBlendConfig v
  pub tracing_config : v.TracingSettings
  pub time_config : GeneralTimeConfig
  pub kms_config : PreloadKmsBackendSettings v

pub record GeneratedNodeConfig (v : Vendor) (l : Ledger v) : Type 0 where
  pub index : ℕ
  pub id : NodeId
  pub general : GeneralConfig v l
  pub blend_port : ℕ

pub record GeneratedTopology (v : Vendor) (l : Ledger v) : Type 0 where
  pub config : TopologyConfig v
  pub nodes : List (GeneratedNodeConfig v l)

abbrev first_slot_duration :
    {v : Vendor} {l : Ledger v} → List (GeneratedNodeConfig v l) → Option Duration
first_slot_duration [] = none
first_slot_duration (node ∷ rest) = some node.general.time_config.slot_duration

-- `GeneratedTopology::slot_duration`
unfoldable pub slot_duration : {v : Vendor} {l : Ledger v} → GeneratedTopology v l → Option Duration
slot_duration t = first_slot_duration t.nodes

-- `get_cloned` and `get_copied`
unfoldable pub get_cloned {ℓ} : {A : Type ℓ} → String → List A → ℕ → ℕ → Result A TopologyBuildError
get_cloned label items index expected =
    ok_or (get_elem? items index) (vector_len_mismatch label expected (length items))

-- One element for each call.
abbrev pub calls : ℕ → List (Unit {0})
calls count = replicate count tt

unfoldable pub resolve_ids : Option (List NodeId) → ℕ → Io (List NodeId) TopologyResolveError
unfolding random_id traverse
resolve_ids (some ids) count =
    if length ids == count then pure ids else lift (err (id_count_mismatch count (length ids)))
resolve_ids none count = traverse (λ _. random_id) (calls count)

abbrev require_ports : List ℕ → ℕ → String → Io (List ℕ) TopologyResolveError
require_ports resolved count label =
    if length resolved == count
    then pure resolved
    else lift (err (port_count_mismatch label count (length resolved)))

unfoldable pub resolve_ports : Option (List ℕ) → ℕ → String → Io (List ℕ) TopologyResolveError
unfolding get_available_udp_port traverse
resolve_ports (some ports) count label = require_ports ports count label
resolve_ports none count label =
    traverse (λ _. get_available_udp_port (port_allocation_failed label)) (calls count)
    >>=ᴵ λ resolved. require_ports resolved count label

unfoldable pub resolve_and_validate_vectors :
    Option (List NodeId) → Option (List ℕ) → ℕ → Io (List NodeId × List ℕ) TopologyBuildError
unfolding resolve_ids resolve_ports
resolve_and_validate_vectors ids blend_ports n = convert resolve (resolve_ids ids n) >>=ᴵ λ ids.
    convert resolve (resolve_ports blend_ports n "Blend") >>=ᴵ λ blend_ports.
    pure (ids, blend_ports)

module _ (v : Vendor) (l : Ledger v) where
  unfoldable pub participant_count : TopologyConfig v → Result ℕ TopologyBuildError
  participant_count config =
      if config.n_nodes == 0 then err empty_participants else ok config.n_nodes

  abbrev pub provider_of : GeneralBlendConfig v → ServiceNote v → ProviderInfo v
  provider_of b note = record {
    service_type = ServiceType.blend_network;
    provider_sk = b.signer;
    zk_sk = b.secret_zk_key;
    locator = b.backend_core.listening_address;
    note = note;
  }

  -- The loop of `collect_provider_infos`, from index `i` on.
  unfoldable pub providers_from :
      ℕ
      → List (GeneralBlendConfig v)
      → List (ServiceNote v)
      → ℕ
      → Result (List (ProviderInfo v)) TopologyBuildError
  unfolding get_cloned
  providers_from i [] notes expected = ok []
  providers_from i (b ∷ rest) notes expected = do
    note ← get_cloned "blend_notes" notes i expected
    providers ← providers_from (suc i) rest notes expected
    ok (provider_of b note ∷ providers)

  unfoldable pub collect_provider_infos :
      GeneralConsensusConfig v l
      → List (GeneralBlendConfig v)
      → Result (List (ProviderInfo v)) TopologyBuildError
  unfolding providers_from
  collect_provider_infos first_consensus blend_configs =
      providers_from 0 blend_configs first_consensus.blend_notes (length blend_configs)

  unfoldable pub create_consensus_genesis_tx :
      GeneralConsensusConfig v l → List (ProviderInfo v) → Result l.GenesisTx TopologyBuildError
  unfolding create_genesis_tx_with_declarations
  create_consensus_genesis_tx first_consensus providers = map_err genesis (
      create_genesis_tx_with_declarations v l (l.mantle_tx first_consensus.genesis_tx).ledger_tx
        providers)

  unfoldable pub apply_consensus_genesis_tx :
      List (GeneralConsensusConfig v l) → l.GenesisTx → List (GeneralConsensusConfig v l)
  apply_consensus_genesis_tx configs genesis_tx =
      map (λ (c : GeneralConsensusConfig v l). record c { genesis_tx = genesis_tx }) configs

  -- The vectors that `build_node_descriptors` reads.
  pub record Vectors : Type 0 where
    pub ids : List NodeId
    pub blend_ports : List ℕ
    pub consensus_configs : List (GeneralConsensusConfig v l)
    pub bootstrap_configs : List GeneralBootstrapConfig
    pub network_configs : List (GeneralNetworkConfig v)
    pub blend_configs : List (GeneralBlendConfig v)
    pub api_configs : List GeneralApiConfig
    pub tracing_configs : List v.TracingSettings
    pub kms_configs : List (PreloadKmsBackendSettings v)

  -- The body of the loop of `build_node_descriptors`.
  unfoldable pub node_descriptor :
      ℕ → ℕ → Vectors → GeneralTimeConfig → Result (GeneratedNodeConfig v l) TopologyBuildError
  unfolding get_cloned
  node_descriptor i n vs time_config = do
    consensus_config ← get_cloned "consensus_configs" vs.consensus_configs i n
    bootstrapping_config ← get_cloned "bootstrap_configs" vs.bootstrap_configs i n
    network_config ← get_cloned "network_configs" vs.network_configs i n
    blend_config ← get_cloned "blend_configs" vs.blend_configs i n
    api_config ← get_cloned "api_configs" vs.api_configs i n
    tracing_config ← get_cloned "tracing_configs" vs.tracing_configs i n
    kms_config ← get_cloned "kms_configs" vs.kms_configs i n
    id ← get_cloned "ids" vs.ids i n
    blend_port ← get_cloned "blend_ports" vs.blend_ports i n
    ok (record {
      index = i;
      id = id;
      general = record {
        api_config = api_config;
        consensus_config = consensus_config;
        bootstrapping_config = bootstrapping_config;
        network_config = network_config;
        blend_config = blend_config;
        tracing_config = tracing_config;
        time_config = time_config;
        kms_config = kms_config;
      };
      blend_port = blend_port;
    })

  -- The loop of `build_node_descriptors`: `count` nodes are left, from index `i` on.
  unfoldable pub nodes_from :
      ℕ
      → ℕ
      → ℕ
      → Vectors
      → GeneralTimeConfig
      → Result (List (GeneratedNodeConfig v l)) TopologyBuildError
  unfolding node_descriptor
  nodes_from zero i n vs time_config = ok []
  nodes_from (suc count) i n vs time_config = do
    node ← node_descriptor i n vs time_config
    nodes ← nodes_from count (suc i) n vs time_config
    ok (node ∷ nodes)

  unfoldable pub build_node_descriptors :
      ℕ → Vectors → GeneralTimeConfig → Result (List (GeneratedNodeConfig v l)) TopologyBuildError
  unfolding nodes_from
  build_node_descriptors n vs time_config = nodes_from n 0 n vs time_config

  -- `consensus_configs.first().ok_or(..)`
  abbrev pub first_consensus :
      List (GeneralConsensusConfig v l) → Result (GeneralConsensusConfig v l) TopologyBuildError
  first_consensus [] = err missing_consensus_config
  first_consensus (c ∷ rest) = ok c

  -- `build` from the first consensus configuration on.
  unfoldable pub assemble :
      TopologyConfig v
      → List NodeId
      → List ℕ
      → BaseConfigs v l
      → List GeneralApiConfig
      → GeneralTimeConfig
      → Result (GeneratedTopology v l) TopologyBuildError
  unfolding collect_provider_infos create_consensus_genesis_tx apply_consensus_genesis_tx
      create_kms_configs build_node_descriptors create_tracing_configs
  assemble config ids blend_ports bs api_configs time_config = do
    first ← first_consensus bs.consensus_configs
    providers ← collect_provider_infos first bs.blend_configs
    genesis_tx ← create_consensus_genesis_tx first providers
    let vs : Vectors = record {
      ids = ids;
      blend_ports = blend_ports;
      consensus_configs = apply_consensus_genesis_tx bs.consensus_configs genesis_tx;
      bootstrap_configs = bs.bootstrap_configs;
      network_configs = bs.network_configs;
      blend_configs = bs.blend_configs;
      api_configs = api_configs;
      tracing_configs = create_tracing_configs v 0 ids;
      kms_configs = create_kms_configs v bs.blend_configs config.wallet_config.accounts;
    }
    nodes ← build_node_descriptors config.n_nodes vs time_config
    ok (record { config = config; nodes = nodes })
