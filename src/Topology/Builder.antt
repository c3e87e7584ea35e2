-- ===== src/Topology/Builder.antt =====
-- TopologyConfig and TopologyBuilder of testing-framework/core/src/topology/config.rs.
use logos_blockchain_testing.Prelude.{ℕ, Option, none, some, List, []}
use logos_blockchain_testing.Vendor.{Vendor}
use logos_blockchain_testing.Os.{NodeId, Io, ◌>>=◌, lift, convert}
use logos_blockchain_testing.Wallet.{WalletConfig}
use logos_blockchain_testing.Config.Ledger.{Ledger}
use logos_blockchain_testing.Config.Consensus.{ConsensusParams}
use logos_blockchain_testing.Config.Network.{Libp2pNetworkLayout, default_params}
use logos_blockchain_testing.Config.Base.{
  build_base_configs, create_api_configs, default_time_config,
}
use logos_blockchain_testing.Topology.{
  TopologyConfig, TopologyBuildError, base, api, GeneratedTopology, participant_count,
  resolve_and_validate_vectors, assemble,
}

pub record TopologyBuilder (v : Vendor) : Type 0 where
  pub config : TopologyConfig v
  pub ids : Option (List NodeId)
  pub blend_ports : Option (List ℕ)

module _ (v : Vendor) where
  -- `default_for_participants`. The coefficient is that of the environment, or 0.9.
  unfoldable pub default_for_participants : v.F64 → ℕ → ConsensusParams v
  default_for_participants active_slot_coeff n_participants = record {
    n_participants = n_participants;
    security_param = 10;
    active_slot_coeff = active_slot_coeff;
  }

  unfoldable pub with_node_numbers : v.F64 → ℕ → TopologyConfig v
  unfolding default_for_participants
  with_node_numbers active_slot_coeff nodes = record {
    n_nodes = nodes;
    consensus_params = default_for_participants active_slot_coeff nodes;
    network_params = default_params;
    wallet_config = record { accounts = [] };
  }

  unfoldable pub empty : v.F64 → TopologyConfig v
  unfolding default_for_participants
  empty active_slot_coeff = record {
    n_nodes = 0;
    consensus_params = default_for_participants active_slot_coeff 1;
    network_params = default_params;
    wallet_config = record { accounts = [] };
  }

  unfoldable pub new : TopologyConfig v → TopologyBuilder v
  new config = record { config = config; ids = none; blend_ports = none }

  unfoldable pub with_ids : TopologyBuilder v → List NodeId → TopologyBuilder v
  with_ids b ids = record b { ids = some ids }

  unfoldable pub with_blend_ports : TopologyBuilder v → List ℕ → TopologyBuilder v
  with_blend_ports b ports = record b { blend_ports = some ports }

  unfoldable pub with_node_count : TopologyBuilder v → ℕ → TopologyBuilder v
  with_node_count b nodes = record b { config = record (b.config) { n_nodes = nodes } }

  unfoldable pub with_network_layout : TopologyBuilder v → Libp2pNetworkLayout → TopologyBuilder v
  with_network_layout b layout = record b {
    config = record (b.config) { network_params = record { libp2p_network_layout = layout } };
  }

  unfoldable pub with_wallet_config : TopologyBuilder v → WalletConfig v → TopologyBuilder v
  with_wallet_config b wallet = record b { config = record (b.config) { wallet_config = wallet } }

  unfoldable pub build :
      (l : Ledger v) → TopologyBuilder v → Io (GeneratedTopology v l) TopologyBuildError
  unfolding participant_count resolve_and_validate_vectors build_base_configs create_api_configs
      default_time_config assemble
  build l b = lift (participant_count v l b.config) >>= λ n.
      resolve_and_validate_vectors b.ids b.blend_ports n >>= λ (ids, blend_ports).
      convert base (
        build_base_configs v l ids b.config.consensus_params b.config.network_params
          b.config.wallet_config blend_ports)
      >>= λ base_configs. convert api (create_api_configs ids) >>= λ api_configs os. (
        assemble v l b.config ids blend_ports base_configs api_configs (default_time_config os),
        os,
      )
