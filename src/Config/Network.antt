-- ===== src/Config/Network.antt =====
-- testing-framework/configs/src/topology/configs/network.rs: the libp2p configuration of each node,
-- and who dials whom. The gossip, discovery and identify settings are constants of other crates and
-- are left out of `SwarmConfig`.
pub mod Reach
pub mod Layout
use logos_blockchain_testing.Prelude.{
  ℕ, zero, suc, ◌+◌, ◌-◌, ◌≡◌, Bool, Option, none, some, List, [], ◌∷◌, map, take, replicate,
  length, String, concat, decimal, if◌then◌else◌, insert, Result, ok, err, map_err,
}
use logos_blockchain_testing.Vendor.{Vendor}
use logos_blockchain_testing.Os.{
  NodeId, Os, Io, ◌>>=◌, pure, lift, convert, traverse, get_available_udp_port,
}

pub data Libp2pNetworkLayout : Type 0 where
  star chain full : Libp2pNetworkLayout

pub record NetworkParams : Type 0 where
  pub libp2p_network_layout : Libp2pNetworkLayout

-- `NetworkParams::default()`
abbrev pub default_params : NetworkParams
default_params = record { libp2p_network_layout = star }

pub data NetworkConfigError : Type 0 where
  port_allocation_failed : NetworkConfigError
  node_key_from_bytes : String → NetworkConfigError
  loopback_multiaddr : String → NetworkConfigError

pub data NatSettings (v : Vendor) : Type 0 where
  default : NatSettings v
  static : v.Multiaddr → NatSettings v

pub record SwarmConfig (v : Vendor) : Type 0 where
  pub host : List ℕ
  pub port : ℕ
  pub node_key : v.SecretKey
  -- in seconds
  pub peer_response_timeout : ℕ
  pub nat_config : NatSettings v

-- `Config` with its `BackendSettings`
pub record GeneralNetworkConfig (v : Vendor) : Type 0 where
  pub initial_peers : List v.Multiaddr
  pub swarm : SwarmConfig v

abbrev pub localhost : List ℕ
localhost = 127 ∷ 0 ∷ 0 ∷ 1 ∷ []

abbrev pub unspecified : List ℕ
unspecified = 0 ∷ 0 ∷ 0 ∷ 0 ∷ []

abbrev peer_response_timeout_secs : ℕ
peer_response_timeout_secs = 60

module _ (v : Vendor) where
  unfoldable pub node_address_from_port : ℕ → v.Multiaddr
  node_address_from_port port = v.multiaddr localhost port

  unfoldable pub node_address_with_peer : SwarmConfig v → v.Multiaddr
  unfolding node_address_from_port
  node_address_with_peer swarm_config =
      v.push (node_address_from_port swarm_config.port) (v.p2p (v.peer_id swarm_config.node_key))

  abbrev static_nat : Result v.Multiaddr String → Result (NatSettings v) NetworkConfigError
  static_nat (ok addr) = ok (static addr)
  static_nat (err message) = err (loopback_multiaddr message)

  unfoldable pub nat_settings : ℕ → Io (NatSettings v) NetworkConfigError
  unfolding decimal
  nat_settings port os = (
    (if os.use_autonat
        then ok default
        else static_nat
            (v.parse_multiaddr (concat "/ip4/127.0.0.1/udp/" (concat (decimal port) "/quic-v1")))),
    os,
  )

  abbrev pub node_key_of : NodeId → Result v.SecretKey NetworkConfigError
  node_key_of id = map_err node_key_from_bytes (v.secret_key id)

  abbrev swarm_config_with : v.SecretKey → ℕ → NatSettings v → SwarmConfig v
  swarm_config_with node_key port nat = record {
    host = unspecified;
    port = port;
    node_key = node_key;
    peer_response_timeout = peer_response_timeout_secs;
    nat_config = nat;
  }

  -- The closure of `create_network_configs`.
  unfoldable pub create_swarm_config : NodeId → Io (SwarmConfig v) NetworkConfigError
  unfolding nat_settings get_available_udp_port
  create_swarm_config id = do
    node_key ← lift (node_key_of id)
    port ← get_available_udp_port port_allocation_failed
    nat ← nat_settings port
    pure (swarm_config_with node_key port nat)

  -- Each later node dials the one before it.
  unfoldable pub chain_peers : SwarmConfig v → List (SwarmConfig v) → List (List v.Multiaddr)
  unfolding node_address_with_peer
  chain_peers previous [] = []
  chain_peers previous (swarm ∷ rest) =
      (node_address_with_peer previous ∷ []) ∷ chain_peers swarm rest

  -- Node number `i` dials the first `i` nodes; `count` nodes are left.
  unfoldable pub full_peers : ℕ → ℕ → List (SwarmConfig v) → List (List v.Multiaddr)
  unfolding node_address_with_peer
  full_peers zero i all = []
  full_peers (suc count) i all =
      map node_address_with_peer (take i all) ∷ full_peers count (suc i) all

  unfoldable pub initial_peers_by_network_layout :
      List (SwarmConfig v) → NetworkParams → List (List v.Multiaddr)
  unfolding chain_peers full_peers
  initial_peers_by_network_layout [] params = []
  initial_peers_by_network_layout (first ∷ rest) params = elim params.libp2p_network_layout [
    | star ↦ [] ∷ replicate (length rest) (node_address_with_peer first ∷ [])
    | chain ↦ [] ∷ chain_peers first rest
    | full ↦ full_peers (length (first ∷ rest)) 0 (first ∷ rest)
  ]

  -- `swarm_configs.iter().zip(all_initial_peers)`
  unfoldable pub with_initial_peers :
      List (SwarmConfig v) → List (List v.Multiaddr) → List (GeneralNetworkConfig v)
  with_initial_peers (swarm ∷ swarms) (peers ∷ rest) =
      record { initial_peers = peers; swarm = swarm } ∷ with_initial_peers swarms rest
  with_initial_peers _ _ = []

  unfoldable pub create_network_configs :
      List NodeId → NetworkParams → Io (List (GeneralNetworkConfig v)) NetworkConfigError
  unfolding create_swarm_config initial_peers_by_network_layout with_initial_peers traverse
  create_network_configs ids params = do
    swarm_configs ← traverse create_swarm_config ids
    pure (with_initial_peers swarm_configs (initial_peers_by_network_layout swarm_configs params))

  unfoldable pub build_network_config_for_node :
      NodeId → ℕ → List v.Multiaddr → Io (GeneralNetworkConfig v) NetworkConfigError
  unfolding nat_settings
  build_network_config_for_node id port initial_peers = do
    node_key ← lift (node_key_of id)
    nat ← nat_settings port
    pure (record { initial_peers = initial_peers; swarm = swarm_config_with node_key port nat })

  -- `build_initial_peers` of runtime.rs, for a node that joins later
  abbrev first_port_address : List ℕ → List v.Multiaddr
  first_port_address [] = []
  first_port_address (port ∷ rest) = v.multiaddr localhost port ∷ []

  abbrev last_port_address : List ℕ → List v.Multiaddr
  last_port_address [] = []
  last_port_address (port ∷ []) = v.multiaddr localhost port ∷ []
  last_port_address (port ∷ next ∷ rest) = last_port_address (next ∷ rest)

  unfoldable pub build_initial_peers : NetworkParams → List ℕ → List v.Multiaddr
  unfolding node_address_from_port
  build_initial_peers params peer_ports = elim params.libp2p_network_layout [
    | star ↦ first_port_address peer_ports
    | chain ↦ last_port_address peer_ports
    | full ↦ map node_address_from_port peer_ports
  ]

  -- `multiaddr_port` of core/src/topology/utils.rs: the first UDP or TCP port
  unfoldable pub first_port : List v.Protocol → Option ℕ
  first_port [] = none
  first_port (p ∷ rest) = elim (v.udp_port p) [
    | some port ↦ some port
    | none ↦ elim (v.tcp_port p) [ some port ↦ some port | none ↦ first_port rest ]
  ]

  unfoldable pub multiaddr_port : v.Multiaddr → Option ℕ
  unfolding first_port
  multiaddr_port addr = first_port (v.iter addr)

  -- The `filter_map(multiaddr_port).collect::<HashSet<u16>>()` of generation.rs, for one node.
  unfoldable pub peer_ports : List v.Multiaddr → List ℕ
  unfolding multiaddr_port
  peer_ports [] = []
  peer_ports (addr ∷ rest) =
      let ports = peer_ports rest in
      elim (multiaddr_port addr) [ none ↦ ports | some port ↦ insert ports port ]
