-- ===== src/Examples/Topologies.antt =====
-- The theorems on wallets, addresses, the genesis and the topology, on two nodes.
use logos_blockchain_testing.Prelude.{
  ℕ, ◌≤◌, ◌<◌, ◌≡◌, ◌≢◌, refl, true, false, ◌||◌, none, some, List, [], ◌∷◌, map, ok, err, length,
  get_elem?, All, arith, contains, count_below,
}
use logos_blockchain_testing.Os.{NodeId}
use logos_blockchain_testing.Examples.Toy.{toy, toy_ledger, toy_os, id_of, from_ok}
use logos_blockchain_testing.Wallet.{WalletAccount, WalletConfig, uniform}
use logos_blockchain_testing.Wallet.Funds.{uniform_shares, total_value, IsOwn}
use logos_blockchain_testing.Peers.{find_expected_peer_counts}
use logos_blockchain_testing.Peers.Counts.{dials, find_expected_peer_counts_lem}
use logos_blockchain_testing.Peers.Layouts.{expected_peers_of_layout, layout_count}
use logos_blockchain_testing.Config.Network.Reach.{IsDistinct}
use logos_blockchain_testing.Config.Network.Layout.{ports, dials-initial_peers}
use logos_blockchain_testing.Config.Consensus.{
  ConsensusParams, GeneralConsensusConfig, ServiceNote, create_consensus_configs,
  create_utxos_for_leader_and_services, push_notes, index_panic,
}
use logos_blockchain_testing.Config.Consensus.Outputs.{
  blend_notes_in_genesis, create_consensus_configs_no_panic,
}
use logos_blockchain_testing.Config.Network.{
  SwarmConfig, default, unspecified, chain, default_params, peer_ports,
  initial_peers_by_network_layout,
}
use logos_blockchain_testing.Topology.{GeneratedTopology, empty_participants}
use logos_blockchain_testing.Topology.Builder.{TopologyBuilder, build}
use logos_blockchain_testing.Topology.Build.{is_internal}
use logos_blockchain_testing.Topology.Promise.{IsBuilt, build_topology, build_no_internal_error}

abbrev params : ConsensusParams toy
params = record { n_participants = 2; security_param = 10; active_slot_coeff = 1 }

abbrev no_wallet : WalletConfig toy
no_wallet = record { accounts = [] }

abbrev two_nodes : TopologyBuilder toy
two_nodes = record {
  config = record {
    n_nodes = 2;
    consensus_params = params;
    network_params = default_params;
    wallet_config = no_wallet;
  };
  ids = none;
  blend_ports = none;
}

abbrev generated : GeneratedTopology toy toy_ledger
generated =
    from_ok (record { config = two_nodes.config; nodes = [] })
      (build toy toy_ledger two_nodes toy_os).0

two_nodes-build : (build toy toy_ledger two_nodes toy_os).0 ≡ ok generated
unfolding build create_utxos_for_leader_and_services push_notes
two_nodes-build = refl

build_topology_example : IsBuilt toy toy_ledger two_nodes generated
build_topology_example = build_topology toy toy_ledger two_nodes toy_os generated two_nodes-build

abbrev no_nodes : TopologyBuilder toy
no_nodes = record two_nodes { config = record (two_nodes.config) { n_nodes = 0 } }

no_nodes-build : (build toy toy_ledger no_nodes toy_os).0 ≡ err empty_participants
unfolding build
no_nodes-build = refl

build_no_internal_error_example : is_internal empty_participants ≡ false
build_no_internal_error_example =
    build_no_internal_error toy toy_ledger no_nodes toy_os empty_participants no_nodes-build

abbrev two_ids : List NodeId
two_ids = id_of 1 ∷ id_of 2 ∷ []

abbrev two_accounts : WalletConfig toy
two_accounts = record {
  accounts =
      record { label = "a"; secret_key = id_of 7; value = 10 }
      ∷ record { label = "b"; secret_key = id_of 8; value = 20 }
      ∷ [];
}

abbrev configs : List (GeneralConsensusConfig toy toy_ledger)
configs = from_ok [] (create_consensus_configs toy toy_ledger two_ids params two_accounts)

configs-made : create_consensus_configs toy toy_ledger two_ids params two_accounts ≡ ok configs
unfolding create_consensus_configs create_utxos_for_leader_and_services push_notes
configs-made = refl

blend_notes_in_genesis_example :
    (length configs ≡ 2)
    × All
        (λ c.
          (length c.blend_notes ≡ 2)
          × All
              (λ (n : ServiceNote toy).
                get_elem? c.genesis_tx.ledger_tx.outputs n.output_index ≡ some n.note)
              c.blend_notes)
        configs
blend_notes_in_genesis_example =
    blend_notes_in_genesis toy toy_ledger two_ids params two_accounts configs configs-made

create_consensus_configs_no_panic_example :
    create_consensus_configs toy toy_ledger two_ids params two_accounts ≢ err index_panic
create_consensus_configs_no_panic_example =
    create_consensus_configs_no_panic toy toy_ledger two_ids params two_accounts

abbrev swarm : ℕ → SwarmConfig toy
swarm port = record {
  host = unspecified;
  port = port;
  node_key = id_of port;
  peer_response_timeout = 60;
  nat_config = default;
}

abbrev pub three_swarms : List (SwarmConfig toy)
three_swarms = swarm 3000 ∷ swarm 3001 ∷ swarm 3002 ∷ []

abbrev three_peers : List (List ℕ)
three_peers =
    map (peer_ports toy)
      (initial_peers_by_network_layout toy three_swarms (record { libp2p_network_layout = chain }))

pub three_swarms-IsDistinct : IsDistinct (ports toy three_swarms)
unfolding contains
three_swarms-IsDistinct = (refl, (refl, (refl, tt)))

dials-initial_peers_example : dials (ports toy three_swarms) three_peers 1 0 ≡ true
dials-initial_peers_example =
    dials-initial_peers toy three_swarms chain 1 0 three_swarms-IsDistinct (omega arith)

expected_peers_of_layout_example :
    (counts : List ℕ) × (find_expected_peer_counts (ports toy three_swarms) three_peers
      ≡ some counts)
    × (length counts ≡ 3)
    × ((i : ℕ) → i < 3 → get_elem? counts i ≡ some (layout_count chain 3 i))
expected_peers_of_layout_example =
    expected_peers_of_layout toy three_swarms chain three_swarms-IsDistinct

abbrev peer_sets : List (List ℕ)
peer_sets = [] ∷ (3000 ∷ 9999 ∷ []) ∷ (3001 ∷ 3002 ∷ []) ∷ []

abbrev listen : List ℕ
listen = 3000 ∷ 3001 ∷ 3002 ∷ []

find_expected_peer_counts_lem_example :
    (counts : List ℕ) × (find_expected_peer_counts listen peer_sets ≡ some counts)
    × (length counts ≡ 3)
    × ((i : ℕ)
        → i < 3
        → get_elem? counts i
          ≡ some (count_below 3 (λ j. dials listen peer_sets i j || dials listen peer_sets j i)))
find_expected_peer_counts_lem_example = find_expected_peer_counts_lem listen peer_sets (omega arith)

uniform_shares_example :
    (c : WalletConfig toy) × (uniform toy 10 3 ≡ some c)
    × (length c.accounts ≡ 3)
    × (total_value c.accounts ≡ 10)
    × All (λ a. (3 ≤ a.value) × (a.value ≤ 4)) c.accounts
    × ((i : ℕ) (a : WalletAccount toy) → get_elem? c.accounts i ≡ some a → IsOwn toy i a)
uniform_shares_example = uniform_shares toy 10 3 (omega arith) (omega arith)
