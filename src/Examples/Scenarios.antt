-- ===== src/Examples/Scenarios.antt =====
-- The theorems on scenarios, on two nodes with three wallet users.
use logos_blockchain_testing.Prelude.{
  ◌*◌, ◌≤◌, ◌≡◌, refl, none, some, [], ◌∷◌, ok, length, String, All, arith,
}
use logos_blockchain_testing.Examples.Toy.{toy, toy_ledger, toy_os, from_ok}
use logos_blockchain_testing.Wallet.{allocate, deterministic}
use logos_blockchain_testing.Wallet.Funds.{total_value}
use logos_blockchain_testing.Config.Consensus.{create_utxos_for_leader_and_services, push_notes}
use logos_blockchain_testing.Config.Network.{default_params}
use logos_blockchain_testing.Config.Base.{from_secs}
use logos_blockchain_testing.Topology.{slot_duration}
use logos_blockchain_testing.Scenario.Definition.{Components, Builder, Scenario, build}
use logos_blockchain_testing.Scenario.Promise.{build_duration, build_wallets}

-- Workloads and expectations that are their names.
abbrev pub named : Components toy toy_ledger
named = record {
  DynError = String;
  Workload = String;
  Expectation = String;
  workload_name = λ w. w;
  expectation_name = λ e. e;
  expectations = λ w. w ∷ [];
  init_workload = λ w t m. ok w;
  init_expectation = λ e t m. ok e;
}

abbrev pub two_nodes : Builder named (Unit {0})
two_nodes = record {
  topology = record {
    config = record {
      n_nodes = 2;
      consensus_params = record { n_participants = 2; security_param = 10; active_slot_coeff = 1 };
      network_params = default_params;
      wallet_config = record { accounts = [] };
    };
    ids = none;
    blend_ports = none;
  };
  workloads = "chaos" ∷ [];
  expectations = "chaos" ∷ "liveness" ∷ [];
  duration = from_secs 3;
  wallet_users = some 3;
  capabilities = tt;
}

abbrev no_scenario : Scenario named (Unit {0})
no_scenario = record {
  topology = record { config = two_nodes.topology.config; nodes = [] };
  workloads = [];
  expectations = [];
  duration = 0;
  capabilities = tt;
}

abbrev pub scenario : Scenario named (Unit {0})
scenario = from_ok no_scenario (build named two_nodes toy_os).0

pub two_nodes-build : (build named two_nodes toy_os).0 ≡ ok scenario
unfolding build create_utxos_for_leader_and_services push_notes allocate deterministic
two_nodes-build = refl

scenario-slot_duration : slot_duration scenario.topology ≡ some (from_secs 2)
unfolding build create_utxos_for_leader_and_services push_notes allocate deterministic slot_duration
scenario-slot_duration = refl

build_duration_example : (from_secs 3 ≤ scenario.duration) × (2 * from_secs 2 ≤ scenario.duration)
build_duration_example =
    build_duration named two_nodes toy_os scenario (from_secs 2) two_nodes-build
      scenario-slot_duration

build_wallets_example :
    let accounts = scenario.topology.config.wallet_config.accounts in
    (length accounts ≡ 3) × (total_value accounts ≡ 100 * 3) × All (λ a. 100 ≤ a.value) accounts
build_wallets_example =
    build_wallets named two_nodes toy_os scenario 3 (omega arith) (omega arith) refl two_nodes-build
