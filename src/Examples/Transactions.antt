-- ===== src/Examples/Transactions.antt =====
-- The theorems on the transaction workload and its expectation, on the scenario of two nodes and three
-- wallet users.
use native.Mathlib.Decide.{ℕ_discrete}
use logos_blockchain_testing.Prelude.{
  ℕ, ◌<◌, ◌≡◌, ◌≢◌, refl, min, some, [], ◌∷◌, List, Holds, String, arith,
}
use logos_blockchain_testing.Examples.Toy.{toy, toy_ledger, toy_os}
use logos_blockchain_testing.Examples.Scenarios.{named, two_nodes, two_nodes-build, scenario}
use logos_blockchain_testing.Examples.Restarts.{boxed}
use logos_blockchain_testing.Config.Base.{from_secs}
use logos_blockchain_testing.Scenario.Definition.{with_workload}
use logos_blockchain_testing.Scenario.Metrics.{RunMetrics}
use logos_blockchain_testing.Workflows.Transaction.{
  Workload, SubmissionPlan, submission_plan, target_transaction_count,
}
use logos_blockchain_testing.Workflows.Transaction.Plan.{IsPlanned, Refuses, submission_plan_bounds}
use logos_blockchain_testing.Workflows.Transaction.Funded.{Succeeds, build-init}
use logos_blockchain_testing.Workflows.Builder.{transactions_with}
use logos_blockchain_testing.Workflows.Builder.Flow.{
  call_all, flow_workload, with_rate, with_users, FlowCall, transactions_with-calls,
}

pub key_eq : Discrete (List ℕ)
key_eq = hlevel (ℕ_discrete)

abbrev pub one_minute : RunMetrics
one_minute = record {
  run_duration = from_secs 60;
  expected_blocks = 30;
  block_interval_hint = some (from_secs 2);
}

submission_plan_bounds_example :
    Holds
      (λ (p : SubmissionPlan).
        (0 < p.transaction_count)
        × IsPlanned toy one_minute (min (target_transaction_count toy 4 one_minute) 3) p)
      (Refuses toy one_minute 3 (target_transaction_count toy 4 one_minute))
      (submission_plan toy {Error = String} 4 one_minute 3)
submission_plan_bounds_example = submission_plan_bounds toy String 4 3 one_minute

abbrev flow : List FlowCall
flow = with_rate 0 ∷ with_rate 4 ∷ with_users 2 ∷ with_users 0 ∷ []

transactions_with-calls_example :
    (transactions_with named boxed two_nodes (call_all named flow)
      ≡ with_workload named two_nodes (boxed.transaction (flow_workload toy flow)))
    × (0 < (flow_workload toy flow).txs_per_block)
    × ((flow_workload toy flow).user_limit ≢ some 0)
transactions_with-calls_example = transactions_with-calls named boxed two_nodes flow

abbrev workload : Workload toy
workload = record { txs_per_block = 4; user_limit = some 2; accounts = [] }

build-init_example :
    Succeeds toy toy_ledger key_eq String workload scenario.topology
      scenario.topology.config.wallet_config.accounts 3
build-init_example =
    build-init toy toy_ledger key_eq named String two_nodes toy_os scenario 3 workload (omega arith)
      (omega arith) refl two_nodes-build (λ e. cc)
