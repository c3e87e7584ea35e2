-- ===== src/Workflows/Builder.antt =====
-- testing-framework/workflows/src/builder/mod.rs: the methods that attach the workloads of this crate to
-- a scenario. The warnings are left out.
pub mod Flow
pub mod Restarts
pub mod Normal
pub mod Observability
use logos_blockchain_testing.Prelude.{
  ℕ, ◌==◌, Option, none, some, List, [], ◌∷◌, String, if◌then◌else◌, Result, ok, err,
}
use logos_blockchain_testing.Vendor.{Vendor}
use logos_blockchain_testing.Wallet.{uniform}
use logos_blockchain_testing.Config.Ledger.{Ledger}
use logos_blockchain_testing.Scenario.Definition as Definitions
use logos_blockchain_testing.Scenario.Definition.{Components, Builder}
use logos_blockchain_testing.Workflows.Liveness.{lag_allowance_default}
use logos_blockchain_testing.Workflows.Chaos.{RandomRestartWorkload}
use logos_blockchain_testing.Workflows.Transaction as Transactions
use logos_blockchain_testing.Workflows.Transaction.{Workload}

pub data BuilderInputError : Type 0 where
  zero_value : String → BuilderInputError
  invalid_url : String → String → String → BuilderInputError

-- `ConsensusLiveness`, with its lag allowance
pub record ConsensusLiveness : Type 0 where
  pub lag_allowance : ℕ

-- The workloads and expectations of this crate as trait objects.
pub record Boxed {v : Vendor} {l : Ledger v} (c : Components v l) : Type 0 where
  pub transaction : Workload v → c.Workload
  pub random_restart : RandomRestartWorkload → c.Workload
  pub consensus_liveness : ConsensusLiveness → c.Expectation

module _ {v : Vendor} {l : Ledger v} (c : Components v l) where
  pub record TransactionFlowBuilder (Caps : Type 0) : Type 0 where
    pub builder : Builder c Caps
    pub rate : ℕ
    pub users : Option ℕ

module _ {v : Vendor} {l : Ledger v} (c : Components v l) {Caps : Type 0} where
  -- `TransactionFlowBuilder::new`
  unfoldable pub transactions : Builder c Caps → TransactionFlowBuilder c Caps
  transactions b = record { builder = b; rate = 1; users = none }

  unfoldable pub rate_per_block : TransactionFlowBuilder c Caps → ℕ → TransactionFlowBuilder c Caps
  rate_per_block f rate = record f { rate = rate }

  unfoldable pub rate : TransactionFlowBuilder c Caps → ℕ → TransactionFlowBuilder c Caps
  rate f value = if value == 0 then f else record f { rate = value }

  unfoldable pub try_rate :
      TransactionFlowBuilder c Caps → ℕ → Result (TransactionFlowBuilder c Caps) BuilderInputError
  unfolding rate_per_block
  try_rate f rate =
      if rate == 0 then err (zero_value "transaction_rate") else ok (rate_per_block f rate)

  unfoldable pub users : TransactionFlowBuilder c Caps → ℕ → TransactionFlowBuilder c Caps
  users f value = if value == 0 then f else record f { users = some value }

  unfoldable pub try_users :
      TransactionFlowBuilder c Caps → ℕ → Result (TransactionFlowBuilder c Caps) BuilderInputError
  try_users f users =
      if users == 0
      then err (zero_value "transaction_users")
      else ok (record f { users = some users })

  unfoldable pub apply : Boxed c → TransactionFlowBuilder c Caps → Builder c Caps
  unfolding Transactions.new Transactions.with_user_limit Definitions.with_workload
  apply boxed f =
      Definitions.with_workload c f.builder
        (boxed.transaction (Transactions.with_user_limit v (Transactions.new v f.rate) f.users))

  unfoldable pub transactions_with :
      Boxed c
      → Builder c Caps
      → (TransactionFlowBuilder c Caps → TransactionFlowBuilder c Caps)
      → Builder c Caps
  unfolding transactions apply
  transactions_with boxed b f = apply boxed (f (transactions b))

  unfoldable pub expect_consensus_liveness : Boxed c → Builder c Caps → Builder c Caps
  unfolding Definitions.with_expectation
  expect_consensus_liveness boxed b =
      Definitions.with_expectation c b
        (boxed.consensus_liveness (record { lag_allowance = lag_allowance_default }))

  -- none: an assertion of `uniform` fails.
  unfoldable pub initialize_wallet : Builder c Caps → ℕ → ℕ → Option (Builder c Caps)
  unfolding uniform Definitions.with_wallet_config
  initialize_wallet b total_funds users =
      if users == 0 then some b else elim (uniform v total_funds users) [
        | none ↦ none
        | some wallet ↦ some (Definitions.with_wallet_config c b wallet)
      ]
