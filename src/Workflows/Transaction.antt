-- ===== src/Workflows/Transaction.antt =====
-- testing-framework/workflows/src/workloads/transaction/workload.rs: the workload that spends the
-- notes of the wallets. Types that exclude zero are numbers here, and a theorem that needs it says
-- that they are positive. `panic` stands for a duration that cannot be made of a number.
pub mod Plan
pub mod Accounts
pub mod Init
pub mod Funded
pub mod Submission
use logos_blockchain_testing.Prelude.{
  ℕ, zero, suc, ◌+◌, ◌==◌, ltb, min, Option, none, some, List, [], ◌∷◌, String, length, take,
  if◌then◌else◌, Result, ok, err, map_err, ◌>>=◌,
}
use mathlib.Core.Logic.{ite}
use logos_blockchain_testing.Vendor.{Vendor}
use logos_blockchain_testing.Wallet.{WalletAccount, public_key}
use logos_blockchain_testing.Config.Ledger.{Ledger, Note, Utxo, LedgerTx, MantleTx}
use logos_blockchain_testing.Config.Base.{Duration, from_secs}
use logos_blockchain_testing.Scenario.Metrics.{RunMetrics}
use logos_blockchain_testing.Topology.{GeneratedTopology, GeneratedNodeConfig}

pub record SubmissionPlan : Type 0 where
  pub transaction_count : ℕ
  pub submission_interval : Duration

pub record WalletInput (v : Vendor) : Type 0 where
  pub account : WalletAccount v
  pub utxo : Utxo v

pub record Workload (v : Vendor) : Type 0 where
  pub txs_per_block : ℕ
  pub user_limit : Option ℕ
  pub accounts : List (WalletInput v)

pub data TransactionError (Error : Type 0) : Type 0 where
  no_seeded_accounts : TransactionError Error
  no_nodes : TransactionError Error
  no_matching_utxos : TransactionError Error
  no_available_accounts : TransactionError Error
  no_accounts_to_schedule : TransactionError Error
  zero_transactions : TransactionError Error
  signing_failed : String → TransactionError Error
  invalid_transaction : String → TransactionError Error
  submission_failed : Error → TransactionError Error
  panic : TransactionError Error

abbrev pub max_submission_interval : Duration
max_submission_interval = from_secs 1

module _ {ℓ} {A : Type ℓ} where
  unfoldable pub apply_user_limit : List A → Option ℕ → List A
  apply_user_limit items none = items
  apply_user_limit items (some limit) = take (min limit (length items)) items

unfoldable pub limited_user_count : Option ℕ → ℕ → ℕ
limited_user_count none available = available
limited_user_count (some limit) available = min limit available

abbrev pub or_run_duration : Option Duration → Duration → Duration
or_run_duration none run = run
or_run_duration (some interval) run = interval

module _ (v : Vendor) where
  unfoldable pub new : ℕ → Workload v
  new txs_per_block = record { txs_per_block = txs_per_block; user_limit = none; accounts = [] }

  unfoldable pub with_rate : ℕ → Option (Workload v)
  unfolding new
  with_rate txs_per_block = if txs_per_block == 0 then none else some (new txs_per_block)

  unfoldable pub with_user_limit : Workload v → Option ℕ → Workload v
  with_user_limit w user_limit = record w { user_limit = user_limit }

  -- The transactions of the whole run at the rate, before the accounts limit them.
  unfoldable pub target_transaction_count : ℕ → RunMetrics → ℕ
  target_transaction_count txs_per_block m =
      let run_secs = v.as_secs_f64 m.run_duration in
      let block_secs = v.as_secs_f64 (or_run_duration m.block_interval_hint m.run_duration) in
      v.as_u64 (
        v.clamp (v.floor (v.mul_f64 (v.div_f64 run_secs block_secs) (v.as_f64 txs_per_block)))
          v.zero_f64 v.max_u64_f64)

  abbrev plan_with :
      {Error : Type 0} → ℕ → Option Duration → Result SubmissionPlan (TransactionError Error)
  plan_with count none = err panic
  plan_with count (some interval) = ok (record {
    transaction_count = count;
    submission_interval =
        if ltb max_submission_interval interval then max_submission_interval else interval;
  })

  unfoldable pub submission_plan :
      {Error : Type 0} → ℕ → RunMetrics → ℕ → Result SubmissionPlan (TransactionError Error)
  unfolding target_transaction_count
  submission_plan txs_per_block m available_accounts =
      if available_accounts == 0
      then err no_accounts_to_schedule
      else (let count = min (target_transaction_count txs_per_block m) available_accounts in
          if count == 0
          then err zero_transactions
          else plan_with count
              (v.from_secs_f64 (v.div_f64 (v.as_secs_f64 m.run_duration) (v.as_f64 count))))

module _ (v : Vendor) (l : Ledger v) (key_eq : Discrete v.ZkPublicKey) where
  -- A `HashMap<ZkPublicKey, Utxo>` as the list of what was inserted, the last first.
  abbrev pub UtxoMap : Type 0
  UtxoMap = List (v.ZkPublicKey × Utxo v)

  unfoldable pub get_utxo : UtxoMap → v.ZkPublicKey → Option (Utxo v)
  get_utxo [] key = none
  get_utxo ((k, u) ∷ rest) key = ite (key_eq k key) (some u) (get_utxo rest key)

  -- The loop that collects the map, over the outputs from number `idx` on.
  unfoldable pub collect_utxos : v.Hash → ℕ → List (Note v) → UtxoMap → UtxoMap
  collect_utxos tx_hash idx [] map = map
  collect_utxos tx_hash idx (note ∷ rest) map =
      collect_utxos tx_hash (suc idx) rest
        ((note.pk, record { note = note; tx_hash = tx_hash; output_index = idx }) ∷ map)

  abbrev pub genesis_ledger_tx : GeneratedNodeConfig v l → LedgerTx v
  genesis_ledger_tx node = (l.mantle_tx node.general.consensus_config.genesis_tx).ledger_tx

  unfoldable pub wallet_utxo_map : GeneratedNodeConfig v l → UtxoMap
  unfolding collect_utxos
  wallet_utxo_map node =
      let ledger_tx = genesis_ledger_tx node in
      collect_utxos (l.hash_ledger_tx ledger_tx) 0 ledger_tx.outputs []

  abbrev push_input :
      WalletAccount v → Option (Utxo v) → List (WalletInput v) → List (WalletInput v)
  push_input account none rest = rest
  push_input account (some utxo) rest = record { account = account; utxo = utxo } ∷ rest

  -- `filter_map` with `match_account_to_utxo`
  unfoldable pub match_accounts : UtxoMap → List (WalletAccount v) → List (WalletInput v)
  unfolding get_utxo public_key
  match_accounts map [] = []
  match_accounts map (a ∷ rest) =
      push_input a (get_utxo map (public_key v a)) (match_accounts map rest)

  abbrev pub with_accounts :
      {Error : Type 0}
      → Workload v
      → List (WalletInput v)
      → Result (Workload v) (TransactionError Error)
  with_accounts w [] = err no_matching_utxos
  with_accounts w (a ∷ rest) = ok (record w { accounts = a ∷ rest })

  unfoldable pub init_with :
      {Error : Type 0}
      → Workload v
      → List (WalletAccount v)
      → List (GeneratedNodeConfig v l)
      → Result (Workload v) (TransactionError Error)
  unfolding wallet_utxo_map match_accounts apply_user_limit
  init_with w [] nodes = err no_seeded_accounts
  init_with w (a ∷ rest) [] = err no_nodes
  init_with w (a ∷ rest) (node ∷ nodes) =
      with_accounts w
        (apply_user_limit (match_accounts (wallet_utxo_map node) (a ∷ rest)) w.user_limit)

  unfoldable pub init :
      {Error : Type 0}
      → Workload v
      → GeneratedTopology v l
      → Result (Workload v) (TransactionError Error)
  unfolding init_with
  init w descriptors = init_with w descriptors.config.wallet_config.accounts descriptors.nodes
