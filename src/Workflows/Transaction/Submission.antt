-- ===== src/Workflows/Transaction/Submission.antt =====
-- `Submission` of testing-framework/workflows/src/workloads/transaction/workload.rs: a transaction for
-- each planned account, in turn. The sleeps between them are left out.
pub mod Order
use logos_blockchain_testing.Prelude.{
  ℕ, suc, ◌≡◌, List, [], ◌∷◌, length, take, String, Result, ok, err, map_err, ◌>>=◌,
}
use logos_blockchain_testing.Vendor.{Vendor}
use logos_blockchain_testing.Wallet.{WalletAccount, public_key}
use logos_blockchain_testing.Config.Ledger.{Ledger, Note, Utxo, MantleTx}
use logos_blockchain_testing.Config.Base.{Duration}
use logos_blockchain_testing.Scenario.Metrics.{RunMetrics}
use logos_blockchain_testing.Workflows.Cluster.{
  Cluster, ClusterError, submit_transaction_via_cluster,
}
use logos_blockchain_testing.Workflows.Transaction.{
  SubmissionPlan, WalletInput, Workload, TransactionError, no_available_accounts, signing_failed,
  invalid_transaction, submission_failed, submission_plan,
}

-- The signed transactions of nomos-core, and its builder of a transaction with one input and one output.
pub record Transfers (v : Vendor) : Type 1 where
  pub Tx : Type 0
  pub mantle_tx : Tx → MantleTx v
  pub transfer : Utxo v → Note v → MantleTx v
  -- `SignedMantleTx::new` without proofs of operations, an error with its message
  pub sign : MantleTx v → v.ZkSignature → Result Tx String
  pub transfer-outputs : (u : Utxo v) (n : Note v) → (transfer u n).ledger_tx.outputs ≡ n ∷ []
  pub sign-ok : (m : MantleTx v) (s : v.ZkSignature) (tx : Tx) → sign m s ≡ ok tx → mantle_tx tx ≡ m

pub record Submission (v : Vendor) : Type 0 where
  pub plan : List (WalletInput v)
  pub interval : Duration

module _ (v : Vendor) where
  abbrev plan_submission :
      {Error : Type 0}
      → List (WalletInput v)
      → Result SubmissionPlan (TransactionError Error)
      → Result (Submission v) (TransactionError Error)
  plan_submission accounts (err e) = err e
  plan_submission accounts (ok plan) =
      ok (record {
        plan = take plan.transaction_count accounts;
        interval = plan.submission_interval;
      })

  unfoldable pub new_with :
      {Error : Type 0}
      → ℕ
      → RunMetrics
      → List (WalletInput v)
      → Result (Submission v) (TransactionError Error)
  unfolding submission_plan
  new_with rate metrics [] = err no_available_accounts
  new_with rate metrics (a ∷ rest) =
      plan_submission (a ∷ rest) (submission_plan v rate metrics (length (a ∷ rest)))

  unfoldable pub new :
      {Error : Type 0} → Workload v → RunMetrics → Result (Submission v) (TransactionError Error)
  unfolding new_with
  new w metrics = new_with w.txs_per_block metrics w.accounts

module _ (v : Vendor) (l : Ledger v) (t : Transfers v) where
  -- The note goes back to the account, with its whole value.
  unfoldable pub build_wallet_transaction :
      {Error : Type 0} → WalletInput v → Result t.Tx (TransactionError Error)
  unfolding public_key
  build_wallet_transaction input = do
    let mantle_tx =
        t.transfer input.utxo
          (record { value = input.utxo.note.value; pk = public_key v input.account })
    signature ←
        map_err signing_failed
          (v.multi_sign (input.account.secret_key ∷ []) (l.hash_mantle_tx mantle_tx))
    map_err invalid_transaction (t.sign mantle_tx signature)

  module _ {Client Error : Type 0} (cluster : Cluster Client t.Tx Error)
      (clients : List Client) where
    abbrev submit_built :
        Result t.Tx (TransactionError (ClusterError Error))
        → ℕ
        → Result t.Tx (TransactionError (ClusterError Error)) × ℕ
    unfolding submit_transaction_via_cluster
    submit_built (err e) calls = (err e, calls)
    submit_built (ok tx) calls =
        let (result, after) = submit_transaction_via_cluster cluster clients tx calls in
        (map_err submission_failed (result >>= λ done. ok tx), after)

    -- The transaction that was accepted, and the number of the calls made so far.
    unfoldable pub submit_wallet_transaction :
        WalletInput v → ℕ → Result t.Tx (TransactionError (ClusterError Error)) × ℕ
    unfolding build_wallet_transaction submit_transaction_via_cluster
    submit_wallet_transaction input calls = submit_built (build_wallet_transaction input) calls

    abbrev pub push_accepted :
        t.Tx
        → List t.Tx × Result (Unit {0}) (TransactionError (ClusterError Error))
        → List t.Tx × Result (Unit {0}) (TransactionError (ClusterError Error))
    push_accepted tx (accepted, result) = (tx ∷ accepted, result)

    -- The loop of `execute`: the accepted transactions, and the result.
    unfoldable pub execute_from :
        List (WalletInput v)
        → ℕ
        → List t.Tx × Result (Unit {0}) (TransactionError (ClusterError Error))
    unfolding submit_wallet_transaction
    execute_from [] calls = ([], ok tt)
    execute_from (input ∷ plan) calls =
        let (submitted, after) = submit_wallet_transaction input calls in
        elim submitted [ err e ↦ ([], err e) | ok tx ↦ push_accepted tx (execute_from plan after) ]

    unfoldable pub execute :
        Submission v → List t.Tx × Result (Unit {0}) (TransactionError (ClusterError Error))
    unfolding execute_from
    execute s = execute_from s.plan 0
