-- ===== src/Workflows/Transaction/Submission/Order.antt =====
-- What a submission sends, and in which order.
use mathlib.Core.Path.{subst}
use logos_blockchain_testing.Prelude.{
  ℕ, ◌<◌, ◌≡◌, refl, ap, ◌∙◌, Holds, List, [], ◌∷◌, length, Result, ok, err, arith, inl, inr,
  Result-cases, ok-injective, map_err-eq-ok,
}
use logos_blockchain_testing.Vendor.{Vendor}
use logos_blockchain_testing.Wallet.{public_key}
use logos_blockchain_testing.Config.Ledger.{Ledger, Note, MantleTx}
use logos_blockchain_testing.Workflows.Cluster.{
  Cluster, ClusterError, submit_transaction_via_cluster,
}
use logos_blockchain_testing.Workflows.Transaction.{
  WalletInput, TransactionError, invalid_transaction,
}
use logos_blockchain_testing.Workflows.Transaction.Submission.{
  Transfers, Submission, build_wallet_transaction, submit_wallet_transaction, execute_from, execute,
  push_accepted,
}

module _ (v : Vendor) (l : Ledger v) (t : Transfers v) where
  -- The transaction has one output, which pays the input's note to its account.
  abbrev pub PaysBack : WalletInput v → t.Tx → Type 0
  PaysBack input tx =
      (t.mantle_tx tx).ledger_tx.outputs
      ≡ record { value = input.utxo.note.value; pk = public_key v input.account } ∷ []

  build-PaysBack :
      {Error : Type 0} (input : WalletInput v) (tx : t.Tx)
      → build_wallet_transaction v l t {Error = Error} input ≡ ok tx
      → PaysBack input tx
  unfolding build_wallet_transaction
  build-PaysBack input tx e =
      let note : Note v = record {
        value = input.utxo.note.value;
        pk = public_key v input.account;
      } in
      let m = t.transfer input.utxo note in
      elim (Result-cases (v.multi_sign (input.account.secret_key ∷ []) (l.hash_mantle_tx m))) [
        | inr (x, failed) ↦ cc (rw failed at e)
        | inl (signature, signed) ↦
            ap (λ (made : MantleTx v). made.ledger_tx.outputs)
              (t.sign-ok m signature tx
                (map_err-eq-ok invalid_transaction (t.sign m signature) (rw signed at e)))
            ∙ t.transfer-outputs input.utxo note
      ]

  -- The transactions pay back to the first of the inputs, one to each, in their order.
  abbrev pub Pays : List (WalletInput v) → List t.Tx → Type 0
  Pays inputs [] = Unit
  Pays [] (tx ∷ txs) = ⊥
  Pays (input ∷ inputs) (tx ∷ txs) = PaysBack input tx × Pays inputs txs

  module _ {Client Error : Type 0} (cluster : Cluster Client t.Tx Error)
      (clients : List Client) where
    submit-PaysBack :
        (input : WalletInput v) (calls : ℕ) (tx : t.Tx)
        → (submit_wallet_transaction v l t cluster clients input calls).0 ≡ ok tx
        → PaysBack input tx
    unfolding submit_wallet_transaction
    submit-PaysBack input calls tx e =
        elim (Result-cases (build_wallet_transaction v l t {Error = ClusterError Error} input)) [
          | inr (x, failed) ↦ cc (rw failed at e)
          | inl (built, made) ↦
              (elim (Result-cases (submit_transaction_via_cluster cluster clients built calls).0) [
                | inr (x, failed) ↦ cc (rw (made, failed) at e)
                | inl (done, sent) ↦
                    subst (PaysBack input) (ok-injective built tx (rw (made, sent) at e))
                      (build-PaysBack input built made)
              ])
        ]

    -- The whole plan is paid, or an error leaves a part of it.
    abbrev pub Sends :
        List (WalletInput v)
        → List t.Tx × Result (Unit {0}) (TransactionError (ClusterError Error))
        → Type 0
    Sends plan (accepted, result) =
        Pays plan accepted
        × Holds (λ (done : Unit {0}). length accepted ≡ length plan)
            (λ e. length accepted < length plan) result

    Sends-cons :
        (input : WalletInput v) (plan : List (WalletInput v)) (tx : t.Tx)
        (r : List t.Tx × Result (Unit {0}) (TransactionError (ClusterError Error)))
        → PaysBack input tx
        → Sends plan r
        → Sends (input ∷ plan) (push_accepted v l t cluster clients tx r)
    Sends-cons input plan tx (accepted, ok done) h (pays, n) = ((h, pays), omega arith)
    Sends-cons input plan tx (accepted, err e) h (pays, n) = ((h, pays), omega arith)

    execute_from-Sends :
        (plan : List (WalletInput v)) (calls : ℕ)
        → Sends plan (execute_from v l t cluster clients plan calls)
    unfolding execute_from
    execute_from-Sends [] calls = (tt, refl)
    execute_from-Sends (input ∷ plan) calls =
        elim (Result-cases (submit_wallet_transaction v l t cluster clients input calls).0) [
          | inr (x, failed) ↦ rw (failed, execute_from) (tt, omega arith)
          | inl (tx, e) ↦
              rw (e, execute_from)
                (Sends-cons input plan tx _ (submit-PaysBack input calls tx e) (
                  execute_from-Sends plan
                    (submit_wallet_transaction v l t cluster clients input calls).1))
        ]

    -- The accepted transactions pay back to the accounts of the plan, one to each and in its order: to
    -- all of them where the run succeeds, and to the first of them where it stops with an error.
    pub execute-Sends :
        (s : Submission v)
        → let (accepted, result) = execute v l t cluster clients s in
          Pays s.plan accepted
          × Holds
              (λ (done : Unit {0}). length accepted ≡ length s.plan)
              (λ e. length accepted < length s.plan)
              result
    unfolding execute
    execute-Sends s = execute_from-Sends s.plan 0
