-- ===== src/Examples/Submissions.antt =====
-- The theorems on the submission of transactions and their inclusion, with two accounts and two clients
-- of which the second accepts everything.
use logos_blockchain_testing.Prelude.{
  ℕ, zero, suc, ◌+◌, ◌*◌, ◌%◌, ◌^◌, ◌≤◌, ◌<◌, ◌≡◌, refl, min, true, false, some, none, [], ◌∷◌,
  List, map, Result, ok, err, Holds, String, arith, length, ◌==◌,
}
use logos_blockchain_testing.Examples.Toy.{toy, toy_ledger, id_of}
use logos_blockchain_testing.Examples.Transactions.{key_eq, one_minute}
use logos_blockchain_testing.Config.Ledger.{MantleTx, Note}
use logos_blockchain_testing.Config.Base.{from_secs}
use logos_blockchain_testing.Workflows.Cluster.{Cluster, submit_transaction_via_cluster}
use logos_blockchain_testing.Workflows.Cluster.Retries.{
  IsShuffle, is_exhausted, submit_transaction_via_cluster_ends,
  submit_transaction_via_cluster_total,
}
use logos_blockchain_testing.Workflows.Transaction.{
  SubmissionPlan, WalletInput, Workload, limited_user_count,
}
use logos_blockchain_testing.Workflows.Transaction.Submission as Submissions
use logos_blockchain_testing.Workflows.Transaction.Submission.{Transfers, Submission, execute}
use logos_blockchain_testing.Workflows.Transaction.Submission.Order.{Pays, execute-Sends}
use logos_blockchain_testing.Workflows.Inclusion.{
  TxInclusionExpectation, CaptureState, Received, record_of, lagged, capture, required_of,
  evaluate_state, max_catchup_wait, build_capture_plan,
}
use logos_blockchain_testing.Workflows.Inclusion.Polls.{
  IsSeen, IsShort, polls, evaluate_state_verdict,
}
use logos_blockchain_testing.Workflows.Inclusion.Capture.{paying_blocks, capture_counts}
use logos_blockchain_testing.Workflows.Inclusion.Agreement.{key_of, capture_plan-agrees}

signed : (m tx : MantleTx toy) → ◌≡◌ {A = Result (MantleTx toy) String} (ok m) (ok tx) → tx ≡ m
signed m tx e = cc

abbrev transfers : Transfers toy
transfers = record {
  Tx = MantleTx toy;
  mantle_tx = λ tx. tx;
  transfer = λ u n. record {
    ops = [];
    ledger_tx = record { inputs = toy_ledger.utxo_id u ∷ []; outputs = n ∷ [] };
    execution_gas_price = 0;
    storage_gas_price = 0;
  };
  sign = λ m s. ok m;
  transfer-outputs = λ u n. refl;
  sign-ok = λ m s tx e. signed m tx e;
}

abbrev answer : ℕ → Result (Unit {0}) String
answer zero = err "refused"
answer (suc n) = ok tt

-- The client 0 refuses, every other accepts. The order is kept.
abbrev second_accepts : Cluster ℕ (MantleTx toy) String
second_accepts = record { shuffle = λ n cs. cs; submit_transaction = λ n client tx. answer client }

second_accepts-IsShuffle : IsShuffle second_accepts
second_accepts-IsShuffle = record {
  length-shuffle = λ n cs. refl;
  shuffle-elem = λ n cs i c e. (i, e);
}

abbrev input : ℕ → WalletInput toy
input i = record {
  account = record { label = "user"; secret_key = id_of i; value = 100 };
  utxo = record { note = record { value = 100; pk = id_of i }; tx_hash = 0; output_index = i };
}

abbrev two_inputs : Submission toy
two_inputs = record { plan = input 6 ∷ input 7 ∷ []; interval = from_secs 1 }

abbrev two_clients : List ℕ
two_clients = 0 ∷ 1 ∷ []

execute-Sends_example :
    let (accepted, result) =
      execute toy toy_ledger transfers second_accepts two_clients two_inputs in
    Pays toy toy_ledger transfers two_inputs.plan accepted
    × Holds
        (λ (done : Unit {0}). length accepted ≡ length two_inputs.plan)
        (λ e. length accepted < length two_inputs.plan)
        result
execute-Sends_example = execute-Sends toy toy_ledger transfers second_accepts two_clients two_inputs

abbrev sent : MantleTx toy
sent = transfers.transfer (input 6).utxo (input 6).utxo.note

submit_transaction_via_cluster_ends_example :
    let (result, after) = submit_transaction_via_cluster second_accepts two_clients sent 3 in
    Holds
      (λ (done : Unit {0}).
        (k : ℕ) × (client : ℕ) × (after ≡ suc k)
        × (k < 3 + 5 * 2)
        × (3 ≤ k)
        × (answer client ≡ ok tt))
      (λ e. (after ≡ 3 + 5 * 2) × (is_exhausted e ≡ (length two_clients == 0)))
      result
submit_transaction_via_cluster_ends_example =
    submit_transaction_via_cluster_ends second_accepts sent second_accepts-IsShuffle two_clients 3

submit_transaction_via_cluster_total_example :
    (submit_transaction_via_cluster second_accepts two_clients sent 3).0 ≡ ok tt
submit_transaction_via_cluster_total_example =
    submit_transaction_via_cluster_total second_accepts sent second_accepts-IsShuffle two_clients 3
      1 1 refl (λ k. refl)

abbrev captured : CaptureState toy
captured = record { tracked_accounts = id_of 6 ∷ id_of 7 ∷ []; expected = 2 }

-- The counter grows by one with every load.
abbrev growing : ℕ → ℕ
growing n = n

evaluate_state_verdict_example :
    Holds
      (λ (done : Unit {0}).
        IsSeen toy growing (required_of toy 2) 0 (polls (min (from_secs 20) max_catchup_wait)))
      (IsShort toy growing (required_of toy 2) 0 (polls (min (from_secs 20) max_catchup_wait)))
      (evaluate_state toy {Error = String} 10 (some (from_secs 2)) growing captured)
evaluate_state_verdict_example =
    evaluate_state_verdict toy String 10 (some (from_secs 2)) growing captured (from_secs 20) refl

abbrev pays : ℕ → List (Note toy)
pays i = record { value = 100; pk = id_of i } ∷ []

abbrev received : List (Received toy)
received =
    record_of (record { parent_is_genesis = true; transactions = pays 6 ∷ [] })
    ∷ lagged 2
    ∷ record_of (record { parent_is_genesis = false; transactions = pays 7 ∷ pays 9 ∷ pays 6 ∷ [] })
    ∷ []

capture_counts_example :
    capture toy key_eq captured.tracked_accounts received 0
    ≡ (0 + paying_blocks toy key_eq captured.tracked_accounts received) % 2 ^ 64
capture_counts_example =
    capture_counts toy key_eq captured.tracked_accounts received 0 (omega arith)

abbrev expectation : TxInclusionExpectation toy
expectation = record { txs_per_block = 1; user_limit = some 2; capture_state = none }

abbrev workload : Workload toy
workload = record { txs_per_block = 1; user_limit = some 2; accounts = two_inputs.plan }

workload-new : Submissions.new toy {Error = String} workload one_minute ≡ ok two_inputs
unfolding Submissions.new
workload-new = refl

capture_plan-agrees_example :
    (plan : SubmissionPlan) × (build_capture_plan toy {Error = String} expectation one_minute
        ((input 6).account ∷ (input 7).account ∷ (input 8).account ∷ [])
      ≡ ok (plan, map (key_of toy) two_inputs.plan))
    × (plan.transaction_count ≡ length two_inputs.plan)
unfolding limited_user_count
capture_plan-agrees_example =
    capture_plan-agrees toy String workload expectation one_minute (input 6).account
      ((input 7).account ∷ (input 8).account ∷ []) two_inputs refl refl refl workload-new
