-- ===== src/Workflows/Cluster.antt =====
-- `submit_transaction_via_cluster` of testing-framework/workflows/src/workloads/util.rs: a transaction
-- goes to the clients in a random order, in several rounds, until one accepts it. The waits between
-- the rounds are left out.
pub mod Retries
use logos_blockchain_testing.Prelude.{
  ℕ, zero, suc, Bool, true, false, Option, none, some, List, [], ◌∷◌, if◌then◌else◌, Result, ok,
  err,
}

abbrev pub submit_retries : ℕ
submit_retries = 5

-- The clients' answers and the random order, by the number of the call.
pub record Cluster (Client Tx Error : Type 0) : Type 0 where
  pub shuffle : ℕ → List Client → List Client
  pub submit_transaction : ℕ → Client → Tx → Result (Unit {0}) Error

pub data ClusterError (Error : Type 0) : Type 0 where
  failed : Error → ClusterError Error
  exhausted : ClusterError Error

-- The calls that were made, and `last_err`.
pub record Tries (Error : Type 0) : Type 0 where
  pub calls : ℕ
  pub last_err : Option Error

module _ {Error : Type 0} where
  abbrev pub last_error : Option Error → ClusterError Error
  last_error none = exhausted
  last_error (some e) = failed e

module _ {Client Tx Error : Type 0} (cluster : Cluster Client Tx Error) where
  -- The loop over the clients; true: one of them accepted.
  unfoldable pub try_clients : List Client → Tx → Tries Error → Bool × Tries Error
  try_clients [] tx s = (false, s)
  try_clients (client ∷ rest) tx s = elim (cluster.submit_transaction s.calls client tx) [
    | ok done ↦ (true, record s { calls = suc s.calls })
    | err e ↦ try_clients rest tx (record { calls = suc s.calls; last_err = some e })
  ]

  -- The rounds: `remaining` are left, from number `attempt` on.
  unfoldable pub submit_rounds : ℕ → ℕ → List Client → Tx → Tries Error → Bool × Tries Error
  unfolding try_clients
  submit_rounds zero attempt clients tx s = (false, s)
  submit_rounds (suc remaining) attempt clients tx s =
      let order = cluster.shuffle (suc attempt) clients in
      let (accepted, after) = try_clients order tx s in
      let rest = submit_rounds remaining (suc attempt) order tx after in
      if accepted then (true, after) else rest

  -- The result, and the number of the calls made so far.
  unfoldable pub submit_transaction_via_cluster :
      List Client → Tx → ℕ → Result (Unit {0}) (ClusterError Error) × ℕ
  unfolding submit_rounds
  submit_transaction_via_cluster clients tx calls =
      let (accepted, after) =
        submit_rounds submit_retries 0 (cluster.shuffle 0 clients) tx
          (record { calls = calls; last_err = none }) in
      (if accepted then ok tt else err (last_error after.last_err), after.calls)
