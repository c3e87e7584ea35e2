-- ===== src/Workflows/Inclusion.antt =====
-- testing-framework/workflows/src/workloads/transaction/expectation.rs: enough of the planned
-- transactions are in blocks. `observed` gives what the counter shows at each load. `out_of_fuel` is
-- an error of the model only: the loop of `evaluate` has used up its rounds.
pub mod Polls
pub mod Capture
pub mod Agreement
use mathlib.Core.Logic.{ite}
use logos_blockchain_testing.Prelude.{
  ℕ, zero, suc, ◌+◌, ◌-◌, ◌%◌, ◌^◌, ◌==◌, ltb, leb, min, Bool, true, false, ◌&&◌, Option, none,
  some, List, [], ◌∷◌, map, length, take, if◌then◌else◌, Result, ok, err, map_err, ◌>>=◌,
}
use logos_blockchain_testing.Vendor.{Vendor}
use logos_blockchain_testing.Wallet.{WalletAccount, public_key}
use logos_blockchain_testing.Config.Ledger.{Note}
use logos_blockchain_testing.Config.Base.{Duration, from_secs}
use logos_blockchain_testing.Scenario.Metrics.{RunMetrics}
use logos_blockchain_testing.Workflows.Transaction.{
  SubmissionPlan, TransactionError, submission_plan, limited_user_count,
}

abbrev pub catchup_poll_interval : Duration
catchup_poll_interval = from_secs 1

abbrev pub max_catchup_wait : Duration
max_catchup_wait = from_secs 60

-- The accounts that the capture task tracks, and the number of transactions that are expected.
pub record CaptureState (v : Vendor) : Type 0 where
  pub tracked_accounts : List v.ZkPublicKey
  pub expected : ℕ

pub record TxInclusionExpectation (v : Vendor) : Type 0 where
  pub txs_per_block : ℕ
  pub user_limit : Option ℕ
  pub capture_state : Option (CaptureState v)

pub data TxExpectationError (Error : Type 0) : Type 0 where
  missing_accounts : TxExpectationError Error
  no_planned_transactions : TxExpectationError Error
  not_captured : TxExpectationError Error
  insufficient_inclusions : ℕ → ℕ → TxExpectationError Error
  planning : TransactionError Error → TxExpectationError Error
  panic : TxExpectationError Error
  out_of_fuel : TxExpectationError Error

module _ (v : Vendor) where
  unfoldable pub new : ℕ → Option ℕ → TxInclusionExpectation v
  new txs_per_block user_limit = record {
    txs_per_block = txs_per_block;
    user_limit = user_limit;
    capture_state = none;
  }

  abbrev capture_plan_with :
      {Error : Type 0}
      → TxInclusionExpectation v
      → RunMetrics
      → List (WalletAccount v)
      → Result (SubmissionPlan × List v.ZkPublicKey) (TxExpectationError Error)
  unfolding submission_plan limited_user_count
  capture_plan_with e metrics [] = err missing_accounts
  capture_plan_with e metrics (a ∷ rest) = do
    plan ← map_err planning (
        submission_plan v e.txs_per_block metrics
          (limited_user_count e.user_limit (length (a ∷ rest))))
    ok (plan, map (λ account. public_key v account) (take plan.transaction_count (a ∷ rest)))

  -- The set of keys is a list.
  unfoldable pub build_capture_plan :
      {Error : Type 0}
      → TxInclusionExpectation v
      → RunMetrics
      → List (WalletAccount v)
      → Result (SubmissionPlan × List v.ZkPublicKey) (TxExpectationError Error)
  unfolding submission_plan limited_user_count
  build_capture_plan e metrics wallet_accounts = capture_plan_with e metrics wallet_accounts

  abbrev capture_with :
      {Error : Type 0}
      → TxInclusionExpectation v
      → SubmissionPlan × List v.ZkPublicKey
      → Result (TxInclusionExpectation v) (TxExpectationError Error)
  capture_with e (plan, tracked) =
      if plan.transaction_count == 0
      then err no_planned_transactions
      else ok (record e {
        capture_state =
            some (record { tracked_accounts = tracked; expected = plan.transaction_count });
      })

  -- `start_capture`; the capture task that it spawns is `capture`.
  unfoldable pub start_capture :
      {Error : Type 0}
      → TxInclusionExpectation v
      → RunMetrics
      → List (WalletAccount v)
      → Result (TxInclusionExpectation v) (TxExpectationError Error)
  unfolding build_capture_plan
  start_capture e metrics wallet_accounts = elim (e.capture_state) [
    | some state ↦ ok e
    | none ↦ build_capture_plan e metrics wallet_accounts >>= capture_with e
  ]

  abbrev pub required_of : ℕ → ℕ
  required_of expected = v.as_u64 (v.ceil (v.mul_f64 (v.as_f64 expected) v.half_f64))

  -- `evaluate` after the loop, with the last load.
  abbrev pub verdict : {Error : Type 0} → ℕ → ℕ → Result (Unit {0}) (TxExpectationError Error)
  verdict observed required =
      if leb required observed then ok tt else err (insufficient_inclusions observed required)

  -- The `while` of `evaluate`, from load number `n` on, with fuel.
  unfoldable pub poll :
      {Error : Type 0}
      → ℕ
      → (ℕ → ℕ)
      → ℕ
      → Duration
      → ℕ
      → Result (Unit {0}) (TxExpectationError Error)
  poll zero observed required remaining n = err out_of_fuel
  poll (suc fuel) observed required remaining n =
      elim (ltb (observed n) required && ltb 0 remaining) [
        | true ↦ poll fuel observed required (remaining - catchup_poll_interval) (suc n)
        | false ↦ verdict (observed n) required
      ]

  -- `interval.mul_f64(security_param)`; none: it panics
  abbrev pub hinted_wait : ℕ → Option Duration → Option Duration
  hinted_wait security_param none = some max_catchup_wait
  hinted_wait security_param (some interval) = v.duration_mul_f64 interval (v.as_f64 security_param)

  unfoldable pub evaluate_state :
      {Error : Type 0}
      → ℕ
      → Option Duration
      → (ℕ → ℕ)
      → CaptureState v
      → Result (Unit {0}) (TxExpectationError Error)
  unfolding poll
  evaluate_state security_param hint observed state =
      let required = required_of state.expected in
      if ltb (observed 0) required
      then elim (hinted_wait security_param hint) [
        | none ↦ err panic
        | some wait ↦ poll 61 observed required (min wait max_catchup_wait) 0
      ]
      else verdict (observed 0) required

  unfoldable pub evaluate :
      {Error : Type 0}
      → ℕ
      → Option Duration
      → (ℕ → ℕ)
      → TxInclusionExpectation v
      → Result (Unit {0}) (TxExpectationError Error)
  unfolding evaluate_state
  evaluate security_param hint observed e = elim (e.capture_state) [
    | none ↦ err not_captured
    | some state ↦ evaluate_state security_param hint observed state
  ]

-- A block as the capture task reads it: whether its parent is the zero header, and the outputs of each
-- transaction.
pub record Block (v : Vendor) : Type 0 where
  pub parent_is_genesis : Bool
  pub transactions : List (List (Note v))

-- What the task receives until the feed is closed.
pub data Received (v : Vendor) : Type 0 where
  record_of : Block v → Received v
  lagged : ℕ → Received v

module _ (v : Vendor) (key_eq : Discrete v.ZkPublicKey) where
  unfoldable pub contains : List v.ZkPublicKey → v.ZkPublicKey → Bool
  contains [] key = false
  contains (k ∷ rest) key = ite (key_eq k key) true (contains rest key)

  -- `fetch_add(1)` for the first output of a transaction that pays to a tracked account; the counter is
  -- a `u64`, which wraps.
  unfoldable pub capture_outputs : List v.ZkPublicKey → List (Note v) → ℕ → ℕ
  unfolding contains
  capture_outputs tracked [] observed = observed
  capture_outputs tracked (note ∷ rest) observed =
      let others = capture_outputs tracked rest observed in
      if contains tracked note.pk then (observed + 1) % 2 ^ 64 else others

  unfoldable pub capture_tx_outputs : List v.ZkPublicKey → List (List (Note v)) → ℕ → ℕ
  unfolding capture_outputs
  capture_tx_outputs tracked [] observed = observed
  capture_tx_outputs tracked (tx ∷ rest) observed =
      capture_tx_outputs tracked rest (capture_outputs tracked tx observed)

  abbrev capture_record : List v.ZkPublicKey → Received v → ℕ → ℕ
  unfolding capture_tx_outputs
  capture_record tracked (lagged skipped) observed = observed
  capture_record tracked (record_of block) observed =
      if block.parent_is_genesis
      then observed
      else capture_tx_outputs tracked block.transactions observed

  -- The loop of the capture task.
  unfoldable pub capture : List v.ZkPublicKey → List (Received v) → ℕ → ℕ
  unfolding capture_tx_outputs
  capture tracked [] observed = observed
  capture tracked (r ∷ rest) observed = capture tracked rest (capture_record tracked r observed)
