-- ===== src/Workflows/Transaction/Plan.antt =====
-- The bounds of a submission plan.
use logos_blockchain_testing.Prelude.{
  ℕ, ◌<◌, ◌≡◌, refl, ◌==◌, min, Option, some, Holds, arith, Bool-cases, inl, inr, Option-cases,
  none,
}
use logos_blockchain_testing.Vendor.{Vendor}
use logos_blockchain_testing.Config.Base.{Duration, from_secs}
use logos_blockchain_testing.Scenario.Metrics.{RunMetrics}
use logos_blockchain_testing.Workflows.Transaction.{
  SubmissionPlan, TransactionError, panic, zero_transactions, no_accounts_to_schedule,
  submission_plan, target_transaction_count,
}

module _ (v : Vendor) where
  -- The time of the run for each of `count` transactions.
  abbrev pub share : RunMetrics → ℕ → Option Duration
  share m count = v.from_secs_f64 (v.div_f64 (v.as_secs_f64 m.run_duration) (v.as_f64 count))

  -- `count` transactions, the shares of the run apart, but at most a second.
  abbrev pub IsPlanned : RunMetrics → ℕ → SubmissionPlan → Type 0
  IsPlanned m count p =
      (d : Duration) × (share m count ≡ some d)
      × (p.transaction_count ≡ count)
      × (p.submission_interval ≡ min d (from_secs 1))

  -- The reason of an error.
  abbrev pub Refuses : {Error : Type 0} → RunMetrics → ℕ → ℕ → TransactionError Error → Type 0
  Refuses m available target no_accounts_to_schedule = available ≡ 0
  Refuses m available target zero_transactions = (0 < available) × (target ≡ 0)
  Refuses m available target panic = share m (min target available) ≡ none
  Refuses m available target _ = ⊥

  -- A plan submits as many transactions as the rate asks for, but no more than there are accounts; it is
  -- at least one. They are a share of the run apart, at most a second. A plan is refused only without
  -- accounts, without a transaction that the rate asks for, or where the share is no duration.
  pub submission_plan_bounds :
      (Error : Type 0) (txs_per_block available : ℕ) (m : RunMetrics)
      → let target = target_transaction_count v txs_per_block m in
        Holds
          (λ (p : SubmissionPlan). (0 < p.transaction_count) × IsPlanned m (min target available) p)
          (Refuses m available target)
          (submission_plan v {Error = Error} txs_per_block m available)
  unfolding submission_plan
  submission_plan_bounds Error rate available m =
      let target = target_transaction_count v rate m in
      elim (Bool-cases (available == 0)) [
        | inl e ↦ rw e (ground arith)
        | inr e ↦ (elim (Bool-cases (min target available == 0)) [
          | inl z ↦ rw (e, z) (ground arith, ground arith)
          | inr z ↦ (elim (Option-cases (share m (min target available))) [
            | inl over ↦ rw (e, z) (rw over over)
            | inr (d, fits) ↦ rw (e, z) (rw fits (ground arith, (d, refl, refl, ground arith)))
          ])
        ])
      ]
