-- ===== src/Scenario/Metrics.antt =====
-- `RunMetrics` of testing-framework/core/src/scenario/runtime/context.rs. `none` is a panic of
-- `Duration::mul_f64`.
use logos_blockchain_testing.Prelude.{ℕ, Option, none, some}
use logos_blockchain_testing.Vendor.{Vendor}
use logos_blockchain_testing.Config.Ledger.{Ledger}
use logos_blockchain_testing.Config.Base.{Duration}
use logos_blockchain_testing.Topology.{GeneratedTopology, slot_duration}

pub record RunMetrics : Type 0 where
  pub run_duration : Duration
  pub expected_blocks : ℕ
  pub block_interval_hint : Option Duration

module _ (v : Vendor) where
  unfoldable pub calculate_expected_blocks : Duration → Option Duration → v.F64 → ℕ
  calculate_expected_blocks run_duration none active_slot_coeff = 0
  calculate_expected_blocks run_duration (some slot) active_slot_coeff =
      let expected =
        v.mul_f64 (v.div_f64 (v.as_secs_f64 run_duration) (v.as_secs_f64 slot)) active_slot_coeff in
      v.as_u64 (v.clamp (v.ceil expected) v.zero_f64 v.max_u64_f64)

  -- `slot_duration.map(|duration| duration.mul_f64(coeff.clamp(0.0, 1.0)))`
  unfoldable pub interval_hint : Option Duration → v.F64 → Option (Option Duration)
  interval_hint none active_slot_coeff = some none
  interval_hint (some slot) active_slot_coeff =
      elim (v.duration_mul_f64 slot (v.clamp active_slot_coeff v.zero_f64 v.one_f64)) [
        | none ↦ none
        | some hint ↦ some (some hint)
      ]

  unfoldable pub from_topology :
      {l : Ledger v} → GeneratedTopology v l → Duration → Option RunMetrics
  unfolding slot_duration calculate_expected_blocks interval_hint
  from_topology descriptors run_duration =
      let slot = slot_duration descriptors in
      let coeff = descriptors.config.consensus_params.active_slot_coeff in
      elim (interval_hint slot coeff) [
        | none ↦ none
        | some hint ↦ some (record {
          run_duration = run_duration;
          expected_blocks = calculate_expected_blocks run_duration slot coeff;
          block_interval_hint = hint;
        })
      ]
