-- ===== src/Workflows/Liveness/Panics.antt =====
-- When the consensus liveness check panics.
use logos_blockchain_testing.Prelude.{
  ℕ, zero, suc, ◌+◌, ◌^◌, ◌<◌, ◌≤◌, ◌≡◌, ◌≢◌, ◌↔◌, ◌⊎◌, refl, ap, false, ltb, leb, Option, none,
  some, List, [], ◌∷◌, Result, arith, inl, inr, Bool-cases, get_elem?,
}
use mathlib.Core.Path.{subst}
use logos_blockchain_testing.Workflows.Liveness.{
  NodeSample, LivenessCheck, ConsensusLivenessIssue, ConsensusLivenessError, max_lag_allowance,
  effective_lag_allowance, max_height, target_of, push_if_lagging, push_lagging, push_progress,
  verdict, report,
}
use logos_blockchain_testing.Workflows.Liveness.Verdict.{
  goal, allowed, goal-target_of, allowed-effective_lag_allowance,
}

module _ {HeaderId : Type 0} where
  -- Some height overflows a `u64` when the allowance is added.
  abbrev pub Overflows : ℕ → List (NodeSample HeaderId) → Type 0
  Overflows lag samples =
      (i : ℕ) × (s : NodeSample HeaderId) × (get_elem? samples i ≡ some s)
      × (2 ^ 64 ≤ s.height + lag)

  -- The allowance is above five, or some height overflows with the allowance for the target.
  abbrev pub MayPanic : ℕ → ℕ → List (NodeSample HeaderId) → Type 0
  MayPanic lag_allowance target_hint samples =
      (max_lag_allowance < lag_allowance)
      ⊎ Overflows (allowed lag_allowance (goal target_hint (max_height samples))) samples

  Overflows-tail :
      (lag : ℕ) (s : NodeSample HeaderId) (rest : List (NodeSample HeaderId))
      → leb (2 ^ 64) (s.height + lag) ≡ false
      → Overflows lag (s ∷ rest)
      → Overflows lag rest
  Overflows-tail lag s rest fits (zero, t, found, over) =
      let same : s ≡ t = cc in
      let height : s.height ≡ t.height = ap (λ (x : NodeSample HeaderId). x.height) same in
      absurd (ground (arith, fits, over, height))
  Overflows-tail lag s rest fits (suc i, t, found, over) = (i, t, found, over)

module _ {Error : Type 0} where
  -- The end of `report`: it panics only where the issues could not be collected.
  abbrev decide :
      ℕ
      → Option (List (ConsensusLivenessIssue Error))
      → Option (Result (Unit {0}) (ConsensusLivenessError Error))
  decide target none = none
  decide target (some issues) = some (verdict target issues)

  decide-none :
      (target : ℕ) (found : Option (List (ConsensusLivenessIssue Error)))
      → (decide target found ≡ none) ↔ (found ≡ none)
  decide-none target none = (λ e. refl, λ e. refl)
  decide-none target (some issues) = (λ e. cc, λ e. cc)

module _ {HeaderId Error : Type 0} where
  push_lagging-none :
      (lag target : ℕ) (samples : List (NodeSample HeaderId))
      (issues : List (ConsensusLivenessIssue Error))
      → (push_lagging lag target samples issues ≡ none) ↔ Overflows lag samples
  unfolding push_lagging
  push_lagging-none lag target [] issues = (λ e. cc, λ (i, s, found, _). cc)
  push_lagging-none lag target (s ∷ rest) issues =
      let later = push_lagging-none lag target rest (push_if_lagging lag target s issues) in
      elim (Bool-cases (leb (2 ^ 64) (s.height + lag))) [
        | inl over ↦ rw over (λ e. (0, s, refl, ground (arith, over)), λ h. refl)
        | inr fits ↦ rw fits (
          λ e. let (i, t, found, over) = later.0 e in (suc i, t, found, over),
          λ h. later.1 (Overflows-tail lag s rest fits h),
        )
      ]

  panics_of :
      (lag_allowance target_hint : ℕ) (samples : List (NodeSample HeaderId))
      (issues : List (ConsensusLivenessIssue Error))
      → (report lag_allowance target_hint (record { samples = samples; issues = issues }) ≡ none)
        ↔ ((samples ≢ []) × MayPanic lag_allowance target_hint samples)
  unfolding report
  panics_of lag_allowance target_hint [] issues = (λ e. cc, λ h. absurd (h.0 refl))
  panics_of lag_allowance target_hint (s ∷ rest) issues =
      let top = max_height (s ∷ rest) in
      let target = target_of target_hint top in
      let lag = allowed lag_allowance target in
      let found = push_lagging lag target (s ∷ rest) (push_progress top issues) in
      let sums =
        subst (λ x. (found ≡ none) ↔ Overflows (allowed lag_allowance x) (s ∷ rest))
          (goal-target_of target_hint top)
          (push_lagging-none lag target (s ∷ rest) (push_progress top issues)) in
      elim (Bool-cases (ltb max_lag_allowance lag_allowance)) [
        | inl above ↦ (
          λ e. ((λ empty. cc), inl (ground (arith, above))),
          λ h. rw (report, effective_lag_allowance, above) refl,
        )
        | inr small ↦
            let some_lag =
              allowed-effective_lag_allowance lag_allowance target (ground (arith, small)) in
            rw (report, some_lag)
              (
                λ e. ((λ empty. cc), inr (sums.0 ((decide-none target found).0 e))),
                λ (_, why). (decide-none target found).1 (
                    sums.1 (elim why [
                      | inl above ↦ absurd (ground (arith, small, above))
                      | inr over ↦ over
                    ])),
              )
      ]

  -- The check panics exactly where there is a sample, and the allowance is above five, or the height
  -- of a sample overflows a `u64` when the allowance for the target is added.
  pub report_panics :
      (lag_allowance target_hint : ℕ) (check : LivenessCheck HeaderId Error)
      → (report lag_allowance target_hint check ≡ none)
        ↔ ((check.samples ≢ []) × MayPanic lag_allowance target_hint check.samples)
  report_panics lag_allowance target_hint check =
      panics_of lag_allowance target_hint check.samples check.issues
