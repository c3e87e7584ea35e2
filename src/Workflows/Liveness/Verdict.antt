-- ===== src/Workflows/Liveness/Verdict.antt =====
-- The verdict of the consensus liveness check. book/src/workloads.md describes another threshold, half of
-- the blocks that the run should produce; the code asks for five blocks at the highest node.
use mathlib.Core.Path.{subst}
use logos_blockchain_testing.Prelude.{
  ℕ, ◌+◌, ◌/◌, ◌^◌, ◌<◌, ◌≤◌, ◌≡◌, ◌≢◌, ◌↔◌, refl, false, ◌==◌, ltb, leb, min, max, some, List, [],
  ◌∷◌, ◌++◌, All, Result, ok, err, arith, inl, inr, Bool-cases, if◌then◌else◌,
}
use logos_blockchain_testing.Workflows.Liveness.{
  NodeSample, LivenessCheck, ConsensusLivenessIssue, ConsensusLivenessError, missing_participants,
  height_below_target, min_progress_blocks, max_lag_allowance, effective_lag_allowance, max_height,
  target_of, push_lagging, push_progress, verdict, report,
}

-- The height that every node is measured against: the hint, but never above the greatest height.
abbrev pub goal : ℕ → ℕ → ℕ
goal target_hint top = if target_hint == 0 then top else min target_hint top

-- A tenth of the target, at least the allowance and at most five.
abbrev pub allowed : ℕ → ℕ → ℕ
allowed lag_allowance target = min max_lag_allowance (max lag_allowance (target / 10))

pub goal-target_of : (target_hint top : ℕ) → target_of target_hint top ≡ goal target_hint top
unfolding target_of
goal-target_of target_hint top = ground arith

pub allowed-effective_lag_allowance :
    (lag_allowance target : ℕ)
    → lag_allowance ≤ max_lag_allowance
    → effective_lag_allowance lag_allowance target ≡ some (allowed lag_allowance target)
unfolding effective_lag_allowance
allowed-effective_lag_allowance lag_allowance target h = ground arith

push-ne-nil {ℓ} : {A : Type ℓ} (xs : List A) (a : A) → xs ++ a ∷ [] ≢ []
push-ne-nil [] a e = cc
push-ne-nil (x ∷ xs) a e = cc

module _ {HeaderId : Type 0} where
  -- The sum with an allowance of at most five does not overflow.
  abbrev pub AreBounded : List (NodeSample HeaderId) → Type 0
  AreBounded = All (λ (s : NodeSample HeaderId). s.height + max_lag_allowance < 2 ^ 64)

  abbrev pub AreNear : ℕ → ℕ → List (NodeSample HeaderId) → Type 0
  AreNear lag target = All (λ (s : NodeSample HeaderId). target ≤ s.height + lag)

module _ {Error : Type 0} where
  push_progress-eq-nil :
      (top : ℕ) (issues : List (ConsensusLivenessIssue Error))
      → (push_progress top issues ≡ []) ↔ ((issues ≡ []) × (min_progress_blocks ≤ top))
  push_progress-eq-nil top issues = elim (Bool-cases (ltb top min_progress_blocks)) [
    | inl low ↦ rw low (λ e. elim (push-ne-nil issues _ e) [ ], λ e. ground (arith, low, e.1))
    | inr enough ↦ rw enough (λ e. (e, ground (arith, enough)), λ e. e.0)
  ]

  verdict-eq-ok :
      (target : ℕ) (issues : List (ConsensusLivenessIssue Error))
      → (verdict target issues ≡ ok tt) ↔ (issues ≡ [])
  verdict-eq-ok target [] = (λ _. refl, λ _. refl)
  verdict-eq-ok target (i ∷ issues) = (λ e. cc, λ e. cc)

module _ {HeaderId Error : Type 0} where
  -- The check has a sample and no issue of its own, the highest node has made progress, and every
  -- node is near the target.
  abbrev pub IsLiveAt : ℕ → ℕ → LivenessCheck HeaderId Error → Type 0
  IsLiveAt lag_allowance target check =
      (check.samples ≢ [])
      × (check.issues ≡ [])
      × (min_progress_blocks ≤ max_height check.samples)
      × AreNear (allowed lag_allowance target) target check.samples

  -- With the target that the hint gives.
  abbrev pub IsLive : ℕ → ℕ → LivenessCheck HeaderId Error → Type 0
  IsLive lag_allowance target_hint check =
      IsLiveAt lag_allowance (goal target_hint (max_height check.samples)) check

  push_lagging-eq-nil :
      (lag target : ℕ) (samples : List (NodeSample HeaderId))
      (issues : List (ConsensusLivenessIssue Error))
      → lag ≤ max_lag_allowance
      → AreBounded samples
      → (found : List (ConsensusLivenessIssue Error)) × (push_lagging lag target samples issues
          ≡ some found)
        × ((found ≡ []) ↔ ((issues ≡ []) × AreNear lag target samples))
  unfolding push_lagging
  push_lagging-eq-nil lag target [] issues h b = (issues, refl, ((λ e. (e, tt)), λ e. e.0))
  push_lagging-eq-nil lag target (s ∷ rest) issues h b =
      let fits : leb (2 ^ 64) (s.height + lag) ≡ false = ground (arith, h, b.0) in
      elim (Bool-cases (ltb (s.height + lag) target)) [
        | inl behind ↦
            let (found, made, iff) =
              push_lagging-eq-nil lag target rest
                (issues ++ height_below_target s.label s.height target ∷ []) h b.1 in
            (
              found,
              rw (fits, behind) made,
              (
                λ e. elim (push-ne-nil issues _ (iff.0 e).0) [ ],
                λ e. ground (arith, behind, e.1.0),
              ),
            )
        | inr near ↦
            let (found, made, iff) = push_lagging-eq-nil lag target rest issues h b.1 in
            (
              found,
              rw (fits, near) made,
              (λ e. ((iff.0 e).0, (ground (arith, near), (iff.0 e).1)), λ e. iff.1 (e.0, e.1.1)),
            )
      ]

  report_of :
      (lag_allowance target_hint : ℕ) (samples : List (NodeSample HeaderId))
      (issues : List (ConsensusLivenessIssue Error))
      → lag_allowance ≤ max_lag_allowance
      → AreBounded samples
      → (r : Result (Unit {0}) (ConsensusLivenessError Error)) × (report lag_allowance target_hint
            (record { samples = samples; issues = issues })
          ≡ some r)
        × ((r ≡ ok tt)
            ↔ IsLiveAt lag_allowance
                (target_of target_hint (max_height samples))
                (record { samples = samples; issues = issues }))
  unfolding report
  report_of lag_allowance target_hint [] issues h b =
      (err missing_participants, refl, ((λ e. cc), λ live. elim (live.0 refl) [ ]))
  report_of lag_allowance target_hint (s ∷ rest) issues h b =
      let top = max_height (s ∷ rest) in
      let target = target_of target_hint top in
      let lag = allowed lag_allowance target in
      let bounded : lag ≤ max_lag_allowance = ground arith in
      let progress = push_progress-eq-nil top issues in
      let (found, made, iff) =
        push_lagging-eq-nil lag target (s ∷ rest) (push_progress top issues) bounded b in
      let decided = verdict-eq-ok target found in
      (
        verdict target found,
        rw (report, allowed-effective_lag_allowance lag_allowance target h, made) refl,
        (
          (λ e.
              let (no_issue, near) = iff.0 (decided.0 e) in
              let (clean, high) = progress.0 no_issue in ((λ empty. cc), clean, high, near)),
          λ live.
              let (_, clean, high, near) = live in
              decided.1 (iff.1 (progress.1 (clean, high), near)),
        ),
      )

  -- With an allowance of at most five, and heights to which it can be added, the check returns. It
  -- succeeds exactly where it has a sample and no issue of its own, the greatest height is at least
  -- five, and every node is at most the allowance below the target: the hint, or the greatest height
  -- where that is less or the hint is 0. The allowance is a tenth of the target, at least the one
  -- that is set and at most five.
  pub report_lem :
      (lag_allowance target_hint : ℕ) (check : LivenessCheck HeaderId Error)
      → lag_allowance ≤ max_lag_allowance
      → AreBounded check.samples
      → (r : Result (Unit {0}) (ConsensusLivenessError Error)) × (report lag_allowance target_hint
            check
          ≡ some r)
        × ((r ≡ ok tt) ↔ IsLive lag_allowance target_hint check)
  unfolding report
  report_lem lag_allowance target_hint check h b =
      subst
        (λ target.
          (r : Result (Unit {0}) (ConsensusLivenessError Error)) × (report lag_allowance target_hint
              check
            ≡ some r)
          × ((r ≡ ok tt) ↔ IsLiveAt lag_allowance target check))
        (goal-target_of target_hint (max_height check.samples))
        (report_of lag_allowance target_hint check.samples check.issues h b)
