-- ===== src/Workflows/Liveness/Evaluation.antt =====
-- `evaluate` of the consensus liveness check, from the nodes to the verdict.
use logos_blockchain_testing.Prelude.{
  ℕ, suc, ◌≤◌, ◌≡◌, ◌≢◌, ◌↔◌, refl, ap, ◌∙◌, some, List, [], ◌∷◌, length, All, ok, arith, inl, inr,
}
use logos_blockchain_testing.Workflows.Liveness.{
  Client, NodeSample, ConsensusLivenessIssue, collect_results, max_height, max_lag_allowance,
  min_progress_blocks, evaluate,
}
use logos_blockchain_testing.Workflows.Liveness.Samples.{
  AreResults, Answers, collect_results_lem, collect_results_answered,
}
use logos_blockchain_testing.Workflows.Liveness.Verdict.{
  AreBounded, AreNear, IsLive, goal, allowed, report_lem,
}

module _ {HeaderId Error : Type 0} where
  AreResults-Answers :
      (idx : ℕ) (clients : List (Client HeaderId Error)) (samples : List (NodeSample HeaderId))
      (issues : List (ConsensusLivenessIssue Error))
      → AreResults idx clients samples issues
      → issues ≡ []
      → All Answers clients
  AreResults-Answers idx [] samples issues are h = tt
  AreResults-Answers idx (client ∷ rest) samples issues (inl (sample, more, first, _, are)) h =
      let (k, below, _, answered) = first in
      ((k, sample, below, answered), AreResults-Answers (suc idx) rest more issues are h)
  AreResults-Answers idx (client ∷ rest) samples issues (inr (x, more, _, e, _)) h = cc

  -- Every node has answered, the greatest height is at least five, and every height is near the target.
  abbrev pub AllLive : ℕ → ℕ → List (Client HeaderId Error) → Type 0
  AllLive lag_allowance expected_blocks clients =
      let samples = (collect_results clients).samples in
      let target = goal expected_blocks (max_height samples) in
      (clients ≢ [])
      × All Answers clients
      × (min_progress_blocks ≤ max_height samples)
      × AreNear (allowed lag_allowance target) target samples

  IsLive-AllLive :
      (lag_allowance expected_blocks : ℕ) (client : Client HeaderId Error)
      (rest : List (Client HeaderId Error))
      → IsLive lag_allowance expected_blocks (collect_results (client ∷ rest))
        ↔ AllLive lag_allowance expected_blocks (client ∷ rest)
  IsLive-AllLive lag_allowance expected_blocks client rest =
      let clients = client ∷ rest in
      let check = collect_results clients in
      (
        λ (some_sample, clean, high, near). (
          (λ e. cc),
          AreResults-Answers 0 clients check.samples check.issues (collect_results_lem clients)
              clean,
          high,
          near,
        ),
        λ (_, answers, high, near).
            let (clean, size, _) = collect_results_answered clients answers in
            (
              (λ e.
                  let size' : length check.samples ≡ 0 = ap (λ l. length l) e in
                  absurd (omega (arith, size, size'))),
              clean,
              high,
              near,
            ),
      )

  -- With an allowance of at most five, and sampled heights to which it can be added, the expectation is
  -- met exactly where there is a node, every node answers one of its fifteen attempts, the greatest
  -- height is at least five, and every node is at most the allowance below the target: the expected
  -- blocks, or the greatest height where that is less or no blocks are expected.
  pub evaluate_iff :
      (lag_allowance expected_blocks : ℕ) (clients : List (Client HeaderId Error))
      → lag_allowance ≤ max_lag_allowance
      → AreBounded (collect_results clients).samples
      → (evaluate lag_allowance expected_blocks clients ≡ some (ok tt))
        ↔ AllLive lag_allowance expected_blocks clients
  unfolding evaluate
  evaluate_iff lag_allowance expected_blocks [] h b = (λ e. cc, λ live. absurd (live.0 refl))
  evaluate_iff lag_allowance expected_blocks (client ∷ rest) h b =
      let (r, made, iff) = report_lem lag_allowance expected_blocks _ h b in
      let live = IsLive-AllLive lag_allowance expected_blocks client rest in
      (
        λ e. let same : r ≡ ok tt = cc in live.0 (iff.0 same),
        λ l. made ∙ ap (λ x. some x) (iff.1 (live.1 l)),
      )
