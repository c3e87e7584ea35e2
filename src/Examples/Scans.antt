-- ===== src/Examples/Scans.antt =====
-- The theorems on the block feed and on the consensus liveness check, on small runs.
use logos_blockchain_testing.Prelude.{
  ℕ, ◌-◌, ◌≡◌, ◌≢◌, ◌^◌, ◌↔◌, refl, true, ◌==◌, ==_iff, none, some, List, [], ◌∷◌, ◌++◌, Result, ok,
  err, length, arith, if◌then◌else◌,
}
use logos_blockchain_testing.Scenario.Feed.{
  Client as FeedClient, request, BlockRecord, BlockScanner, has_seen, catch_up,
}
use logos_blockchain_testing.Scenario.Feed.Order.{IsBatch}
use logos_blockchain_testing.Scenario.Feed.Scan.{
  catch_up_broadcasts, catch_up_error, catch_up_again,
}
use logos_blockchain_testing.Workflows.Liveness.{
  NodeSample, LivenessCheck, ConsensusLivenessError, Client, collect_results, report, evaluate,
}
use logos_blockchain_testing.Workflows.Liveness.Samples.{
  AreResults, AreSampled, collect_results_lem, collect_results_answered,
}
use logos_blockchain_testing.Workflows.Liveness.Evaluation.{AllLive, evaluate_iff}
use logos_blockchain_testing.Workflows.Liveness.Panics.{MayPanic, report_panics}
use logos_blockchain_testing.Workflows.Liveness.Verdict.{AreBounded, IsLive, report_lem}

-- Block `h` follows block `h - 1`, and holds `h` transactions.
abbrev numbered : FeedClient
numbered = record {
  HeaderId = ℕ;
  same = ◌==◌;
  same_iff = ==_iff;
  Block = ℕ;
  parent = λ b. b - 1;
  transactions = λ b. b;
  Error = ℕ;
  storage_block = λ h. if h == 9 then err 9 else ok (some h);
}

abbrev started : BlockScanner numbered
started = record { seen = 1 ∷ []; sent = []; total_transactions = 0 }

started-catch_up : (catch_up numbered (ok (4, 4)) started).0 ≡ ok tt
unfolding catch_up
started-catch_up = refl

catch_up_broadcasts_example :
    (batch : List (BlockRecord numbered)) × (roots : List ℕ) × ((catch_up numbered
        (ok (4, 4))
        started).1.sent
      ≡ [] ++ batch)
    × IsBatch numbered 4 4 (1 ∷ []) batch roots
    × (has_seen numbered 4 (catch_up numbered (ok (4, 4)) started).1.seen ≡ true)
catch_up_broadcasts_example = catch_up_broadcasts numbered started 4 4 started-catch_up

failed-catch_up : (catch_up numbered (ok (10, 9)) started).0 ≡ err (request 9)
unfolding catch_up
failed-catch_up = refl

catch_up_error_example : (catch_up numbered (ok (10, 9)) started).1 ≡ started
catch_up_error_example = catch_up_error numbered (ok (10, 9)) started (request 9) failed-catch_up

catch_up_again_example :
    catch_up numbered (ok (4, 5)) (catch_up numbered (ok (4, 4)) started).1
    ≡ (ok tt, (catch_up numbered (ok (4, 4)) started).1)
catch_up_again_example = catch_up_again numbered started 4 4 5 started-catch_up

-- A node that answers its third attempt.
abbrev slow : Client ℕ ℕ
slow attempt = if attempt == 2 then ok (record { height = 8; tip = 0 }) else err attempt

abbrev silent : Client ℕ ℕ
silent attempt = err attempt

collect_results_lem_example :
    AreResults 0
      (slow ∷ silent ∷ [])
      (collect_results (slow ∷ silent ∷ [])).samples
      (collect_results (slow ∷ silent ∷ [])).issues
collect_results_lem_example = collect_results_lem (slow ∷ silent ∷ [])

collect_results_answered_example :
    ((collect_results (slow ∷ [])).issues ≡ [])
    × (length (collect_results (slow ∷ [])).samples ≡ 1)
    × AreSampled 0 (slow ∷ []) (collect_results (slow ∷ [])).samples
collect_results_answered_example =
    collect_results_answered (slow ∷ [])
      ((2, record { height = 8; tip = 0 }, omega arith, refl), tt)

abbrev sample : ℕ → NodeSample ℕ
sample height = record { label = "node"; height = height; tip = 0 }

abbrev check : LivenessCheck ℕ ℕ
check = record { samples = sample 20 ∷ sample 18 ∷ []; issues = [] }

report_lem_example :
    (r : Result (Unit {0}) (ConsensusLivenessError ℕ)) × (report 2 50 check ≡ some r)
    × ((r ≡ ok tt) ↔ IsLive 2 50 check)
report_lem_example = report_lem 2 50 check (omega arith) (omega arith, (omega arith, tt))

-- The sum with an allowance of five overflows.
abbrev high : LivenessCheck ℕ ℕ
high = record { samples = sample 20 ∷ sample (2 ^ 64 - 3) ∷ []; issues = [] }

report_panics_example :
    (report 3 50 high ≡ none) ↔ ((high.samples ≢ []) × MayPanic 3 50 high.samples)
report_panics_example = report_panics 3 50 high

slow_bounded : AreBounded (collect_results (slow ∷ slow ∷ [])).samples
unfolding collect_results
slow_bounded = (omega arith, (omega arith, tt))

evaluate_iff_example :
    (evaluate 2 50 (slow ∷ slow ∷ []) ≡ some (ok tt)) ↔ AllLive 2 50 (slow ∷ slow ∷ [])
evaluate_iff_example = evaluate_iff 2 50 (slow ∷ slow ∷ []) (omega arith) slow_bounded
