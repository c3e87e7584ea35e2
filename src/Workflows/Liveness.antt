-- ===== src/Workflows/Liveness.antt =====
-- testing-framework/workflows/src/expectations/consensus_liveness.rs: every node is near the highest
-- height. `none` is a panic: of `clamp` with its bounds in the wrong order, or of an addition that
-- overflows a `u64`. The text of an error is left out.
pub mod Samples
pub mod Verdict
pub mod Panics
pub mod Evaluation
use logos_blockchain_testing.Prelude.{
  ℕ, zero, suc, ◌+◌, ◌/◌, ◌^◌, Bool, true, false, ◌||◌, ◌==◌, ltb, leb, max, Option, none, some,
  List, [], ◌∷◌, ◌++◌, String, concat, decimal, if◌then◌else◌, Result, ok, err,
}

abbrev pub lag_allowance_default : ℕ
lag_allowance_default = 2

abbrev pub min_progress_blocks : ℕ
min_progress_blocks = 5

abbrev pub request_retries : ℕ
request_retries = 15

abbrev pub max_lag_allowance : ℕ
max_lag_allowance = 5

pub record ConsensusInfoSample (HeaderId : Type 0) : Type 0 where
  pub height : ℕ
  pub tip : HeaderId

pub record NodeSample (HeaderId : Type 0) : Type 0 where
  pub label : String
  pub height : ℕ
  pub tip : HeaderId

pub data ConsensusLivenessIssue (Error : Type 0) : Type 0 where
  height_below_target : String → ℕ → ℕ → ConsensusLivenessIssue Error
  request_failed : String → Error → ConsensusLivenessIssue Error

pub record LivenessCheck (HeaderId Error : Type 0) : Type 0 where
  pub samples : List (NodeSample HeaderId)
  pub issues : List (ConsensusLivenessIssue Error)

pub data ConsensusLivenessError (Error : Type 0) : Type 0 where
  missing_participants : ConsensusLivenessError Error
  violations : ℕ → List (ConsensusLivenessIssue Error) → ConsensusLivenessError Error

-- A node: its answer to the attempt of each number.
abbrev pub Client : Type 0 → Type 0 → Type 0
Client HeaderId Error = ℕ → Result (ConsensusInfoSample HeaderId) Error

-- `(target / 10).clamp(lag_allowance, MAX_LAG_ALLOWANCE)`
unfoldable pub effective_lag_allowance : ℕ → ℕ → Option ℕ
effective_lag_allowance lag_allowance target =
    if ltb max_lag_allowance lag_allowance
    then none
    else (if ltb (target / 10) lag_allowance
        then some lag_allowance
        else (if ltb max_lag_allowance (target / 10)
            then some max_lag_allowance
            else some (target / 10)))

unfoldable pub target_of : ℕ → ℕ → ℕ
target_of target_hint max_height =
    if target_hint == 0 || ltb max_height target_hint then max_height else target_hint

module _ {HeaderId : Type 0} where
  -- `max()` of the heights
  unfoldable pub max_height : List (NodeSample HeaderId) → ℕ
  max_height [] = 0
  max_height (s ∷ rest) = max s.height (max_height rest)

module _ {Error : Type 0} where
  abbrev pub verdict :
      ℕ → List (ConsensusLivenessIssue Error) → Result (Unit {0}) (ConsensusLivenessError Error)
  verdict target [] = ok tt
  verdict target (i ∷ issues) = err (violations target (i ∷ issues))

  abbrev pub push_progress :
      ℕ → List (ConsensusLivenessIssue Error) → List (ConsensusLivenessIssue Error)
  push_progress top issues =
      if ltb top min_progress_blocks
      then issues ++ height_below_target "network" top min_progress_blocks ∷ []
      else issues

module _ {HeaderId Error : Type 0} where
  abbrev pub push_sample :
      LivenessCheck HeaderId Error
      → String
      → ConsensusInfoSample HeaderId
      → LivenessCheck HeaderId Error
  push_sample check node sample = record check {
    samples =
        check.samples ++ record { label = node; height = sample.height; tip = sample.tip } ∷ [];
  }

  -- The attempts at one node: `remaining` are left, from number `attempt` on.
  unfoldable pub attempts :
      ℕ
      → ℕ
      → String
      → Client HeaderId Error
      → LivenessCheck HeaderId Error
      → LivenessCheck HeaderId Error
  attempts zero attempt node client check = check
  attempts (suc remaining) attempt node client check =
      let rest = attempts remaining (suc attempt) node client check in
      elim (client attempt) [
        | ok sample ↦ push_sample check node sample
        | err e ↦
            if suc attempt == request_retries
            then record check { issues = check.issues ++ request_failed node e ∷ [] }
            else rest
      ]

  -- The loop over the clients, from number `idx` on.
  unfoldable pub collect_from :
      ℕ → List (Client HeaderId Error) → LivenessCheck HeaderId Error → LivenessCheck HeaderId Error
  unfolding attempts
  collect_from idx [] check = check
  collect_from idx (client ∷ rest) check =
      collect_from (suc idx) rest
        (attempts request_retries 0 (concat "node-" (decimal idx)) client check)

  unfoldable pub collect_results : List (Client HeaderId Error) → LivenessCheck HeaderId Error
  unfolding collect_from
  collect_results clients = collect_from 0 clients (record { samples = []; issues = [] })

  abbrev pub push_if_lagging :
      ℕ
      → ℕ
      → NodeSample HeaderId
      → List (ConsensusLivenessIssue Error)
      → List (ConsensusLivenessIssue Error)
  push_if_lagging lag target s issues =
      if ltb (s.height + lag) target
      then issues ++ height_below_target s.label s.height target ∷ []
      else issues

  -- The loop over the samples.
  unfoldable pub push_lagging :
      ℕ
      → ℕ
      → List (NodeSample HeaderId)
      → List (ConsensusLivenessIssue Error)
      → Option (List (ConsensusLivenessIssue Error))
  push_lagging lag target [] issues = some issues
  push_lagging lag target (s ∷ rest) issues =
      let next = push_lagging lag target rest (push_if_lagging lag target s issues) in
      if leb (2 ^ 64) (s.height + lag) then none else next

  unfoldable pub report :
      ℕ
      → ℕ
      → LivenessCheck HeaderId Error
      → Option (Result (Unit {0}) (ConsensusLivenessError Error))
  unfolding max_height target_of effective_lag_allowance push_lagging
  report lag_allowance target_hint check = elim (check.samples) [
    | [] ↦ some (err missing_participants)
    | s ∷ rest ↦
        let top = max_height check.samples in
        let target = target_of target_hint top in
        elim (effective_lag_allowance lag_allowance target) [
          | none ↦ none
          | some lag ↦
              (elim (push_lagging lag target check.samples (push_progress top check.issues)) [
                | none ↦ none
                | some issues ↦ some (verdict target issues)
              ])
        ]
  ]

  -- `evaluate`, with the blocks that the run context expects and the clients of the nodes
  unfoldable pub evaluate :
      ℕ
      → ℕ
      → List (Client HeaderId Error)
      → Option (Result (Unit {0}) (ConsensusLivenessError Error))
  unfolding collect_results report
  evaluate lag_allowance expected_blocks [] = some (err missing_participants)
  evaluate lag_allowance expected_blocks (client ∷ rest) =
      report lag_allowance expected_blocks (collect_results (client ∷ rest))
