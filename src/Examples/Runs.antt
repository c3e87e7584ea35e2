-- ===== src/Examples/Runs.antt =====
-- The theorems on the runner: a run of three workloads, of which one ends in the cooldown and one is
-- aborted, and of two expectations.
use logos_blockchain_testing.Prelude.{
  ◌≡◌, ◌≢◌, ◌⊎◌, ◌↔◌, refl, true, some, none, Option, [], ◌∷◌, List, ok, err, Holds, String, All,
}
use logos_blockchain_testing.Examples.Toy.{toy}
use logos_blockchain_testing.Config.Base.{from_secs}
use logos_blockchain_testing.Scenario.Runner.{
  Task, outcome, cancelled, panic, expectations, RunContext, Prepared, abort, drain_workloads,
  cooldown_duration, run_workloads, run_expectations, run, steps,
}
use logos_blockchain_testing.Scenario.Runner.Tasks.{end_of, run_workloads-drain}
use logos_blockchain_testing.Scenario.Runner.Cleanup.{IsClean, run-IsClean}
use logos_blockchain_testing.Scenario.Runner.Verdicts.{
  Panics, Returns, failures, Passes, Captured, IsMet, run_expectations-failures, steps-ok,
}

abbrev controlled : RunContext
controlled = record {
  has_node_control = true;
  block_interval_hint = some (from_secs 2);
  security_param = 10;
}

abbrev tasks : List (Task String)
tasks =
    record { ends = some (from_secs 5); result = outcome (ok tt); aborted = cancelled }
    ∷ record { ends = some (from_secs 70); result = outcome (err "late"); aborted = cancelled }
    ∷ record { ends = none; result = outcome (ok tt); aborted = cancelled }
    ∷ []

abbrev prepared : Prepared String
prepared = record {
  expectations =
      record { name = "liveness"; start_capture = some (ok tt); evaluate = some (err "behind") }
      ∷ record { name = "inclusion"; start_capture = some (ok tt); evaluate = some (ok tt) }
      ∷ [];
  tasks = tasks;
  duration = from_secs 60;
}

controlled-cooldown : cooldown_duration toy controlled ≡ some (some (from_secs 30))
unfolding cooldown_duration
controlled-cooldown = refl

run_workloads-drain_example :
    run_workloads toy controlled (from_secs 60) tasks
    ≡ drain_workloads (end_of (from_secs 60) (some (from_secs 30))) tasks
run_workloads-drain_example =
    run_workloads-drain toy controlled (from_secs 60) tasks (some (from_secs 30))
      controlled-cooldown

abbrev guard : Option String
guard = some "guard"

run-IsClean_example :
    IsClean toy guard []
      (steps toy controlled prepared)
      (run toy controlled prepared (record { cleanup_guard = guard }) [])
run-IsClean_example = run-IsClean toy controlled prepared guard []

run_expectations-failures_example :
    (Panics prepared.expectations × (run_expectations prepared.expectations ≡ err panic))
    ⊎ (All Returns prepared.expectations
        × Holds
            (λ (done : Unit {0}). All IsMet prepared.expectations)
            (λ x.
              (x ≡ expectations (failures prepared.expectations))
              × (failures prepared.expectations ≢ []))
            (run_expectations prepared.expectations))
run_expectations-failures_example = run_expectations-failures prepared.expectations

steps-ok_example : (steps toy controlled prepared ≡ ok tt) ↔ (
    All Captured prepared.expectations
    × All (λ t. Passes (abort (from_secs 90) t)) tasks
    × All IsMet prepared.expectations)
steps-ok_example = steps-ok toy controlled prepared (some (from_secs 30)) controlled-cooldown
