-- ===== src/Scenario/Runner.antt =====
-- testing-framework/core/src/scenario/runtime/runner.rs: the run of a scenario. A workload is a task
-- that ends by itself at some time of the run, or not before it is aborted. The tasks of a join set
-- stand in the order in which they end. `panic` is an unwinding: of a duration that overflows, or of an
-- expectation. The panic of a workload is an error of its task. The waits are
-- left out where nothing is observed after them.
pub mod Tasks
pub mod Verdicts
pub mod Cleanup
use logos_blockchain_testing.Prelude.{
  ℕ, zero, suc, ◌+◌, ◌*◌, max, ◌==◌, leb, Bool, true, false, not, ◌&&◌, Option, none, some, List,
  [], ◌∷◌, ◌++◌, String, if◌then◌else◌, Result, ok, err, map_err, ◌>>=◌,
}
use logos_blockchain_testing.Vendor.{Vendor}
use logos_blockchain_testing.Config.Base.{Duration, from_secs}

-- What `join_next` gives for a task that has ended.
pub data JoinResult (DynError : Type 0) : Type 0 where
  outcome : Result (Unit {0}) DynError → JoinResult DynError
  cancelled : JoinResult DynError
  -- another error of the task, as the error that it is made into
  failed : DynError → JoinResult DynError

-- A task: when it ends by itself, if it does, with which result, and what an abort makes of it.
pub record Task (DynError : Type 0) : Type 0 where
  pub ends : Option Duration
  pub result : JoinResult DynError
  pub aborted : JoinResult DynError

-- The failures of the expectations, by their names, are not yet joined to one text.
pub data ScenarioError (DynError : Type 0) : Type 0 where
  workload : DynError → ScenarioError DynError
  expectation_capture : DynError → ScenarioError DynError
  expectations : List (String × DynError) → ScenarioError DynError
  panic : ScenarioError DynError

-- The object behind an expectation: its name, and what its methods answer in this run. `none`: the
-- method panics.
pub record Expectation (DynError : Type 0) : Type 0 where
  pub name : String
  pub start_capture : Option (Result (Unit {0}) DynError)
  pub evaluate : Option (Result (Unit {0}) DynError)

-- What the runner reads of the run context.
pub record RunContext : Type 0 where
  pub has_node_control : Bool
  pub block_interval_hint : Option Duration
  pub security_param : ℕ

abbrev pub min_node_control_cooldown : Duration
min_node_control_cooldown = from_secs 30

abbrev pub default_block_feed_settle_wait : Duration
default_block_feed_settle_wait = from_secs 1

abbrev pub min_block_feed_settle_wait : Duration
min_block_feed_settle_wait = from_secs 2

module _ {DynError : Type 0} where
  unfoldable pub map_join_result : JoinResult DynError → Result (Unit {0}) (ScenarioError DynError)
  map_join_result (outcome r) = map_err workload r
  map_join_result cancelled = ok tt
  map_join_result (failed e) = err (workload e)

  abbrev pub ends_by : Duration → Task DynError → Bool
  ends_by deadline t = elim (t.ends) [ none ↦ false | some at ↦ leb at deadline ]

  -- The loop of `drive_until_timer` up to a deadline, both counted from the start of the run: whether
  -- the timer fired, and the tasks that are left.
  unfoldable pub drive_until :
      Duration
      → List (Task DynError)
      → Result (Bool × List (Task DynError)) (ScenarioError DynError)
  unfolding map_join_result
  drive_until deadline [] = ok (false, [])
  drive_until deadline (t ∷ rest) =
      let others = drive_until deadline rest in
      if ends_by deadline t
      then map_join_result t.result >>= (λ done. others)
      else ok (true, t ∷ rest)

  abbrev pub abort : Duration → Task DynError → JoinResult DynError
  abort deadline t = if ends_by deadline t then t.result else t.aborted

  -- `drain_workloads` at a time of the run.
  unfoldable pub drain_workloads :
      Duration → List (Task DynError) → Result (Unit {0}) (ScenarioError DynError)
  unfolding map_join_result
  drain_workloads now [] = ok tt
  drain_workloads now (t ∷ rest) =
      map_join_result (abort now t) >>= (λ done. drain_workloads now rest)

module _ (v : Vendor) where
  abbrev stabilized : Bool → Duration → Duration
  stabilized needs wait = if needs then max wait min_node_control_cooldown else wait

  -- some none: no cooldown. none: `mul_f64` panics.
  unfoldable pub cooldown_duration : RunContext → Option (Option Duration)
  cooldown_duration ctx = elim (ctx.block_interval_hint) [
    | none ↦ some (if ctx.has_node_control then some min_node_control_cooldown else none)
    | some interval ↦
        if interval == 0 then some none else (elim (v.duration_mul_f64 interval (v.as_f64 5)) [
          | none ↦ none
          | some wait ↦ (elim (v.duration_mul_f64 interval (v.as_f64 ctx.security_param)) [
            | none ↦ none
            | some finality ↦ some (some (stabilized ctx.has_node_control (max wait finality)))
          ])
        ])
  ]

  abbrev or_default : Option Duration → Duration
  or_default none = default_block_feed_settle_wait
  or_default (some hint) = hint

  abbrev is_some : Option Duration → Bool
  is_some none = false
  is_some (some hint) = true

  -- The wait of `settle_before_expectations`, if there is one.
  unfoldable pub settle_before_expectations : RunContext → Option Duration
  settle_before_expectations ctx =
      if not ctx.has_node_control && not (is_some ctx.block_interval_hint)
      then none
      else some (max (or_default ctx.block_interval_hint) min_block_feed_settle_wait)

module _ {DynError : Type 0} where
  abbrev pub captured_or_panic :
      Option (Result (Unit {0}) DynError) → Result (Unit {0}) (ScenarioError DynError)
  captured_or_panic none = err panic
  captured_or_panic (some r) = map_err expectation_capture r

  unfoldable pub prepare_expectations :
      List (Expectation DynError) → Result (Unit {0}) (ScenarioError DynError)
  prepare_expectations [] = ok tt
  prepare_expectations (e ∷ rest) =
      captured_or_panic e.start_capture >>= (λ done. prepare_expectations rest)

  abbrev push_failure :
      Expectation DynError
      → Result (Unit {0}) DynError
      → List (String × DynError)
      → List (String × DynError)
  push_failure e (ok done) failures = failures
  push_failure e (err source) failures = failures ++ (e.name, source) ∷ []

  -- The loop over the expectations. `none`: one of them panics.
  unfoldable pub collect_failures :
      List (Expectation DynError) → List (String × DynError) → Option (List (String × DynError))
  collect_failures [] failures = some failures
  collect_failures (e ∷ rest) failures = elim (e.evaluate) [
    | none ↦ none
    | some r ↦ collect_failures rest (push_failure e r failures)
  ]

  abbrev pub report : List (String × DynError) → Result (Unit {0}) (ScenarioError DynError)
  report [] = ok tt
  report (f ∷ failures) = err (expectations (f ∷ failures))

  abbrev pub report_found :
      Option (List (String × DynError)) → Result (Unit {0}) (ScenarioError DynError)
  report_found none = err panic
  report_found (some failures) = report failures

  unfoldable pub run_expectations :
      List (Expectation DynError) → Result (Unit {0}) (ScenarioError DynError)
  unfolding collect_failures
  run_expectations es = report_found (collect_failures es [])

  -- The part of `run_workloads` from the cooldown on, `duration` after the start.
  unfoldable pub cool_down :
      Duration
      → Option (Option Duration)
      → List (Task DynError)
      → Result (Unit {0}) (ScenarioError DynError)
  unfolding drive_until drain_workloads
  cool_down duration none tasks = err panic
  cool_down duration (some none) tasks = drain_workloads duration tasks
  cool_down duration (some (some cooldown)) [] = ok tt
  cool_down duration (some (some cooldown)) (t ∷ rest) =
      if cooldown == 0
      then drain_workloads duration (t ∷ rest)
      else drive_until (duration + cooldown) (t ∷ rest) >>= λ driven.
          drain_workloads (duration + cooldown) driven.1

  abbrev only_wait : Option (Option Duration) → Result (Unit {0}) (ScenarioError DynError)
  only_wait none = err panic
  only_wait (some cooldown) = ok tt

  -- `run_workloads` for the tasks that the workloads become.
  unfoldable pub run_workloads :
      Vendor
      → RunContext
      → Duration
      → List (Task DynError)
      → Result (Unit {0}) (ScenarioError DynError)
  unfolding drive_until drain_workloads cooldown_duration cool_down
  run_workloads v ctx duration [] = only_wait (cooldown_duration v ctx)
  run_workloads v ctx duration (t ∷ rest) = drive_until duration (t ∷ rest) >>= λ driven.
      cool_down duration (cooldown_duration v ctx) driven.1

-- A scenario as the runner uses it, with the tasks that its workloads become.
pub record Prepared (DynError : Type 0) : Type 0 where
  pub expectations : List (Expectation DynError)
  pub tasks : List (Task DynError)
  pub duration : Duration

-- `Runner` and `RunHandle`, with what they own.
pub record Runner (Guard : Type 0) : Type 0 where
  pub cleanup_guard : Option Guard

pub record RunHandle (Guard : Type 0) : Type 0 where
  pub cleanup_guard : Option Guard

module _ {Guard : Type 0} where
  abbrev call_guard : Option Guard → List Guard → List Guard
  call_guard none log = log
  call_guard (some guard) log = log ++ guard ∷ []

  -- `cleanup`, and the log of the guards whose `cleanup` was called
  unfoldable pub cleanup : Runner Guard → List Guard → Runner Guard × List Guard
  cleanup r log = (record { cleanup_guard = none }, call_guard r.cleanup_guard log)

  -- `drop` of a runner and of a handle
  unfoldable pub drop_runner : Runner Guard → List Guard → List Guard
  unfolding cleanup
  drop_runner r log = (cleanup r log).1

  unfoldable pub drop_handle : RunHandle Guard → List Guard → List Guard
  drop_handle h log = call_guard h.cleanup_guard log

  unfoldable pub into_run_handle : Runner Guard → RunHandle Guard × Runner Guard
  into_run_handle r = (record { cleanup_guard = r.cleanup_guard }, record { cleanup_guard = none })

-- The steps of a run, without the cleanup: the first error is the result.
unfoldable pub steps :
    {DynError : Type 0}
    → Vendor
    → RunContext
    → Prepared DynError
    → Result (Unit {0}) (ScenarioError DynError)
unfolding prepare_expectations run_workloads run_expectations
steps v ctx s = prepare_expectations s.expectations >>= λ prepared.
    run_workloads v ctx s.duration s.tasks >>= λ worked. run_expectations s.expectations

module _ {DynError Guard : Type 0} (v : Vendor) where
  -- A failed step: the runner cleans up and returns the error, but for a panic, which only unwinds.
  abbrev pub fail :
      ScenarioError DynError
      → Runner Guard
      → List Guard
      → Result (RunHandle Guard) (ScenarioError DynError) × Runner Guard × List Guard
  unfolding cleanup
  fail panic r log = (err panic, r, log)
  fail e r log = let (r', log') = cleanup r log in (err e, r', log')

  abbrev succeed :
      Runner Guard
      → List Guard
      → Result (RunHandle Guard) (ScenarioError DynError) × Runner Guard × List Guard
  unfolding into_run_handle
  succeed r log = let (h, r') = into_run_handle r in (ok h, r', log)

  -- The body of `run`, with the runner as it is dropped at the end.
  unfoldable pub run_body :
      RunContext
      → Prepared DynError
      → Runner Guard
      → List Guard
      → Result (RunHandle Guard) (ScenarioError DynError) × Runner Guard × List Guard
  unfolding prepare_expectations run_workloads run_expectations cleanup into_run_handle
  run_body ctx s r log = elim (prepare_expectations s.expectations) [
    | err e ↦ fail e r log
    | ok prepared ↦ (elim (run_workloads v ctx s.duration s.tasks) [
      | err e ↦ fail e r log
      | ok worked ↦ (elim (run_expectations s.expectations) [
        | err e ↦ fail e r log
        | ok met ↦ succeed r log
      ])
    ])
  ]

  -- `run`: the result, and the log when the runner is dropped.
  unfoldable pub run :
      RunContext
      → Prepared DynError
      → Runner Guard
      → List Guard
      → Result (RunHandle Guard) (ScenarioError DynError) × List Guard
  unfolding run_body drop_runner
  run ctx s r log = let (result, r', log') = run_body ctx s r log in (result, drop_runner r' log')
