-- ===== src/Scenario/Runner/Cleanup.antt =====
-- The cleanup of a run.
use logos_blockchain_testing.Prelude.{
  ◌≡◌, refl, sym, ap, Option, none, some, List, [], ◌∷◌, ◌++◌, Result, ok, err, inl, inr,
  Result-cases,
}
use mathlib.Core.Path.{subst}
use mathlib.Core.List.{append-nil}
use logos_blockchain_testing.Vendor.{Vendor}
use logos_blockchain_testing.Scenario.Runner.{
  ScenarioError, workload, expectation_capture, expectations, panic, RunContext, Prepared, Runner,
  RunHandle, fail, cleanup, drop_runner, drop_handle, into_run_handle, prepare_expectations,
  run_workloads, run_expectations, steps, run_body, run,
}

abbrev pub guards : {Guard : Type 0} → Option Guard → List Guard
guards none = []
guards (some guard) = guard ∷ []

-- What the caller of `run` drops: the handle, if there is one.
abbrev pub drop_result :
    {DynError Guard : Type 0}
    → Result (RunHandle Guard) (ScenarioError DynError)
    → List Guard
    → List Guard
drop_result (err e) log = log
drop_result (ok h) log = drop_handle h log

abbrev pub verdict_of :
    {DynError Guard : Type 0}
    → Result (RunHandle Guard) (ScenarioError DynError)
    → Result (Unit {0}) (ScenarioError DynError)
verdict_of (ok h) = ok tt
verdict_of (err e) = err e

module _ {DynError Guard : Type 0} (v : Vendor) where
  -- A successful run calls no cleanup and hands the guard on; a failed one has called its cleanup.
  abbrev pub Owns :
      Option Guard
      → List Guard
      → Result (RunHandle Guard) (ScenarioError DynError) × List Guard
      → Type 0
  Owns guard log (ok h, after) = (h.cleanup_guard ≡ guard) × (after ≡ log)
  Owns guard log (err e, after) = after ≡ log ++ guards guard

  abbrev finish :
      Result (RunHandle Guard) (ScenarioError DynError) × Runner Guard × List Guard
      → Result (RunHandle Guard) (ScenarioError DynError) × List Guard
  unfolding drop_runner
  finish (result, r, log) = (result, drop_runner r log)

  fail_lem :
      (e : ScenarioError DynError) (guard : Option Guard) (log : List Guard)
      → finish (fail v e (record { cleanup_guard = guard }) log) ≡ (err e, log ++ guards guard)
  unfolding fail finish drop_runner cleanup
  fail_lem (workload e) none log = ap (λ x. (err (workload e), x)) (sym (append-nil log))
  fail_lem (workload e) (some g) log = refl
  fail_lem (expectation_capture e) none log =
      ap (λ x. (err (expectation_capture e), x)) (sym (append-nil log))
  fail_lem (expectation_capture e) (some g) log = refl
  fail_lem (expectations e) none log = ap (λ x. (err (expectations e), x)) (sym (append-nil log))
  fail_lem (expectations e) (some g) log = refl
  fail_lem panic none log = ap (λ x. (err panic, x)) (sym (append-nil log))
  fail_lem panic (some g) log = refl

  -- The run with its result as its steps have it.
  abbrev outcome_of :
      Option Guard
      → List Guard
      → Result (Unit {0}) (ScenarioError DynError)
      → Result (RunHandle Guard) (ScenarioError DynError) × List Guard
  outcome_of guard log (ok done) = (ok (record { cleanup_guard = guard }), log)
  outcome_of guard log (err e) = (err e, log ++ guards guard)

  run-outcome :
      (ctx : RunContext) (s : Prepared DynError) (guard : Option Guard) (log : List Guard)
      → run v ctx s (record { cleanup_guard = guard }) log ≡ outcome_of guard log (steps v ctx s)
  unfolding run run_body drop_runner cleanup into_run_handle steps
  run-outcome ctx s guard log = elim (Result-cases (prepare_expectations s.expectations)) [
    | inr (e, failed) ↦ rw (failed, run_body) (fail_lem e guard log)
    | inl (done, prepared) ↦ (elim (Result-cases (run_workloads v ctx s.duration s.tasks)) [
      | inr (e, failed) ↦ rw (prepared, run_body) (rw failed (fail_lem e guard log))
      | inl (done', worked) ↦ (elim (Result-cases (run_expectations s.expectations)) [
        | inr (e, failed) ↦ rw (prepared, run_body) (rw worked (rw failed (fail_lem e guard log)))
        | inl (done'', met) ↦ rw (prepared, run_body) (rw worked (rw met refl))
      ])
    ])
  ]

  -- The promise of a run: its guard is owned or used, its verdict is that of its steps, and when all is
  -- dropped the guard was used once.
  abbrev pub IsClean :
      Option Guard
      → List Guard
      → Result (Unit {0}) (ScenarioError DynError)
      → Result (RunHandle Guard) (ScenarioError DynError) × List Guard
      → Type 0
  IsClean guard log verdict (result, after) =
      Owns guard log (result, after)
      × (verdict_of result ≡ verdict)
      × (drop_result result after ≡ log ++ guards guard)

  outcome_of-IsClean :
      (guard : Option Guard) (log : List Guard)
      (verdict : Result (Unit {0}) (ScenarioError DynError))
      → IsClean guard log verdict (outcome_of guard log verdict)
  unfolding drop_handle
  outcome_of-IsClean none log (ok done) = ((refl, refl), refl, sym (append-nil log))
  outcome_of-IsClean (some g) log (ok done) = ((refl, refl), refl, refl)
  outcome_of-IsClean guard log (err e) = (refl, refl, refl)

  -- The result of a run is that of its steps. A successful run calls no cleanup, and its handle has the
  -- guard; a failed one has called the cleanup of its guard when the runner is dropped, also where it
  -- panics. When the caller drops the result, the cleanup of the guard, if there is one, was called
  -- exactly once on every path.
  pub run-IsClean :
      (ctx : RunContext) (s : Prepared DynError) (guard : Option Guard) (log : List Guard)
      → IsClean guard log (steps v ctx s) (run v ctx s (record { cleanup_guard = guard }) log)
  run-IsClean ctx s guard log =
      subst (IsClean guard log (steps v ctx s)) (sym (run-outcome ctx s guard log))
        (outcome_of-IsClean guard log (steps v ctx s))
