-- ===== src/Scenario/Runner/Verdicts.antt =====
-- When a run succeeds, and what its error reports.
use mathlib.Core.List.{append_assoc, append-nil}
use logos_blockchain_testing.Prelude.{
  ℕ, suc, get_elem?, none, Option-cases, All-get_elem?, ◌⊎◌, ◌≡◌, ◌≢◌, ◌↔◌, refl, sym, ap, ◌∙◌,
  Option, some, List, [], ◌∷◌, ◌++◌, String, Result, ok, err, inl, inr, ◌>>=◌, All, Holds,
}
use logos_blockchain_testing.Vendor.{Vendor}
use logos_blockchain_testing.Config.Base.{Duration}
use logos_blockchain_testing.Scenario.Runner.{
  panic, expectations, Expectation, JoinResult, outcome, cancelled, failed, Task, RunContext,
  Prepared, map_join_result, abort, drain_workloads, cooldown_duration, prepare_expectations,
  collect_failures, report, run_expectations, run_workloads, steps,
}
use logos_blockchain_testing.Scenario.Runner.Tasks.{end_of, run_workloads-drain}

>>=-ok_iff :
    {E : Type 0} (m n : Result (Unit {0}) E)
    → ((m >>= λ done. n) ≡ ok tt) ↔ ((m ≡ ok tt) × (n ≡ ok tt))
>>=-ok_iff (ok tt) n = (λ h. (refl, h), λ h. h.1)
>>=-ok_iff (err e) n = (λ h. cc, λ h. cc (h.0))

module _ {DynError : Type 0} where
  abbrev pub failure_of :
      Expectation DynError → Option (Result (Unit {0}) DynError) → List (String × DynError)
  failure_of e none = []
  failure_of e (some (ok done)) = []
  failure_of e (some (err source)) = (e.name, source) ∷ []

  -- The evaluation returns.
  abbrev pub Returns : Expectation DynError → Type 0
  Returns e = (r : Result (Unit {0}) DynError) × (e.evaluate ≡ some r)

  -- Some evaluation panics.
  abbrev pub Panics : List (Expectation DynError) → Type 0
  Panics es = (i : ℕ) × (e : Expectation DynError) × (get_elem? es i ≡ some e) × (e.evaluate ≡ none)

  -- The expectations that are not met, with their errors, in their order.
  abbrev pub failures : List (Expectation DynError) → List (String × DynError)
  failures [] = []
  failures (e ∷ rest) = failure_of e e.evaluate ++ failures rest

  collect_failures-cases :
      (es : List (Expectation DynError)) (found : List (String × DynError))
      → (Panics es × (collect_failures es found ≡ none))
        ⊎ (All Returns es × (collect_failures es found ≡ some (found ++ failures es)))
  unfolding collect_failures
  collect_failures-cases [] found = inr (tt, ap (λ x. some x) (sym (append-nil found)))
  collect_failures-cases (e ∷ rest) found = elim (Option-cases e.evaluate) [
    | inl panics ↦ inl ((0, e, refl, panics), rw panics refl)
    | inr (ok done, met) ↦ (elim (collect_failures-cases rest found) [
      | inl ((i, other, there, panics), none_of) ↦
          inl ((suc i, other, there, panics), rw met none_of)
      | inr (all, same) ↦ inr (((ok done, met), all), rw met same)
    ])
    | inr (err source, unmet) ↦
        (elim (collect_failures-cases rest (found ++ (e.name, source) ∷ [])) [
          | inl ((i, other, there, panics), none_of) ↦
              inl ((suc i, other, there, panics), rw unmet none_of)
          | inr (all, same) ↦ inr (
            ((err source, unmet), all),
            rw unmet (
                same
                ∙ ap (λ x. some x) (append_assoc found ((e.name, source) ∷ []) (failures rest))),
          )
        ])
  ]

  -- The task's result does not fail the run: it is a success or a cancellation.
  abbrev pub Passes : JoinResult DynError → Type 0
  Passes (outcome r) = r ≡ ok tt
  Passes cancelled = Unit {0}
  Passes (failed e) = ⊥

  abbrev pub Captured : Expectation DynError → Type 0
  Captured e = e.start_capture ≡ some (ok tt)

  abbrev pub IsMet : Expectation DynError → Type 0
  IsMet e = e.evaluate ≡ some (ok tt)

  Passes-map_join_result : (r : JoinResult DynError) → (map_join_result r ≡ ok tt) ↔ Passes r
  unfolding map_join_result
  Passes-map_join_result (outcome (ok tt)) = (λ h. refl, λ h. refl)
  Passes-map_join_result (outcome (err e)) = (λ h. cc, λ h. cc)
  Passes-map_join_result cancelled = (λ h. tt, λ h. refl)
  Passes-map_join_result (failed e) = (λ h. cc, λ h. absurd h)

  prepare_iff :
      (es : List (Expectation DynError)) → (prepare_expectations es ≡ ok tt) ↔ All Captured es
  unfolding prepare_expectations
  prepare_iff [] = (λ h. tt, λ h. refl)
  prepare_iff (e ∷ rest) = elim (Option-cases e.start_capture) [
    | inl panics ↦ rw panics (λ h. cc, λ h. cc (h.0))
    | inr (ok tt, done) ↦
        rw done (λ h. (refl, (prepare_iff rest).0 h), λ h. (prepare_iff rest).1 h.1)
    | inr (err x, lost) ↦ rw lost (λ h. cc, λ h. cc (h.0))
  ]

  drain_iff :
      (now : Duration) (tasks : List (Task DynError))
      → (drain_workloads now tasks ≡ ok tt) ↔ All (λ t. Passes (abort now t)) tasks
  unfolding drain_workloads
  drain_iff now [] = (λ h. tt, λ h. refl)
  drain_iff now (t ∷ rest) = (
    λ h.
        let (first, others) =
          (>>=-ok_iff (map_join_result (abort now t)) (drain_workloads now rest)).0 h in
        ((Passes-map_join_result (abort now t)).0 first, (drain_iff now rest).0 others),
    λ h.
        (>>=-ok_iff (map_join_result (abort now t)) (drain_workloads now rest)).1
          ((Passes-map_join_result (abort now t)).1 h.0, (drain_iff now rest).1 h.1),
  )

  failures-nil_iff :
      (es : List (Expectation DynError)) → All Returns es → (failures es ≡ []) ↔ All IsMet es
  failures-nil_iff [] all = (λ h. tt, λ h. refl)
  failures-nil_iff (e ∷ rest) ((ok tt, met), all) =
      let later = failures-nil_iff rest all in rw met (λ h. (refl, later.0 h), λ h. later.1 h.1)
  failures-nil_iff (e ∷ rest) ((err x, unmet), all) = rw unmet (λ h. cc, λ h. cc (h.0))

  report-nil : (fs : List (String × DynError)) → report fs ≡ ok tt → fs ≡ []
  report-nil [] h = refl
  report-nil (f ∷ fs) h = cc

  report-Holds :
      (es : List (Expectation DynError)) (fs : List (String × DynError))
      → All Returns es
      → failures es ≡ fs
      → Holds
          (λ (done : Unit {0}). All IsMet es)
          (λ x. (x ≡ expectations fs) × (fs ≢ []))
          (report fs)
  report-Holds es [] all e = (failures-nil_iff es all).0 e
  report-Holds es (f ∷ fs) all e = (refl, λ h. cc)

  run_expectations_iff :
      (es : List (Expectation DynError)) → (run_expectations es ≡ ok tt) ↔ All IsMet es
  unfolding run_expectations
  run_expectations_iff es = elim (collect_failures-cases es []) [
    | inl ((i, e, there, panics), none_of) ↦
        rw none_of (λ h. cc, λ all. let met = All-get_elem? IsMet es i e all there in cc)
    | inr (all, same) ↦ rw same (
      λ h. (failures-nil_iff es all).0 (report-nil (failures es) h),
      λ h. ap report ((failures-nil_iff es all).1 h),
    )
  ]

  -- Where an evaluation panics, the evaluation of the expectations panics. Otherwise all expectations of
  -- a run are evaluated: the error has every one that is not met, with its own error, in their order,
  -- and there is no error where all are met.
  pub run_expectations-failures :
      (es : List (Expectation DynError))
      → (Panics es × (run_expectations es ≡ err panic))
        ⊎ (All Returns es
            × Holds
                (λ (done : Unit {0}). All IsMet es)
                (λ x. (x ≡ expectations (failures es)) × (failures es ≢ []))
                (run_expectations es))
  unfolding run_expectations
  run_expectations-failures es = elim (collect_failures-cases es []) [
    | inl (panics, none_of) ↦ inl (panics, rw none_of refl)
    | inr (all, same) ↦ inr (all, rw same (report-Holds es (failures es) all refl))
  ]

  -- Where the cooldown is a duration, a run succeeds just if every expectation can start its capture,
  -- every workload that ends by itself before the end of the run, cooldown included, ends without an
  -- error, every other one is aborted without one, and every expectation is met.
  pub steps-ok :
      (v : Vendor) (ctx : RunContext) (s : Prepared DynError) (cooldown : Option Duration)
      → cooldown_duration v ctx ≡ some cooldown
      → (steps v ctx s ≡ ok tt) ↔ (
          All Captured s.expectations
          × All (λ t. Passes (abort (end_of s.duration cooldown) t)) s.tasks
          × All IsMet s.expectations)
  unfolding steps
  steps-ok v ctx s cooldown e =
      let first =
        >>=-ok_iff (prepare_expectations s.expectations)
          (run_workloads v ctx s.duration s.tasks >>= λ worked. run_expectations s.expectations) in
      let second =
        >>=-ok_iff (run_workloads v ctx s.duration s.tasks) (run_expectations s.expectations) in
      let drained = run_workloads-drain v ctx s.duration s.tasks cooldown e in
      let drain = drain_iff (end_of s.duration cooldown) s.tasks in
      (
        λ h.
            let (prepared, later) = first.0 h in
            let (worked, met) = second.0 later in
            (
              (prepare_iff s.expectations).0 prepared,
              drain.0 (sym drained ∙ worked),
              (run_expectations_iff s.expectations).0 met,
            ),
        λ h. first.1 (
          (prepare_iff s.expectations).1 h.0,
          second.1 (drained ∙ drain.1 h.1, (run_expectations_iff s.expectations).1 h.2),
        ),
      )
