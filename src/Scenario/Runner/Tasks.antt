-- ===== src/Scenario/Runner/Tasks.antt =====
-- The workloads of a run: which of their results count.
use logos_blockchain_testing.Prelude.{
  ◌+◌, ◌≤◌, ◌≡◌, refl, ◌==◌, true, Bool-cases, Option-cases, ap, ◌∙◌, Option, none, some, List, [],
  ◌∷◌, Result, ok, err, inl, inr, Result-cases, ◌>>=◌, arith,
}
use logos_blockchain_testing.Vendor.{Vendor}
use logos_blockchain_testing.Config.Base.{Duration}
use logos_blockchain_testing.Scenario.Runner.{
  Task, RunContext, map_join_result, ends_by, drive_until, drain_workloads, cooldown_duration,
  cool_down, run_workloads,
}

-- When a run with a cooldown ends.
abbrev pub end_of : Duration → Option Duration → Duration
end_of duration none = duration
end_of duration (some cooldown) = duration + cooldown

end_of-ge : (duration : Duration) (cooldown : Option Duration) → duration ≤ end_of duration cooldown
end_of-ge duration none = omega arith
end_of-ge duration (some c) = omega arith

bind_cong :
    {A B E : Type 0} (m : Result A E) (f g : A → Result B E)
    → ((a : A) → f a ≡ g a)
    → (m >>= f) ≡ (m >>= g)
bind_cong (ok a) f g h = h a
bind_cong (err e) f g h = refl

module _ {DynError : Type 0} where
  ends_by_mono :
      (d1 d2 : Duration) (t : Task DynError) → d1 ≤ d2 → ends_by d1 t ≡ true → ends_by d2 t ≡ true
  ends_by_mono d1 d2 t h e = elim (Option-cases t.ends) [
    | inl never ↦ ground (arith, never)
    | inr (at, ends) ↦ ground (arith, ends)
  ]

  -- Driving to one time and draining at a later one is draining at the later one.
  drain-drive :
      (d1 d2 : Duration) (tasks : List (Task DynError))
      → d1 ≤ d2
      → (drive_until d1 tasks >>= λ driven. drain_workloads d2 driven.1) ≡ drain_workloads d2 tasks
  unfolding drive_until drain_workloads
  drain-drive d1 d2 [] h = refl
  drain-drive d1 d2 (t ∷ rest) h = elim (Bool-cases (ends_by d1 t)) [
    | inr later ↦ rw later refl
    | inl ended ↦
        rw (ended, ends_by_mono d1 d2 t h ended)
          (elim (Result-cases (map_join_result t.result)) [
            | inl (done, e) ↦ rw e (drain-drive d1 d2 rest h)
            | inr (x, e) ↦ rw e refl
          ])
  ]

  cool_down-drain :
      (duration : Duration) (cooldown : Option Duration) (tasks : List (Task DynError))
      → cool_down duration (some cooldown) tasks ≡ drain_workloads (end_of duration cooldown) tasks
  unfolding drain_workloads cool_down
  cool_down-drain duration none tasks = refl
  cool_down-drain duration (some c) [] = refl
  cool_down-drain duration (some c) (t ∷ rest) = elim (Bool-cases (c == 0)) [
    | inl e ↦
        (let same : duration ≡ duration + c = ground arith in
          rw e (ap (λ d. drain_workloads d (t ∷ rest)) same))
    | inr e ↦ rw e (drain-drive (duration + c) (duration + c) (t ∷ rest) (omega arith))
  ]

  -- Where the cooldown is a duration, the workloads of a run come to what the first error makes of them,
  -- in the order in which they end: of each that ends by itself before the end of the run, cooldown
  -- included, its own result; of any other, what the abort makes of it.
  pub run_workloads-drain :
      (v : Vendor) (ctx : RunContext) (duration : Duration) (tasks : List (Task DynError))
      (cooldown : Option Duration)
      → cooldown_duration v ctx ≡ some cooldown
      → run_workloads v ctx duration tasks ≡ drain_workloads (end_of duration cooldown) tasks
  unfolding run_workloads drain_workloads
  run_workloads-drain v ctx duration [] cooldown e = rw e refl
  run_workloads-drain v ctx duration (t ∷ rest) cooldown e = rw e (
      bind_cong (drive_until duration (t ∷ rest)) _
        (λ driven. drain_workloads (end_of duration cooldown) driven.1)
        (λ driven. cool_down-drain duration cooldown driven.1)
      ∙ drain-drive duration (end_of duration cooldown) (t ∷ rest) (end_of-ge duration cooldown))
