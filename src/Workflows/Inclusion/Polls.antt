-- ===== src/Workflows/Inclusion/Polls.antt =====
-- The verdict of the inclusion expectation, and the number of loads that it takes.
use mathlib.Core.Path.{subst}
use native.Mathlib.Decide.{dec_lt}
use logos_blockchain_testing.Prelude.{
  ℕ, zero, suc, ◌+◌, ◌-◌, ◌/◌, ◌≤◌, ◌<◌, ◌≡◌, refl, sym, ap, ltb, leb, min, ◌&&◌, Bool-cases,
  Option, some, inl, inr, Holds, Holds-mono, arith,
}
use logos_blockchain_testing.Vendor.{Vendor}
use logos_blockchain_testing.Config.Base.{Duration, from_secs}
use logos_blockchain_testing.Workflows.Inclusion.{
  CaptureState, TxExpectationError, insufficient_inclusions, missing_accounts,
  no_planned_transactions, not_captured, planning, out_of_fuel, panic, required_of, hinted_wait,
  verdict, poll, evaluate_state, max_catchup_wait,
}

-- The loads after the first: one for each second of the wait that has begun.
abbrev pub polls : Duration → ℕ
polls wait = (wait + (from_secs 1 - 1)) / from_secs 1

abbrev pub Below : (ℕ → ℕ) → ℕ → ℕ → ℕ → Type 0
Below observed required n last = (m : ℕ) → n ≤ m → m ≤ last → observed m < required

module _ (v : Vendor) where
  -- The loads from `n` to `last` all show too few, and the error says so of the last.
  abbrev pub IsShort : {Error : Type 0} → (ℕ → ℕ) → ℕ → ℕ → ℕ → TxExpectationError Error → Type 0
  IsShort observed required n last (insufficient_inclusions seen r) =
      (seen ≡ observed last) × (r ≡ required) × Below observed required n last
  IsShort observed required n last _ = ⊥

  -- One of the loads from `n` to `last` shows enough.
  abbrev pub IsSeen : (ℕ → ℕ) → ℕ → ℕ → ℕ → Type 0
  IsSeen observed required n last = (m : ℕ) × (n ≤ m) × (m ≤ last) × (required ≤ observed m)

  Below-cons :
      (observed : ℕ → ℕ) (required n last : ℕ)
      → observed n < required
      → Below observed required (suc n) last
      → Below observed required n last
  Below-cons observed required n last first later m h k = elim (dec_lt n m) [
    | yes lt ↦ later m lt k
    | no ge ↦ (let same : n ≡ m = omega arith in subst (λ i. observed i < required) same first)
  ]

  IsShort-cons :
      {Error : Type 0} (observed : ℕ → ℕ) (required n last : ℕ) (e : TxExpectationError Error)
      → observed n < required
      → IsShort observed required (suc n) last e
      → IsShort observed required n last e
  IsShort-cons observed required n last (insufficient_inclusions seen r) h (a, b, c) =
      (a, b, Below-cons observed required n last h c)
  IsShort-cons observed required n last missing_accounts h k = k
  IsShort-cons observed required n last no_planned_transactions h k = k
  IsShort-cons observed required n last not_captured h k = k
  IsShort-cons observed required n last (planning e) h k = k
  IsShort-cons observed required n last panic h k = k
  IsShort-cons observed required n last out_of_fuel h k = k

  verdict-Holds :
      (Error : Type 0) (observed : ℕ → ℕ) (required n last : ℕ)
      → n ≤ last
      → (observed n < required → last ≡ n)
      → Holds
          (λ (done : Unit {0}). IsSeen observed required n last)
          (IsShort observed required n last)
          (verdict v {Error = Error} (observed n) required)
  verdict-Holds Error observed required n last le ends =
      elim (Bool-cases (leb required (observed n))) [
        | inl e ↦ rw e (n, omega arith, le, ground arith)
        | inr e ↦
            (let few : observed n < required = ground arith in
              rw e (
                ap observed (sym (ends few)),
                refl,
                Below-cons observed required n last few (λ m h k. absurd (omega (arith, ends few))),
              ))
      ]

  poll-Holds :
      (Error : Type 0) (fuel : ℕ) (observed : ℕ → ℕ) (required : ℕ) (remaining : Duration)
      (n last : ℕ)
      → polls remaining < fuel
      → last ≡ n + polls remaining
      → Holds
          (λ (done : Unit {0}). IsSeen observed required n last)
          (IsShort observed required n last)
          (poll v {Error = Error} fuel observed required remaining n)
  unfolding poll
  poll-Holds Error zero observed required remaining n last h e = absurd (omega arith)
  poll-Holds Error (suc fuel) observed required remaining n last h e =
      elim (Bool-cases (ltb (observed n) required && ltb 0 remaining)) [
        | inl on ↦
            (let few : (observed n < required) × (0 < remaining) = ground arith in
              rw (on, poll)
                (Holds-mono _ _ _ _
                  (poll v {Error = Error} fuel observed required (remaining - from_secs 1) (suc n))
                  (λ done (m, a, b, c). (m, omega arith, b, c))
                  (λ x k. IsShort-cons observed required n last x few.0 k)
                  (poll-Holds Error fuel observed required (remaining - from_secs 1) (suc n) last
                    (omega arith) (omega arith))))
        | inr off ↦
            rw (off, poll)
              (verdict-Holds Error observed required n last (omega arith)
                (λ few. let none_left : remaining ≡ 0 = ground arith in omega arith))
      ]

  -- With a wait of at most a minute, the expectation loads the counter at once, and again for each
  -- second of the wait that has begun. It is met just by a load that shows enough. Where it is not met,
  -- all of these loads show too few, and the error holds the last of them and what was required. No
  -- other error is possible, so that the rounds of the model are enough.
  pub evaluate_state_verdict :
      (Error : Type 0) (security_param : ℕ) (hint : Option Duration) (observed : ℕ → ℕ)
      (state : CaptureState v) (wait : Duration)
      → hinted_wait v security_param hint ≡ some wait
      → let required = required_of v state.expected in
        let last = polls (min wait max_catchup_wait) in
        Holds
          (λ (done : Unit {0}). IsSeen observed required 0 last)
          (IsShort observed required 0 last)
          (evaluate_state v {Error = Error} security_param hint observed state)
  unfolding evaluate_state
  evaluate_state_verdict Error security_param hint observed state wait hinted =
      let required = required_of v state.expected in
      let last = polls (min wait max_catchup_wait) in
      elim (Bool-cases (ltb (observed 0) required)) [
        | inl few ↦
            rw (few, evaluate_state)
              (rw (hinted) (
                poll-Holds Error 61 observed required (min wait max_catchup_wait) 0 last
                  (omega arith) (omega arith)))
        | inr enough ↦
            rw (enough, evaluate_state)
              (verdict-Holds Error observed required 0 last (omega arith)
                (λ few. absurd (ground arith)))
      ]
