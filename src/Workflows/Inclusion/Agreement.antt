-- ===== src/Workflows/Inclusion/Agreement.antt =====
-- The expectation tracks the accounts that the workload uses.
use mathlib.Core.Path.{ap₂, ◌≡⟨◌⟩◌, ◌∎}
use logos_blockchain_testing.Prelude.{
  ℕ, zero, suc, ◌≤◌, ◌≡◌, refl, sym, ap, ◌∙◌, Option, none, some, List, [], ◌∷◌, map, length, take,
  length-take, length-map, ok, inl, inr, Result-cases, Holds-ok, ok-injective, arith,
}
use logos_blockchain_testing.Vendor.{Vendor}
use logos_blockchain_testing.Wallet.{WalletAccount, public_key}
use logos_blockchain_testing.Scenario.Metrics.{RunMetrics}
use logos_blockchain_testing.Workflows.Transaction.{
  SubmissionPlan, WalletInput, Workload, limited_user_count, submission_plan,
  target_transaction_count,
}
use logos_blockchain_testing.Workflows.Transaction.Plan.{submission_plan_bounds, Refuses}
use logos_blockchain_testing.Workflows.Transaction.Accounts.{map-take}
use logos_blockchain_testing.Workflows.Transaction.Init.{account_of}
use logos_blockchain_testing.Workflows.Transaction.Submission as Submissions
use logos_blockchain_testing.Workflows.Transaction.Submission.{Submission}
use logos_blockchain_testing.Workflows.Inclusion.{TxInclusionExpectation, build_capture_plan}

take-take {ℓ} : {A : Type ℓ} (m n : ℕ) (xs : List A) → m ≤ n → take m (take n xs) ≡ take m xs
take-take zero n xs h = refl
take-take (suc m) zero xs h = absurd (omega arith)
take-take (suc m) (suc n) [] h = refl
take-take (suc m) (suc n) (x ∷ xs) h = ap (x ∷◌) (take-take m n xs (omega arith))

limited_user_count-le : (limit : Option ℕ) (n : ℕ) → limited_user_count limit n ≤ n
unfolding limited_user_count
limited_user_count-le none n = omega arith
limited_user_count-le (some k) n = omega arith

module _ (v : Vendor) where
  abbrev pub key_of : WalletInput v → v.ZkPublicKey
  key_of input = public_key v input.account

  map-key_of :
      (inputs : List (WalletInput v))
      → map key_of inputs ≡ map (λ a. public_key v a) (map account_of inputs)
  map-key_of [] = refl
  map-key_of (x ∷ inputs) = ap (key_of x ∷◌) (map-key_of inputs)

  -- The keys of the first accounts.
  keys-take :
      (wallet : List (WalletAccount v)) (accounts : List (WalletInput v)) (count limited : ℕ)
      → map account_of accounts ≡ take limited wallet
      → count ≤ limited
      → map (λ a. public_key v a) (take count wallet) ≡ map key_of (take count accounts)
  keys-take wallet accounts count limited e h =
      map (λ a. public_key v a) (take count wallet)
      ≡⟨ ap (map (λ a. public_key v a)) (sym (take-take count limited wallet h)) ⟩
        map (λ a. public_key v a) (take count (take limited wallet))
      ≡⟨ ap (λ as'. map (λ a. public_key v a) (take count as')) (sym e) ⟩
        map (λ a. public_key v a) (take count (map account_of accounts))
      ≡⟨ ap (map (λ a. public_key v a)) (sym (map-take account_of count accounts)) ⟩
        map (λ a. public_key v a) (map account_of (take count accounts))
      ≡⟨ sym (map-key_of (take count accounts)) ⟩ map key_of (take count accounts) ∎

  new_with-ok :
      (Error : Type 0) (rate : ℕ) (metrics : RunMetrics) (accounts : List (WalletInput v))
      (s : Submission v)
      → Submissions.new_with v {Error = Error} rate metrics accounts ≡ ok s
      → (plan : SubmissionPlan) × (submission_plan v {Error = Error} rate metrics (length accounts)
          ≡ ok plan)
        × (s.plan ≡ take plan.transaction_count accounts)
  unfolding Submissions.new_with
  new_with-ok Error rate metrics [] s e = cc
  new_with-ok Error rate metrics (x ∷ accounts) s e =
      elim (Result-cases (submission_plan v {Error = Error} rate metrics (length (x ∷ accounts)))) [
        | inr (failure, failed) ↦ cc (rw failed at e)
        | inl (plan, planned) ↦ (
          plan,
          planned,
          sym (ap (λ (r : Submission v). r.plan) (ok-injective _ s (rw planned at e))),
        )
      ]

  -- Where the accounts of the workload are the first ones of the wallet, as many as the limit allows, and
  -- the expectation has the rate and the limit of the workload, its plan counts the transactions that
  -- the workload submits, and it tracks the accounts that these pay to.
  pub capture_plan-agrees :
      (Error : Type 0) (w : Workload v) (e : TxInclusionExpectation v) (metrics : RunMetrics)
      (a : WalletAccount v) (rest : List (WalletAccount v)) (s : Submission v)
      → e.txs_per_block ≡ w.txs_per_block
      → e.user_limit ≡ w.user_limit
      → map account_of w.accounts
        ≡ take (limited_user_count w.user_limit (length (a ∷ rest))) (a ∷ rest)
      → Submissions.new v {Error = Error} w metrics ≡ ok s
      → (plan : SubmissionPlan) × (build_capture_plan v {Error = Error} e metrics (a ∷ rest)
          ≡ ok (plan, map key_of s.plan))
        × (plan.transaction_count ≡ length s.plan)
  unfolding build_capture_plan Submissions.new
  capture_plan-agrees Error w e metrics a rest s e1 e2 e3 made =
      let wallet = a ∷ rest in
      let limited = limited_user_count w.user_limit (length wallet) in
      let size : length w.accounts ≡ limited = omega (
        arith,
        sym (length-map account_of w.accounts) ∙ ap length e3,
        length-take limited wallet,
        limited_user_count-le w.user_limit (length wallet),
      ) in
      let (plan, planned, taken) = new_with-ok Error w.txs_per_block metrics w.accounts s made in
      let (pos, (d, fits, count, interval)) =
        Holds-ok _
          (Refuses v metrics (length w.accounts)
            (target_transaction_count v w.txs_per_block metrics))
          _ plan planned
          (submission_plan_bounds v Error w.txs_per_block (length w.accounts) metrics) in
      let planned' : submission_plan v {Error = Error} e.txs_per_block metrics
            (limited_user_count e.user_limit (length wallet))
          ≡ ok plan =
        ap₂ (λ rate n. submission_plan v {Error = Error} rate metrics n) e1
          (ap (λ u. limited_user_count u (length wallet)) e2 ∙ sym size)
        ∙ planned in
      let keys =
        keys-take wallet w.accounts plan.transaction_count limited e3 (omega arith)
        ∙ ap (map key_of) (sym taken) in
      (
        plan,
        rw planned' (ap (λ ks. ok (plan, ks)) keys),
        omega (arith, ap length taken, length-take plan.transaction_count w.accounts),
      )
