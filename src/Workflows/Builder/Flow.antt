-- ===== src/Workflows/Builder/Flow.antt =====
-- What the calls of a transaction builder come to.
use logos_blockchain_testing.Prelude.{
  ℕ, ◌<◌, ◌≡◌, ◌≢◌, refl, ◌==◌, false, Bool-cases, inl, inr, Option, none, some, List, [], ◌∷◌,
  if◌then◌else◌, Result, ok, err, arith, zero, suc,
}
use logos_blockchain_testing.Vendor.{Vendor}
use logos_blockchain_testing.Config.Ledger.{Ledger}
use logos_blockchain_testing.Scenario.Definition as Definitions
use logos_blockchain_testing.Scenario.Definition.{Components, Builder}
use logos_blockchain_testing.Workflows.Transaction as Transactions
use logos_blockchain_testing.Workflows.Transaction.{Workload}
use logos_blockchain_testing.Workflows.Builder.{
  BuilderInputError, zero_value, Boxed, TransactionFlowBuilder, transactions, rate, rate_per_block,
  users, try_rate, try_users, apply, transactions_with,
}

-- A call of `rate` or of `users`.
pub data FlowCall : Type 0 where
  with_rate : ℕ → FlowCall
  with_users : ℕ → FlowCall

-- The numbers other than zero that `rate` and `users` are called with.
abbrev pub rates : List FlowCall → List ℕ
rates [] = []
rates (with_rate zero ∷ calls) = rates calls
rates (with_rate (suc n) ∷ calls) = suc n ∷ rates calls
rates (with_users n ∷ calls) = rates calls

abbrev pub user_counts : List FlowCall → List ℕ
user_counts [] = []
user_counts (with_users zero ∷ calls) = user_counts calls
user_counts (with_users (suc n) ∷ calls) = suc n ∷ user_counts calls
user_counts (with_rate n ∷ calls) = user_counts calls

abbrev pub last_or : ℕ → List ℕ → ℕ
last_or default [] = default
last_or default (n ∷ rest) = last_or n rest

abbrev pub last : Option ℕ → List ℕ → Option ℕ
last default [] = default
last default (n ∷ rest) = last (some n) rest

last_or-pos :
    (default : ℕ) (calls : List FlowCall) → 0 < default → 0 < last_or default (rates calls)
last_or-pos default [] h = h
last_or-pos default (with_rate zero ∷ calls) h = last_or-pos default calls h
last_or-pos default (with_rate (suc n) ∷ calls) h = last_or-pos (suc n) calls (omega arith)
last_or-pos default (with_users n ∷ calls) h = last_or-pos default calls h

last-ne-zero :
    (default : Option ℕ) (calls : List FlowCall)
    → default ≢ some 0
    → last default (user_counts calls) ≢ some 0
last-ne-zero default [] h = h
last-ne-zero default (with_users zero ∷ calls) h = last-ne-zero default calls h
last-ne-zero default (with_users (suc n) ∷ calls) h =
    last-ne-zero (some (suc n)) calls (λ e. ground arith)
last-ne-zero default (with_rate n ∷ calls) h = last-ne-zero default calls h

-- The workload that a builder with the calls attaches.
abbrev pub flow_workload : (v : Vendor) → List FlowCall → Workload v
flow_workload v calls = record {
  txs_per_block = last_or 1 (rates calls);
  user_limit = last none (user_counts calls);
  accounts = [];
}

-- The value, or what there was.
abbrev pub or_else {ℓ} : {A : Type ℓ} → A → Result A BuilderInputError → A
or_else f (ok a) = a
or_else f (err e) = f

module _ {v : Vendor} {l : Ledger v} (c : Components v l) {Caps : Type 0} where
  unfoldable pub call_all :
      List FlowCall → TransactionFlowBuilder c Caps → TransactionFlowBuilder c Caps
  unfolding rate users
  call_all [] f = f
  call_all (with_rate n ∷ calls) f = call_all calls (rate c f n)
  call_all (with_users n ∷ calls) f = call_all calls (users c f n)

  call_all_lem :
      (calls : List FlowCall) (f : TransactionFlowBuilder c Caps)
      → call_all calls f
        ≡ record f { rate = last_or f.rate (rates calls); users = last f.users (user_counts calls) }
  unfolding call_all rate users
  call_all_lem [] f = refl
  call_all_lem (with_rate zero ∷ calls) f = call_all_lem calls f
  call_all_lem (with_rate (suc n) ∷ calls) f =
      let positive : (suc n == 0) ≡ false = ground arith in
      rw positive (call_all_lem calls (record f { rate = suc n }))
  call_all_lem (with_users zero ∷ calls) f = call_all_lem calls f
  call_all_lem (with_users (suc n) ∷ calls) f =
      let positive : (suc n == 0) ≡ false = ground arith in
      rw positive (call_all_lem calls (record f { users = some (suc n) }))

  -- Whatever `rate` and `users` are called with, `transactions_with` attaches one workload, and its
  -- expectations, and changes nothing else of the scenario. The workload has the last rate and the last
  -- number of users that were not zero, or the rate 1 and no limit. So its rate is positive, and its
  -- limit is not zero.
  pub transactions_with-calls :
      (boxed : Boxed c) (b : Builder c Caps) (calls : List FlowCall)
      → let w = flow_workload v calls in
        (transactions_with c boxed b (call_all calls)
          ≡ Definitions.with_workload c b (boxed.transaction w))
        × (0 < w.txs_per_block)
        × (w.user_limit ≢ some 0)
  unfolding transactions_with transactions apply Transactions.new Transactions.with_user_limit
      call_all
  transactions_with-calls boxed b calls = (
    rw (call_all_lem calls (transactions c b)) refl,
    last_or-pos 1 calls (omega arith),
    last-ne-zero none calls (λ e. cc),
  )

  -- `try_rate` and `try_users` refuse zero, naming the field, and do what `rate` and `users` do for any
  -- other number. Nothing panics: `rate` and `users` keep the builder where the others refuse.
  pub try_agrees :
      (f : TransactionFlowBuilder c Caps) (n : ℕ)
      → (try_rate c f n ≡ (if n == 0 then err (zero_value "transaction_rate") else ok (rate c f n)))
        × (try_users c f n
            ≡ (if n == 0 then err (zero_value "transaction_users") else ok (users c f n)))
        × (rate c f n ≡ or_else f (try_rate c f n))
        × (users c f n ≡ or_else f (try_users c f n))
  unfolding try_rate try_users rate users rate_per_block
  try_agrees f n = elim (Bool-cases (n == 0)) [
    | inl e ↦ rw e (refl, refl, refl, refl)
    | inr e ↦ rw e (refl, refl, refl, refl)
  ]
