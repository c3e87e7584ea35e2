-- ===== src/Prelude/Sets.antt =====
-- Rust's hash sets of numbers, as lists without duplicates whose order is the iteration order, and
-- the number of indices below a bound that pass a test.
use Prim.Native.Nat.{ℕ, zero, suc, ◌≤◌, ◌<◌}
use mathlib.Core.Path.{◌≡◌, refl, ap}
use mathlib.Core.Bool.{Bool, false, ◌||◌}
use mathlib.Core.Logic.{inl, inr}
use mathlib.Core.List.{List, [], ◌∷◌}
use native.Mathlib.Omega.{arith}
use logos_blockchain_testing.Prelude.Tests.{◌==◌, ltb, if◌then◌else◌, Bool-cases, ltb→lt}

-- `HashSet::contains`
unfoldable pub contains : List ℕ → ℕ → Bool
contains [] a = false
contains (x ∷ xs) a = x == a || contains xs a

-- `HashSet::insert`
unfoldable pub insert : List ℕ → ℕ → List ℕ
unfolding contains
insert xs a = if contains xs a then xs else a ∷ xs

pub contains-insert : (xs : List ℕ) (a b : ℕ) → contains (insert xs a) b ≡ (a == b || contains xs b)
unfolding insert
contains-insert xs a b = ground (arith, contains_eq xs a b)
  where
    contains_eq : (xs : List ℕ) (a b : ℕ) → a ≡ b → contains xs a ≡ contains xs b
    contains_eq xs a b e = ap (contains xs) e

-- How many numbers below `n` pass `test`.
unfoldable pub count_below : ℕ → (ℕ → Bool) → ℕ
count_below zero test = 0
count_below (suc n) test = let rest = count_below n test in if test n then suc rest else rest

pub count_below-le : (n : ℕ) (test : ℕ → Bool) → count_below n test ≤ n
unfolding count_below
count_below-le zero test = omega arith
count_below-le (suc n) test = ground (arith, count_below-le n test)

-- Only the tests below the bound count.
pub count_below_eq :
    (n : ℕ) (f g : ℕ → Bool) → ((k : ℕ) → k < n → f k ≡ g k) → count_below n f ≡ count_below n g
unfolding count_below
count_below_eq zero f g h = refl
count_below_eq (suc n) f g h =
    ground (arith, count_below_eq n f g (λ k l. h k (omega arith)), h n (omega arith))

-- One more number below the bound passes.
pub count_below-add :
    (n j : ℕ) (f : ℕ → Bool)
    → j < n
    → f j ≡ false
    → count_below n (λ k. j == k || f k) ≡ suc (count_below n f)
unfolding count_below
count_below-add zero j f lt fresh = absurd (omega arith)
count_below-add (suc n) j f lt fresh = elim (Bool-cases (ltb j n)) [
  | inl below ↦ ground (arith, count_below-add n j f (omega (arith, ltb→lt j n below)) fresh)
  | inr last ↦ ground (
    arith,
    count_below_eq n (λ k. j == k || f k) f (λ k l. ground arith),
    ap f (let same : j ≡ n = ground arith in same),
  )
]
