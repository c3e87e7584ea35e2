-- ===== src/Examples/Texts.antt =====
-- Equality of texts is decidable.
use mathlib.Core.Path.{subst}
use native.Mathlib.Decide.{ℕ_discrete}
use Prim.Native.Nat.{Ordering, compare}
use Prim.Native.Char.{Char, char, code, IsLt, IsScalar}
use Prim.Native.String.{[], ◌∷◌}
use logos_blockchain_testing.Prelude.{ℕ, String, ◌≡◌, refl, ap}

-- The two parts of `IsScalar`
abbrev BothLt : Ordering → Ordering → Type 0
BothLt Ordering.lt o = IsLt o
BothLt Ordering.eq _ = ⊥
BothLt Ordering.gt _ = ⊥

abbrev LtOrBothLt : Ordering → Ordering → Ordering → Type 0
LtOrBothLt Ordering.lt _ _ = Unit
LtOrBothLt Ordering.eq o p = BothLt o p
LtOrBothLt Ordering.gt o p = BothLt o p

BothLt-IsProp : (o p : Ordering) → IsProp (BothLt o p)
BothLt-IsProp Ordering.lt Ordering.lt = hlevel
BothLt-IsProp Ordering.lt Ordering.eq = hlevel
BothLt-IsProp Ordering.lt Ordering.gt = hlevel
BothLt-IsProp Ordering.eq p = hlevel
BothLt-IsProp Ordering.gt p = hlevel

LtOrBothLt-IsProp : (o p q : Ordering) → IsProp (LtOrBothLt o p q)
LtOrBothLt-IsProp Ordering.lt p q = hlevel
LtOrBothLt-IsProp Ordering.eq p q = BothLt-IsProp p q
LtOrBothLt-IsProp Ordering.gt p q = BothLt-IsProp p q

char-eq : (n m : ℕ) (p : IsScalar n) (q : IsScalar m) → n ≡ m → char n p ≡ char m q
char-eq n m p q e =
    subst (λ (k : ℕ). (r : IsScalar k) → char n p ≡ char k r) e
      (λ r.
        ap (char n) (LtOrBothLt-IsProp (compare n 55296) (compare 57343 n) (compare n 1114112) p r))
      q

char_discrete : Discrete Char
char_discrete (char n p) (char m q) = elim (ℕ_discrete n m) [
  | yes e ↦ yes (char-eq n m p q e)
  | no ne ↦ no (λ e. ne (ap code e))
]

pub string_discrete : Discrete String
string_discrete [] [] = yes refl
string_discrete [] (d ∷ t) = no (λ e. cc)
string_discrete (c ∷ s) [] = no (λ e. cc)
string_discrete (c ∷ s) (d ∷ t) = elim (char_discrete c d) [
  | yes e ↦ (elim (string_discrete s t) [ yes e' ↦ yes cc | no ne ↦ no (λ p. ne cc) ])
  | no ne ↦ no (λ p. ne cc)
]
