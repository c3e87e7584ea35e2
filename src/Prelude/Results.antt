-- ===== src/Prelude/Results.antt =====
-- Rust's `Result`, with `?` as bind.
use mathlib.Core.Path.{◌≡◌, refl}
use mathlib.Core.Logic.{◌⊎◌, inl, inr}
use mathlib.Core.Option.{Option, none, some}

pub data Result {ℓ κ} (A : Type ℓ) (E : Type κ) : Type (ℓ ⊔ κ) where
  ok : A → Result A E
  err : E → Result A E

infixl 5 ◌>>=◌ ◌>>◌
abbrev pub ◌>>=◌ {ℓ κ μ} :
    {A : Type ℓ} {B : Type κ} {E : Type μ} → Result A E → (A → Result B E) → Result B E
ok a >>= f = f a
err reason >>= f = err reason

abbrev pub ◌>>◌ {κ μ} : {B : Type κ} {E : Type μ} → Result (Unit {0}) E → Result B E → Result B E
m >> k = m >>= λ _. k

module _ {ℓ κ μ} {A : Type ℓ} {E : Type κ} {F : Type μ} where
  abbrev pub map_err : (E → F) → Result A E → Result A F
  map_err f (ok a) = ok a
  map_err f (err e) = err (f e)

module _ {ℓ κ} {A : Type ℓ} {E : Type κ} where
  abbrev pub ok_or : Option A → E → Result A E
  ok_or none e = err e
  ok_or (some a) e = ok a

-- Inversion of a successful bind.
pub >>=-eq-ok {ℓ κ μ} :
    {A : Type ℓ} {B : Type κ} {E : Type μ} (r : Result A E) (next : A → Result B E) {y : B}
    → (r >>= next) ≡ ok y
    → (x : A) × (r ≡ ok x) × (next x ≡ ok y)
>>=-eq-ok (err e) next made = cc
>>=-eq-ok (ok x) next made = (x, refl, made)

pub map_err-eq-ok {ℓ κ μ} :
    {A : Type ℓ} {E : Type κ} {F : Type μ} (f : E → F) (r : Result A E) {a : A}
    → map_err f r ≡ ok a
    → r ≡ ok a
map_err-eq-ok f (ok a) h = cc
map_err-eq-ok f (err e) h = cc

pub ok-injective {ℓ κ} :
    {A : Type ℓ} {E : Type κ} (a b : A) → ◌≡◌ {A = Result A E} (ok a) (ok b) → a ≡ b
ok-injective a b h = cc

pub Result-cases {ℓ κ} :
    {A : Type ℓ} {E : Type κ} (r : Result A E) → ((a : A) × (r ≡ ok a)) ⊎ ((e : E) × (r ≡ err e))
Result-cases (ok a) = inl (a, refl)
Result-cases (err e) = inr (e, refl)

-- `P` holds of the value, or `Q` of the error.
abbrev pub Holds {ℓ κ μ} :
    {A : Type ℓ} {E : Type κ} → (A → Type μ) → (E → Type μ) → Result A E → Type μ
Holds P Q (ok a) = P a
Holds P Q (err e) = Q e

pub >>=-Holds {ℓ κ μ ν} :
    {A : Type ℓ} {B : Type κ} {E : Type μ} (R : A → Type ν) (P : B → Type ν) (Q : E → Type ν)
    (m : Result A E) (f : A → Result B E)
    → Holds R Q m
    → ((a : A) → m ≡ ok a → R a → Holds P Q (f a))
    → Holds P Q (m >>= f)
>>=-Holds R P Q (ok a) f h k = k a refl h
>>=-Holds R P Q (err e) f h k = h

pub Holds-ok {ℓ κ μ} :
    {A : Type ℓ} {E : Type κ} (P : A → Type μ) (Q : E → Type μ) (r : Result A E) (a : A)
    → r ≡ ok a
    → Holds P Q r
    → P a
Holds-ok P Q r a e h = rw e at h

pub Holds-err {ℓ κ μ} :
    {A : Type ℓ} {E : Type κ} (P : A → Type μ) (Q : E → Type μ) (r : Result A E) (x : E)
    → r ≡ err x
    → Holds P Q r
    → Q x
Holds-err P Q r x e h = rw e at h

pub Holds-map {ℓ κ μ} :
    {A : Type ℓ} {E : Type κ} (P : A → Type μ) (P' : A → Type μ) (Q : E → Type μ) (r : Result A E)
    → Holds P Q r
    → ((a : A) → P a → P' a)
    → Holds P' Q r
Holds-map P P' Q (ok a) h k = k a h
Holds-map P P' Q (err e) h k = h

pub Holds-mono {ℓ κ μ} :
    {A : Type ℓ} {E : Type κ} (P : A → Type μ) (P' : A → Type μ) (Q : E → Type μ) (Q' : E → Type μ)
    (r : Result A E)
    → ((a : A) → P a → P' a)
    → ((e : E) → Q e → Q' e)
    → Holds P Q r
    → Holds P' Q' r
Holds-mono P P' Q Q' (ok a) f g h = f a h
Holds-mono P P' Q Q' (err e) f g h = g e h
