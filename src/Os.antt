-- ===== src/Os.antt =====
-- What the operating system answers: free ports and random bytes, one answer to each call in turn,
-- and the environment variables that the configuration reads. An action returns a result and the
-- answers that are left.
use logos_blockchain_testing.Prelude.{
  ℕ, suc, Bool, Option, none, some, List, [], ◌∷◌, Result, ok, err, map_err, map_err-eq-ok, ◌≡◌,
  refl, ap, inl, inr, length, Holds, Holds-ok, Holds-err, Result-cases,
}

-- A node id: 32 bytes.
abbrev pub NodeId : Type 0
NodeId = List ℕ

pub record Os : Type 0 where
  -- `get_available_udp_port` and `get_available_tcp_port`, the call 0 is the next
  pub udp : ℕ → Option ℕ
  pub tcp : ℕ → Option ℕ
  -- `thread_rng().fill` of an id
  pub random : ℕ → NodeId
  -- LOGOS_BLOCKCHAIN_USE_AUTONAT is set
  pub use_autonat : Bool
  -- CONSENSUS_SLOT_TIME, if it is set and reads as a `u64`
  pub slot_time : Option ℕ
  -- `OffsetDateTime::now_utc()`, in nanoseconds of Unix time
  pub now : ℕ

abbrev pub Io {ℓ κ} : Type ℓ → Type κ → Type (ℓ ⊔ κ)
Io A E = Os → Result A E × Os

module _ {ℓ κ μ} {A : Type ℓ} {B : Type κ} {E : Type μ} where
  abbrev pub continue : Result A E → (A → Io B E) → Os → Result B E × Os
  continue (ok a) f os = f a os
  continue (err e) f os = (err e, os)

  infixl 5 ◌>>=◌
  abbrev pub ◌>>=◌ : Io A E → (A → Io B E) → Io B E
  ◌>>=◌ m f os = let (r, os') = m os in continue r f os'

module _ {ℓ κ} {A : Type ℓ} {E : Type κ} where
  abbrev pub pure : A → Io A E
  pure a os = (ok a, os)

  abbrev pub lift : Result A E → Io A E
  lift r os = (r, os)

module _ {ℓ κ μ} {A : Type ℓ} {E : Type κ} {F : Type μ} where
  -- `?` with a conversion of the error
  abbrev pub convert : (E → F) → Io A E → Io A F
  convert f m os = let (r, os') = m os in (map_err f r, os')

abbrev or_error {ℓ κ} : {A : Type ℓ} {E : Type κ} → E → Option A → Result A E
or_error e none = err e
or_error e (some a) = ok a

-- `get_available_udp_port().ok_or(e)`
unfoldable pub get_available_udp_port {κ} : {E : Type κ} → E → Io ℕ E
get_available_udp_port e os = (or_error e (os.udp 0), record os { udp = λ n. os.udp (suc n) })

-- `get_available_tcp_port().ok_or(e)`
unfoldable pub get_available_tcp_port {κ} : {E : Type κ} → E → Io ℕ E
get_available_tcp_port e os = (or_error e (os.tcp 0), record os { tcp = λ n. os.tcp (suc n) })

unfoldable pub random_id {κ} : {E : Type κ} → Io NodeId E
random_id os = (ok (os.random 0), record os { random = λ n. os.random (suc n) })

-- `collect::<Result<Vec<_>, _>>()`: the action for each element in order, up to the first error.
module _ {ℓ κ μ} {A : Type ℓ} {B : Type κ} {E : Type μ} where
  unfoldable pub traverse : (A → Io B E) → List A → Io (List B) E
  traverse f [] = pure []
  traverse f (a ∷ rest) = do b ← f a; bs ← traverse f rest; pure (b ∷ bs)

-- What holds of an action's result, whatever the operating system answers.
pub >>=-Holds {ℓ κ μ ν} :
    {A : Type ℓ} {B : Type κ} {E : Type μ} (R : A → Type ν) (P : B → Type ν) (Q : E → Type ν)
    (m : Io A E) (f : A → Io B E) (os : Os)
    → Holds R Q (m os).0
    → ((a : A) (os' : Os) → (m os).0 ≡ ok a → R a → Holds P Q (f a os').0)
    → Holds P Q ((m >>= f) os).0
>>=-Holds R P Q m f os h k = elim (Result-cases (m os).0) [
  | inl (a, e) ↦ rw e (k a (m os).1 e (Holds-ok R Q _ a e h))
  | inr (x, e) ↦ rw e (Holds-err R Q _ x e h)
]

pub convert-Holds {ℓ κ μ ν} :
    {A : Type ℓ} {E : Type κ} {F : Type μ} (P : A → Type ν) (Q : E → Type ν) (R : F → Type ν)
    (f : E → F) (m : Io A E) (os : Os)
    → Holds P Q (m os).0
    → ((x : E) → Q x → R (f x))
    → Holds P R (convert f m os).0
convert-Holds P Q R f m os h k = elim (Result-cases (m os).0) [
  | inl (a, e) ↦ rw e (Holds-ok P Q _ a e h)
  | inr (x, e) ↦ rw e (k x (Holds-err P Q _ x e h))
]

-- A value for each element.
pub traverse-length {ℓ κ μ} :
    {A : Type ℓ} {B : Type κ} {E : Type μ} (Q : E → Type 0) (f : A → Io B E) (xs : List A) (os : Os)
    → ((x : E) → Q x)
    → Holds (λ (bs : List B). length bs ≡ length xs) Q (traverse f xs os).0
unfolding traverse
traverse-length Q f [] os q = refl
traverse-length Q f (a ∷ rest) os q = elim (Result-cases (f a os).0) [
  | inl (b, e) ↦ (elim (Result-cases (traverse f rest (f a os).1).0) [
    | inl (bs, made) ↦
        rw (e, made) (ap suc (Holds-ok _ Q _ bs made (traverse-length Q f rest (f a os).1 q)))
    | inr (x, failed) ↦ rw (e, failed) (q x)
  ])
  | inr (x, e) ↦ rw e (q x)
]

-- Inversion of a successful bind.
pub >>=-eq-ok {ℓ κ μ} :
    {A : Type ℓ} {B : Type κ} {E : Type μ} (m : Io A E) (f : A → Io B E) (os : Os) {b : B}
    → ((m >>= f) os).0 ≡ ok b
    → (a : A) × ((m os).0 ≡ ok a) × ((f a (m os).1).0 ≡ ok b)
>>=-eq-ok m f os h = elim (Result-cases (m os).0) [
  | inl (a, e) ↦ (a, e, rw e at h)
  | inr (x, e) ↦ cc (e, h)
]

pub convert-eq-ok {ℓ κ μ} :
    {A : Type ℓ} {E : Type κ} {F : Type μ} (f : E → F) (m : Io A E) (os : Os) {a : A}
    → (convert f m os).0 ≡ ok a
    → (m os).0 ≡ ok a
convert-eq-ok f m os h = map_err-eq-ok f (m os).0 h
