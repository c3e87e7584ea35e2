-- ===== src/Peers/Rows.antt =====
-- The table of expected peers while `find_expected_peer_counts` fills it.
use mathlib.Core.Path.{subst, fun_ext}
use logos_blockchain_testing.Prelude.{
  length-replicate, ℕ, zero, suc, ◌<◌, ◌≡◌, refl, ap, inl, inr, Bool, false, ◌&&◌, ◌||◌, some, List,
  [], ◌∷◌, replicate, length, insert, contains, contains-insert, count_below, count_below-add,
  count_below_eq, ◌==◌, if◌then◌else◌, arith, Bool-cases,
}
use logos_blockchain_testing.Peers.{insert_at}

-- The set at an index.
abbrev pub row : List (List ℕ) → ℕ → List ℕ
row [] i = []
row (s ∷ ss) zero = s
row (s ∷ ss) (suc i) = row ss i

-- The table has `n` sets of indices below `n`, none of them twice, and `adj i j` says whether the
-- set at `i` holds `j`.
pub record IsTable (n : ℕ) (adj : ℕ → ℕ → Bool) (t : List (List ℕ)) : Type 0 where
  pub size : length t ≡ n
  pub holds : (i j : ℕ) → i < n → contains (row t i) j ≡ adj i j
  pub counted : (i : ℕ) → i < n → length (row t i) ≡ count_below n (adj i)

row-insert_at :
    (t : List (List ℕ)) (i a : ℕ)
    → i < length t
    → (u : List (List ℕ)) × (insert_at t i a ≡ some u)
      × (length u ≡ length t)
      × ((k : ℕ) → row u k ≡ (if i == k then insert (row t k) a else row t k))
unfolding insert_at
row-insert_at [] i a lt = elim lt [ ]
row-insert_at (s ∷ ss) zero a lt = (insert s a ∷ ss, refl, refl, rows)
  where
    rows :
        (k : ℕ)
        → row (insert s a ∷ ss) k ≡ (if 0 == k then insert (row (s ∷ ss) k) a else row (s ∷ ss) k)
    rows zero = refl
    rows (suc k) = ground arith
row-insert_at (s ∷ ss) (suc i) a lt =
    let (u, made, size, rows) = row-insert_at ss i a (omega arith) in
    (s ∷ u, ground arith, ap suc size, shifted u rows)
  where
    shifted :
        (u : List (List ℕ))
        → ((k : ℕ) → row u k ≡ (if i == k then insert (row ss k) a else row ss k))
        → (k : ℕ)
        → row (s ∷ u) k ≡ (if suc i == k then insert (row (s ∷ ss) k) a else row (s ∷ ss) k)
    shifted u rows zero = ground arith
    shifted u rows (suc k) = ground (arith, rows k)

length-insert :
    (n : ℕ) (s : List ℕ) (a : ℕ) (f : ℕ → Bool)
    → a < n
    → ((j : ℕ) → contains s j ≡ f j)
    → length s ≡ count_below n f
    → length (insert s a) ≡ count_below n (λ j. a == j || f j)
unfolding insert
length-insert n s a f lt holds counted = elim (Bool-cases (contains s a)) [
  | inl old ↦ ground (
    arith,
    old,
    counted,
    count_below_eq n (λ j. a == j || f j) f
        (λ j l. ground (arith, holds j, holds a, ap f {x = a} {y = j})),
  )
  | inr fresh ↦ ground (arith, fresh, holds a, count_below-add n a f lt)
]

-- The table after index `i` has taken `a` in.
abbrev pub joined : ℕ → ℕ → (ℕ → ℕ → Bool) → ℕ → ℕ → Bool
joined i a adj k j = (i == k && a == j) || adj k j

pub insert_at-IsTable :
    (n : ℕ) (adj : ℕ → ℕ → Bool) (t : List (List ℕ)) (i a : ℕ)
    → i < n
    → a < n
    → IsTable n adj t
    → (u : List (List ℕ)) × (insert_at t i a ≡ some u) × IsTable n (joined i a adj) u
insert_at-IsTable n adj t i a li la h =
    let (u, made, size, rows) = row-insert_at t i a (omega (arith, h.size)) in
    (
      u,
      made,
      record {
        size = omega (arith, size, h.size);
        holds = λ k j l. ground (arith, rows k, contains-insert (row t k) a j, h.holds k j l);
        counted = λ k l. elim (Bool-cases (i == k)) [
          | inl here ↦ ground (
            arith,
            rows k,
            here,
            length-insert n (row t k) a (adj k) la (λ j. h.holds k j l) (h.counted k l),
            count_below_eq n (joined i a adj k) (λ j. a == j || adj k j)
                (λ j _. ground (arith, here)),
          )
          | inr there ↦ ground (
            arith,
            rows k,
            there,
            h.counted k l,
            count_below_eq n (joined i a adj k) (adj k) (λ j _. ground (arith, there)),
          )
        ];
      },
    )

pub IsTable-respects :
    (n : ℕ) (f g : ℕ → ℕ → Bool) (t : List (List ℕ))
    → ((i j : ℕ) → f i j ≡ g i j)
    → IsTable n f t
    → IsTable n g t
IsTable-respects n f g t same h = subst (λ e. IsTable n e t) (fun_ext (λ i. fun_ext (same i))) h

row-empty : (n i : ℕ) → row (replicate n []) i ≡ []
row-empty zero i = refl
row-empty (suc n) zero = refl
row-empty (suc n) (suc i) = row-empty n i

none_counted : (n : ℕ) → 0 ≡ count_below n (λ j. false)
unfolding count_below
none_counted zero = refl
none_counted (suc n) = none_counted n

-- Before the first node every set is empty.
pub empty-IsTable : (n : ℕ) → IsTable n (λ i j. false) (replicate n [])
unfolding contains
empty-IsTable n = record {
  size = length-replicate n [];
  holds = λ i j l. rw (row-empty n i);
  counted = λ i l. rw (row-empty n i) (none_counted n);
}
