-- ===== src/Wallet/Funds.antt =====
-- What `WalletConfig::uniform` hands out: every token, to every user, as evenly as it can be.
use native.Mathlib.Nat.{add-zero}
use logos_blockchain_testing.Prelude.{
  ℕ, zero, suc, ◌+◌, ◌-◌, ◌*◌, ◌/◌, ◌%◌, ◌≤◌, ◌<◌, ◌≡◌, refl, some, List, [], ◌∷◌, get_elem?, arith,
  length, All, ltb, if◌then◌else◌, concat, decimal,
}
use logos_blockchain_testing.Vendor.{Vendor}
use logos_blockchain_testing.Wallet.{
  WalletAccount, WalletConfig, seed, deterministic, allocate, uniform,
}

-- The funds of a list of accounts together.
abbrev pub total_value : {v : Vendor} → List (WalletAccount v) → ℕ
total_value [] = 0
total_value (a ∷ rest) = a.value + total_value rest

-- Account number `i` counted from `idx` has its own label and key.
abbrev pub IsOwn : (v : Vendor) → ℕ → WalletAccount v → Type 0
IsOwn v idx a =
    (a.label ≡ concat "wallet-user-" (decimal idx)) × (a.secret_key ≡ v.zk_key (seed idx))

-- `l` shares `base` each, and one more to the first `remainder`, between `count` accounts.
pub record AreShares (v : Vendor) (count idx base remainder : ℕ) (l : List (WalletAccount v))
    : Type 0 where
  pub shared : length l ≡ count
  pub total : remainder ≤ count → total_value l ≡ count * base + remainder
  pub fair : All (λ a. (base ≤ a.value) × (a.value ≤ base + 1)) l
  pub own : (i : ℕ) (a : WalletAccount v) → get_elem? l i ≡ some a → IsOwn v (idx + i) a

-- The account that one round of `allocate` makes.
abbrev share : (v : Vendor) → ℕ → ℕ → ℕ → WalletAccount v
share v idx base remainder = record {
  label = concat "wallet-user-" (decimal idx);
  secret_key = v.zk_key (seed idx);
  value = if ltb 0 remainder then base + 1 else base;
}

module _ (v : Vendor) (count idx base remainder : ℕ) (rest : List (WalletAccount v)) where
  IsOwn-cons :
      ((i : ℕ) (a : WalletAccount v) → get_elem? rest i ≡ some a → IsOwn v (idx + 1 + i) a)
      → (i : ℕ) (a : WalletAccount v) → get_elem? (share v idx base remainder ∷ rest) i ≡ some a
      → IsOwn v (idx + i) a
  IsOwn-cons own zero a e = rw add-zero (ground arith)
  IsOwn-cons own (suc i) a e =
      let same : idx + 1 + i ≡ idx + suc i = omega arith in rw same at (own i a e)

  AreShares-cons :
      AreShares v count (idx + 1) base (remainder - 1) rest
      → AreShares v (suc count) idx base remainder (share v idx base remainder ∷ rest)
  AreShares-cons h = record {
    shared = omega (arith, h.shared);
    total = λ le. ground (arith, h.total);
    fair = ground (arith, h.fair);
    own = IsOwn-cons h.own;
  }

module _ (v : Vendor) where
  allocate_total :
      (count idx base remainder : ℕ)
      → 0 < base
      → (l : List (WalletAccount v)) × (allocate v count idx base remainder ≡ some l)
        × AreShares v count idx base remainder l
  unfolding allocate deterministic
  allocate_total zero idx base remainder pos =
      ([], refl, record { shared = refl; total = λ h. omega arith; fair = tt; own = λ i a h. cc })
  allocate_total (suc count) idx base remainder pos =
      let (rest, made, shares) = allocate_total count (idx + 1) base (remainder - 1) pos in
      (
        share v idx base remainder ∷ rest,
        ground arith,
        AreShares-cons v count idx base remainder rest shares,
      )

div-pos : (n d : ℕ) → 0 < d → d ≤ n → 0 < n / d
div-pos n d h k = grind arith

div-mod-eq : (n d : ℕ) → 0 < d → d * (n / d) + n % d ≡ n
div-mod-eq n d h = grind arith

mod-le : (n d : ℕ) → 0 < d → n % d ≤ d
mod-le n d h = grind arith

-- With some users and at least one token for each, `uniform` succeeds: there is an account for every user, in
-- order, each with the label and key of its index, the accounts hold `total_funds` together, and
-- any two of them differ by one token at most.
pub uniform_shares :
    (v : Vendor) (total_funds users : ℕ)
    → 0 < users
    → users ≤ total_funds
    → (c : WalletConfig v) × (uniform v total_funds users ≡ some c)
      × (length c.accounts ≡ users)
      × (total_value c.accounts ≡ total_funds)
      × All (λ a. (total_funds / users ≤ a.value) × (a.value ≤ total_funds / users + 1)) c.accounts
      × ((i : ℕ) (a : WalletAccount v) → get_elem? c.accounts i ≡ some a → IsOwn v i a)
unfolding uniform
uniform_shares v total_funds users some_users enough =
    let (l, made, shares) =
      allocate_total v users 0 (total_funds / users) (total_funds % users)
        (div-pos total_funds users some_users enough) in
    (
      record { accounts = l },
      ground arith,
      shares.shared,
      ground (
        arith,
        shares.total,
        div-mod-eq total_funds users some_users,
        mod-le total_funds users some_users,
      ),
      shares.fair,
      λ i a e. let same : 0 + i ≡ i = omega arith in rw same at (shares.own i a e),
    )
