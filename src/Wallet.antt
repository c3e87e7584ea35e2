-- ===== src/Wallet.antt =====
-- testing-framework/configs/src/topology/configs/wallet.rs: the accounts funded at genesis.
pub mod Funds
use logos_blockchain_testing.Prelude.{
  ℕ, zero, suc, ◌+◌, ◌-◌, ◌*◌, ◌/◌, ◌%◌, ◌^◌, String, ◌≡◌, Option, none, some, List, [], ◌∷◌, ◌++◌,
  replicate, ltb, leb, concat, decimal, if◌then◌else◌,
}
use logos_blockchain_testing.Vendor.{Vendor}

pub record WalletAccount (v : Vendor) : Type 0 where
  pub label : String
  pub secret_key : v.ZkKey
  pub value : ℕ

pub record WalletConfig (v : Vendor) : Type 0 where
  pub accounts : List (WalletAccount v)

-- `u64::to_le_bytes`
unfoldable pub to_le_bytes : ℕ → ℕ → List ℕ
to_le_bytes zero n = []
to_le_bytes (suc k) n = (n % 256) ∷ to_le_bytes k (n / 256)

-- The 32 bytes of `deterministic`: "wl", the index, and zeros.
unfoldable pub seed : ℕ → List ℕ
unfolding to_le_bytes
seed index = b'w' ∷ b'l' ∷ to_le_bytes 8 index ++ replicate 22 0

module _ (v : Vendor) where
  unfoldable pub public_key : WalletAccount v → v.ZkPublicKey
  public_key a = v.to_public_key a.secret_key

  -- `none`: the assertion that the value is positive fails.
  unfoldable pub new : String → v.ZkKey → ℕ → Option (WalletAccount v)
  new label secret_key value =
      if ltb 0 value
      then some (record { label = label; secret_key = secret_key; value = value })
      else none

  unfoldable pub deterministic : ℕ → ℕ → Option (WalletAccount v)
  unfolding new decimal
  deterministic index value =
      new (concat "wallet-user-" (decimal index)) (v.zk_key (seed index)) value

  abbrev pub prepend {ℓ} : {A : Type ℓ} → Option A → Option (List A) → Option (List A)
  prepend (some a) (some rest) = some (a ∷ rest)
  prepend _ _ = none

  -- The iterator of `uniform`: `count` users are left, from `idx` on, and `remainder` of them get
  -- one token more.
  unfoldable pub allocate : ℕ → ℕ → ℕ → ℕ → Option (List (WalletAccount v))
  allocate zero idx base remainder = some []
  allocate (suc count) idx base remainder =
      prepend (deterministic idx (if ltb 0 remainder then base + 1 else base))
        (allocate count (idx + 1) base (remainder - 1))

  -- `none`: one of the assertions fails. `users` is non-zero by its type.
  unfoldable pub uniform : ℕ → ℕ → Option (WalletConfig v)
  uniform total_funds users =
      if ltb 0 users
      then (if leb users total_funds
          then elim (allocate users 0 (total_funds / users) (total_funds % users)) [
            | some accounts ↦ some (record { accounts = accounts })
            | none ↦ none
          ]
          else none)
      else none
