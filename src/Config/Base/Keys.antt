-- ===== src/Config/Base/Keys.antt =====
-- The keys that a node is given: those of its blend configuration and of every wallet account.
use Prim.Native.String.{compare}
use mathlib.Core.Path.{subst}
use mathlib.Core.Option.{some-injective}
use text.Mathlib.TextPositions.{compare_refl}
use logos_blockchain_testing.Prelude.{
  ℕ, zero, suc, ◌≡◌, refl, true, List, [], ◌∷◌, String, get_elem?, some, All, Bool-cases, inl, inr,
  ◌⊎◌,
}
use logos_blockchain_testing.Vendor.{Vendor}
use logos_blockchain_testing.Wallet.{WalletAccount, public_key}
use logos_blockchain_testing.Config.Base.{
  GeneralBlendConfig, Key, PreloadKmsBackendSettings, contains_key, or_insert, add_account_keys,
  create_kms_configs, is_equal, zk, ed25519,
}

module _ {ℓ} {A : Type ℓ} where
  head-contains_key :
      (key : String) (a : A) (entries : List (String × A))
      → contains_key key ((key, a) ∷ entries) ≡ true
  unfolding contains_key
  head-contains_key key a entries = rw (compare_refl key) refl

  or_insert-contains_key :
      (entries : List (String × A)) (key : String) (a : A)
      → contains_key key (or_insert entries key a) ≡ true
  unfolding or_insert
  or_insert-contains_key entries key a = elim (Bool-cases (contains_key key entries)) [
    | inl old ↦ rw (or_insert, old) old
    | inr new ↦ rw (or_insert, new) (head-contains_key key a entries)
  ]

  or_insert-keeps :
      (entries : List (String × A)) (key other : String) (a : A)
      → contains_key other entries ≡ true
      → contains_key other (or_insert entries key a) ≡ true
  unfolding or_insert contains_key
  or_insert-keeps entries key other a h = elim (Bool-cases (contains_key key entries)) [
    | inl old ↦ rw (or_insert, old) h
    | inr new ↦
        rw (or_insert, new)
          (elim (Bool-cases (is_equal (compare other key))) [
            | inl same ↦ rw (contains_key, same) refl
            | inr differs ↦ rw (contains_key, differs) h
          ])
  ]

  or_insert-All {κ} :
      (P : String × A → Type κ) (entries : List (String × A)) (key : String) (a : A)
      → All P entries
      → P (key, a)
      → All P (or_insert entries key a)
  unfolding or_insert
  or_insert-All P entries key a all new = elim (Bool-cases (contains_key key entries)) [
    | inl old ↦ rw (or_insert, old) all
    | inr fresh ↦ rw (or_insert, fresh) (new, all)
  ]

module _ (v : Vendor) where
  -- The name under which the key of an account is kept.
  abbrev pub account_key_id : WalletAccount v → String
  account_key_id a = v.hex (v.zk_public_bytes (public_key v a))

  add_account_keys-keeps :
      (accounts : List (WalletAccount v)) (keys : List (String × Key v)) (id : String)
      → contains_key id keys ≡ true
      → contains_key id (add_account_keys v accounts keys) ≡ true
  unfolding add_account_keys
  add_account_keys-keeps [] keys id h = h
  add_account_keys-keeps (a ∷ rest) keys id h =
      add_account_keys-keeps rest _ id
        (or_insert-keeps keys (account_key_id a) id (zk a.secret_key) h)

  add_account_keys-contains_key :
      (accounts : List (WalletAccount v)) (keys : List (String × Key v))
      → All
          (λ a. contains_key (account_key_id a) (add_account_keys v accounts keys) ≡ true)
          accounts
  unfolding add_account_keys
  add_account_keys-contains_key [] keys = tt
  add_account_keys-contains_key (a ∷ rest) keys = (
    add_account_keys-keeps rest _ (account_key_id a)
        (or_insert-contains_key keys (account_key_id a) (zk a.secret_key)),
    add_account_keys-contains_key rest _,
  )

  add_account_keys-All :
      (P : String × Key v → Type 0) (accounts : List (WalletAccount v))
      (keys : List (String × Key v))
      → All P keys
      → ((i : ℕ) (a : WalletAccount v)
          → get_elem? accounts i ≡ some a
          → P (account_key_id a, zk a.secret_key))
      → All P (add_account_keys v accounts keys)
  unfolding add_account_keys
  add_account_keys-All P [] keys all each = all
  add_account_keys-All P (a ∷ rest) keys all each =
      add_account_keys-All P rest _
        (or_insert-All P keys (account_key_id a) (zk a.secret_key) all (each 0 a refl))
        (λ i. each (suc i))

  -- The name under which a key belongs: that of its public key.
  abbrev pub key_id : Key v → String
  key_id (ed25519 k) = v.hex (v.ed25519_public_bytes k)
  key_id (zk k) = v.hex (v.zk_public_bytes (v.to_public_key k))

  -- The key is one of the blend configuration, or that of an account.
  abbrev pub IsGiven : List (WalletAccount v) → GeneralBlendConfig v → Key v → Type 0
  IsGiven accounts b key =
      (key ≡ ed25519 b.signer)
      ⊎ ((key ≡ zk b.secret_zk_key)
          ⊎ ((i : ℕ) × (a : WalletAccount v) × (get_elem? accounts i ≡ some a)
              × (key ≡ zk a.secret_key)))

  abbrev pub IsFiled : List (WalletAccount v) → GeneralBlendConfig v → String × Key v → Type 0
  IsFiled accounts b (id, key) = (id ≡ key_id key) × IsGiven accounts b key

  -- The keys of one node: there is one for each identity of its blend configuration and of every
  -- account, and each that is there is one of them and stands under the identity of its public key.
  abbrev pub HasKeys :
      List (WalletAccount v) → GeneralBlendConfig v → PreloadKmsBackendSettings v → Type 0
  HasKeys accounts b kms =
      (contains_key (key_id (ed25519 b.signer)) kms.keys ≡ true)
      × (contains_key (key_id (zk b.secret_zk_key)) kms.keys ≡ true)
      × All (λ (a : WalletAccount v). contains_key (account_key_id a) kms.keys ≡ true) accounts
      × All (IsFiled accounts b) kms.keys

  -- The key settings of node `i` hold a key for the identity of its blend signer, for that of its
  -- blend ZK key, and for that of every wallet account. Every key in them is the signer, the ZK key
  -- or the secret key of an account, and stands under the identity of its own public key.
  pub create_kms_configs_lem :
      (bs : List (GeneralBlendConfig v)) (accounts : List (WalletAccount v)) (i : ℕ)
      (b : GeneralBlendConfig v) (kms : PreloadKmsBackendSettings v)
      → get_elem? bs i ≡ some b
      → get_elem? (create_kms_configs v bs accounts) i ≡ some kms
      → HasKeys accounts b kms
  unfolding create_kms_configs public_key
  create_kms_configs_lem [] accounts i b kms e e' = cc
  create_kms_configs_lem (x ∷ bs) accounts (suc i) b kms e e' =
      create_kms_configs_lem bs accounts i b kms e e'
  create_kms_configs_lem (x ∷ bs) accounts zero b kms e e' =
      let zk_id = v.hex (v.zk_public_bytes (v.to_public_key x.secret_zk_key)) in
      let signer_id = v.hex (v.ed25519_public_bytes x.signer) in
      let zk_key : Key v = zk x.secret_zk_key in
      let signer_key : Key v = ed25519 x.signer in
      let first : List (String × Key v) = (zk_id, zk_key) ∷ [] in
      let both = or_insert first signer_id signer_key in
      subst (λ k. HasKeys accounts b k) (some-injective _ kms e')
        (subst (λ y. HasKeys accounts y (record { keys = add_account_keys v accounts both }))
          (some-injective x b e)
          (
            add_account_keys-keeps accounts both signer_id
                (or_insert-contains_key first signer_id signer_key),
            add_account_keys-keeps accounts both zk_id (
                or_insert-keeps first signer_id zk_id signer_key
                  (head-contains_key zk_id zk_key [])),
            add_account_keys-contains_key accounts both,
            add_account_keys-All (IsFiled accounts x) accounts both
                (or_insert-All (IsFiled accounts x) first signer_id signer_key
                  ((refl, inr (inl refl)), tt) (refl, inl refl))
                (λ j a found. (refl, inr (inr (j, a, found, refl)))),
          ))
