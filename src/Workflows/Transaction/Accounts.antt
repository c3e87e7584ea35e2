-- ===== src/Workflows/Transaction/Accounts.antt =====
-- The accounts of a transaction workload and the genesis outputs that they spend.
use mathlib.Core.Path.{subst, ◌∙◌}
use mathlib.Core.Option.{some-injective}
use mathlib.Core.Logic.{if_pos, if_neg}
use logos_blockchain_testing.Prelude.{
  ℕ, zero, suc, ◌+◌, ◌≤◌, ◌≡◌, refl, ap, sym, min, Option, none, some, List, [], ◌∷◌, map, length,
  take, get_elem?, inl, inr, All, Option-cases, arith, length-take,
}
use logos_blockchain_testing.Vendor.{Vendor}
use logos_blockchain_testing.Wallet.{WalletAccount, public_key}
use logos_blockchain_testing.Config.Ledger.{Ledger, Note, Utxo}
use logos_blockchain_testing.Config.Consensus.Funding.{IsPaid}
use logos_blockchain_testing.Topology.{GeneratedNodeConfig}
use logos_blockchain_testing.Workflows.Transaction.{
  WalletInput, apply_user_limit, limited_user_count, UtxoMap, get_utxo, collect_utxos,
  wallet_utxo_map, match_accounts, genesis_ledger_tx,
}

module _ (v : Vendor) where
  -- The output of the transaction that the record names.
  abbrev pub IsOutputOf : v.Hash → List (Note v) → Utxo v → Type 0
  IsOutputOf tx_hash outputs u =
      (get_elem? outputs u.output_index ≡ some u.note) × (u.tx_hash ≡ tx_hash)

  abbrev pub HasEntry : v.Hash → List (Note v) → v.ZkPublicKey × Utxo v → Type 0
  HasEntry tx_hash outputs (k, u) = IsOutputOf tx_hash outputs u × (u.note.pk ≡ k)

  -- The input spends a genesis output that pays to its account.
  abbrev pub IsFunded : v.Hash → List (Note v) → WalletInput v → Type 0
  IsFunded tx_hash outputs input =
      IsOutputOf tx_hash outputs input.utxo × (input.utxo.note.pk ≡ public_key v input.account)

module _ (v : Vendor) (l : Ledger v) (key_eq : Discrete v.ZkPublicKey) where
  abbrev pub HasKey : UtxoMap v l key_eq → v.ZkPublicKey → Type 0
  HasKey m key = (u : Utxo v) × (get_utxo v l key_eq m key ≡ some u)

  get_utxo-HasEntry :
      (tx_hash : v.Hash) (outputs : List (Note v)) (m : UtxoMap v l key_eq) (key : v.ZkPublicKey)
      (u : Utxo v)
      → All (HasEntry v tx_hash outputs) m
      → get_utxo v l key_eq m key ≡ some u
      → HasEntry v tx_hash outputs (key, u)
  unfolding get_utxo
  get_utxo-HasEntry tx_hash outputs [] key u h e = cc
  get_utxo-HasEntry tx_hash outputs ((k, w) ∷ m) key u h e = elim (key_eq k key) [
    | yes p ↦
        (let same : w ≡ u = some-injective w u (rw (if_pos _ p) at e) in
          subst (λ (x : Utxo v). HasEntry v tx_hash outputs (key, x)) same (h.0.0, h.0.1 ∙ p))
    | no p ↦ get_utxo-HasEntry tx_hash outputs m key u h.1 (rw (if_neg _ p) at e)
  ]

  collect_utxos-HasEntry :
      (tx_hash : v.Hash) (outputs : List (Note v)) (idx : ℕ) (notes : List (Note v))
      (m : UtxoMap v l key_eq)
      → ((i : ℕ) (n : Note v) → get_elem? notes i ≡ some n → get_elem? outputs (idx + i) ≡ some n)
      → All (HasEntry v tx_hash outputs) m
      → All (HasEntry v tx_hash outputs) (collect_utxos v l key_eq tx_hash idx notes m)
  unfolding collect_utxos
  collect_utxos-HasEntry tx_hash outputs idx [] m at h = h
  collect_utxos-HasEntry tx_hash outputs idx (note ∷ rest) m at h =
      collect_utxos-HasEntry tx_hash outputs (suc idx) rest _
        (λ i n e. subst (λ j. get_elem? outputs j ≡ some n) (omega arith) (at (suc i) n e))
        (
          (
            (subst (λ j. get_elem? outputs j ≡ some note) (omega arith) (at 0 note refl), refl),
            refl,
          ),
          h,
        )

  HasKey-cons :
      (k key : v.ZkPublicKey) (u : Utxo v) (m : UtxoMap v l key_eq)
      → HasKey m key
      → HasKey ((k, u) ∷ m) key
  unfolding get_utxo
  HasKey-cons k key u m (w, e) = elim (key_eq k key) [
    | yes p ↦ (u, rw (if_pos _ p) refl)
    | no p ↦ (w, rw (if_neg _ p) e)
  ]

  collect_utxos-HasKey :
      (tx_hash : v.Hash) (idx : ℕ) (notes : List (Note v)) (m : UtxoMap v l key_eq)
      (key : v.ZkPublicKey)
      → HasKey m key
      → HasKey (collect_utxos v l key_eq tx_hash idx notes m) key
  unfolding collect_utxos
  collect_utxos-HasKey tx_hash idx [] m key h = h
  collect_utxos-HasKey tx_hash idx (note ∷ rest) m key h =
      collect_utxos-HasKey tx_hash (suc idx) rest _ key (HasKey-cons note.pk key _ m h)

  collect_utxos_complete :
      (tx_hash : v.Hash) (idx : ℕ) (notes : List (Note v)) (m : UtxoMap v l key_eq) (i : ℕ)
      (note : Note v)
      → get_elem? notes i ≡ some note
      → HasKey (collect_utxos v l key_eq tx_hash idx notes m) note.pk
  unfolding collect_utxos get_utxo
  collect_utxos_complete tx_hash idx [] m i note e = cc
  collect_utxos_complete tx_hash idx (n ∷ rest) m zero note e =
      let same : n ≡ note = some-injective n note e in
      let u : Utxo v = record { note = n; tx_hash = tx_hash; output_index = idx } in
      let first : HasKey ((n.pk, u) ∷ m) n.pk = (u, rw (if_pos _ refl) refl) in
      subst (λ (x : Note v). HasKey (collect_utxos v l key_eq tx_hash idx (n ∷ rest) m) x.pk) same
        (collect_utxos-HasKey tx_hash (suc idx) rest ((n.pk, u) ∷ m) n.pk first)
  collect_utxos_complete tx_hash idx (n ∷ rest) m (suc i) note e =
      collect_utxos_complete tx_hash (suc idx) rest _ i note e

  pub match_accounts-IsFunded :
      (tx_hash : v.Hash) (outputs : List (Note v)) (m : UtxoMap v l key_eq)
      (as' : List (WalletAccount v))
      → All (HasEntry v tx_hash outputs) m
      → All (IsFunded v tx_hash outputs) (match_accounts v l key_eq m as')
        × (length (match_accounts v l key_eq m as') ≤ length as')
  unfolding match_accounts
  match_accounts-IsFunded tx_hash outputs m [] h = (tt, omega arith)
  match_accounts-IsFunded tx_hash outputs m (a ∷ rest) h =
      let (all, le) = match_accounts-IsFunded tx_hash outputs m rest h in
      elim (Option-cases (get_utxo v l key_eq m (public_key v a))) [
        | inl e ↦ rw e (all, omega arith)
        | inr (u, e) ↦ rw e ((get_utxo-HasEntry tx_hash outputs m _ u h e, all), omega arith)
      ]

  -- Where every account is paid, every account is matched, in their order.
  pub match_accounts_complete :
      (m : UtxoMap v l key_eq) (as' : List (WalletAccount v))
      → All (λ a. HasKey m (public_key v a)) as'
      → map (λ (input : WalletInput v). input.account) (match_accounts v l key_eq m as') ≡ as'
  unfolding match_accounts
  match_accounts_complete m [] h = refl
  match_accounts_complete m (a ∷ rest) ((u, e), h) =
      rw e (ap (a ∷◌) (match_accounts_complete m rest h))

  pub wallet_utxo_map-HasEntry :
      (node : GeneratedNodeConfig v l)
      → let tx = genesis_ledger_tx v l key_eq node in
        All (HasEntry v (l.hash_ledger_tx tx) tx.outputs) (wallet_utxo_map v l key_eq node)
  unfolding wallet_utxo_map
  wallet_utxo_map-HasEntry node =
      let tx = genesis_ledger_tx v l key_eq node in
      collect_utxos-HasEntry (l.hash_ledger_tx tx) tx.outputs 0 tx.outputs []
        (λ i n e. subst (λ j. get_elem? tx.outputs j ≡ some n) (omega arith) e) tt

  pub IsPaid-HasKey :
      (node : GeneratedNodeConfig v l) (a : WalletAccount v)
      → IsPaid v (genesis_ledger_tx v l key_eq node).outputs a
      → HasKey (wallet_utxo_map v l key_eq node) (public_key v a)
  unfolding wallet_utxo_map
  IsPaid-HasKey node a (i, note, e, same) =
      subst (HasKey (wallet_utxo_map v l key_eq node)) same
        (collect_utxos_complete _ 0 _ [] i note e)

module _ {ℓ} {A : Type ℓ} where
  All-take {κ} : (P : A → Type κ) (n : ℕ) (xs : List A) → All P xs → All P (take n xs)
  All-take P zero xs h = tt
  All-take P (suc n) [] h = tt
  All-take P (suc n) (x ∷ xs) h = (h.0, All-take P n xs h.1)

  take-all : (xs : List A) → take (length xs) xs ≡ xs
  take-all [] = refl
  take-all (x ∷ xs) = ap (x ∷◌) (take-all xs)

  pub apply_user_limit-eq :
      (xs : List A) (limit : Option ℕ)
      → apply_user_limit xs limit ≡ take (limited_user_count limit (length xs)) xs
  unfolding apply_user_limit limited_user_count
  apply_user_limit-eq xs none = sym (take-all xs)
  apply_user_limit-eq xs (some n) = refl

  pub All-apply_user_limit {κ} :
      (P : A → Type κ) (xs : List A) (limit : Option ℕ)
      → All P xs
      → All P (apply_user_limit xs limit)
  unfolding apply_user_limit
  All-apply_user_limit P xs none h = h
  All-apply_user_limit P xs (some n) h = All-take P _ xs h

  pub length-apply_user_limit :
      (xs : List A) (limit : Option ℕ)
      → length (apply_user_limit xs limit) ≡ limited_user_count limit (length xs)
  unfolding apply_user_limit limited_user_count
  length-apply_user_limit xs none = refl
  length-apply_user_limit xs (some n) = omega (arith, length-take (min n (length xs)) xs)

pub limited_user_count_mono :
    (limit : Option ℕ) (m n : ℕ) → m ≤ n → limited_user_count limit m ≤ limited_user_count limit n
unfolding limited_user_count
limited_user_count_mono none m n h = h
limited_user_count_mono (some k) m n h = omega arith

pub map-take {ℓ κ} :
    {A : Type ℓ} {B : Type κ} (f : A → B) (n : ℕ) (xs : List A)
    → map f (take n xs) ≡ take n (map f xs)
map-take f zero xs = refl
map-take f (suc n) [] = refl
map-take f (suc n) (x ∷ xs) = ap (f x ∷◌) (map-take f n xs)
