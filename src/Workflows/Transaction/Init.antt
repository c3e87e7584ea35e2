-- ===== src/Workflows/Transaction/Init.antt =====
-- `init` of the transaction workload: what it leaves, and when it succeeds.
use mathlib.Core.Path.{subst, ap₂}
use logos_blockchain_testing.Prelude.{
  ℕ, zero, suc, ◌≤◌, ◌<◌, ◌≡◌, ◌≢◌, refl, sym, ◌∙◌, ap, Option, none, some, List, [], ◌∷◌, map,
  length, take, ok, All, All-mono, arith, length-map,
}
use logos_blockchain_testing.Vendor.{Vendor}
use logos_blockchain_testing.Wallet.{WalletAccount, public_key}
use logos_blockchain_testing.Config.Ledger.{Ledger}
use logos_blockchain_testing.Config.Consensus.Funding.{IsPaid}
use logos_blockchain_testing.Topology.{GeneratedTopology, GeneratedNodeConfig}
use logos_blockchain_testing.Workflows.Transaction.{
  WalletInput, Workload, apply_user_limit, limited_user_count, wallet_utxo_map, match_accounts,
  genesis_ledger_tx, with_accounts, init_with, init,
}
use logos_blockchain_testing.Workflows.Transaction.Accounts.{
  IsFunded, HasKey, wallet_utxo_map-HasEntry, IsPaid-HasKey, match_accounts-IsFunded,
  match_accounts_complete, apply_user_limit-eq, All-apply_user_limit, length-apply_user_limit,
  limited_user_count_mono, map-take,
}

limited_user_count-pos :
    (limit : Option ℕ) (n : ℕ) → limit ≢ some 0 → 0 < limited_user_count limit (suc n)
unfolding limited_user_count
limited_user_count-pos none n h = omega arith
limited_user_count-pos (some zero) n h = absurd (h refl)
limited_user_count-pos (some (suc k)) n h = omega arith

abbrev pub account_of : {v : Vendor} → WalletInput v → WalletAccount v
account_of input = input.account

module _ (v : Vendor) (l : Ledger v) (key_eq : Discrete v.ZkPublicKey) where
  -- The workload with the accounts, of which there is at least one.
  abbrev Takes : Workload v → List (WalletInput v) → Workload v → Type 0
  Takes w items after = (after ≡ record w { accounts = items }) × (0 < length items)

  with_accounts-Takes :
      (Error : Type 0) (w after : Workload v) (items : List (WalletInput v))
      → with_accounts v l key_eq {Error = Error} w items ≡ ok after
      → Takes w items after
  with_accounts-Takes Error w after [] e = cc
  with_accounts-Takes Error w after (x ∷ items) e = (cc, omega arith)

  -- The accounts that a workload takes of those in the list, at the first of the nodes.
  abbrev pub IsReady :
      Workload v → List (WalletAccount v) → List (GeneratedNodeConfig v l) → Workload v → Type 0
  IsReady w as' nodes after =
      (node : GeneratedNodeConfig v l) × (rest : List (GeneratedNodeConfig v l)) × (nodes
        ≡ node ∷ rest)
      × (let tx = genesis_ledger_tx v l key_eq node in
          All (IsFunded v (l.hash_ledger_tx tx) tx.outputs) after.accounts)
      × (0 < length after.accounts)
      × (length after.accounts ≤ limited_user_count w.user_limit (length as'))
      × (after ≡ record w { accounts = after.accounts })

  init_with-IsReady :
      (Error : Type 0) (w after : Workload v) (as' : List (WalletAccount v))
      (nodes : List (GeneratedNodeConfig v l))
      → init_with v l key_eq {Error = Error} w as' nodes ≡ ok after
      → IsReady w as' nodes after
  unfolding init_with limited_user_count
  init_with-IsReady Error w after [] nodes e = cc
  init_with-IsReady Error w after (a ∷ as') [] e = cc
  init_with-IsReady Error w after (a ∷ as') (node ∷ nodes) e =
      let tx = genesis_ledger_tx v l key_eq node in
      let matched = match_accounts v l key_eq (wallet_utxo_map v l key_eq node) (a ∷ as') in
      let items = apply_user_limit matched w.user_limit in
      let (same, many) = with_accounts-Takes Error w after items e in
      let (funded, le) =
        match_accounts-IsFunded v l key_eq (l.hash_ledger_tx tx) tx.outputs _ (a ∷ as')
          (wallet_utxo_map-HasEntry v l key_eq node) in
      let bound = length-apply_user_limit matched w.user_limit in
      subst (IsReady w (a ∷ as') (node ∷ nodes)) (sym same) (
        node,
        nodes,
        refl,
        All-apply_user_limit _ matched w.user_limit funded,
        many,
        omega (arith, limited_user_count_mono w.user_limit (length matched) (suc (length as'))),
        refl,
      )

  -- An initialised workload differs in its accounts only. There is at least one and at most as many as
  -- the wallet has and the limit allows, and each comes with an output of the first node's genesis
  -- transaction that pays to it.
  pub init-IsReady :
      (Error : Type 0) (w after : Workload v) (descriptors : GeneratedTopology v l)
      → init v l key_eq {Error = Error} w descriptors ≡ ok after
      → IsReady w descriptors.config.wallet_config.accounts descriptors.nodes after
  unfolding init
  init-IsReady Error w after descriptors e = init_with-IsReady Error w after _ _ e

  with_accounts-total :
      {Error : Type 0} (w : Workload v) (items : List (WalletInput v))
      → 0 < length items
      → with_accounts v l key_eq {Error = Error} w items ≡ ok (record w { accounts = items })
  with_accounts-total w [] h = absurd (omega arith)
  with_accounts-total w (x ∷ items) h = refl

  init_with-total :
      (Error : Type 0) (w : Workload v) (a : WalletAccount v) (as' : List (WalletAccount v))
      (node : GeneratedNodeConfig v l) (nodes : List (GeneratedNodeConfig v l))
      → All (IsPaid v (genesis_ledger_tx v l key_eq node).outputs) (a ∷ as')
      → w.user_limit ≢ some 0
      → (after : Workload v) × (init_with v l key_eq {Error = Error} w (a ∷ as') (node ∷ nodes)
          ≡ ok after)
        × (map account_of after.accounts
            ≡ take (limited_user_count w.user_limit (suc (length as'))) (a ∷ as'))
  unfolding init_with
  init_with-total Error w a as' node nodes paid limit =
      let m = wallet_utxo_map v l key_eq node in
      let matched = match_accounts v l key_eq m (a ∷ as') in
      let all = match_accounts_complete v l key_eq m (a ∷ as') (
        All-mono (IsPaid v (genesis_ledger_tx v l key_eq node).outputs)
          (λ (x : WalletAccount v). HasKey v l key_eq m (public_key v x)) (a ∷ as')
          (IsPaid-HasKey v l key_eq node) paid) in
      let size : length matched ≡ suc (length as') =
        sym (length-map account_of matched) ∙ ap length all in
      let items = apply_user_limit matched w.user_limit in
      let bound : length items ≡ limited_user_count w.user_limit (suc (length as')) =
        length-apply_user_limit matched w.user_limit ∙ ap (limited_user_count w.user_limit) size in
      (
        record w { accounts = items },
        with_accounts-total w items
            (omega (arith, limited_user_count-pos w.user_limit (length as') limit)),
        ap (map account_of) (apply_user_limit-eq matched w.user_limit)
            ∙ map-take account_of _ matched
            ∙ rw (all, size) refl,
      )

  -- Where the topology has a node, the wallet has an account, every account has an output of the first
  -- node's genesis transaction that pays to it, and the limit is not zero, the initialisation succeeds
  -- and takes the first accounts of the wallet, in their order: all of them, or as many as the limit
  -- allows.
  pub init-total :
      (Error : Type 0) (w : Workload v) (descriptors : GeneratedTopology v l) (a : WalletAccount v)
      (as' : List (WalletAccount v)) (node : GeneratedNodeConfig v l)
      (nodes : List (GeneratedNodeConfig v l))
      → descriptors.config.wallet_config.accounts ≡ a ∷ as'
      → descriptors.nodes ≡ node ∷ nodes
      → All (IsPaid v (genesis_ledger_tx v l key_eq node).outputs) (a ∷ as')
      → w.user_limit ≢ some 0
      → (after : Workload v) × (init v l key_eq {Error = Error} w descriptors ≡ ok after)
        × (map account_of after.accounts
            ≡ take (limited_user_count w.user_limit (suc (length as'))) (a ∷ as'))
  unfolding init
  init-total Error w descriptors a as' node nodes e1 e2 paid limit =
      let (after, made, accounts) = init_with-total Error w a as' node nodes paid limit in
      (after, ap₂ (init_with v l key_eq {Error = Error} w) e1 e2 ∙ made, accounts)
