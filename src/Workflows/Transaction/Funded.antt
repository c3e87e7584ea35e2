-- ===== src/Workflows/Transaction/Funded.antt =====
-- A transaction workload on a scenario whose builder asks for wallets. book/src/troubleshooting.md asks
-- for a user limit of at most the wallets; the code takes the smaller of the two.
use mathlib.Core.Path.{subst}
use logos_blockchain_testing.Prelude.{
  ℕ, ◌*◌, ◌^◌, ◌<◌, ◌≡◌, ◌≢◌, refl, sym, ◌∙◌, ap, some, List, [], ◌∷◌, map, length, take, ok, All,
  arith,
}
use logos_blockchain_testing.Vendor.{Vendor}
use logos_blockchain_testing.Os.{NodeId, Os}
use logos_blockchain_testing.Wallet.{WalletAccount}
use logos_blockchain_testing.Config.Ledger.{Ledger}
use logos_blockchain_testing.Config.Consensus.Funding.{IsPaid}
use logos_blockchain_testing.Topology.{TopologyConfig, GeneratedTopology, GeneratedNodeConfig}
use logos_blockchain_testing.Topology.Build.{IsTopology}
use logos_blockchain_testing.Topology.Promise.{build_topology}
use logos_blockchain_testing.Scenario.Definition.{
  Components, Scenario, Builder, default_funds_per_wallet, build,
}
use logos_blockchain_testing.Scenario.Promise.{build-IsBuiltFrom, initialize-parts, build_wallets}
use logos_blockchain_testing.Workflows.Transaction.{Workload, limited_user_count, init}
use logos_blockchain_testing.Workflows.Transaction.Init.{account_of, init-total}

module _ (v : Vendor) (l : Ledger v) (key_eq : Discrete v.ZkPublicKey) (Error : Type 0) where
  -- The workload takes the first accounts of the list, as many as its limit allows.
  abbrev pub Succeeds : Workload v → GeneratedTopology v l → List (WalletAccount v) → ℕ → Type 0
  Succeeds w t as' users =
      (after : Workload v) × (init v l key_eq {Error = Error} w t ≡ ok after)
      × (map account_of after.accounts ≡ take (limited_user_count w.user_limit users) as')

  -- On a topology that `build` yields, for any accounts that are not none.
  IsTopology-Succeeds :
      (w : Workload v) (config : TopologyConfig v) (ids : List NodeId) (ports : List ℕ)
      (t : GeneratedTopology v l) (as' : List (WalletAccount v))
      (nodes : List (GeneratedNodeConfig v l))
      → IsTopology v l config ids ports t
      → t.config.wallet_config.accounts ≡ as'
      → t.nodes ≡ nodes
      → 0 < length as'
      → w.user_limit ≢ some 0
      → Succeeds w t as' (length as')
  IsTopology-Succeeds w config ids ports t [] nodes is e1 e2 some_accounts limit =
      absurd (omega (arith, some_accounts))
  IsTopology-Succeeds w config ids ports t (a ∷ as') [] is e1 e2 some_accounts limit =
      let none_of : length t.nodes ≡ 0 = rw e2 refl in absurd (omega (arith, is.1, is.2))
  IsTopology-Succeeds w config ids ports t (a ∷ as') (node ∷ nodes) is e1 e2 some_accounts limit =
      let (same, count, pos, g, declares, paid, each) = is in
      let (_, _, _, shares) = each 0 node (rw e2 refl) in
      let accounts : config.wallet_config.accounts ≡ a ∷ as' =
        ap (λ (c : TopologyConfig v). c.wallet_config.accounts) (sym same) ∙ e1 in
      let funded : All (IsPaid v (l.mantle_tx g).ledger_tx.outputs) (a ∷ as') =
        rw accounts at paid in
      init-total v l key_eq Error w t a as' node nodes e1 e2
        (subst (λ (x : l.GenesisTx). All (IsPaid v (l.mantle_tx x).ledger_tx.outputs) (a ∷ as'))
          (sym shares) funded)
        limit

module _ (v : Vendor) (l : Ledger v) (key_eq : Discrete v.ZkPublicKey) (c : Components v l) where
  -- On a scenario that `build` returns after `wallets(users)`, with some users and funds that fit a
  -- `u64`, a transaction workload whose limit is not zero is initialised. It takes the first accounts
  -- of the wallet in their order, as many as there are users or as its limit allows.
  pub build-init :
      {Caps : Type 0} (Error : Type 0) (b : Builder c Caps) (os : Os) (s : Scenario c Caps)
      (users : ℕ) (w : Workload v)
      → 0 < users
      → default_funds_per_wallet * users < 2 ^ 64
      → b.wallet_users ≡ some users
      → (build c b os).0 ≡ ok s
      → w.user_limit ≢ some 0
      → Succeeds v l key_eq Error w s.topology s.topology.config.wallet_config.accounts users
  build-init Error b os s users w some_users fits asked e limit =
      let (builder, generated, _, made, initialized) = build-IsBuiltFrom c b os s e in
      let (ids, ports, topo, _, _) = build_topology v l builder os generated made in
      let (size, _, _) = build_wallets c b os s users some_users fits asked e in
      let is =
        subst (IsTopology v l builder.config ids ports)
          (sym (initialize-parts c b generated s initialized).0) topo in
      let accounts = s.topology.config.wallet_config.accounts in
      subst (Succeeds v l key_eq Error w s.topology accounts) size (
        IsTopology-Succeeds v l key_eq Error w builder.config ids ports s.topology accounts
          s.topology.nodes is refl refl (omega (arith, size, some_users)) limit)
