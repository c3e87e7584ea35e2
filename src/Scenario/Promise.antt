-- ===== src/Scenario/Promise.antt =====
-- What `Builder::build` promises of a scenario.
use logos_blockchain_testing.Prelude.{
  ℕ, ◌*◌, ◌/◌, ◌^◌, ◌≤◌, ◌<◌, ◌≡◌, refl, ap, All, All-mono, sym, ◌∙◌, ◌==◌, leb, false, Option,
  none, some, length, ok, ok_or, >>=-eq-ok, arith, ok-injective,
}
use mathlib.Core.Path.{subst}
use logos_blockchain_testing.Vendor.{Vendor}
use logos_blockchain_testing.Os.{Os, >>=-eq-ok as >>=ᴵ-eq-ok, convert-eq-ok, lift, convert}
use logos_blockchain_testing.Wallet.{WalletConfig, WalletAccount}
use logos_blockchain_testing.Wallet.Funds.{uniform_shares, total_value}
use logos_blockchain_testing.Config.Ledger.{Ledger}
use logos_blockchain_testing.Config.Base.{Duration}
use logos_blockchain_testing.Topology.{TopologyConfig, GeneratedTopology, slot_duration}
use logos_blockchain_testing.Topology.Builder as Topologies
use logos_blockchain_testing.Topology.Builder.{TopologyBuilder}
use logos_blockchain_testing.Topology.Promise.{build_topology}
use logos_blockchain_testing.Scenario.Metrics.{from_topology}
use logos_blockchain_testing.Scenario.Definition.{
  Components, Scenario, Builder, ScenarioBuildError, topology, panic, default_funds_per_wallet,
  enforce_min_duration, fund_wallets, initialize_workloads, initialize_expectations, initialize,
  build,
}

enforce_min_duration-le :
    (slot : Option Duration) (requested d : Duration)
    → enforce_min_duration slot requested ≡ some d
    → requested ≤ d
unfolding enforce_min_duration
enforce_min_duration-le none requested d e = ground arith
enforce_min_duration-le (some slot) requested d e = ground arith

enforce_min_duration-slots :
    (slot requested d : Duration)
    → enforce_min_duration (some slot) requested ≡ some d
    → 2 * slot ≤ d
unfolding enforce_min_duration
enforce_min_duration-slots slot requested d e = ground arith

ok_or-eq-ok {ℓ κ} :
    {A : Type ℓ} {E : Type κ} (o : Option A) (x : E) (a : A) → ok_or o x ≡ ok a → o ≡ some a
ok_or-eq-ok none x a e = cc
ok_or-eq-ok (some b) x a e = cc

hundred_each : (users : ℕ) → 0 < users → default_funds_per_wallet * users / users ≡ 100
hundred_each users h = grind arith

module _ {v : Vendor} {l : Ledger v} (c : Components v l) where
  -- With some wallet users whose funds fit a `u64`, the topology builder gets a wallet for each user
  -- with 100 tokens each.
  fund_wallets-total :
      (builder : TopologyBuilder v) (users : ℕ)
      → 0 < users
      → default_funds_per_wallet * users < 2 ^ 64
      → (w : WalletConfig v) × (fund_wallets c builder (some users)
          ≡ ok (Topologies.with_wallet_config v builder w))
        × (length w.accounts ≡ users)
        × (total_value w.accounts ≡ default_funds_per_wallet * users)
        × All (λ a. 100 ≤ a.value) w.accounts
  unfolding fund_wallets
  fund_wallets-total builder users some_users fits =
      let funds = default_funds_per_wallet * users in
      let (w, made, size, total, fair, _) = uniform_shares v funds users some_users (omega arith) in
      let positive : (users == 0) ≡ false = ground (arith, some_users) in
      let small : leb (2 ^ 64) (default_funds_per_wallet * users) ≡ false = ground (arith, fits) in
      (
        w,
        rw (positive, small, made) refl,
        size,
        total,
        All-mono _ (λ (a : WalletAccount v). 100 ≤ a.value) w.accounts
            (λ a share. let each = hundred_each users some_users in omega (arith, share.0, each))
            fair,
      )

module _ {v : Vendor} {l : Ledger v} (c : Components v l) {Caps : Type 0} where
  -- The steps behind a scenario that is built.
  abbrev pub IsBuiltFrom : Builder c Caps → Os → Scenario c Caps → Type 0
  IsBuiltFrom b os s =
      (builder : TopologyBuilder v) × (generated : GeneratedTopology v l) × (fund_wallets c
          b.topology b.wallet_users
        ≡ ok builder)
      × ((Topologies.build v l builder os).0 ≡ ok generated)
      × (initialize c b generated ≡ ok s)

  pub build-IsBuiltFrom :
      (b : Builder c Caps) (os : Os) (s : Scenario c Caps)
      → (build c b os).0 ≡ ok s
      → IsBuiltFrom b os s
  unfolding build
  build-IsBuiltFrom b os s e =
      let (builder, funded, e1) =
        >>=ᴵ-eq-ok (lift (fund_wallets c b.topology b.wallet_users)) _ os e in
      let (generated, made, e2) =
        >>=ᴵ-eq-ok (convert topology (Topologies.build v l builder)) _ os e1 in
      (
        builder,
        generated,
        funded,
        convert-eq-ok topology (Topologies.build v l builder) os made,
        e2,
      )

  pub initialize-parts :
      (b : Builder c Caps) (generated : GeneratedTopology v l) (s : Scenario c Caps)
      → initialize c b generated ≡ ok s
      → (s.topology ≡ generated)
        × (enforce_min_duration (slot_duration generated) b.duration ≡ some s.duration)
  unfolding initialize
  initialize-parts b generated s e =
      let (d, timed, e1) =
        >>=-eq-ok
          (ok_or {E = ScenarioBuildError c}
            (enforce_min_duration (slot_duration generated) b.duration) panic)
          _ e in
      let (metrics, _, e2) =
        >>=-eq-ok (ok_or {E = ScenarioBuildError c} (from_topology v generated d) panic) _ e1 in
      let (workloads, _, e3) =
        >>=-eq-ok (initialize_workloads c generated metrics b.workloads) _ e2 in
      let (expectations, _, e4) =
        >>=-eq-ok (initialize_expectations c generated metrics b.expectations) _ e3 in
      subst
        (λ (t : Scenario c Caps).
          (t.topology ≡ generated)
          × (enforce_min_duration (slot_duration generated) b.duration ≡ some t.duration))
        (ok-injective _ s e4)
        (refl, ok_or-eq-ok (enforce_min_duration (slot_duration generated) b.duration) _ d timed)

  -- A scenario that `build` returns runs at least as long as requested, and for at least two slots of
  -- its nodes.
  pub build_duration :
      (b : Builder c Caps) (os : Os) (s : Scenario c Caps) (slot : Duration)
      → (build c b os).0 ≡ ok s
      → slot_duration s.topology ≡ some slot
      → (b.duration ≤ s.duration) × (2 * slot ≤ s.duration)
  build_duration b os s slot e first =
      let (builder, generated, _, _, initialized) = build-IsBuiltFrom b os s e in
      let (same, timed) = initialize-parts b generated s initialized in
      let at_slot = rw (ap (λ t. slot_duration t) (sym same) ∙ first) at timed in
      (
        enforce_min_duration-le (some slot) b.duration s.duration at_slot,
        enforce_min_duration-slots slot b.duration s.duration at_slot,
      )

  -- A scenario that `build` returns after `wallets(users)`, with some users and funds that fit a
  -- `u64`, has a genesis wallet account for each user. The accounts hold 100 tokens for each user
  -- together, and each holds at least 100.
  pub build_wallets :
      (b : Builder c Caps) (os : Os) (s : Scenario c Caps) (users : ℕ)
      → 0 < users
      → default_funds_per_wallet * users < 2 ^ 64
      → b.wallet_users ≡ some users
      → (build c b os).0 ≡ ok s
      → let accounts = s.topology.config.wallet_config.accounts in
        (length accounts ≡ users)
        × (total_value accounts ≡ default_funds_per_wallet * users)
        × All (λ a. 100 ≤ a.value) accounts
  unfolding Topologies.with_wallet_config
  build_wallets b os s users some_users fits asked e =
      let (builder, generated, funded, made, initialized) = build-IsBuiltFrom b os s e in
      let (w, made', size, total, each) = fund_wallets-total c b.topology users some_users fits in
      let given = ok-injective _ builder (sym made' ∙ (rw asked at funded)) in
      let (ids, ports, topo, _, _) = build_topology v l builder os generated made in
      let config : w ≡ s.topology.config.wallet_config =
        ap (λ (t : TopologyBuilder v). t.config.wallet_config) given
        ∙ ap (λ (t : TopologyConfig v). t.wallet_config) (sym topo.0)
        ∙ ap (λ (t : GeneratedTopology v l). t.config.wallet_config)
            (sym (initialize-parts b generated s initialized).0) in
      subst
        (λ (x : WalletConfig v).
          (length x.accounts ≡ users)
          × (total_value x.accounts ≡ default_funds_per_wallet * users)
          × All (λ a. 100 ≤ a.value) x.accounts)
        config (size, total, each)
