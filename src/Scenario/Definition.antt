-- ===== src/Scenario/Definition.antt =====
-- testing-framework/core/src/scenario/definition.rs: the builder of a scenario. The constructor
-- `panic` of the error stands for the panics: of an assertion, or of a duration that overflows.
use logos_blockchain_testing.Prelude.{
  ℕ, ◌*◌, ◌^◌, max, ◌==◌, leb, Bool, Option, none, some, List, [], ◌∷◌, ◌++◌, String, if◌then◌else◌,
  Result, ok, err, map_err, ok_or, ◌>>=◌,
}
use logos_blockchain_testing.Vendor.{Vendor}
use logos_blockchain_testing.Os.{Io, ◌>>=◌ as ◌>>=ᴵ◌, lift, convert}
use logos_blockchain_testing.Wallet.{WalletConfig, uniform}
use logos_blockchain_testing.Config.Ledger.{Ledger}
use logos_blockchain_testing.Config.Network.{star}
use logos_blockchain_testing.Config.Base.{Duration, from_secs}
use logos_blockchain_testing.Topology.{TopologyBuildError, GeneratedTopology, slot_duration}
use logos_blockchain_testing.Topology.Builder as Topologies
use logos_blockchain_testing.Topology.Builder.{TopologyBuilder}
use logos_blockchain_testing.Scenario.Metrics.{RunMetrics, from_topology}

-- The workloads and expectations that a scenario is made of: trait objects, with the methods that the
-- builder calls. An initialisation returns the object as it leaves it.
pub record Components (v : Vendor) (l : Ledger v) : Type 1 where
  pub DynError : Type 0
  pub Workload : Type 0
  pub Expectation : Type 0
  pub workload_name : Workload → String
  pub expectation_name : Expectation → String
  pub expectations : Workload → List Expectation
  pub init_workload : Workload → GeneratedTopology v l → RunMetrics → Result Workload DynError
  pub init_expectation :
      Expectation → GeneratedTopology v l → RunMetrics → Result Expectation DynError

module _ {v : Vendor} {l : Ledger v} (c : Components v l) where
  pub data ScenarioBuildError : Type 0 where
    topology : TopologyBuildError → ScenarioBuildError
    wallet_users_zero : ℕ → ScenarioBuildError
    wallet_funds_overflow : ℕ → ℕ → ScenarioBuildError
    workload_init : String → c.DynError → ScenarioBuildError
    expectation_init : String → c.DynError → ScenarioBuildError
    panic : ScenarioBuildError

  pub record Scenario (Caps : Type 0) : Type 0 where
    pub topology : GeneratedTopology v l
    pub workloads : List c.Workload
    pub expectations : List c.Expectation
    pub duration : Duration
    pub capabilities : Caps

  pub record Builder (Caps : Type 0) : Type 0 where
    pub topology : TopologyBuilder v
    pub workloads : List c.Workload
    pub expectations : List c.Expectation
    pub duration : Duration
    pub wallet_users : Option ℕ
    pub capabilities : Caps

  pub record TopologyConfigurator (Caps : Type 0) : Type 0 where
    pub builder : Builder Caps
    pub nodes : ℕ
    pub network_star : Bool

abbrev pub default_funds_per_wallet : ℕ
default_funds_per_wallet = 100

abbrev pub min_expectation_blocks : ℕ
min_expectation_blocks = 2

abbrev pub min_expectation_fallback_secs : ℕ
min_expectation_fallback_secs = 10

-- The first nanosecond that a `Duration` cannot hold.
abbrev pub duration_end : ℕ
duration_end = 2 ^ 64 * 1000000000

-- `requested.max(min_duration)`; none: `slot * MIN_EXPECTATION_BLOCKS` overflows.
unfoldable pub enforce_min_duration : Option Duration → Duration → Option Duration
enforce_min_duration none requested = some (max requested (from_secs min_expectation_fallback_secs))
enforce_min_duration (some slot) requested =
    if leb duration_end (slot * min_expectation_blocks)
    then none
    else some (max requested (slot * min_expectation_blocks))

module _ {v : Vendor} {l : Ledger v} (c : Components v l) where
  module _ {Caps : Type 0} where
    unfoldable pub new : TopologyBuilder v → Caps → Builder c Caps
    new builder default = record {
      topology = builder;
      workloads = [];
      expectations = [];
      duration = 0;
      wallet_users = none;
      capabilities = default;
    }

    unfoldable pub with_capabilities : {New : Type 0} → Builder c Caps → New → Builder c New
    with_capabilities b capabilities = record {
      topology = b.topology;
      workloads = b.workloads;
      expectations = b.expectations;
      duration = b.duration;
      wallet_users = b.wallet_users;
      capabilities = capabilities;
    }

    unfoldable pub with_workload : Builder c Caps → c.Workload → Builder c Caps
    with_workload b workload = record b {
      expectations = b.expectations ++ c.expectations workload;
      workloads = b.workloads ++ workload ∷ [];
    }

    unfoldable pub with_expectation : Builder c Caps → c.Expectation → Builder c Caps
    with_expectation b expectation = record b { expectations = b.expectations ++ expectation ∷ [] }

    unfoldable pub with_run_duration : Builder c Caps → Duration → Builder c Caps
    with_run_duration b duration = record b { duration = duration }

    unfoldable pub map_topology :
        Builder c Caps → (TopologyBuilder v → TopologyBuilder v) → Builder c Caps
    map_topology b f = record b { topology = f b.topology }

    unfoldable pub with_wallet_config : Builder c Caps → WalletConfig v → Builder c Caps
    unfolding Topologies.with_wallet_config
    with_wallet_config b wallet = record b {
      topology = Topologies.with_wallet_config v b.topology wallet;
      wallet_users = none;
    }

    unfoldable pub wallets : Builder c Caps → ℕ → Builder c Caps
    wallets b users = record b { wallet_users = some users }

    -- `TopologyConfigurator::apply`, with the active slot coefficient of `with_node_numbers`
    unfoldable pub apply : v.F64 → TopologyConfigurator c Caps → Builder c Caps
    unfolding Topologies.with_node_numbers Topologies.new
    apply active_slot_coeff t =
        let config = Topologies.with_node_numbers v active_slot_coeff t.nodes in
        let layout =
          if t.network_star
          then record config { network_params = record { libp2p_network_layout = star } }
          else config in
        record (t.builder) { topology = Topologies.new v layout }

  -- `initialize_workloads`
  unfoldable pub initialize_workloads :
      GeneratedTopology v l
      → RunMetrics
      → List c.Workload
      → Result (List c.Workload) (ScenarioBuildError c)
  initialize_workloads descriptors metrics [] = ok []
  initialize_workloads descriptors metrics (w ∷ rest) = do
    first ← map_err (workload_init (c.workload_name w)) (c.init_workload w descriptors metrics)
    others ← initialize_workloads descriptors metrics rest
    ok (first ∷ others)

  unfoldable pub initialize_expectations :
      GeneratedTopology v l
      → RunMetrics
      → List c.Expectation
      → Result (List c.Expectation) (ScenarioBuildError c)
  initialize_expectations descriptors metrics [] = ok []
  initialize_expectations descriptors metrics (e ∷ rest) = do
    first ←
        map_err (expectation_init (c.expectation_name e)) (c.init_expectation e descriptors metrics)
    others ← initialize_expectations descriptors metrics rest
    ok (first ∷ others)

  -- The part of `build` for the wallet users.
  unfoldable pub fund_wallets :
      TopologyBuilder v → Option ℕ → Result (TopologyBuilder v) (ScenarioBuildError c)
  unfolding uniform Topologies.with_wallet_config
  fund_wallets builder none = ok builder
  fund_wallets builder (some users) =
      if users == 0
      then err (wallet_users_zero users)
      else (if leb (2 ^ 64) (default_funds_per_wallet * users)
          then err (wallet_funds_overflow users default_funds_per_wallet)
          else do
            wallet ← ok_or (uniform v (default_funds_per_wallet * users) users) panic
            ok (Topologies.with_wallet_config v builder wallet))

  -- `build` after the topology is generated.
  unfoldable pub initialize :
      {Caps : Type 0}
      → Builder c Caps
      → GeneratedTopology v l
      → Result (Scenario c Caps) (ScenarioBuildError c)
  unfolding slot_duration enforce_min_duration from_topology initialize_workloads
      initialize_expectations
  initialize b generated = do
    duration ← ok_or (enforce_min_duration (slot_duration generated) b.duration) panic
    metrics ← ok_or (from_topology v generated duration) panic
    workloads ← initialize_workloads generated metrics b.workloads
    expectations ← initialize_expectations generated metrics b.expectations
    ok (record {
      topology = generated;
      workloads = workloads;
      expectations = expectations;
      duration = duration;
      capabilities = b.capabilities;
    })

  unfoldable pub build :
      {Caps : Type 0} → Builder c Caps → Io (Scenario c Caps) (ScenarioBuildError c)
  unfolding fund_wallets Topologies.build initialize
  build b = lift (fund_wallets b.topology b.wallet_users) >>=ᴵ λ builder.
      convert topology (Topologies.build v l builder) >>=ᴵ λ generated.
      lift (initialize b generated)
