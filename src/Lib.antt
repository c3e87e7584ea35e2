-- ===== src/Lib.antt =====
-- A verification library for the testing framework (the Rust workspace under testing-framework/).
-- The framework generates the configuration of a network of nodes, deploys it, drives workloads
-- against it, and evaluates expectations. The library models the part that decides what the network
-- looks like and whether a run is judged correct.
--
-- Parts, and the files that model them:
--   Prelude            lists, results and Boolean tests over native numbers
--   Vendor             types and functions of other crates (keys, addresses, hashes), a parameter of
--                      all definitions; Config/Ledger adds the ledger's types, with the genesis
--                      transaction as an interface
--   Os                 free ports, random ids and environment variables, as streams of answers; an
--                      action returns a result and the answers that are left
--   Wallet             configs/src/topology/configs/wallet.rs
--   Config/Invariants  configs/src/topology/invariants.rs
--   Config/Network     configs/src/topology/configs/network.rs and build_initial_peers of runtime.rs
--   Config/Consensus   configs/src/topology/configs/consensus.rs
--   Config/Base        base.rs, bootstrap.rs, blend.rs, api.rs, time.rs and tracing.rs beside it, and
--                      create_kms_configs of core/src/topology/utils.rs
--   Topology           core/src/topology/config.rs, utils.rs and generation.rs: the generated nodes
--                      and the steps of TopologyBuilder::build; Topology/Builder has the builder
--   Peers              find_expected_peer_counts of core/src/topology/generation.rs
--   Scenario/Definition core/src/scenario/definition.rs, with the workloads and expectations as an
--                      interface; Scenario/Metrics has RunMetrics of runtime/context.rs
--   Scenario/Feed      core/src/scenario/runtime/block_feed.rs
--   Scenario/Runner    core/src/scenario/runtime/runner.rs, with RunHandle of runtime/context.rs
--   Workflows/Liveness workflows/src/expectations/consensus_liveness.rs
--   Workflows/Chaos    workflows/src/workloads/chaos.rs
--   Workflows/Cluster  submit_transaction_via_cluster of workflows/src/workloads/util.rs
--   Workflows/Transaction, and Submission below it
--                      workflows/src/workloads/transaction/workload.rs
--   Workflows/Inclusion workflows/src/workloads/transaction/expectation.rs
--   Workflows/Builder  workflows/src/builder/mod.rs; its children have the restart builder and the
--                      two implementations of the observability builder
--   Deployers/Nodes    deployers/local/src/node_control/mod.rs and state.rs: the registry of nodes
--                      that are started during a run
--   Cfgsync            tools/cfgsync_tf/src/host.rs and network/: the hosts of the configuration server
--                      and the initial peers that dial them; Cfgsync/Repo has repo.rs
--   Examples           concrete keys, addresses and a ledger, with a run of each theorem
-- (All paths are below testing-framework/.)
--
-- How they interact: TopologyBuilder::build (Topology/Builder.build) resolves ids and ports (Os), has
-- build_base_configs (Config/Base) make the consensus and network configurations, collects a blend
-- provider for every node, and replaces the genesis transaction by one that declares them. The
-- network configuration decides who dials whom; Peers computes from the same ports how many peers
-- each node must report. The scenario's builder funds a wallet, builds the topology, and initialises
-- the workloads and expectations on it. The runner lets the expectations start their captures, drives
-- the workloads until the timer and through the cooldown, aborts what is left, evaluates the
-- expectations and cleans up. The transaction workload spends the wallet notes of the genesis
-- transaction, and its expectation counts the blocks' outputs to the same accounts; the restart
-- workload restarts nodes. A run is observed by the block feed and judged by the liveness check.
--
-- Conventions: functions keep their Rust names. A loop is a function by recursion on the list or the
-- count that it walks, with the loop's variables as arguments; the scan of the block feed ends when the
-- height has run out. Two loops take fuel: the wait of pick_target (Workflows/Chaos), a round for each
-- cooldown and one more, and the polls of the inclusion expectation (Workflows/Inclusion), 61 rounds for
-- a wait of at most a minute; that they do not run out is part of what is proved of them. What a
-- program draws from a random generator, from a clock or from its network is given by the number of
-- the call. `Option` with none, or an error panic or index_panic,
-- stands for a panic. A `HashMap` is the list of its entries and a `HashSet` the list of its elements. Durations
-- are numbers of nanoseconds. Widths are written out where the code's arithmetic can exceed them.
--
-- Not modelled: processes, HTTP, docker, helm and kubectl, log output and the texts of errors; the
-- spawn of a node, the HTTP server of cfgsync and its generator of configurations, which is an
-- argument of the repository's run, and floating-point arithmetic, which is a parameter. The tasks of a
-- run stand in the order in which they end, so that what is proved of a run holds for any such order.
-- The polls of the repository stand in a list with what the hosts announce before each of them.
pub mod Prelude
pub mod Vendor
pub mod Os
pub mod Wallet
pub mod Peers
pub mod Config
pub mod Topology
pub mod Scenario
pub mod Workflows
pub mod Deployers
pub mod Cfgsync
pub mod Examples
