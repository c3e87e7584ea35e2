-- ===== src/Workflows/Builder/Restarts.antt =====
-- `ChaosBuilder` and `ChaosRestartBuilder` of testing-framework/workflows/src/builder/mod.rs.
use logos_blockchain_testing.Prelude.{ltb, ◌==◌, Bool, true, not, if◌then◌else◌}
use logos_blockchain_testing.Vendor.{Vendor}
use logos_blockchain_testing.Config.Ledger.{Ledger}
use logos_blockchain_testing.Config.Base.{Duration, from_secs}
use logos_blockchain_testing.Scenario.Definition as Definitions
use logos_blockchain_testing.Scenario.Definition.{Components, Builder}
use logos_blockchain_testing.Workflows.Chaos.{RandomRestartWorkload}
use logos_blockchain_testing.Workflows.Builder.{Boxed}

pub data NodeControlCapability : Type 0 where
  node_control : NodeControlCapability

module _ {v : Vendor} {l : Ledger v} (c : Components v l) where
  pub record ChaosBuilder : Type 0 where
    pub builder : Builder c NodeControlCapability

  pub record ChaosRestartBuilder : Type 0 where
    pub builder : Builder c NodeControlCapability
    pub min_delay : Duration
    pub max_delay : Duration
    pub target_cooldown : Duration
    pub include_nodes : Bool

  unfoldable pub chaos : Builder c NodeControlCapability → ChaosBuilder
  chaos b = record { builder = b }

  unfoldable pub chaos_with :
      Builder c NodeControlCapability
      → (ChaosBuilder → Builder c NodeControlCapability)
      → Builder c NodeControlCapability
  unfolding chaos
  chaos_with b f = f (chaos b)

  unfoldable pub restart : ChaosBuilder → ChaosRestartBuilder
  restart b = record {
    builder = b.builder;
    min_delay = from_secs 10;
    max_delay = from_secs 30;
    target_cooldown = from_secs 60;
    include_nodes = true;
  }

  unfoldable pub min_delay : ChaosRestartBuilder → Duration → ChaosRestartBuilder
  min_delay r delay = if delay == 0 then r else record r { min_delay = delay }

  unfoldable pub max_delay : ChaosRestartBuilder → Duration → ChaosRestartBuilder
  max_delay r delay = if delay == 0 then r else record r { max_delay = delay }

  unfoldable pub target_cooldown : ChaosRestartBuilder → Duration → ChaosRestartBuilder
  target_cooldown r cooldown = if cooldown == 0 then r else record r { target_cooldown = cooldown }

  unfoldable pub include_nodes : ChaosRestartBuilder → Bool → ChaosRestartBuilder
  include_nodes r enabled = record r { include_nodes = enabled }

  abbrev pub swap_delays : ChaosRestartBuilder → ChaosRestartBuilder
  swap_delays r =
      if ltb r.max_delay r.min_delay
      then record r { min_delay = r.max_delay; max_delay = r.min_delay }
      else r

  abbrev pub bump_cooldown : ChaosRestartBuilder → ChaosRestartBuilder
  bump_cooldown r =
      if ltb r.target_cooldown r.min_delay then record r { target_cooldown = r.min_delay } else r

  abbrev pub enable_targets : ChaosRestartBuilder → ChaosRestartBuilder
  enable_targets r = if not r.include_nodes then record r { include_nodes = true } else r

  abbrev pub workload_of : ChaosRestartBuilder → RandomRestartWorkload
  workload_of r = record {
    min_delay = r.min_delay;
    max_delay = r.max_delay;
    target_cooldown = r.target_cooldown;
    include_nodes = r.include_nodes;
  }

  unfoldable pub apply : Boxed c → ChaosRestartBuilder → Builder c NodeControlCapability
  unfolding Definitions.with_workload
  apply boxed r =
      let normal = enable_targets (bump_cooldown (swap_delays r)) in
      Definitions.with_workload c normal.builder (boxed.random_restart (workload_of normal))
