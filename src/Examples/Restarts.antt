-- ===== src/Examples/Restarts.antt =====
-- The theorems on the restart workload and its builder: three nodes, and a random generator that always
-- chooses the first.
use logos_blockchain_testing.Prelude.{
  ℕ, ◌≡◌, refl, true, some, none, Option, [], ◌∷◌, List, get_elem?, ok, String, All, arith,
}
use logos_blockchain_testing.Examples.Scenarios.{named, two_nodes}
use logos_blockchain_testing.Config.Base.{from_secs}
use logos_blockchain_testing.Scenario.Definition.{Builder, with_workload}
use logos_blockchain_testing.Workflows.Chaos.{
  Chance, Clock, Cooldowns, Target, node, RandomRestartWorkload, start, pick_target,
}
use logos_blockchain_testing.Workflows.Chaos.Pick.{IsFair, Picks, pick_target-Picks}
use logos_blockchain_testing.Workflows.Chaos.Spacing.{Spaced, IsBelow, EndsWell, start-Spaced}
use logos_blockchain_testing.Workflows.Builder.{Boxed}
use logos_blockchain_testing.Workflows.Builder.Restarts.{
  NodeControlCapability, node_control, chaos_with, restart, apply,
}
use logos_blockchain_testing.Workflows.Builder.Normal.{
  with_min_delay, with_max_delay, with_target_cooldown, call_all, IsNormal, chaos_with-IsNormal,
}

abbrev first : List Target → Option Target
first [] = none
first (t ∷ ts) = some t

abbrev first_chosen : Chance String
first_chosen = record {
  late = λ n. 1;
  offset = λ n spread. spread;
  choose = λ n ts. first ts;
  restart_node = λ n index. ok tt;
  restart_time = λ n. from_secs 2;
  instant_end = from_secs 1000;
}

first-elem :
    (ts : List Target) (t : Target) → first ts ≡ some t → (i : ℕ) × (get_elem? ts i ≡ some t)
first-elem [] t e = cc
first-elem (x ∷ ts) t e = (0, e)

first_chosen-IsFair : IsFair 0 first_chosen
first_chosen-IsFair = record {
  choose-elem = λ n ts t e. first-elem ts t e;
  choose-ne-none = λ n t ts e. cc;
  offset-le = λ n spread. omega arith;
}

abbrev every_minute : RandomRestartWorkload
every_minute = record {
  min_delay = from_secs 10;
  max_delay = from_secs 30;
  target_cooldown = from_secs 60;
  include_nodes = true;
}

abbrev at_start : Clock
at_start = record { now = from_secs 100; calls = 0 }

start-Spaced_example :
    let (log, end) = start first_chosen 3 true 3 every_minute at_start in
    Spaced every_minute (from_secs 100) 0 log
    × All (λ r. IsBelow 3 r.target) log
    × EndsWell 3 log end
start-Spaced_example =
    start-Spaced first_chosen-IsFair 3 3 every_minute at_start (omega arith) refl (omega arith)

abbrev one_waiting : Cooldowns
one_waiting = (node 0, from_secs 130) ∷ (node 1, from_secs 40) ∷ []

pick_target-Picks_example :
    Picks
      (node 0 ∷ node 1 ∷ [])
      one_waiting
      at_start
      (pick_target first_chosen (node 0 ∷ node 1 ∷ []) one_waiting at_start)
pick_target-Picks_example =
    pick_target-Picks first_chosen-IsFair (node 0) (node 1 ∷ []) one_waiting at_start

abbrev pub boxed : Boxed named
boxed = record {
  transaction = λ w. "transactions";
  random_restart = λ w. "restarts";
  consensus_liveness = λ e. "liveness";
}

abbrev controlled : Builder named NodeControlCapability
controlled = record {
  topology = two_nodes.topology;
  workloads = [];
  expectations = "liveness" ∷ [];
  duration = from_secs 3;
  wallet_users = none;
  capabilities = node_control;
}

chaos_with-IsNormal_example :
    (w : RandomRestartWorkload) × (chaos_with named controlled (λ k. apply named boxed (
        call_all named
          (with_min_delay 0 ∷ with_max_delay (from_secs 5) ∷ with_target_cooldown 1 ∷ [])
          (restart named k)))
      ≡ with_workload named controlled (boxed.random_restart w))
    × IsNormal w
chaos_with-IsNormal_example =
    chaos_with-IsNormal named boxed controlled
      (with_min_delay 0 ∷ with_max_delay (from_secs 5) ∷ with_target_cooldown 1 ∷ [])
