-- ===== src/Workflows/Chaos.antt =====
-- testing-framework/workflows/src/workloads/chaos.rs: the workload that restarts random nodes. An
-- instant counts nanoseconds from the earliest one that the platform can represent. `out_of_fuel` is
-- an error of the model only: the loop of `pick_target` has used up its rounds.
pub mod Pick
pub mod Spacing
use logos_blockchain_testing.Prelude.{
  ℕ, zero, suc, ◌+◌, ◌-◌, ◌==◌, ltb, leb, min, Bool, true, false, Option, none, some, List, [], ◌∷◌,
  length, if◌then◌else◌, Result, ok, err,
}
use logos_blockchain_testing.Config.Base.{Duration}
use logos_blockchain_testing.Scenario.Definition.{duration_end}

abbrev pub Instant : Type 0
Instant = ℕ

pub data Target : Type 0 where
  node : ℕ → Target

pub record RandomRestartWorkload : Type 0 where
  pub min_delay : Duration
  pub max_delay : Duration
  pub target_cooldown : Duration
  pub include_nodes : Bool

pub data ChaosError (Error : Type 0) : Type 0 where
  requires_node_control : ChaosError Error
  no_eligible_targets : ChaosError Error
  restart_failed : Error → ChaosError Error
  panic : ChaosError Error
  out_of_fuel : ChaosError Error

-- What the workload does not decide, by the number of the call: the time by which a sleep runs over,
-- the offset that `gen_range(0.0..=spread)` gives as a duration, what `choose` takes from a slice,
-- and the answer and the time of `restart_node`. `instant_end` is the first instant that cannot be
-- represented.
pub record Chance (Error : Type 0) : Type 0 where
  pub late : ℕ → Duration
  pub offset : ℕ → Duration → Duration
  pub choose : ℕ → List Target → Option Target
  pub restart_node : ℕ → ℕ → Result (Unit {0}) Error
  pub restart_time : ℕ → Duration
  pub instant_end : Instant

-- The current instant, and how many calls were made.
pub record Clock : Type 0 where
  pub now : Instant
  pub calls : ℕ

-- A `HashMap<Target, Instant>` as the list of its entries.
abbrev pub Cooldowns : Type 0
Cooldowns = List (Target × Instant)

abbrev pub is_target : Target → Target → Bool
is_target (node i) (node j) = i == j

-- `HashMap::insert`
unfoldable pub insert_ready : Cooldowns → Target → Instant → Cooldowns
insert_ready [] target ready = (target, ready) ∷ []
insert_ready ((t, r) ∷ rest) target ready =
    let others = insert_ready rest target ready in
    if is_target t target then (target, ready) ∷ rest else (t, r) ∷ others

unfoldable pub get_ready : Cooldowns → Target → Option Instant
get_ready [] target = none
get_ready ((t, r) ∷ rest) target =
    let others = get_ready rest target in if is_target t target then some r else others

-- The targets of `count` nodes, from number `index` on.
unfoldable pub targets_from : ℕ → ℕ → List Target
targets_from index zero = []
targets_from index (suc count) = node index ∷ targets_from (suc index) count

unfoldable pub targets : RandomRestartWorkload → ℕ → List Target
unfolding targets_from
targets w node_count =
    if w.include_nodes then (if ltb 1 node_count then targets_from 0 node_count else []) else []

abbrev pub unwrap_or {ℓ} : {A : Type ℓ} → Option A → A → A
unwrap_or none default = default
unwrap_or (some a) default = a

abbrev pub checked_sub : ℕ → ℕ → Option ℕ
checked_sub a b = if leb b a then some (a - b) else none

-- `Duration::checked_add`
abbrev pub checked_add : Duration → Duration → Option Duration
checked_add a b = if leb duration_end (a + b) then none else some (a + b)

abbrev pub min_delay_spread_fallback : Duration
min_delay_spread_fallback = 1000000

-- The loop over the targets that collects a map.
unfoldable pub collect_ready : List Target → Instant → Cooldowns → Cooldowns
unfolding insert_ready
collect_ready [] ready map = map
collect_ready (t ∷ rest) ready map = collect_ready rest ready (insert_ready map t ready)

unfoldable pub initialize_cooldowns : RandomRestartWorkload → Instant → List Target → Cooldowns
unfolding collect_ready
initialize_cooldowns w now targets =
    collect_ready targets (unwrap_or (checked_sub now w.target_cooldown) now) []

abbrev pub min_with : Instant → Option Instant → Instant
min_with a none = a
min_with a (some b) = min a b

-- The earliest instant of the map that is still to come.
unfoldable pub next_ready : Instant → Cooldowns → Option Instant
next_ready now [] = none
next_ready now ((t, ready) ∷ rest) =
    let others = next_ready now rest in
    if ltb now ready then some (min_with ready others) else others

abbrev pub is_ready : Instant → Option Instant → Bool
is_ready now none = true
is_ready now (some ready) = leb ready now

unfoldable pub available : Cooldowns → Instant → List Target → List Target
unfolding get_ready
available cooldowns now [] = []
available cooldowns now (t ∷ rest) =
    let others = available cooldowns now rest in
    if is_ready now (get_ready cooldowns t) then t ∷ others else others

module _ {Error : Type 0} (chance : Chance Error) where
  -- `sleep(duration).await`
  unfoldable pub sleep : Duration → Clock → Clock
  sleep duration clock = record {
    now = clock.now + duration + chance.late clock.calls;
    calls = suc clock.calls;
  }

  unfoldable pub random_delay : RandomRestartWorkload → Clock → Duration
  random_delay w clock =
      if leb w.max_delay w.min_delay
      then w.min_delay
      else (let spread =
            unwrap_or (checked_sub w.max_delay w.min_delay) min_delay_spread_fallback in
          unwrap_or (checked_add w.min_delay (chance.offset clock.calls spread)) w.max_delay)

  -- `pick_target` after the wait: one of the available targets, or else one of all.
  unfoldable pub choose_target :
      List Target → Cooldowns → Clock → Result (Target × Clock) (ChaosError Error)
  unfolding available
  choose_target targets cooldowns clock =
      elim (chance.choose clock.calls (available cooldowns clock.now targets)) [
        | some choice ↦ ok (choice, record clock { calls = suc clock.calls })
        | none ↦ (elim (chance.choose (suc clock.calls) targets) [
          | some choice ↦ ok (choice, record clock { calls = suc (suc clock.calls) })
          | none ↦ err no_eligible_targets
        ])
      ]

  -- The loop of `pick_target`, with fuel.
  unfoldable pub pick_loop :
      ℕ → List Target → Cooldowns → Clock → Result (Target × Clock) (ChaosError Error)
  unfolding next_ready sleep choose_target
  pick_loop zero targets cooldowns clock = err out_of_fuel
  pick_loop (suc fuel) targets cooldowns clock = elim (next_ready clock.now cooldowns) [
    | none ↦ choose_target targets cooldowns clock
    | some ready ↦ (elim (ready - clock.now == 0) [
      | true ↦ choose_target targets cooldowns clock
      | false ↦ pick_loop fuel targets cooldowns (sleep (ready - clock.now) clock)
    ])
  ]

  unfoldable pub pick_target :
      List Target → Cooldowns → Clock → Result (Target × Clock) (ChaosError Error)
  unfolding pick_loop
  pick_target [] cooldowns clock = err no_eligible_targets
  pick_target (t ∷ rest) cooldowns clock =
      pick_loop (suc (length cooldowns)) (t ∷ rest) cooldowns clock

-- A call of `restart_node`, with the instants at which it begins and ends.
pub record Restart : Type 0 where
  pub target : Target
  pub started : Instant
  pub finished : Instant

pub record Running : Type 0 where
  pub cooldowns : Cooldowns
  pub clock : Clock

module _ {Error : Type 0} (chance : Chance Error) where
  -- `Instant + Duration`; none: it panics.
  unfoldable pub add_instant : Instant → Duration → Option Instant
  add_instant t d = if leb chance.instant_end (t + d) then none else some (t + d)

  -- The arm of the match on a target, and the `insert` after it.
  unfoldable pub restart_target :
      RandomRestartWorkload
      → Cooldowns
      → Target × Clock
      → Result (Restart × Running) (ChaosError Error)
  unfolding insert_ready add_instant
  restart_target w cooldowns (node index, clock) = elim (chance.restart_node clock.calls index) [
    | err e ↦ err (restart_failed e)
    | ok done ↦
        let finished = clock.now + chance.restart_time clock.calls in
        elim (add_instant finished w.target_cooldown) [
          | none ↦ err panic
          | some ready ↦ ok (
            record { target = node index; started = clock.now; finished = finished },
            record {
              cooldowns = insert_ready cooldowns (node index) ready;
              clock = record { now = finished; calls = suc clock.calls };
            },
          )
        ]
  ]

  abbrev restart_picked :
      RandomRestartWorkload
      → Cooldowns
      → Result (Target × Clock) (ChaosError Error)
      → Result (Restart × Running) (ChaosError Error)
  restart_picked w cooldowns (err e) = err e
  restart_picked w cooldowns (ok picked) = restart_target w cooldowns picked

  -- The body of the loop of `start`.
  unfoldable pub round :
      RandomRestartWorkload → List Target → Running → Result (Restart × Running) (ChaosError Error)
  unfolding sleep random_delay pick_target restart_target
  round w targets s = restart_picked w s.cooldowns (
      pick_target chance targets s.cooldowns (sleep chance (random_delay chance w s.clock) s.clock))

  -- The first rounds of the loop: the restarts, and the error that ends it, if one does.
  unfoldable pub rounds :
      ℕ → RandomRestartWorkload → List Target → Running → List Restart × Option (ChaosError Error)
  unfolding round
  rounds zero w targets s = ([], none)
  rounds (suc n) w targets s = elim (round w targets s) [
    | err e ↦ ([], some e)
    | ok (restart, next) ↦ let (log, ended) = rounds n w targets next in (restart ∷ log, ended)
  ]

  -- `start` up to a number of rounds, with the targets.
  unfoldable pub start_targets :
      ℕ → RandomRestartWorkload → List Target → Clock → List Restart × Option (ChaosError Error)
  unfolding initialize_cooldowns rounds
  start_targets n w [] clock = ([], some no_eligible_targets)
  start_targets n w (t ∷ rest) clock =
      rounds n w (t ∷ rest)
        (record { cooldowns = initialize_cooldowns w clock.now (t ∷ rest); clock = clock })

  -- `start`, for a cluster of `node_count` nodes
  unfoldable pub start :
      ℕ → Bool → ℕ → RandomRestartWorkload → Clock → List Restart × Option (ChaosError Error)
  unfolding targets start_targets
  start n has_node_control node_count w clock =
      if has_node_control
      then start_targets n w (targets w node_count) clock
      else ([], some requires_node_control)
