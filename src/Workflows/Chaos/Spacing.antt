-- ===== src/Workflows/Chaos/Spacing.antt =====
-- The restarts of a run: which nodes, and how far apart.
use logos_blockchain_testing.Prelude.{
  ℕ, zero, suc, ◌+◌, ◌-◌, ◌≤◌, ◌<◌, ◌≡◌, refl, ap, ltb, Bool, true, false, Option, none, some, List,
  [], ◌∷◌, length, inl, inr, All, All-get_elem?, Bool-cases, Option-cases, Result-cases, ◌⊎◌,
  if◌then◌else◌, Holds, Holds-ok, Holds-err, arith,
}
use mathlib.Core.Path.{subst}
use logos_blockchain_testing.Config.Base.{Duration}
use logos_blockchain_testing.Workflows.Chaos.{
  Chance, ChaosError, Clock, Cooldowns, Instant, Target, RandomRestartWorkload, Restart, Running,
  no_eligible_targets, requires_node_control, add_instant, insert_ready, is_target, node,
  random_delay, restart_failed, panic, restart_target, round, rounds, sleep, start, start_targets,
  targets, targets_from,
}
use logos_blockchain_testing.Workflows.Chaos.Pick.{AllReady, IsFair, pick_target-Picks}

-- Restarts that follow each other: each waits for the least delay from the instant when the one before
-- it ended, and for `ready`, from which the cooldown of that one is over.
abbrev pub Spaced : RandomRestartWorkload → Instant → Instant → List Restart → Type 0
Spaced w ended ready [] = Unit
Spaced w ended ready (r ∷ rest) =
    (ended + w.min_delay ≤ r.started)
    × (ready ≤ r.started)
    × (r.started ≤ r.finished)
    × Spaced w r.finished (r.finished + w.target_cooldown) rest

abbrev pub IsBelow : ℕ → Target → Type 0
IsBelow n (node index) = index < n

targets_from-IsBelow :
    (n index count : ℕ) → index + count ≤ n → All (IsBelow n) (targets_from index count)
unfolding targets_from
targets_from-IsBelow n index zero h = tt
targets_from-IsBelow n index (suc count) h =
    (omega arith, targets_from-IsBelow n (suc index) count (omega arith))

targets-many :
    (w : RandomRestartWorkload) (n : ℕ)
    → w.include_nodes ≡ true
    → 1 < suc n
    → targets w (suc n) ≡ node 0 ∷ targets_from 1 n
unfolding targets targets_from
targets-many w n on many = ground arith

-- What is inserted is ready when all are.
insert_ready-le :
    (cs : Cooldowns) (t : Target) (ready now : Instant)
    → AllReady now (insert_ready cs t ready)
    → ready ≤ now
unfolding insert_ready
insert_ready-le [] t ready now h = h.0
insert_ready-le ((u, r) ∷ cs) t ready now h = elim (Bool-cases (is_target u t)) [
  | inl same ↦ (rw same at h).0
  | inr other ↦ insert_ready-le cs t ready now (rw other at h).1
]

-- The delay lies in its range, up to the rounding of the offset.
pub random_delay_bounds :
    {Error : Type 0} {rounding : Duration} {chance : Chance Error} (fair : IsFair rounding chance)
    (w : RandomRestartWorkload) (clock : Clock)
    → w.min_delay ≤ w.max_delay
    → (w.min_delay ≤ random_delay chance w clock)
      × (random_delay chance w clock ≤ w.max_delay + rounding)
unfolding random_delay
random_delay_bounds {chance = chance} fair w clock h =
    ground (arith, fair.offset-le clock.calls (w.max_delay - w.min_delay))

-- The errors that do not come from the choice of a target.
abbrev pub IsExternal : {Error : Type 0} → ChaosError Error → Type 0
IsExternal (restart_failed e) = Unit {0}
IsExternal panic = Unit {0}
IsExternal _ = ⊥

-- After `k` rounds the loop goes on with `k` restarts made, or it has ended with an error of those.
abbrev pub EndsWell : {Error : Type 0} → ℕ → List Restart → Option (ChaosError Error) → Type 0
EndsWell k log none = length log ≡ k
EndsWell k log (some e) = IsExternal e

EndsWell-cons :
    {Error : Type 0} (k : ℕ) (r : Restart) (log : List Restart) (end : Option (ChaosError Error))
    → EndsWell k log end
    → EndsWell (suc k) (r ∷ log) end
EndsWell-cons k r log none h = ap suc h
EndsWell-cons k r log (some e) h = h

-- What a round does to the state.
abbrev Advances : RandomRestartWorkload → ℕ → Running → Restart × Running → Type 0
Advances w n s (r, next) =
    (s.clock.now + w.min_delay ≤ r.started)
    × AllReady r.started s.cooldowns
    × (r.started ≤ r.finished)
    × (next.clock.now ≡ r.finished)
    × (next.cooldowns ≡ insert_ready s.cooldowns r.target (r.finished + w.target_cooldown))
    × IsBelow n r.target

add_instant-eq :
    {Error : Type 0} (chance : Chance Error) (t : Instant) (d : Duration) (at : Instant)
    → add_instant chance t d ≡ some at
    → at ≡ t + d
unfolding add_instant
add_instant-eq chance t d at h = ground arith

module _ {Error : Type 0} {rounding : Duration} {chance : Chance Error}
    (fair : IsFair rounding chance) where
  restart_target-Holds :
      (w : RandomRestartWorkload) (n : ℕ) (s : Running) (t : Target) (clock : Clock)
      → s.clock.now + w.min_delay ≤ clock.now
      → AllReady clock.now s.cooldowns
      → IsBelow n t
      → Holds (Advances w n s) IsExternal (restart_target chance w s.cooldowns (t, clock))
  unfolding restart_target
  restart_target-Holds w n s (node index) clock le ready below =
      elim (Result-cases (chance.restart_node clock.calls index)) [
        | inr (e, failed) ↦ rw (failed, restart_target) tt
        | inl (done, e) ↦
            (elim (Option-cases (
              add_instant chance (clock.now + chance.restart_time clock.calls) w.target_cooldown)) [
                | inl over ↦ rw (e, restart_target) (rw over tt)
                | inr (at, fits) ↦
                    rw (e, restart_target)
                      (rw fits (
                        le,
                        ready,
                        omega arith,
                        refl,
                        ap (insert_ready s.cooldowns (node index))
                            (add_instant-eq chance _ _ at fits),
                        below,
                      ))
              ])
      ]

  round-Holds :
      (w : RandomRestartWorkload) (n : ℕ) (t : Target) (ts : List Target) (s : Running)
      → w.min_delay ≤ w.max_delay
      → All (IsBelow n) (t ∷ ts)
      → Holds (Advances w n s) IsExternal (round chance w (t ∷ ts) s)
  unfolding round sleep
  round-Holds w n t ts s h below =
      let slept = sleep chance (random_delay chance w s.clock) s.clock in
      let (delay, _) = random_delay_bounds fair w s.clock h in
      let (picked, after, i, e, found, le, ready) = pick_target-Picks fair t ts s.cooldowns slept in
      rw (e, round)
        (restart_target-Holds w n s picked after (omega arith) ready
          (All-get_elem? (IsBelow n) (t ∷ ts) i picked below found))

  -- What the first `k` rounds show.
  abbrev Progress :
      ℕ
      → RandomRestartWorkload
      → ℕ
      → Instant
      → Instant
      → List Restart × Option (ChaosError Error)
      → Type 0
  Progress k w n ended ready (log, end) =
      Spaced w ended ready log × All (λ r. IsBelow n r.target) log × EndsWell k log end

  rounds-Progress :
      (k : ℕ) (w : RandomRestartWorkload) (n : ℕ) (t : Target) (ts : List Target) (s : Running)
      (ready : Instant)
      → w.min_delay ≤ w.max_delay
      → All (IsBelow n) (t ∷ ts)
      → ((now : Instant) → AllReady now s.cooldowns → ready ≤ now)
      → Progress k w n s.clock.now ready (rounds chance k w (t ∷ ts) s)
  unfolding rounds
  rounds-Progress zero w n t ts s ready h below bound = (tt, tt, refl)
  rounds-Progress (suc k) w n t ts s ready h below bound =
      elim (Result-cases (round chance w (t ∷ ts) s)) [
        | inr (e, failed) ↦
            rw (failed, rounds)
              (
                tt,
                tt,
                Holds-err (Advances w n s) IsExternal _ e failed (round-Holds w n t ts s h below),
              )
        | inl ((r, next), e) ↦
            (let (delay, allready, le, at, kept, inside) =
                Holds-ok (Advances w n s) IsExternal _ (r, next) e
                  (round-Holds w n t ts s h below) in
              let (spaced, all, well) =
                rounds-Progress k w n t ts next (r.finished + w.target_cooldown) h below (λ now all.
                  insert_ready-le s.cooldowns r.target (r.finished + w.target_cooldown) now
                    (rw kept at all)) in
              rw (e, rounds)
                (
                  (
                    delay,
                    bound r.started allready,
                    le,
                    subst
                        (λ x.
                          Spaced w x (r.finished + w.target_cooldown)
                            (rounds chance k w (t ∷ ts) next).0)
                        at spaced,
                  ),
                  (inside, all),
                  EndsWell-cons k r _ (rounds chance k w (t ∷ ts) next).1 well,
                ))
      ]

  -- A run over at least two nodes, with its delays in order, goes on for every number of rounds, unless
  -- a restart fails or an instant overflows. It restarts existing nodes only. Before each restart it
  -- waits for the least delay, and for the cooldown of the restart before it, whichever node that was.
  pub start-Spaced :
      (k node_count : ℕ) (w : RandomRestartWorkload) (clock : Clock)
      → w.min_delay ≤ w.max_delay
      → w.include_nodes ≡ true
      → 1 < node_count
      → let (log, end) = start chance k true node_count w clock in
        Spaced w clock.now 0 log × All (λ r. IsBelow node_count r.target) log × EndsWell k log end
  unfolding start start_targets targets_from
  start-Spaced k zero w clock h on many = absurd (omega arith)
  start-Spaced k (suc n) w clock h on many = rw (targets-many w n on many) (
      rounds-Progress k w (suc n) (node 0) (targets_from 1 n) _ 0 h
        (targets_from-IsBelow (suc n) 0 (suc n) (omega arith)) (λ now all. omega arith))

-- Without node control, without the nodes among its targets or with less than two of them, a run ends
-- with an error before any restart.
pub start-refused :
    {Error : Type 0} (chance : Chance Error) (k node_count : ℕ) (has_node_control : Bool)
    (w : RandomRestartWorkload) (clock : Clock)
    → (has_node_control ≡ false) ⊎ ((w.include_nodes ≡ false) ⊎ (node_count ≤ 1))
    → start chance k has_node_control node_count w clock
      ≡ ([], some (if has_node_control then no_eligible_targets else requires_node_control))
unfolding start targets start_targets
start-refused chance k n b w clock (inl off) = rw off
start-refused chance k n b w clock (inr (inl off)) = elim (Bool-cases b) [
  | inl e ↦ rw (e, off) refl
  | inr e ↦ rw e refl
]
start-refused chance k n b w clock (inr (inr few)) =
    let test : ltb 1 n ≡ false = ground arith in
    elim (Bool-cases b) [
      | inl e ↦ (elim (Bool-cases w.include_nodes) [
        | inl i ↦ rw (e, i, test) refl
        | inr i ↦ rw (e, i) refl
      ])
      | inr e ↦ rw e refl
    ]
