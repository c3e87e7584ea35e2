-- ===== src/Workflows/Builder/Normal.antt =====
-- What the calls of a restart builder come to.
use logos_blockchain_testing.Prelude.{
  ◌≤◌, ◌<◌, ◌≡◌, refl, ap, ◌∙◌, min, max, ◌==◌, Bool, true, Bool-cases, inl, inr, List, [], ◌∷◌,
  arith,
}
use logos_blockchain_testing.Vendor.{Vendor}
use logos_blockchain_testing.Config.Ledger.{Ledger}
use logos_blockchain_testing.Config.Base.{Duration}
use logos_blockchain_testing.Scenario.Definition as Definitions
use logos_blockchain_testing.Scenario.Definition.{Components, Builder}
use logos_blockchain_testing.Workflows.Chaos.{RandomRestartWorkload}
use logos_blockchain_testing.Workflows.Builder.{Boxed}
use logos_blockchain_testing.Workflows.Builder.Restarts.{
  NodeControlCapability, ChaosRestartBuilder, chaos_with, chaos, restart, min_delay, max_delay,
  target_cooldown, include_nodes, swap_delays, bump_cooldown, enable_targets, workload_of, apply,
}

-- A call of a setter of the builder.
pub data RestartCall : Type 0 where
  with_min_delay : Duration → RestartCall
  with_max_delay : Duration → RestartCall
  with_target_cooldown : Duration → RestartCall
  with_include_nodes : Bool → RestartCall

-- The delays are in order and not zero, the cooldown is at least the least delay, the nodes are included.
pub record IsNormal (w : RandomRestartWorkload) : Type 0 where
  pub positive : 0 < w.min_delay
  pub ordered : w.min_delay ≤ w.max_delay
  pub cooled : w.min_delay ≤ w.target_cooldown
  pub included : w.include_nodes ≡ true

module _ {v : Vendor} {l : Ledger v} (c : Components v l) where
  record IsPositive (r : ChaosRestartBuilder c) : Type 0 where
    pub min_positive : 0 < r.min_delay
    pub max_positive : 0 < r.max_delay

  unfoldable pub call : RestartCall → ChaosRestartBuilder c → ChaosRestartBuilder c
  unfolding min_delay max_delay target_cooldown include_nodes
  call (with_min_delay d) r = min_delay c r d
  call (with_max_delay d) r = max_delay c r d
  call (with_target_cooldown d) r = target_cooldown c r d
  call (with_include_nodes b) r = include_nodes c r b

  unfoldable pub call_all : List RestartCall → ChaosRestartBuilder c → ChaosRestartBuilder c
  unfolding call
  call_all [] r = r
  call_all (first ∷ calls) r = call_all calls (call first r)

  call-IsPositive :
      (x : RestartCall) (r : ChaosRestartBuilder c)
      → IsPositive r
      → IsPositive (call x r) × ((call x r).builder ≡ r.builder)
  unfolding call
  call-IsPositive (with_min_delay d) r h = elim (Bool-cases (d == 0)) [
    | inl e ↦ rw e (h, refl)
    | inr e ↦ rw e (ground arith, refl)
  ]
  call-IsPositive (with_max_delay d) r h = elim (Bool-cases (d == 0)) [
    | inl e ↦ rw e (h, refl)
    | inr e ↦ rw e (ground arith, refl)
  ]
  call-IsPositive (with_target_cooldown d) r h = elim (Bool-cases (d == 0)) [
    | inl e ↦ rw e (h, refl)
    | inr e ↦ rw e (ground arith, refl)
  ]
  call-IsPositive (with_include_nodes b) r h = (ground arith, refl)

  call_all-IsPositive :
      (calls : List RestartCall) (r : ChaosRestartBuilder c)
      → IsPositive r
      → IsPositive (call_all calls r) × ((call_all calls r).builder ≡ r.builder)
  unfolding call_all
  call_all-IsPositive [] r h = (h, refl)
  call_all-IsPositive (x ∷ calls) r h =
      let (first, same) = call-IsPositive x r h in
      let (rest, kept) = call_all-IsPositive calls (call x r) first in (rest, kept ∙ same)

  -- The workload with the delays in order, a cooldown of at least the lesser, and the nodes.
  abbrev pub normal : ChaosRestartBuilder c → RandomRestartWorkload
  normal r = record {
    min_delay = min r.min_delay r.max_delay;
    max_delay = max r.min_delay r.max_delay;
    target_cooldown = max r.target_cooldown (min r.min_delay r.max_delay);
    include_nodes = true;
  }

  normal_lem :
      (r : ChaosRestartBuilder c)
      → enable_targets c (bump_cooldown c (swap_delays c r)) ≡ record {
        builder = r.builder;
        min_delay = (normal r).min_delay;
        max_delay = (normal r).max_delay;
        target_cooldown = (normal r).target_cooldown;
        include_nodes = true;
      }
  normal_lem r = elim (Bool-cases r.include_nodes) [
    | inl on ↦ ground (arith, on)
    | inr off ↦ ground (arith, off)
  ]

  apply-normal :
      (boxed : Boxed c) (r : ChaosRestartBuilder c)
      → apply c boxed r ≡ Definitions.with_workload c r.builder (boxed.random_restart (normal r))
  unfolding apply
  apply-normal boxed r =
      ap
        (λ (s : ChaosRestartBuilder c).
          Definitions.with_workload c s.builder (boxed.random_restart (workload_of c s)))
        (normal_lem r)

  -- Whatever the setters of a restart builder are called with, `chaos_with` attaches one restart workload
  -- and changes nothing else of the scenario. The workload's least delay is not zero and at most its
  -- greatest one and its cooldown, and it includes the nodes.
  pub chaos_with-IsNormal :
      (boxed : Boxed c) (b : Builder c NodeControlCapability) (calls : List RestartCall)
      → (w : RandomRestartWorkload) × (chaos_with c b
            (λ k. apply c boxed (call_all calls (restart c k)))
          ≡ Definitions.with_workload c b (boxed.random_restart w))
        × IsNormal w
  unfolding chaos_with chaos restart
  chaos_with-IsNormal boxed b calls =
      let first = restart c (chaos c b) in
      let (positive, kept) =
        call_all-IsPositive calls first
          (record { min_positive = omega arith; max_positive = omega arith }) in
      let r = call_all calls first in
      (
        normal r,
        apply-normal boxed r
            ∙ ap (λ x. Definitions.with_workload c x (boxed.random_restart (normal r))) kept,
        record {
          positive = omega (arith, positive.min_positive, positive.max_positive);
          ordered = omega arith;
          cooled = omega arith;
          included = refl;
        },
      )
