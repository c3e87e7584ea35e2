-- ===== src/Examples/Nodes.antt =====
-- The theorems on the nodes that are started during a run.
use logos_blockchain_testing.Prelude.{ℕ, ◌+◌, ◌≡◌, refl, false, [], ◌∷◌, length, ok, err}
use logos_blockchain_testing.Config.Base.{contains_key}
use logos_blockchain_testing.Deployers.Nodes.{
  LocalDynamicSeed, LocalDynamicState, seeded, start_node, reserve, register_node, label_of,
}
use logos_blockchain_testing.Deployers.Nodes.Registry.{
  new, start, IsCounted, reachable-IsCounted, overlapping_starts,
}

abbrev seed : LocalDynamicSeed
seed = record { node_count = 1; peer_ports = 3000 ∷ []; peer_ports_by_name = ("node-0", 3000) ∷ [] }

-- A start that succeeds and one whose spawn fails, after the seed.
abbrev two_starts : LocalDynamicState ℕ ℕ
two_starts =
    (start_node {Error = ℕ} false "b" (err 7)
      (start_node {Error = ℕ} false "a" (ok (3001, 1, 1)) (seeded seed)).1).1

reachable-IsCounted_example : IsCounted ℕ ℕ ℕ seed two_starts
reachable-IsCounted_example = reachable-IsCounted ℕ ℕ ℕ seed two_starts (
    start (start_node false "a" (ok (3001, 1, 1)) (seeded seed)).1 false "b" (err 7)
      (start (seeded seed) false "a" (ok (3001, 1, 1)) new))

fresh_label : contains_key (label_of false "a" 1) seed.peer_ports_by_name ≡ false
unfolding contains_key label_of
fresh_label = refl

abbrev overlapped : LocalDynamicState ℕ ℕ
overlapped =
    register_node
      (register_node {Client = ℕ} {Node = ℕ} (seeded seed) (label_of false "a" 1) 3001 1 1)
      (label_of false "a" 1) 3002 2 2

overlapping_starts_example :
    (reserve {Client = ℕ} {Node = ℕ} {Error = ℕ} false "a" (seeded seed)
      ≡ ok (label_of false "a" 1, 1))
    × (length overlapped.nodes ≡ 0 + 2)
    × (length overlapped.peer_ports_by_name ≡ 1 + 1)
unfolding seeded
overlapping_starts_example =
    overlapping_starts ℕ ℕ ℕ (seeded seed) false "a" 3001 3002 1 2 1 2 fresh_label
