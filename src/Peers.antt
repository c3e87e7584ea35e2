-- ===== src/Peers.antt =====
-- `find_expected_peer_counts` of testing-framework/core/src/topology/generation.rs: how many peers
-- each node must report before the network counts as ready. Ports are numbers below 2^16, and a
-- `HashSet<u16>` is the list of its ports in iteration order.
pub mod Rows
pub mod Counts
pub mod Layouts
use logos_blockchain_testing.Prelude.{
  ℕ, zero, suc, ◌+◌, Option, none, some, List, [], ◌∷◌, map, replicate, length, insert, ◌==◌,
  if◌then◌else◌,
}

-- `listen_ports.iter().position(|p| p == port)`
unfoldable pub position : ℕ → List ℕ → Option ℕ
position port [] = none
position port (p ∷ ps) =
    if p == port then some 0 else elim (position port ps) [ none ↦ none | some i ↦ some (suc i) ]

-- `expected[index].insert(peer)`; `none`: the index is out of bounds, which panics.
unfoldable pub insert_at : List (List ℕ) → ℕ → ℕ → Option (List (List ℕ))
insert_at [] index peer = none
insert_at (set ∷ sets) zero peer = some (insert set peer ∷ sets)
insert_at (set ∷ sets) (suc index) peer = elim (insert_at sets index peer) [
  | none ↦ none
  | some rest ↦ some (set ∷ rest)
]

-- Both ends of a connection expect each other.
unfoldable pub connect : ℕ → ℕ → List (List ℕ) → Option (List (List ℕ))
connect idx peer_idx expected = elim (insert_at expected idx peer_idx) [
  | none ↦ none
  | some once ↦ insert_at once peer_idx idx
]

-- The body of the inner loop, with its two `continue`s.
unfoldable pub visit_port : List ℕ → ℕ → ℕ → List (List ℕ) → Option (List (List ℕ))
visit_port listen_ports idx port expected = elim (position port listen_ports) [
  | none ↦ some expected
  | some peer_idx ↦ if peer_idx == idx then some expected else connect idx peer_idx expected
]

-- `for port in ports`
unfoldable pub visit_ports : List ℕ → ℕ → List ℕ → List (List ℕ) → Option (List (List ℕ))
visit_ports listen_ports idx [] expected = some expected
visit_ports listen_ports idx (port ∷ ports) expected =
    elim (visit_port listen_ports idx port expected) [
      | none ↦ none
      | some next ↦ visit_ports listen_ports idx ports next
    ]

-- `for (idx, ports) in initial_peer_ports.iter().enumerate()`
unfoldable pub visit_nodes : List ℕ → ℕ → List (List ℕ) → List (List ℕ) → Option (List (List ℕ))
visit_nodes listen_ports idx [] expected = some expected
visit_nodes listen_ports idx (ports ∷ rest) expected =
    elim (visit_ports listen_ports idx ports expected) [
      | none ↦ none
      | some next ↦ visit_nodes listen_ports (suc idx) rest next
    ]

unfoldable pub find_expected_peer_counts : List ℕ → List (List ℕ) → Option (List ℕ)
find_expected_peer_counts listen_ports initial_peer_ports =
    elim (visit_nodes listen_ports 0 initial_peer_ports
      (replicate (length initial_peer_ports) [])) [
        | none ↦ none
        | some expected ↦ some (map length expected)
      ]
