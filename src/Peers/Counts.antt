-- ===== src/Peers/Counts.antt =====
-- Which peers `find_expected_peer_counts` expects: those that a node dials, and those that dial it.
use logos_blockchain_testing.Prelude.{
  length-map, ℕ, zero, suc, ◌+◌, ◌≤◌, ◌<◌, ◌≡◌, refl, inl, inr, Bool, false, not, ◌&&◌, ◌||◌, none,
  some, List, [], ◌∷◌, map, replicate, length, count_below, count_below_eq, ◌==◌, arith, Bool-cases,
  Option-cases, get_elem?,
}
use logos_blockchain_testing.Peers.{
  position, connect, visit_port, visit_ports, visit_nodes, find_expected_peer_counts,
}
use logos_blockchain_testing.Peers.Rows.{
  row, IsTable, joined, insert_at-IsTable, IsTable-respects, empty-IsTable,
}

-- The port is the listen port of node `j`, which is not `idx` itself.
abbrev pub reaches : List ℕ → ℕ → ℕ → ℕ → Bool
reaches listen_ports idx port j = elim (position port listen_ports) [
  | none ↦ false
  | some peer ↦ peer == j && not (peer == idx)
]

-- One of the ports is the listen port of another node `j`.
abbrev pub dials_any : List ℕ → ℕ → List ℕ → ℕ → Bool
dials_any listen_ports idx [] j = false
dials_any listen_ports idx (port ∷ ports) j =
    reaches listen_ports idx port j || dials_any listen_ports idx ports j

-- Node `i` has an initial peer port on which another node `j` listens; `idx` counts the nodes.
abbrev pub dials_from : List ℕ → ℕ → List (List ℕ) → ℕ → ℕ → Bool
dials_from listen_ports idx [] i j = false
dials_from listen_ports idx (ports ∷ rest) i j =
    (idx == i && dials_any listen_ports idx ports j) || dials_from listen_ports (suc idx) rest i j

pub position-lt :
    (port : ℕ) (listen_ports : List ℕ) (i : ℕ)
    → position port listen_ports ≡ some i
    → i < length listen_ports
unfolding position
position-lt port [] i e = cc
position-lt port (p ∷ ps) zero e = ground arith
position-lt port (p ∷ ps) (suc i) e = ground (arith, position-lt port ps i)

connect-IsTable :
    (n : ℕ) (adj : ℕ → ℕ → Bool) (t : List (List ℕ)) (idx peer : ℕ)
    → idx < n
    → peer < n
    → IsTable n adj t
    → (u : List (List ℕ)) × (connect idx peer t ≡ some u)
      × IsTable n (joined peer idx (joined idx peer adj)) u
unfolding connect
connect-IsTable n adj t idx peer li lp h =
    let (once, made, table) = insert_at-IsTable n adj t idx peer li lp h in
    let (u, made', table') = insert_at-IsTable n (joined idx peer adj) once peer idx lp li table in
    (u, ground arith, table')

-- `adj` and a symmetric copy of what node `idx` dials.
abbrev with_row : ℕ → (ℕ → Bool) → (ℕ → ℕ → Bool) → ℕ → ℕ → Bool
with_row idx new adj i j = (idx == i && new j) || (idx == j && new i) || adj i j

module _ (listen_ports : List ℕ) (n : ℕ) (fits : length listen_ports ≤ n) where
  visit_port-IsTable :
      (adj : ℕ → ℕ → Bool) (t : List (List ℕ)) (idx port : ℕ)
      → idx < n
      → IsTable n adj t
      → (u : List (List ℕ)) × (visit_port listen_ports idx port t ≡ some u)
        × IsTable n (with_row idx (reaches listen_ports idx port) adj) u
  unfolding visit_port
  visit_port-IsTable adj t idx port li h = elim (Option-cases (position port listen_ports)) [
    | inl e ↦ (t, ground arith, IsTable-respects n adj _ t (λ i j. ground (arith, e)) h)
    | inr (peer, e) ↦ elim (Bool-cases (peer == idx)) [
      | inl self ↦ (t, ground arith, IsTable-respects n adj _ t (λ i j. ground (arith, e, self)) h)
      | inr other ↦
          let lp : peer < n = omega (arith, fits, position-lt port listen_ports peer e) in
          let (u, made, table) = connect-IsTable n adj t idx peer li lp h in
          (u, ground arith, IsTable-respects n _ _ u (λ i j. ground (arith, e, other)) table)
    ]
  ]

  visit_ports-IsTable :
      (ports : List ℕ) (adj : ℕ → ℕ → Bool) (t : List (List ℕ)) (idx : ℕ)
      → idx < n
      → IsTable n adj t
      → (u : List (List ℕ)) × (visit_ports listen_ports idx ports t ≡ some u)
        × IsTable n (with_row idx (dials_any listen_ports idx ports) adj) u
  unfolding visit_ports
  visit_ports-IsTable [] adj t idx li h =
      (t, refl, IsTable-respects n adj _ t (λ i j. ground arith) h)
  visit_ports-IsTable (port ∷ ports) adj t idx li h =
      let (once, made, table) = visit_port-IsTable adj t idx port li h in
      let (u, rest, table') =
        visit_ports-IsTable ports (with_row idx (reaches listen_ports idx port) adj) once idx li
          table in
      (u, ground arith, IsTable-respects n _ _ u (λ i j. ground arith) table')

  visit_nodes-IsTable :
      (sets : List (List ℕ)) (adj : ℕ → ℕ → Bool) (t : List (List ℕ)) (idx : ℕ)
      → idx + length sets ≤ n
      → IsTable n adj t
      → (u : List (List ℕ)) × (visit_nodes listen_ports idx sets t ≡ some u)
        × IsTable n
            (λ i j.
              dials_from listen_ports idx sets i j
              || dials_from listen_ports idx sets j i
              || adj i j)
            u
  unfolding visit_nodes
  visit_nodes-IsTable [] adj t idx li h = (t, refl, h)
  visit_nodes-IsTable (ports ∷ rest) adj t idx li h =
      let (once, made, table) = visit_ports-IsTable ports adj t idx (omega arith) h in
      let (u, more, table') =
        visit_nodes-IsTable rest (with_row idx (dials_any listen_ports idx ports) adj) once
          (suc idx) (omega arith) table in
      (u, ground arith, IsTable-respects n _ _ u (λ i j. ground arith) table')

-- Node `i` dials node `j`: one of its initial peer ports is the listen port of `j`.
abbrev pub dials : List ℕ → List (List ℕ) → ℕ → ℕ → Bool
dials listen_ports initial_peer_ports = dials_from listen_ports 0 initial_peer_ports

get_elem?-lengths :
    (t : List (List ℕ)) (i : ℕ)
    → i < length t
    → get_elem? (map length t) i ≡ some (length (row t i))
get_elem?-lengths [] i h = absurd (omega arith)
get_elem?-lengths (s ∷ t) zero h = refl
get_elem?-lengths (s ∷ t) (suc i) h = get_elem?-lengths t i (omega arith)

-- If there is a port set for each listen port, the indexing never panics, there is a count for each
-- node, and the count of node `i` is the number of nodes that it dials or that dial it, each counted
-- once and itself never, in whatever order the hash sets are walked.
pub find_expected_peer_counts_lem :
    (listen_ports : List ℕ) (initial_peer_ports : List (List ℕ))
    → length listen_ports ≤ length initial_peer_ports
    → (counts : List ℕ) × (find_expected_peer_counts listen_ports initial_peer_ports ≡ some counts)
      × (length counts ≡ length initial_peer_ports)
      × ((i : ℕ)
          → i < length initial_peer_ports
          → get_elem? counts i
            ≡ some (
                count_below (length initial_peer_ports) (λ j.
                  dials listen_ports initial_peer_ports i j
                  || dials listen_ports initial_peer_ports j i)))
unfolding find_expected_peer_counts
find_expected_peer_counts_lem listen sets fits =
    let n = length sets in
    let (t, made, table) =
      visit_nodes-IsTable listen n fits sets (λ i j. false) (replicate n []) 0 (omega arith)
        (empty-IsTable n) in
    (
      map length t,
      ground arith,
      omega (arith, length-map length t, table.size),
      λ i l. ground (
        arith,
        get_elem?-lengths t i (omega (arith, table.size)),
        table.counted i l,
        count_below_eq n _ _ (λ j _. or_false (dials listen sets i j) (dials listen sets j i)),
      ),
    )
  where
    or_false : (a b : Bool) → (a || (b || false)) ≡ (a || b)
    or_false a b = ground arith
