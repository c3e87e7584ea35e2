-- ===== src/Config/Network/Reach.antt =====
-- Which node a port or an address reaches, in a network with distinct ports.
use native.Mathlib.Nat.{add-zero}
use logos_blockchain_testing.Prelude.{
  ℕ, zero, suc, ◌+◌, ◌<◌, ◌≡◌, refl, ap, sym, inl, inr, true, false, ◌||◌, some, List, [], ◌∷◌, map,
  insert, contains, ◌==◌, arith, Bool-cases, Option-cases, get_elem?,
}
use logos_blockchain_testing.Vendor.{Vendor}
use logos_blockchain_testing.Peers.{position}
use logos_blockchain_testing.Peers.Rows.{row}
use logos_blockchain_testing.Peers.Counts.{reaches, dials_any, dials_from, dials}
use logos_blockchain_testing.Config.Network.{
  localhost, SwarmConfig, node_address_with_peer, multiaddr_port, peer_ports,
}

-- No two nodes listen on the same port.
abbrev pub IsDistinct : List ℕ → Type 0
IsDistinct [] = Unit
IsDistinct (p ∷ ps) = (contains ps p ≡ false) × IsDistinct ps

position-contains :
    (port : ℕ) (ps : List ℕ) (i : ℕ) → position port ps ≡ some i → contains ps port ≡ true
unfolding position contains
position-contains port [] i e = cc
position-contains port (p ∷ ps) zero e = ground (arith, Option-cases (position port ps))
position-contains port (p ∷ ps) (suc i) e = ground (arith, position-contains port ps i)

contains-get_elem? :
    (ps : List ℕ) (i port : ℕ) → get_elem? ps i ≡ some port → contains ps port ≡ true
unfolding contains
contains-get_elem? [] i port e = cc
contains-get_elem? (p ∷ ps) zero port e = ground arith
contains-get_elem? (p ∷ ps) (suc i) port e = ground (arith, contains-get_elem? ps i port e)

-- With distinct ports, the port of node `i` leads back to node `i`.
pub position-get_elem? :
    (ps : List ℕ) (i port : ℕ)
    → IsDistinct ps
    → get_elem? ps i ≡ some port
    → position port ps ≡ some i
unfolding position
position-get_elem? [] i port d e = cc
position-get_elem? (p ∷ ps) zero port d e = ground arith
position-get_elem? (p ∷ ps) (suc i) port d e = ground (
  arith,
  d.0,
  position-get_elem? ps i port d.1 e,
  contains-get_elem? ps i port e,
  ap (contains ps) {x = p} {y = port},
)

dials_from-below :
    (listen_ports : List ℕ) (idx i : ℕ) (sets : List (List ℕ)) (j : ℕ)
    → i < idx
    → dials_from listen_ports idx sets i j ≡ false
dials_from-below listen idx i [] j h = refl
dials_from-below listen idx i (s ∷ sets) j h =
    ground (arith, dials_from-below listen (suc idx) i sets j (omega arith))

dials_from-row :
    (listen_ports : List ℕ) (idx k : ℕ) (sets : List (List ℕ)) (j : ℕ)
    → dials_from listen_ports idx sets (idx + k) j ≡ dials_any listen_ports (idx + k) (row sets k) j
dials_from-row listen idx k [] j = refl
dials_from-row listen idx zero (s ∷ sets) j =
    rw add-zero (ground (arith, dials_from-below listen (suc idx) idx sets j (omega arith)))
dials_from-row listen idx (suc k) (s ∷ sets) j =
    let shift : idx + suc k ≡ suc idx + k = omega arith in
    rw shift (ground (arith, dials_from-row listen (suc idx) k sets j))

pub dials-row :
    (listen_ports : List ℕ) (sets : List (List ℕ)) (i j : ℕ)
    → dials listen_ports sets i j ≡ dials_any listen_ports i (row sets i) j
dials-row listen sets i j =
    let same : 0 + i ≡ i = omega arith in rw same at (dials_from-row listen 0 i sets j)

dials_any-contains :
    (listen_ports : List ℕ) (i : ℕ) (s : List ℕ) (p j : ℕ)
    → contains s p ≡ true
    → (reaches listen_ports i p j || dials_any listen_ports i s j) ≡ dials_any listen_ports i s j
unfolding contains
dials_any-contains listen i [] p j h = cc
dials_any-contains listen i (x ∷ s) p j h = elim (Bool-cases (x == p)) [
  | inl here ↦ ground (arith, here, ap (λ (q : ℕ). reaches listen i q j) {x = x} {y = p})
  | inr there ↦ ground (arith, there, dials_any-contains listen i s p j)
]

dials_any-insert :
    (listen_ports : List ℕ) (i : ℕ) (s : List ℕ) (p j : ℕ)
    → dials_any listen_ports i (insert s p) j
      ≡ (reaches listen_ports i p j || dials_any listen_ports i s j)
unfolding insert
dials_any-insert listen i s p j = elim (Bool-cases (contains s p)) [
  | inl old ↦ rw (old) (sym (dials_any-contains listen i s p j old))
  | inr new ↦ rw new refl
]

module _ (v : Vendor) where
  multiaddr_port-node_address_with_peer :
      (s : SwarmConfig v) → multiaddr_port v (node_address_with_peer v s) ≡ some s.port
  unfolding multiaddr_port node_address_with_peer
  multiaddr_port-node_address_with_peer s =
      rw (v.iter-push, v.iter-multiaddr)
        (ground (arith, v.udp_port-ip4 localhost, v.tcp_port-ip4 localhost, v.udp_port-udp s.port))

  pub dials_any-peer_ports :
      (listen_ports : List ℕ) (i : ℕ) (ss : List (SwarmConfig v)) (j : ℕ)
      → dials_any listen_ports i (peer_ports v (map (node_address_with_peer v) ss)) j
        ≡ dials_any listen_ports i (map (λ (s : SwarmConfig v). s.port) ss) j
  unfolding peer_ports
  dials_any-peer_ports listen i [] j = refl
  dials_any-peer_ports listen i (s ∷ ss) j = ground (
    arith,
    multiaddr_port-node_address_with_peer s,
    dials_any-insert listen i (peer_ports v (map (node_address_with_peer v) ss)) s.port j,
    dials_any-peer_ports listen i ss j,
  )
