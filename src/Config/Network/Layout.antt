-- ===== src/Config/Network/Layout.antt =====
-- Who dials whom in a generated network: the edges of each layout.
use native.Mathlib.Nat.{add-zero}
use logos_blockchain_testing.Prelude.{
  ℕ, zero, suc, ◌+◌, ◌≤◌, ◌<◌, ◌≡◌, refl, ap, sym, ◌∙◌, Bool, not, ◌&&◌, none, some, List, [], ◌∷◌,
  map, take, replicate, length, ◌==◌, ltb, leb, get_elem?-lt, arith, get_elem?, length-replicate,
}
use logos_blockchain_testing.Vendor.{Vendor}
use logos_blockchain_testing.Peers.Rows.{row}
use logos_blockchain_testing.Peers.Counts.{reaches, dials_any, dials}
use logos_blockchain_testing.Config.Network.{
  Libp2pNetworkLayout, star, chain, full, SwarmConfig, node_address_with_peer, chain_peers,
  full_peers, initial_peers_by_network_layout, peer_ports,
}
use logos_blockchain_testing.Config.Network.Reach.{
  IsDistinct, position-get_elem?, dials-row, dials_any-peer_ports,
}

-- Node `i` dials node `j` in a layout.
abbrev pub edge : Libp2pNetworkLayout → ℕ → ℕ → Bool
edge star i j = not (i == 0) && (j == 0)
edge chain i j = suc j == i
edge full i j = ltb j i

get_elem?-replicate {ℓ} :
    {A : Type ℓ} (n i : ℕ) (a : A) → i < n → get_elem? (replicate n a) i ≡ some a
get_elem?-replicate zero i a h = absurd (omega arith)
get_elem?-replicate (suc n) zero a h = refl
get_elem?-replicate (suc n) (suc i) a h = get_elem?-replicate n i a (omega arith)

get_elem?-map {ℓ κ} :
    {A : Type ℓ} {B : Type κ} (f : A → B) (xs : List A) (i : ℕ) (a : A)
    → get_elem? xs i ≡ some a
    → get_elem? (map f xs) i ≡ some (f a)
get_elem?-map f [] i a e = cc
get_elem?-map f (x ∷ xs) zero a e = ground arith
get_elem?-map f (x ∷ xs) (suc i) a e = get_elem?-map f xs i a e

row-map {ℓ} :
    {A : Type ℓ} (f : A → List ℕ) (xs : List A) (i : ℕ) (a : A)
    → get_elem? xs i ≡ some a
    → row (map f xs) i ≡ f a
row-map f [] i a e = cc
row-map f (x ∷ xs) zero a e = ground arith
row-map f (x ∷ xs) (suc i) a e = row-map f xs i a e

module _ (v : Vendor) where
  abbrev pub ports : List (SwarmConfig v) → List ℕ
  ports = map (λ s. s.port)

  get_elem?-chain_peers :
      (previous : SwarmConfig v) (rest : List (SwarmConfig v)) (k : ℕ)
      → k < length rest
      → (s : SwarmConfig v) × (get_elem? (previous ∷ rest) k ≡ some s)
        × (get_elem? (chain_peers v previous rest) k
            ≡ some (map (node_address_with_peer v) (s ∷ [])))
  unfolding chain_peers
  get_elem?-chain_peers previous [] k h = absurd (omega arith)
  get_elem?-chain_peers previous (s ∷ rest) zero h = (previous, refl, refl)
  get_elem?-chain_peers previous (s ∷ rest) (suc k) h = get_elem?-chain_peers s rest k (omega arith)

  get_elem?-full_peers :
      (count i k : ℕ) (all : List (SwarmConfig v))
      → k < count
      → get_elem? (full_peers v count i all) k
        ≡ some (map (node_address_with_peer v) (take (i + k) all))
  unfolding full_peers
  get_elem?-full_peers zero i k all h = absurd (omega arith)
  get_elem?-full_peers (suc count) i zero all h = rw add-zero
  get_elem?-full_peers (suc count) i (suc k) all h =
      let shift : i + suc k ≡ suc i + k = omega arith in
      rw shift (get_elem?-full_peers count (suc i) k all (omega arith))

  -- The nodes that node `i` dials in a layout.
  abbrev pub dialled : Libp2pNetworkLayout → ℕ → List (SwarmConfig v) → List (SwarmConfig v)
  dialled layout zero all = []
  dialled star (suc i) all = take 1 all
  dialled chain (suc i) all = elim (get_elem? all i) [ none ↦ [] | some s ↦ s ∷ [] ]
  dialled full (suc i) all = take (suc i) all

  pub get_elem?-initial_peers :
      (all : List (SwarmConfig v)) (layout : Libp2pNetworkLayout) (i : ℕ)
      → i < length all
      → get_elem?
          (initial_peers_by_network_layout v all (record { libp2p_network_layout = layout }))
          i
        ≡ some (map (node_address_with_peer v) (dialled layout i all))
  unfolding initial_peers_by_network_layout
  get_elem?-initial_peers [] layout i h = absurd (omega arith)
  get_elem?-initial_peers (s ∷ rest) star zero h = refl
  get_elem?-initial_peers (s ∷ rest) star (suc i) h =
      get_elem?-replicate (length rest) i _ (omega arith)
  get_elem?-initial_peers (s ∷ rest) chain zero h = refl
  get_elem?-initial_peers (s ∷ rest) chain (suc i) h =
      let (t, found, peers) = get_elem?-chain_peers s rest i (omega arith) in
      ground (arith, found, peers)
  get_elem?-initial_peers (s ∷ rest) full zero h = refl
  get_elem?-initial_peers (s ∷ rest) full (suc i) h =
      let one : 1 + i ≡ suc i = omega arith in
      rw one at (get_elem?-full_peers (length rest) 1 i (s ∷ rest) (omega arith))

  length-chain_peers :
      (previous : SwarmConfig v) (rest : List (SwarmConfig v))
      → length (chain_peers v previous rest) ≡ length rest
  unfolding chain_peers
  length-chain_peers previous [] = refl
  length-chain_peers previous (s ∷ rest) = ap suc (length-chain_peers s rest)

  length-full_peers :
      (count i : ℕ) (all : List (SwarmConfig v)) → length (full_peers v count i all) ≡ count
  unfolding full_peers
  length-full_peers zero i all = refl
  length-full_peers (suc count) i all = ap suc (length-full_peers count (suc i) all)

  -- Every node gets its list of initial peers.
  pub length-initial_peers :
      (all : List (SwarmConfig v)) (layout : Libp2pNetworkLayout)
      → length (initial_peers_by_network_layout v all (record { libp2p_network_layout = layout }))
        ≡ length all
  unfolding initial_peers_by_network_layout
  length-initial_peers [] layout = refl
  length-initial_peers (s ∷ rest) star = ap suc (length-replicate (length rest) _)
  length-initial_peers (s ∷ rest) chain = ap suc (length-chain_peers s rest)
  length-initial_peers (s ∷ rest) full = length-full_peers (length (s ∷ rest)) 0 (s ∷ rest)

  reaches-get_elem? :
      (listen : List ℕ) (i j a p : ℕ)
      → IsDistinct listen
      → get_elem? listen a ≡ some p
      → reaches listen i p j ≡ (a == j && not (a == i))
  reaches-get_elem? listen i j a p d e = rw (position-get_elem? listen a p d e, reaches)

  -- `part` is what follows the first `o` nodes.
  dials_any-take :
      (listen : List ℕ) (i j o m : ℕ) (part : List (SwarmConfig v))
      → IsDistinct listen
      → ((t : ℕ) → get_elem? (ports part) t ≡ get_elem? listen (o + t))
      → m ≤ length part
      → o + m ≤ i
      → dials_any listen i (ports (take m part)) j ≡ (leb o j && ltb j (o + m))
  dials_any-take listen i j o zero part d same fits le = rw add-zero (ground arith)
  dials_any-take listen i j o (suc m) [] d same fits le = absurd (omega arith)
  dials_any-take listen i j o (suc m) (s ∷ part) d same fits le =
      let first : get_elem? listen o ≡ some s.port = rw add-zero at (sym (same 0)) in
      ground (
        arith,
        reaches-get_elem? listen i j o s.port d first,
        dials_any-take listen i j (suc o) m part d
            (λ t. let shift : o + suc t ≡ suc o + t = omega arith in rw shift at (same (suc t)))
            (omega arith) (omega arith),
      )

  pub dials_any-dialled :
      (all : List (SwarmConfig v)) (layout : Libp2pNetworkLayout) (i j : ℕ)
      → IsDistinct (ports all)
      → i < length all
      → dials_any (ports all) i (ports (dialled layout i all)) j ≡ edge layout i j
  dials_any-dialled [] layout i j d h = absurd (omega arith)
  dials_any-dialled (s ∷ rest) star zero j d h = refl
  dials_any-dialled (s ∷ rest) chain zero j d h = ground arith
  dials_any-dialled (s ∷ rest) full zero j d h = ground arith
  dials_any-dialled (s ∷ rest) star (suc i) j d h =
      ground (arith, reaches-get_elem? (ports (s ∷ rest)) (suc i) j 0 s.port d refl)
  dials_any-dialled (s ∷ rest) chain (suc i) j d h =
      let (t, e) = get_elem?-lt (s ∷ rest) i (omega arith) in
      ground (
        arith,
        e,
        reaches-get_elem? (ports (s ∷ rest)) (suc i) j i t.port d
            (get_elem?-map (λ (x : SwarmConfig v). x.port) (s ∷ rest) i t e),
      )
  dials_any-dialled (s ∷ rest) full (suc i) j d h = ground (
    arith,
    dials_any-take (ports (s ∷ rest)) (suc i) j 0 (suc i) (s ∷ rest) d
        (λ t. let same : 0 + t ≡ t = omega arith in rw same) (omega arith) (omega arith),
  )

  -- In a generated network with distinct ports, node `i` dials node `j` exactly where the layout
  -- has an edge.
  pub dials-initial_peers :
      (all : List (SwarmConfig v)) (layout : Libp2pNetworkLayout) (i j : ℕ)
      → IsDistinct (ports all)
      → i < length all
      → dials
          (ports all)
          (map
            (peer_ports v)
            (initial_peers_by_network_layout v all (record { libp2p_network_layout = layout })))
          i
          j
        ≡ edge layout i j
  dials-initial_peers all layout i j d h =
      let peers =
        initial_peers_by_network_layout v all (record { libp2p_network_layout = layout }) in
      dials-row (ports all) (map (peer_ports v) peers) i j
      ∙ ap (λ (r : List ℕ). dials_any (ports all) i r j)
          (row-map (peer_ports v) peers i _ (get_elem?-initial_peers all layout i h))
      ∙ dials_any-peer_ports v (ports all) i (dialled layout i all) j
      ∙ dials_any-dialled all layout i j d h
