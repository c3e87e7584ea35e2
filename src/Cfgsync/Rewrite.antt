-- ===== src/Cfgsync/Rewrite.antt =====
-- `rewrite_initial_peers` keeps the layout of the network.
use mathlib.Core.Path.{subst, ap₂}
use logos_blockchain_testing.Prelude.{
  ℕ, zero, suc, ◌+◌, ◌≤◌, ◌<◌, ◌≡◌, refl, ap, sym, ◌∙◌, inl, inr, true, Option, none, some, List,
  [], ◌∷◌, map, length, get_elem?, get_elem?-lt, ◌==◌, ok, contains, arith, Bool-cases,
  Option-cases, length-map, if◌then◌else◌,
}
use logos_blockchain_testing.Vendor.{Vendor}
use logos_blockchain_testing.Peers.Counts.{dials_any, position-lt}
use logos_blockchain_testing.Config.Network.{
  localhost, Libp2pNetworkLayout, SwarmConfig, node_address_with_peer,
  initial_peers_by_network_layout,
}
use logos_blockchain_testing.Config.Network.Reach.{IsDistinct}
use logos_blockchain_testing.Config.Network.Layout.{
  edge, ports, dialled, get_elem?-initial_peers, dials_any-dialled, length-initial_peers,
}
use logos_blockchain_testing.Cfgsync.{
  Host, rewritten_addr, rewrite_peer, rewrite_peers, rewrite_nodes, rewrite_initial_peers,
  find_matching_host, extract_udp_port, first_udp_port,
}

module _ (v : Vendor) (original_ports : List ℕ) where
  -- The nodes, other than the one itself, that the addresses lead to.
  abbrev reached_hosts : ℕ → List v.Multiaddr → List ℕ
  reached_hosts node_idx [] = []
  reached_hosts node_idx (addr ∷ rest) =
      let later = reached_hosts node_idx rest in
      elim (find_matching_host v addr original_ports) [
        | none ↦ later
        | some peer_idx ↦ if peer_idx == node_idx then later else peer_idx ∷ later
      ]

  find_matching_host-lt :
      (addr : v.Multiaddr) (i : ℕ)
      → find_matching_host v addr original_ports ≡ some i
      → i < length original_ports
  unfolding find_matching_host
  find_matching_host-lt addr i e = elim (Option-cases (extract_udp_port v addr)) [
    | inl none_of ↦ ground (arith, none_of)
    | inr (port, found) ↦ position-lt port original_ports i (rw (find_matching_host, found) at e)
  ]

  extract_udp_port-node_address_with_peer :
      (s : SwarmConfig v) → extract_udp_port v (node_address_with_peer v s) ≡ some s.port
  unfolding extract_udp_port first_udp_port node_address_with_peer
  extract_udp_port-node_address_with_peer s =
      rw (v.iter-push, v.iter-multiaddr)
        (ground (arith, v.udp_port-ip4 localhost, v.udp_port-udp s.port))

  -- The addresses of some nodes lead to the nodes that their ports reach.
  contains-reached_hosts :
      (i : ℕ) (ss : List (SwarmConfig v)) (j : ℕ)
      → contains (reached_hosts i (map (node_address_with_peer v) ss)) j
        ≡ dials_any original_ports i (map (λ (s : SwarmConfig v). s.port) ss) j
  unfolding find_matching_host contains
  contains-reached_hosts i [] j = refl
  contains-reached_hosts i (s ∷ ss) j =
      ground (arith, extract_udp_port-node_address_with_peer s, contains-reached_hosts i ss j)

module _ (v : Vendor) (hosts : List Host) (peer_ids : List v.PeerId) where
  -- The address of host `j` with its peer id.
  abbrev pub address_at : ℕ → Option v.Multiaddr
  address_at j = elim (get_elem? hosts j) [
    | none ↦ none
    | some host ↦ (elim (get_elem? peer_ids j) [
      | none ↦ none
      | some peer_id ↦ some (rewritten_addr v host peer_id)
    ])
  ]

  -- The row has the addresses of these hosts.
  abbrev pub Names : List v.Multiaddr → List ℕ → Type 0
  Names row js = map some row ≡ map address_at js

  -- Row `k` has the addresses of these hosts.
  abbrev pub HasRow : List (List v.Multiaddr) → ℕ → List ℕ → Type 0
  HasRow rows k js =
      (row : List v.Multiaddr) × (get_elem? rows k ≡ some row) × (map some row ≡ map address_at js)

  rewrite_peer-total :
      (j : ℕ)
      → j < length hosts
      → length hosts ≡ length peer_ids
      → (a : v.Multiaddr) × (rewrite_peer v hosts peer_ids j ≡ ok a) × (some a ≡ address_at j)
  unfolding rewrite_peer
  rewrite_peer-total j h same =
      let (host, found) = get_elem?-lt hosts j h in
      let (id, named) = get_elem?-lt peer_ids j (omega (arith, same)) in
      (rewritten_addr v host id, ground (arith, found, named), ground (arith, found, named))

module _ (v : Vendor) (original_ports : List ℕ) (hosts : List Host) (peer_ids : List v.PeerId) where
  rewrite_peers-total :
      (i : ℕ) (peers : List v.Multiaddr)
      → length original_ports ≤ length hosts
      → length hosts ≡ length peer_ids
      → (row : List v.Multiaddr) × (rewrite_peers v original_ports hosts peer_ids i peers ≡ ok row)
        × Names v hosts peer_ids row (reached_hosts v original_ports i peers)
  unfolding rewrite_peers
  rewrite_peers-total i [] fits same = ([], refl, refl)
  rewrite_peers-total i (addr ∷ rest) fits same =
      let (row, made, names) = rewrite_peers-total i rest fits same in
      elim (Option-cases (find_matching_host v addr original_ports)) [
        | inl none_of ↦ (row, ground (arith, none_of, made), ground (arith, none_of, names))
        | inr (peer, found) ↦ (elim (Bool-cases (peer == i)) [
          | inl self ↦ (row, ground (arith, found, self, made), ground (arith, found, self, names))
          | inr other ↦
              let below = find_matching_host-lt v original_ports addr peer found in
              let (a, first, named) =
                rewrite_peer-total v hosts peer_ids peer (omega (arith, below)) same in
              (
                a ∷ row,
                ground (arith, found, other, first, made),
                ground (arith, found, other, ap₂ ◌∷◌ named names),
              )
        ])
      ]

  rewrite_nodes-total :
      (idx : ℕ) (templates : List (List v.Multiaddr))
      → length original_ports ≤ length hosts
      → length hosts ≡ length peer_ids
      → (rows : List (List v.Multiaddr)) × (rewrite_nodes v original_ports hosts peer_ids idx
            templates
          ≡ ok rows)
        × (length rows ≡ length templates)
        × ((k : ℕ) (peers : List v.Multiaddr)
            → get_elem? templates k ≡ some peers
            → HasRow v hosts peer_ids rows k (reached_hosts v original_ports (idx + k) peers))
  unfolding rewrite_nodes
  rewrite_nodes-total idx [] fits same = ([], refl, refl, λ k peers e. cc)
  rewrite_nodes-total idx (peers ∷ rest) fits same =
      let (row, made, names) = rewrite_peers-total idx peers fits same in
      let (rows, made', size, each) = rewrite_nodes-total (suc idx) rest fits same in
      (row ∷ rows, rw (made, made') refl, ap suc size, shifted row rows names each)
    where
      shifted :
          (row : List v.Multiaddr) (rows : List (List v.Multiaddr))
          → Names v hosts peer_ids row (reached_hosts v original_ports idx peers)
          → ((k : ℕ) (ps : List v.Multiaddr)
              → get_elem? rest k ≡ some ps
              → HasRow v hosts peer_ids rows k (reached_hosts v original_ports (suc idx + k) ps))
          → (k : ℕ) (ps : List v.Multiaddr) → get_elem? (peers ∷ rest) k ≡ some ps
          → HasRow v hosts peer_ids (row ∷ rows) k (reached_hosts v original_ports (idx + k) ps)
      shifted row rows names each zero ps e =
          let here : idx + 0 ≡ idx = omega arith in
          let same : peers ≡ ps = cc in
          rw here (
            row,
            refl,
            subst (λ x. Names v hosts peer_ids row (reached_hosts v original_ports idx x)) same
                names,
          )
      shifted row rows names each (suc k) ps e =
          let shift : idx + suc k ≡ suc idx + k = omega arith in rw shift (each k ps e)

module _ (v : Vendor) where
  -- For nodes with distinct listen ports and the initial peers of a layout, and a host and a peer id
  -- for each node, the rewriting succeeds. Every node gets the addresses of exactly the hosts whose
  -- nodes it dials in the layout.
  pub rewrite_initial_peers-layout :
      (all : List (SwarmConfig v)) (layout : Libp2pNetworkLayout) (hosts : List Host)
      (peer_ids : List v.PeerId)
      → IsDistinct (ports v all)
      → length hosts ≡ length all
      → length peer_ids ≡ length all
      → (rows : List (List v.Multiaddr)) × (rewrite_initial_peers v
            (initial_peers_by_network_layout v all (record { libp2p_network_layout = layout }))
            (ports v all)
            hosts
            peer_ids
          ≡ ok rows)
        × (length rows ≡ length all)
        × ((i : ℕ)
            → i < length all
            → (js : List ℕ) × HasRow v hosts peer_ids rows i js
              × ((j : ℕ) → contains js j ≡ edge layout i j))
  unfolding rewrite_initial_peers
  rewrite_initial_peers-layout all layout hosts peer_ids d e1 e2 =
      let counts : (length hosts == length peer_ids) ≡ true = ground (arith, e1, e2) in
      let (rows, made, size, each) =
        rewrite_nodes-total v (ports v all) hosts peer_ids 0
          (initial_peers_by_network_layout v all (record { libp2p_network_layout = layout }))
          (omega (arith, e1, length-map (λ (s : SwarmConfig v). s.port) all)) (e1 ∙ sym e2) in
      (
        rows,
        ground (arith, counts, made),
        size ∙ length-initial_peers v all layout,
        λ i h.
            let from : 0 + i ≡ i = omega arith in
            (
              reached_hosts v (ports v all) i
                  (map (node_address_with_peer v) (dialled v layout i all)),
              rw from at (each i _ (get_elem?-initial_peers v all layout i h)),
              λ j.
                  contains-reached_hosts v (ports v all) i (dialled v layout i all) j
                  ∙ dials_any-dialled v all layout i j d h,
            ),
      )
