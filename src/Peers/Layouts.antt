-- ===== src/Peers/Layouts.antt =====
-- The peer counts that a generated network of each layout waits for.
use logos_blockchain_testing.Prelude.{
  ℕ, zero, suc, ◌+◌, ◌-◌, ◌<◌, ◌≡◌, refl, ap, ◌∙◌, false, not, ◌||◌, some, List, map, length,
  count_below, count_below_eq, ◌==◌, ltb, if◌then◌else◌, arith, get_elem?, length-map,
}
use logos_blockchain_testing.Vendor.{Vendor}
use logos_blockchain_testing.Peers.{find_expected_peer_counts}
use logos_blockchain_testing.Peers.Counts.{dials, find_expected_peer_counts_lem}
use logos_blockchain_testing.Config.Network.{
  Libp2pNetworkLayout, star, chain, full, SwarmConfig, initial_peers_by_network_layout, peer_ports,
}
use logos_blockchain_testing.Config.Network.Reach.{IsDistinct}
use logos_blockchain_testing.Config.Network.Layout.{
  edge, ports, dials-initial_peers, length-initial_peers,
}

-- A star has a hub that meets all others; in a chain the ends meet one node and the others two; in
-- a full mesh every node meets all others.
abbrev pub layout_count : Libp2pNetworkLayout → ℕ → ℕ → ℕ
layout_count star n i = if i == 0 then n - 1 else 1
layout_count chain n i = (if 0 == i then 0 else 1) + (if suc i == n then 0 else 1)
layout_count full n i = n - 1

count_below-none : (n : ℕ) → count_below n (λ j. false) ≡ 0
unfolding count_below
count_below-none zero = refl
count_below-none (suc n) = count_below-none n

count_below-eq : (n a : ℕ) → count_below n (λ j. j == a) ≡ (if ltb a n then 1 else 0)
unfolding count_below
count_below-eq zero a = ground arith
count_below-eq (suc n) a = ground (arith, count_below-eq n a)

count_below-ne : (n a : ℕ) → count_below n (λ j. not (j == a)) ≡ (if ltb a n then n - 1 else n)
unfolding count_below
count_below-ne zero a = ground arith
count_below-ne (suc n) a = ground (arith, count_below-ne n a)

count_below-adjacent :
    (n i : ℕ)
    → count_below n (λ j. (suc j == i) || (suc i == j))
      ≡ (if 0 == i then 0 else if ltb n i then 0 else 1) + (if ltb (suc i) n then 1 else 0)
unfolding count_below
count_below-adjacent zero i = ground arith
count_below-adjacent (suc n) i = ground (arith, count_below-adjacent n i)

count_below-edge :
    (layout : Libp2pNetworkLayout) (n i : ℕ)
    → i < n
    → count_below n (λ j. edge layout i j || edge layout j i) ≡ layout_count layout n i
count_below-edge star n zero h =
    count_below_eq n _ (λ j. not (j == 0)) (λ j l. ground arith)
    ∙ ground (arith, count_below-ne n 0)
count_below-edge star n (suc i) h =
    count_below_eq n _ (λ j. j == 0) (λ j l. ground arith) ∙ ground (arith, count_below-eq n 0)
count_below-edge chain n i h =
    count_below_eq n _ (λ j. (suc j == i) || (suc i == j)) (λ j l. ground arith)
    ∙ ground (arith, count_below-adjacent n i)
count_below-edge full n i h =
    count_below_eq n _ (λ j. not (j == i)) (λ j l. ground arith)
    ∙ ground (arith, count_below-ne n i)

-- For nodes with distinct listen ports and the initial peers of a layout, the expected peer counts
-- are those of the layout: nothing panics and node `i` waits for `layout_count layout n i` peers.
pub expected_peers_of_layout :
    (v : Vendor) (all : List (SwarmConfig v)) (layout : Libp2pNetworkLayout)
    → IsDistinct (ports v all)
    → (counts : List ℕ) × (find_expected_peer_counts (ports v all) (
          map
            (peer_ports v)
            (initial_peers_by_network_layout v all (record { libp2p_network_layout = layout })))
        ≡ some counts)
      × (length counts ≡ length all)
      × ((i : ℕ) → i < length all → get_elem? counts i ≡ some (layout_count layout (length all) i))
expected_peers_of_layout v all layout d =
    let sets =
      map (peer_ports v)
        (initial_peers_by_network_layout v all (record { libp2p_network_layout = layout })) in
    let size : length sets ≡ length all =
      length-map (peer_ports v) _ ∙ length-initial_peers v all layout in
    let (counts, made, count, at) =
      find_expected_peer_counts_lem (ports v all) sets
        (omega (arith, size, length-map (λ (s : SwarmConfig v). s.port) all)) in
    (
      counts,
      made,
      count ∙ size,
      λ i l.
          at i (omega (arith, size))
          ∙ ap some (
              ap
                (λ (n : ℕ).
                  count_below n (λ j. dials (ports v all) sets i j || dials (ports v all) sets j i))
                size
              ∙ count_below_eq (length all) _ (λ j. edge layout i j || edge layout j i)
                  (λ j lj. ground (
                    arith,
                    dials-initial_peers v all layout i j d l,
                    dials-initial_peers v all layout j i d lj,
                  ))
              ∙ count_below-edge layout (length all) i l),
    )
