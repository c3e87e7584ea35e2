-- ===== src/Examples/Hosts.antt =====
-- The theorems on the configuration server, on the three nodes of a chain and three hosts.
use logos_blockchain_testing.Prelude.{
  ℕ, ◌+◌, ◌<◌, ◌≡◌, refl, none, some, List, [], ◌∷◌, length, ok, contains, String, Result, ◌≤◌,
  ◌++◌, map, take, false,
}
use native.Mathlib.Decide.{ℕ_discrete}
use logos_blockchain_testing.Examples.Texts.{string_discrete}
use logos_blockchain_testing.Examples.Toy.{toy}
use logos_blockchain_testing.Examples.Topologies.{three_swarms, three_swarms-IsDistinct}
use logos_blockchain_testing.Config.Network.{chain, initial_peers_by_network_layout}
use logos_blockchain_testing.Config.Network.Layout.{edge, ports}
use logos_blockchain_testing.Cfgsync.{Host, node_from_ip, rewrite_initial_peers}
use logos_blockchain_testing.Cfgsync.Repo.{keys, run}
use logos_blockchain_testing.Cfgsync.Repo.Registry.{count, latest, one_if}
use logos_blockchain_testing.Cfgsync.Repo.Answers.{
  is_complete, joined, delivered, due, response_to, run-answers,
}
use logos_blockchain_testing.Cfgsync.Rewrite.{HasRow, rewrite_initial_peers-layout}

abbrev host : ℕ → String → Host
host last identifier = node_from_ip (10 ∷ 0 ∷ 0 ∷ last ∷ []) identifier (record {
  network_port = none;
  blend_port = some (3400 + last);
  api_port = none;
  testing_http_port = none;
})

abbrev three_hosts : List Host
three_hosts = host 1 "node-0" ∷ host 2 "node-1" ∷ host 3 "node-2" ∷ []

abbrev three_peer_ids : List (List ℕ)
three_peer_ids = (1 ∷ []) ∷ (2 ∷ []) ∷ (3 ∷ []) ∷ []

rewrite_initial_peers-layout_example :
    (rows : List (List toy.Multiaddr)) × (rewrite_initial_peers toy
        (initial_peers_by_network_layout toy three_swarms
          (record { libp2p_network_layout = chain }))
        (ports toy three_swarms)
        three_hosts
        three_peer_ids
      ≡ ok rows)
    × (length rows ≡ 3)
    × ((i : ℕ)
        → i < 3
        → (js : List ℕ) × HasRow toy three_hosts three_peer_ids rows i js
          × ((j : ℕ) → contains js j ≡ edge chain i j))
rewrite_initial_peers-layout_example =
    rewrite_initial_peers-layout toy three_swarms chain three_hosts three_peer_ids
      three_swarms-IsDistinct refl refl

host_eq : Discrete Host
host_eq = hlevel (ℕ_discrete, string_discrete)

abbrev two_polls : List (List (Host × ℕ))
two_polls = ((host 1 "node-0", 7) ∷ []) ∷ ((host 2 "node-1", 8) ∷ (host 1 "node-0", 9) ∷ []) ∷ []

abbrev generate : List Host → Result (List (Host × ℕ)) String
generate hosts = ok ((host 1 "node-0", 100) ∷ (host 2 "node-1", 200) ∷ [])

run-answers_example :
    let complete = is_complete host_eq 2 [] two_polls in
    (k : ℕ) × (k ≤ 2)
    × (complete ≡ false → k ≡ 2)
    × (let heard = joined (take k two_polls) ++ [] in
        (taken : List (Host × ℕ)) × ((h : Host)
          → count host_eq taken h ≡ one_if host_eq (latest host_eq heard h))
        × (map (delivered host_eq) (run host_eq generate 2 two_polls [])
            ≡ map
                (due host_eq (response_to host_eq complete (generate (keys host_eq taken))) heard)
                taken))
run-answers_example = run-answers host_eq generate 2 two_polls []
