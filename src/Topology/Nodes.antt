-- ===== src/Topology/Nodes.antt =====
-- `build_node_descriptors` on vectors of one length.
use logos_blockchain_testing.Prelude.{
  ℕ, zero, suc, ◌+◌, ◌<◌, ◌≡◌, refl, ap, List, length, get_elem?, get_elem?-lt, some, ok, arith, [],
  ◌∷◌,
}
use logos_blockchain_testing.Vendor.{Vendor}
use logos_blockchain_testing.Config.Ledger.{Ledger}
use logos_blockchain_testing.Config.Base.{GeneralTimeConfig}
use logos_blockchain_testing.Topology.{
  GeneratedNodeConfig, Vectors, node_descriptor, nodes_from, get_cloned,
}

module _ (v : Vendor) (l : Ledger v) where
  pub record IsSized (n : ℕ) (vs : Vectors v l) : Type 0 where
    pub ids : length vs.ids ≡ n
    pub blend_ports : length vs.blend_ports ≡ n
    pub consensus_configs : length vs.consensus_configs ≡ n
    pub bootstrap_configs : length vs.bootstrap_configs ≡ n
    pub network_configs : length vs.network_configs ≡ n
    pub blend_configs : length vs.blend_configs ≡ n
    pub api_configs : length vs.api_configs ≡ n
    pub tracing_configs : length vs.tracing_configs ≡ n
    pub kms_configs : length vs.kms_configs ≡ n

  -- Node `i` is made of the elements at `i`.
  pub record IsNode (vs : Vectors v l) (i : ℕ) (node : GeneratedNodeConfig v l) : Type 0 where
    pub index : node.index ≡ i
    pub id : get_elem? vs.ids i ≡ some node.id
    pub blend_port : get_elem? vs.blend_ports i ≡ some node.blend_port
    pub consensus_config : get_elem? vs.consensus_configs i ≡ some node.general.consensus_config
    pub network_config : get_elem? vs.network_configs i ≡ some node.general.network_config
    pub blend_config : get_elem? vs.blend_configs i ≡ some node.general.blend_config

  node_descriptor-IsNode :
      (i n : ℕ) (vs : Vectors v l) (t : GeneralTimeConfig)
      → IsSized n vs
      → i < n
      → (node : GeneratedNodeConfig v l) × (node_descriptor v l i n vs t ≡ ok node)
        × IsNode vs i node
  unfolding node_descriptor get_cloned
  node_descriptor-IsNode i n vs t s h =
      let (consensus, e1) =
        get_elem?-lt vs.consensus_configs i (omega (arith, s.consensus_configs)) in
      let (bootstrap, e2) =
        get_elem?-lt vs.bootstrap_configs i (omega (arith, s.bootstrap_configs)) in
      let (network, e3) = get_elem?-lt vs.network_configs i (omega (arith, s.network_configs)) in
      let (blend, e4) = get_elem?-lt vs.blend_configs i (omega (arith, s.blend_configs)) in
      let (api, e5) = get_elem?-lt vs.api_configs i (omega (arith, s.api_configs)) in
      let (tracing, e6) = get_elem?-lt vs.tracing_configs i (omega (arith, s.tracing_configs)) in
      let (kms, e7) = get_elem?-lt vs.kms_configs i (omega (arith, s.kms_configs)) in
      let (id, e8) = get_elem?-lt vs.ids i (omega (arith, s.ids)) in
      let (port, e9) = get_elem?-lt vs.blend_ports i (omega (arith, s.blend_ports)) in
      let node : GeneratedNodeConfig v l = record {
        index = i;
        id = id;
        general = record {
          api_config = api;
          consensus_config = consensus;
          bootstrapping_config = bootstrap;
          network_config = network;
          blend_config = blend;
          tracing_config = tracing;
          time_config = t;
          kms_config = kms;
        };
        blend_port = port;
      } in
      (
        node,
        rw (e1, e2, e3, e4, e5, e6, e7, e8, e9) refl,
        record {
          index = refl;
          id = e8;
          blend_port = e9;
          consensus_config = e1;
          network_config = e3;
          blend_config = e4;
        },
      )

  -- The nodes from index `i` on, each at its own index.
  abbrev pub AreNodes : Vectors v l → ℕ → List (GeneratedNodeConfig v l) → Type 0
  AreNodes vs i [] = Unit
  AreNodes vs i (node ∷ rest) = IsNode vs i node × AreNodes vs (suc i) rest

  pub nodes_from-AreNodes :
      (count i n : ℕ) (vs : Vectors v l) (t : GeneralTimeConfig)
      → IsSized n vs
      → i + count ≡ n
      → (nodes : List (GeneratedNodeConfig v l)) × (nodes_from v l count i n vs t ≡ ok nodes)
        × (length nodes ≡ count)
        × AreNodes vs i nodes
  unfolding nodes_from
  nodes_from-AreNodes zero i n vs t s e = ([], refl, refl, tt)
  nodes_from-AreNodes (suc count) i n vs t s e =
      let (node, made, is) = node_descriptor-IsNode i n vs t s (omega arith) in
      let (nodes, rest, size, are) = nodes_from-AreNodes count (suc i) n vs t s (omega arith) in
      (node ∷ nodes, rw (made, rest) refl, ap suc size, (is, are))

  pub AreNodes-get_elem? :
      (vs : Vectors v l) (nodes : List (GeneratedNodeConfig v l)) (i k : ℕ)
      (node : GeneratedNodeConfig v l)
      → AreNodes vs i nodes
      → get_elem? nodes k ≡ some node
      → IsNode vs (i + k) node
  AreNodes-get_elem? vs [] i k node h e = cc
  AreNodes-get_elem? vs (a ∷ rest) i zero node h e =
      let same : i + 0 ≡ i = omega arith in let eq : a ≡ node = cc in rw same (rw (← eq) (h.0))
  AreNodes-get_elem? vs (a ∷ rest) i (suc k) node h e =
      let same : i + suc k ≡ suc i + k = omega arith in
      rw same (AreNodes-get_elem? vs rest (suc i) k node h.1 e)
