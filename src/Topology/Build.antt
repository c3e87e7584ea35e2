-- ===== src/Topology/Build.antt =====
-- `TopologyBuilder::build` yields one node for each participant, and its internal errors never occur.
use logos_blockchain_testing.Prelude.{
  ℕ, zero, suc, ◌+◌, ◌<◌, ◌≡◌, refl, ap, sym, ◌∙◌, Bool, true, false, some, List, [], ◌∷◌, length,
  length-map, get_elem?, ok, map_err-eq-ok, All, All-both, arith, Holds, >>=-Holds, Result-cases,
  inl, inr,
}
use logos_blockchain_testing.Vendor.{Vendor}
use logos_blockchain_testing.Os.{NodeId}
use logos_blockchain_testing.Config.Ledger.{Ledger}
use logos_blockchain_testing.Config.Consensus.{
  GeneralConsensusConfig, ProviderInfo, create_genesis_tx_with_declarations,
}
use logos_blockchain_testing.Config.Consensus.Funding.{IsPaid, PaysAll}
use logos_blockchain_testing.Config.Base.{
  BaseConfigs, GeneralApiConfig, GeneralTimeConfig, create_tracing_configs, create_kms_configs,
}
use logos_blockchain_testing.Topology.{
  TopologyBuildError, empty_participants, invariants, resolve, base, api, genesis,
  missing_consensus_config, vector_len_mismatch, TopologyConfig, GeneratedNodeConfig,
  GeneratedTopology, Vectors, first_consensus, collect_provider_infos, create_consensus_genesis_tx,
  apply_consensus_genesis_tx, build_node_descriptors, assemble,
}
use logos_blockchain_testing.Topology.Nodes.{IsSized, nodes_from-AreNodes, AreNodes-get_elem?}
use logos_blockchain_testing.Topology.Genesis.{
  HasDeclarations, providers_from-total, create_genesis_tx-HasDeclarations,
}
use logos_blockchain_testing.Topology.Bases.{HasNotes, IsBase}

-- The errors that the code calls internal.
abbrev pub is_internal : TopologyBuildError → Bool
is_internal missing_consensus_config = true
is_internal (vector_len_mismatch label expected actual) = true
is_internal empty_participants = false
is_internal (invariants e) = false
is_internal (resolve e) = false
is_internal (base e) = false
is_internal (api e) = false
is_internal (genesis e) = false

abbrev pub IsReported : TopologyBuildError → Type 0
IsReported e = is_internal e ≡ false

module _ (v : Vendor) (l : Ledger v) where
  -- The nodes that the configuration asks for, in order, that share a genesis transaction with a
  -- declaration for each of them and an output that pays to each account of the wallet.
  abbrev pub IsTopology : TopologyConfig v → List NodeId → List ℕ → GeneratedTopology v l → Type 0
  IsTopology config ids blend_ports t =
      (t.config ≡ config)
      × (length t.nodes ≡ config.n_nodes)
      × (0 < config.n_nodes)
      × (g : l.GenesisTx) × HasDeclarations v l config.n_nodes (l.mantle_tx g)
      × All (IsPaid v (l.mantle_tx g).ledger_tx.outputs) config.wallet_config.accounts
      × ((i : ℕ) (node : GeneratedNodeConfig v l)
          → get_elem? t.nodes i ≡ some node
          → (node.index ≡ i)
            × (get_elem? ids i ≡ some node.id)
            × (get_elem? blend_ports i ≡ some node.blend_port)
            × (node.general.consensus_config.genesis_tx ≡ g))

  apply_consensus_genesis_tx-get_elem? :
      (cs : List (GeneralConsensusConfig v l)) (g : l.GenesisTx) (i : ℕ)
      (c : GeneralConsensusConfig v l)
      → get_elem? (apply_consensus_genesis_tx v l cs g) i ≡ some c
      → c.genesis_tx ≡ g
  unfolding apply_consensus_genesis_tx
  apply_consensus_genesis_tx-get_elem? [] g i c e = cc
  apply_consensus_genesis_tx-get_elem? (a ∷ cs) g zero c e =
      let eq : record a { genesis_tx = g } ≡ c = cc in
      ap (λ (x : GeneralConsensusConfig v l). x.genesis_tx) (sym eq)
  apply_consensus_genesis_tx-get_elem? (a ∷ cs) g (suc i) c e =
      apply_consensus_genesis_tx-get_elem? cs g i c e

  length-create_tracing_configs :
      (i : ℕ) (ids : List NodeId) → length (create_tracing_configs v i ids) ≡ length ids
  unfolding create_tracing_configs
  length-create_tracing_configs i [] = refl
  length-create_tracing_configs i (id ∷ ids) = ap suc (length-create_tracing_configs (suc i) ids)

  nothing_below : ¬ (0 < 0)
  nothing_below = omega arith

  first_consensus-All :
      (P : GeneralConsensusConfig v l → Type 0) (cs : List (GeneralConsensusConfig v l))
      → 0 < length cs
      → All P cs
      → (c : GeneralConsensusConfig v l) × (first_consensus v l cs ≡ ok c) × P c
  first_consensus-All P [] pos all = elim (nothing_below pos) [ ]
  first_consensus-All P (c ∷ cs) pos all = (c, refl, all.0)

  create_consensus_genesis_tx-IsReported :
      (c : GeneralConsensusConfig v l) (ps : List (ProviderInfo v))
      → Holds (λ _. Unit) IsReported (create_consensus_genesis_tx v l c ps)
  unfolding create_consensus_genesis_tx
  create_consensus_genesis_tx-IsReported c ps =
      elim (Result-cases
        (create_genesis_tx_with_declarations v l (l.mantle_tx c.genesis_tx).ledger_tx ps)) [
          | inl (g, e) ↦ rw e tt
          | inr (x, e) ↦ rw e refl
        ]

  create_consensus_genesis_tx-eq-ok :
      (c : GeneralConsensusConfig v l) (ps : List (ProviderInfo v)) (g : l.GenesisTx)
      → create_consensus_genesis_tx v l c ps ≡ ok g
      → create_genesis_tx_with_declarations v l (l.mantle_tx c.genesis_tx).ledger_tx ps ≡ ok g
  unfolding create_consensus_genesis_tx
  create_consensus_genesis_tx-eq-ok c ps g e = map_err-eq-ok genesis _ e

  -- The nodes that are made of the base configurations and a genesis transaction.
  abbrev vectors :
      TopologyConfig v
      → List NodeId
      → List ℕ
      → BaseConfigs v l
      → List GeneralApiConfig
      → l.GenesisTx
      → Vectors v l
  vectors config ids ports bs apis g = record {
    ids = ids;
    blend_ports = ports;
    consensus_configs = apply_consensus_genesis_tx v l bs.consensus_configs g;
    bootstrap_configs = bs.bootstrap_configs;
    network_configs = bs.network_configs;
    blend_configs = bs.blend_configs;
    api_configs = apis;
    tracing_configs = create_tracing_configs v 0 ids;
    kms_configs = create_kms_configs v bs.blend_configs config.wallet_config.accounts;
  }

  vectors-IsSized :
      (config : TopologyConfig v) (ids : List NodeId) (ports : List ℕ) (bs : BaseConfigs v l)
      (apis : List GeneralApiConfig) (g : l.GenesisTx) (n : ℕ)
      → length ids ≡ n
      → length ports ≡ n
      → IsBase v l n config.wallet_config.accounts bs
      → length apis ≡ n
      → IsSized v l n (vectors config ids ports bs apis g)
  unfolding apply_consensus_genesis_tx create_kms_configs
  vectors-IsSized config ids ports bs apis g n e1 e2 is e3 = record {
    ids = e1;
    blend_ports = e2;
    consensus_configs = length-map _ bs.consensus_configs ∙ is.consensus_configs;
    bootstrap_configs = is.bootstrap_configs;
    network_configs = is.network_configs;
    blend_configs = is.blend_configs;
    api_configs = e3;
    tracing_configs = length-create_tracing_configs 0 ids ∙ e1;
    kms_configs = length-map _ bs.blend_configs ∙ is.blend_configs;
  }

  pub assemble-Holds :
      (config : TopologyConfig v) (ids : List NodeId) (ports : List ℕ) (bs : BaseConfigs v l)
      (apis : List GeneralApiConfig) (t : GeneralTimeConfig)
      → 0 < config.n_nodes
      → length ids ≡ config.n_nodes
      → length ports ≡ config.n_nodes
      → IsBase v l config.n_nodes config.wallet_config.accounts bs
      → length apis ≡ config.n_nodes
      → Holds (IsTopology config ids ports) IsReported (assemble v l config ids ports bs apis t)
  unfolding assemble collect_provider_infos build_node_descriptors
  assemble-Holds config ids ports bs apis t pos e1 e2 is e3 =
      let n = config.n_nodes in
      let as' = config.wallet_config.accounts in
      let (first, made, (notes, pays)) =
        first_consensus-All (λ c. HasNotes v l n c × PaysAll v l as' c) bs.consensus_configs
          (omega (arith, is.consensus_configs))
          (All-both (HasNotes v l n) (PaysAll v l as') bs.consensus_configs is.notes is.pays) in
      let (ps, provided, size, placed) =
        providers_from-total v l (l.mantle_tx first.genesis_tx).ledger_tx 0 bs.blend_configs
          first.blend_notes (length bs.blend_configs) (omega (arith, is.blend_configs, notes.0))
          notes.1 in
      rw (made, provided)
        (>>=-Holds (λ _. Unit) (IsTopology config ids ports) IsReported
          (create_consensus_genesis_tx v l first ps) _
          (create_consensus_genesis_tx-IsReported first ps)
          (λ g declared _.
            let declares =
              create_genesis_tx-HasDeclarations v l (l.mantle_tx first.genesis_tx).ledger_tx ps g
                placed (create_consensus_genesis_tx-eq-ok first ps g declared) in
            let vs = vectors config ids ports bs apis g in
            let (nodes, built, count, are) =
              nodes_from-AreNodes v l n 0 n vs t
                (vectors-IsSized config ids ports bs apis g n e1 e2 is e3) (omega arith) in
            rw built (
              refl,
              count,
              pos,
              g,
              rw (size ∙ is.blend_configs) at declares.1,
              rw declares.0 pays,
              λ i node found.
                  let from : 0 + i ≡ i = omega arith in
                  let made = rw from at (AreNodes-get_elem? v l vs nodes 0 i node are found) in
                  (
                    made.index,
                    made.id,
                    made.blend_port,
                    apply_consensus_genesis_tx-get_elem? bs.consensus_configs g i _
                        made.consensus_config,
                  ),
            )))
