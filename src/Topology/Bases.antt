-- ===== src/Topology/Bases.antt =====
-- What `build_base_configs` yields: vectors of one length, and blend notes in the genesis ledger.
use logos_blockchain_testing.Prelude.{
  ℕ, suc, ◌≡◌, refl, ap, sym, ◌∙◌, List, [], ◌∷◌, length, length-map, All, arith, Holds,
  Result-cases, inl, inr,
}
use logos_blockchain_testing.Vendor.{Vendor}
use logos_blockchain_testing.Os.{
  NodeId, Os, >>=-Holds as >>=ᴵ-Holds, convert-Holds, traverse-length, traverse, convert, lift,
}
use logos_blockchain_testing.Wallet.{WalletConfig, WalletAccount}
use logos_blockchain_testing.Config.Ledger.{Ledger}
use logos_blockchain_testing.Config.Consensus.{
  GeneralConsensusConfig, ConsensusParams, create_consensus_configs,
}
use logos_blockchain_testing.Config.Consensus.Outputs.{blend_notes_in_genesis}
use logos_blockchain_testing.Config.Consensus.Funding.{PaysAll, create_consensus_configs-PaysAll}
use logos_blockchain_testing.Config.Network.{
  NetworkParams, GeneralNetworkConfig, SwarmConfig, create_swarm_config, create_network_configs,
  with_initial_peers,
}
use logos_blockchain_testing.Config.Network.Layout.{length-initial_peers}
use logos_blockchain_testing.Config.Base.{
  BaseConfigs, create_bootstrap_configs, create_blend_configs, build_base_configs, consensus,
  network,
}
use logos_blockchain_testing.Topology.Genesis.{IsOutput}

module _ (v : Vendor) (l : Ledger v) where
  -- A consensus configuration with `n` blend notes that are outputs of its genesis transaction.
  abbrev pub HasNotes : ℕ → GeneralConsensusConfig v l → Type 0
  HasNotes n c =
      (length c.blend_notes ≡ n)
      × All (IsOutput v l (l.mantle_tx c.genesis_tx).ledger_tx) c.blend_notes

  -- A vector of length `n` each, with consensus configurations that pay to the accounts.
  pub record IsBase (n : ℕ) (as' : List (WalletAccount v)) (bs : BaseConfigs v l) : Type 0 where
    pub consensus_configs : length bs.consensus_configs ≡ n
    pub notes : All (HasNotes n) bs.consensus_configs
    pub pays : All (PaysAll v l as') bs.consensus_configs
    pub bootstrap_configs : length bs.bootstrap_configs ≡ n
    pub network_configs : length bs.network_configs ≡ n
    pub blend_configs : length bs.blend_configs ≡ n

  length-create_blend_configs :
      (ids : List NodeId) (ports : List ℕ)
      → length ids ≡ length ports
      → length (create_blend_configs v ids ports) ≡ length ids
  unfolding create_blend_configs
  length-create_blend_configs [] ports e = refl
  length-create_blend_configs (id ∷ ids) [] e = omega (arith, e)
  length-create_blend_configs (id ∷ ids) (port ∷ ports) e =
      ap suc (length-create_blend_configs ids ports (omega arith))

  length-with_initial_peers :
      (swarms : List (SwarmConfig v)) (peers : List (List v.Multiaddr))
      → length peers ≡ length swarms
      → length (with_initial_peers v swarms peers) ≡ length swarms
  unfolding with_initial_peers
  length-with_initial_peers [] [] e = refl
  length-with_initial_peers [] (p ∷ peers) e = refl
  length-with_initial_peers (s ∷ swarms) [] e = omega arith
  length-with_initial_peers (s ∷ swarms) (p ∷ peers) e =
      ap suc (length-with_initial_peers swarms peers (omega arith))

  create_network_configs-length :
      (ids : List NodeId) (params : NetworkParams) (os : Os)
      → Holds
          (λ (cs : List (GeneralNetworkConfig v)). length cs ≡ length ids)
          (λ _. Unit)
          (create_network_configs v ids params os).0
  unfolding create_network_configs
  create_network_configs-length ids params os =
      >>=ᴵ-Holds (λ (ss : List (SwarmConfig v)). length ss ≡ length ids) _ (λ _. Unit)
        (traverse (create_swarm_config v) ids) _ os
        (traverse-length (λ _. Unit) (create_swarm_config v) ids os (λ _. tt))
        (λ swarms os' _ size.
          length-with_initial_peers swarms _
            (length-initial_peers v swarms params.libp2p_network_layout)
          ∙ size)

  -- A consensus configuration with notes for each of the ids, for every id.
  abbrev AreConsensus :
      List NodeId → List (WalletAccount v) → List (GeneralConsensusConfig v l) → Type 0
  AreConsensus ids as' cs =
      ((length cs ≡ length ids) × All (HasNotes (length ids)) cs) × All (PaysAll v l as') cs

  create_consensus_configs-AreConsensus :
      (ids : List NodeId) (params : ConsensusParams v) (wallet : WalletConfig v)
      → Holds
          (AreConsensus ids wallet.accounts)
          (λ _. Unit)
          (create_consensus_configs v l ids params wallet)
  create_consensus_configs-AreConsensus ids params wallet =
      elim (Result-cases (create_consensus_configs v l ids params wallet)) [
        | inl (cs, e) ↦ rw e (
          blend_notes_in_genesis v l ids params wallet cs e,
          create_consensus_configs-PaysAll v l ids params wallet cs e,
        )
        | inr (x, e) ↦ rw e tt
      ]

  pub build_base_configs-IsBase :
      (ids : List NodeId) (params : ConsensusParams v) (network_params : NetworkParams)
      (wallet : WalletConfig v) (ports : List ℕ) (n : ℕ) (os : Os)
      → length ids ≡ n
      → length ports ≡ n
      → Holds
          (IsBase n wallet.accounts)
          (λ _. Unit)
          (build_base_configs v l ids params network_params wallet ports os).0
  unfolding build_base_configs create_bootstrap_configs
  build_base_configs-IsBase ids params network_params wallet ports n os e1 e2 =
      let Consensus = AreConsensus ids wallet.accounts in
      let Network = λ (cs : List (GeneralNetworkConfig v)). length cs ≡ length ids in
      >>=ᴵ-Holds Consensus (IsBase n wallet.accounts) (λ _. Unit)
        (convert consensus (lift (create_consensus_configs v l ids params wallet))) _ os
        (convert-Holds Consensus (λ _. Unit) (λ _. Unit) consensus
          (lift (create_consensus_configs v l ids params wallet)) os
          (create_consensus_configs-AreConsensus ids params wallet) (λ _ _. tt))
        (λ cs os' _ (notes, pays).
          >>=ᴵ-Holds Network (IsBase n wallet.accounts) (λ _. Unit)
            (convert network (create_network_configs v ids network_params)) _ os'
            (convert-Holds Network (λ _. Unit) (λ _. Unit) network
              (create_network_configs v ids network_params) os'
              (create_network_configs-length ids network_params os') (λ _ _. tt))
            (λ networks os'' _ size. record {
              consensus_configs = notes.0 ∙ e1;
              notes = rw e1 at notes.1;
              pays = pays;
              bootstrap_configs = length-map _ ids ∙ e1;
              network_configs = size ∙ e1;
              blend_configs = length-create_blend_configs ids ports (e1 ∙ sym e2) ∙ e1;
            }))
