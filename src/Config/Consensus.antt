-- ===== src/Config/Consensus.antt =====
-- testing-framework/configs/src/topology/configs/consensus.rs: the notes of the genesis ledger, the
-- genesis transaction and the consensus configuration of each node.
pub mod Outputs
pub mod Funding
use logos_blockchain_testing.Prelude.{
  ℕ, zero, suc, ◌+◌, ◌-◌, ◌≡◌, Option, none, some, List, [], ◌∷◌, ◌++◌, map, take, replicate,
  length, get_elem?, String, Result, ok, err, map_err, ok_or, ◌>>=◌,
}
use logos_blockchain_testing.Vendor.{Vendor}
use logos_blockchain_testing.Os.{NodeId}
use logos_blockchain_testing.Wallet.{WalletAccount, WalletConfig, public_key}
use logos_blockchain_testing.Config.Ledger.{
  Note, Utxo, LedgerTx, InscriptionOp, ServiceType, DeclarationMessage, Op, channel_inscribe,
  sdp_declare, OpProof, no_proof, zk_and_ed25519_sigs, MantleTx, SignedMantleTx, Ledger,
}

-- `index_panic` stands for the panic of an index out of bounds.
pub data ConsensusConfigError : Type 0 where
  inscription_signer : String → ConsensusConfigError
  genesis_tx : String → ConsensusConfigError
  ledger_config : String → ConsensusConfigError
  declaration_signature : String → ConsensusConfigError
  index_panic : ConsensusConfigError

pub record ConsensusParams (v : Vendor) : Type 0 where
  pub n_participants : ℕ
  pub security_param : ℕ
  pub active_slot_coeff : v.F64

pub record ServiceNote (v : Vendor) : Type 0 where
  pub pk : v.ZkPublicKey
  pub sk : v.ZkKey
  pub note : Note v
  pub output_index : ℕ

pub record ProviderInfo (v : Vendor) : Type 0 where
  pub service_type : ServiceType
  pub provider_sk : v.Ed25519Key
  pub zk_sk : v.ZkKey
  pub locator : v.Multiaddr
  pub note : ServiceNote v

pub record LeaderConfig (v : Vendor) : Type 0 where
  pub pk : v.ZkPublicKey
  pub sk : v.ZkKey

-- `ServiceParameters` and `RewardsParameters` of the blend service.
pub record ServiceParameters : Type 0 where
  pub lock_period : ℕ
  pub inactivity_period : ℕ
  pub retention_period : ℕ
  pub timestamp : ℕ
  pub session_duration : ℕ

pub record RewardsParameters (v : Vendor) : Type 0 where
  pub rounds_per_session : ℕ
  pub message_frequency_per_round : v.F64
  pub num_blend_layers : ℕ
  pub minimum_network_size : ℕ

-- `nomos_ledger::Config`, with the parts of `epoch_config`, `consensus_config` and `sdp_config`.
pub record LedgerConfig (v : Vendor) : Type 0 where
  pub epoch_stake_distribution_stabilization : ℕ
  pub epoch_period_nonce_buffer : ℕ
  pub epoch_period_nonce_stabilization : ℕ
  pub security_param : ℕ
  pub active_slot_coeff : v.F64
  pub service_params : List (ServiceType × ServiceParameters)
  -- the threshold and the timestamp
  pub min_stake : ℕ × ℕ
  pub blend : RewardsParameters v

pub record GeneralConsensusConfig (v : Vendor) (l : Ledger v) : Type 0 where
  pub leader_config : LeaderConfig v
  pub ledger_config : LedgerConfig v
  pub genesis_tx : l.GenesisTx
  pub utxos : List (Utxo v)
  pub blend_notes : List (ServiceNote v)
  pub wallet_accounts : List (WalletAccount v)
  pub funding_sk : v.ZkKey

-- The vectors that the loop over the ids fills.
pub record Notes (v : Vendor) : Type 0 where
  pub leader_keys : List (LeaderConfig v)
  pub blend_notes : List (ServiceNote v)
  pub sdp_notes : List (ServiceNote v)
  pub utxos : List (Utxo v)

-- The prefix, and as many bytes of the id as fill up 16.
unfoldable pub derive_key_material : List ℕ → NodeId → List ℕ
derive_key_material prefix id_bytes = prefix ++ take (16 - length prefix) id_bytes

abbrev pub leader_prefix : List ℕ
leader_prefix = b'l' ∷ b'd' ∷ []

abbrev pub blend_prefix : List ℕ
blend_prefix = b'b' ∷ b'n' ∷ []

abbrev pub sdp_prefix : List ℕ
sdp_prefix = b's' ∷ b'd' ∷ b'p' ∷ []

-- `inscription: "genesis"` on channel 0
abbrev pub genesis_inscription : InscriptionOp
genesis_inscription = record {
  channel_id = replicate 32 0;
  inscription = 103 ∷ 101 ∷ 110 ∷ 101 ∷ 115 ∷ 105 ∷ 115 ∷ [];
}

module _ (v : Vendor) where
  abbrev pub new_utxo : Note v → Utxo v
  new_utxo note = record { note = note; tx_hash = v.zero_hash; output_index = 0 }

  -- Returns the vectors and the next output index.
  unfoldable pub push_leader_utxo : NodeId → Notes v → ℕ → Notes v × ℕ
  push_leader_utxo id notes output_index =
      let sk = v.zk_key (derive_key_material leader_prefix id) in
      let pk = v.to_public_key sk in
      (
        record notes {
          leader_keys = notes.leader_keys ++ record { pk = pk; sk = sk } ∷ [];
          utxos = notes.utxos ++ new_utxo (record { value = 1000; pk = pk }) ∷ [];
        },
        output_index + 1,
      )

  abbrev pub service_note : List ℕ → NodeId → ℕ → ServiceNote v
  service_note prefix id output_index =
      let sk = v.zk_key (derive_key_material prefix id) in
      let pk = v.to_public_key sk in
      record { pk = pk; sk = sk; note = record { value = 1; pk = pk }; output_index = output_index }

  -- `push_service_note`: the vector of notes, the utxos and the next output index
  unfoldable pub push_service_note :
      List ℕ
      → NodeId
      → List (ServiceNote v)
      → List (Utxo v)
      → ℕ
      → List (ServiceNote v) × List (Utxo v) × ℕ
  push_service_note prefix id notes utxos output_index =
      let note = service_note prefix id output_index in
      (notes ++ note ∷ [], utxos ++ new_utxo note.note ∷ [], output_index + 1)

  -- The body of the loop over the ids.
  unfoldable pub push_notes : NodeId → Notes v → ℕ → Notes v × ℕ
  unfolding push_leader_utxo push_service_note
  push_notes id notes output_index =
      let (led, i) = push_leader_utxo id notes output_index in
      let (blend, utxos, j) = push_service_note blend_prefix id led.blend_notes led.utxos i in
      let (sdp, utxos', k) = push_service_note sdp_prefix id led.sdp_notes utxos j in
      (record led { blend_notes = blend; sdp_notes = sdp; utxos = utxos' }, k)

  unfoldable pub push_all_notes : List NodeId → Notes v → ℕ → Notes v
  push_all_notes [] notes output_index = notes
  push_all_notes (id ∷ ids) notes output_index =
      let (next, i) = push_notes id notes output_index in push_all_notes ids next i

  unfoldable pub create_utxos_for_leader_and_services : List NodeId → Notes v
  unfolding push_all_notes
  create_utxos_for_leader_and_services ids =
      push_all_notes ids (record { leader_keys = []; blend_notes = []; sdp_notes = []; utxos = [] })
        0

  unfoldable pub append_wallet_utxos : List (Utxo v) → WalletConfig v → List (Utxo v)
  append_wallet_utxos utxos wallet =
      utxos ++ map (λ a. new_utxo (record { value = a.value; pk = public_key v a })) wallet.accounts

  unfoldable pub build_ledger_config :
      ConsensusParams v → Result (LedgerConfig v) ConsensusConfigError
  build_ledger_config params = do
    frequency ←
        map_err
          (λ (message : String). ledger_config "message_frequency_per_round must be non-negative")
          v.non_negative_one
    ok (record {
      epoch_stake_distribution_stabilization = 3;
      epoch_period_nonce_buffer = 3;
      epoch_period_nonce_stabilization = 4;
      security_param = params.security_param;
      active_slot_coeff = params.active_slot_coeff;
      service_params =
          (
            ServiceType.blend_network,
            record {
              lock_period = 10;
              inactivity_period = 20;
              retention_period = 100;
              timestamp = 0;
              session_duration = 1000;
            },
          )
          ∷ [];
      min_stake = (1, 0);
      blend = record {
        rounds_per_session = 10;
        message_frequency_per_round = frequency;
        num_blend_layers = 3;
        minimum_network_size = 1;
      };
    })

module _ (v : Vendor) (l : Ledger v) where
  unfoldable pub build_genesis_inscription : Result InscriptionOp ConsensusConfigError
  build_genesis_inscription =
      map_err inscription_signer l.zero_signer >>= λ _. ok genesis_inscription

  unfoldable pub create_genesis_tx : List (Utxo v) → Result l.GenesisTx ConsensusConfigError
  unfolding build_genesis_inscription
  create_genesis_tx utxos = do
    inscription ← build_genesis_inscription
    map_err genesis_tx (
        l.from_tx (record {
          mantle_tx = record {
            ops = channel_inscribe inscription ∷ [];
            ledger_tx = record { inputs = []; outputs = map (λ (u : Utxo v). u.note) utxos };
            execution_gas_price = 0;
            storage_gas_price = 0;
          };
          ops_proofs = no_proof ∷ [];
        }))

  abbrev pub consensus_config :
      LeaderConfig v
      → LedgerConfig v
      → l.GenesisTx
      → List (Utxo v)
      → Notes v
      → WalletConfig v
      → ServiceNote v
      → GeneralConsensusConfig v l
  consensus_config leader ledger genesis utxos notes wallet sdp = record {
    leader_config = leader;
    ledger_config = ledger;
    genesis_tx = genesis;
    utxos = utxos;
    blend_notes = notes.blend_notes;
    wallet_accounts = wallet.accounts;
    funding_sk = sdp.sk;
  }

  -- The configuration for each leader key, from index `i` on.
  unfoldable pub consensus_configs_from :
      ℕ
      → List (LeaderConfig v)
      → LedgerConfig v
      → l.GenesisTx
      → List (Utxo v)
      → Notes v
      → WalletConfig v
      → Result (List (GeneralConsensusConfig v l)) ConsensusConfigError
  consensus_configs_from i [] ledger genesis utxos notes wallet = ok []
  consensus_configs_from i (leader ∷ rest) ledger genesis utxos notes wallet = do
    sdp ← ok_or (get_elem? notes.sdp_notes i) index_panic
    configs ← consensus_configs_from (suc i) rest ledger genesis utxos notes wallet
    ok (consensus_config leader ledger genesis utxos notes wallet sdp ∷ configs)

  unfoldable pub create_consensus_configs :
      List NodeId
      → ConsensusParams v
      → WalletConfig v
      → Result (List (GeneralConsensusConfig v l)) ConsensusConfigError
  unfolding consensus_configs_from create_genesis_tx build_ledger_config append_wallet_utxos
  create_consensus_configs ids params wallet = do
    let notes = create_utxos_for_leader_and_services v ids
    let utxos = append_wallet_utxos v notes.utxos wallet
    genesis ← create_genesis_tx utxos
    ledger ← build_ledger_config v params
    consensus_configs_from 0 notes.leader_keys ledger genesis utxos notes wallet

  unfoldable pub declaration : v.Hash → ProviderInfo v → DeclarationMessage v
  declaration ledger_tx_hash provider = record {
    service_type = provider.service_type;
    locators = provider.locator ∷ [];
    provider_id = v.ed25519_public_bytes provider.provider_sk;
    zk_id = v.to_public_key provider.zk_sk;
    locked_note_id = l.utxo_id (record {
      note = provider.note.note;
      tx_hash = ledger_tx_hash;
      output_index = provider.note.output_index;
    });
  }

  unfoldable pub build_genesis_ops : InscriptionOp → v.Hash → List (ProviderInfo v) → List (Op v)
  unfolding declaration
  build_genesis_ops inscription ledger_tx_hash providers =
      channel_inscribe inscription ∷ map (λ p. sdp_declare (declaration ledger_tx_hash p)) providers

  unfoldable pub provider_proofs :
      v.Hash → List (ProviderInfo v) → Result (List (OpProof v)) ConsensusConfigError
  provider_proofs hash [] = ok []
  provider_proofs hash (p ∷ rest) = do
    zk_sig ← map_err declaration_signature (v.multi_sign (p.note.sk ∷ p.zk_sk ∷ []) hash)
    proofs ← provider_proofs hash rest
    ok (zk_and_ed25519_sigs zk_sig (v.sign_payload p.provider_sk hash) ∷ proofs)

  unfoldable pub build_genesis_ops_proofs :
      v.Hash → List (ProviderInfo v) → Result (List (OpProof v)) ConsensusConfigError
  unfolding provider_proofs
  build_genesis_ops_proofs hash providers = do
    proofs ← provider_proofs hash providers
    ok (no_proof ∷ proofs)

  unfoldable pub build_genesis_tx :
      MantleTx v → List (OpProof v) → Result l.GenesisTx ConsensusConfigError
  build_genesis_tx mantle_tx ops_proofs =
      map_err genesis_tx (l.from_tx (record { mantle_tx = mantle_tx; ops_proofs = ops_proofs }))

  unfoldable pub create_genesis_tx_with_declarations :
      LedgerTx v → List (ProviderInfo v) → Result l.GenesisTx ConsensusConfigError
  unfolding build_genesis_inscription build_genesis_ops build_genesis_ops_proofs build_genesis_tx
  create_genesis_tx_with_declarations ledger_tx providers = do
    inscription ← build_genesis_inscription
    let mantle_tx : MantleTx v = record {
      ops = build_genesis_ops inscription (l.hash_ledger_tx ledger_tx) providers;
      ledger_tx = ledger_tx;
      execution_gas_price = 0;
      storage_gas_price = 0;
    }
    proofs ← build_genesis_ops_proofs (l.hash_mantle_tx mantle_tx) providers
    build_genesis_tx mantle_tx proofs
