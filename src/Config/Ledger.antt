-- ===== src/Config/Ledger.antt =====
-- The values of nomos-core that the genesis code builds, with the fields that it writes, and what it
-- calls on them.
use logos_blockchain_testing.Prelude.{ℕ, ◌≡◌, String, List, Result, ok}
use logos_blockchain_testing.Vendor.{Vendor}

pub record Note (v : Vendor) : Type 0 where
  pub value : ℕ
  pub pk : v.ZkPublicKey

pub record Utxo (v : Vendor) : Type 0 where
  pub note : Note v
  pub tx_hash : v.Hash
  pub output_index : ℕ

pub record LedgerTx (v : Vendor) : Type 0 where
  pub inputs : List v.NoteId
  pub outputs : List (Note v)

-- The inscription "genesis" on channel 0, without a parent.
pub record InscriptionOp : Type 0 where
  pub channel_id : List ℕ
  pub inscription : List ℕ

pub data ServiceType : Type 0 where
  blend_network : ServiceType

pub record DeclarationMessage (v : Vendor) : Type 0 where
  pub service_type : ServiceType
  pub locators : List v.Multiaddr
  pub provider_id : List ℕ
  pub zk_id : v.ZkPublicKey
  pub locked_note_id : v.NoteId

pub data Op (v : Vendor) : Type 0 where
  channel_inscribe : InscriptionOp → Op v
  sdp_declare : DeclarationMessage v → Op v

pub data OpProof (v : Vendor) : Type 0 where
  no_proof : OpProof v
  zk_and_ed25519_sigs : v.ZkSignature → v.Ed25519Signature → OpProof v

pub record MantleTx (v : Vendor) : Type 0 where
  pub ops : List (Op v)
  pub ledger_tx : LedgerTx v
  pub execution_gas_price : ℕ
  pub storage_gas_price : ℕ

pub record SignedMantleTx (v : Vendor) : Type 0 where
  pub mantle_tx : MantleTx v
  pub ops_proofs : List (OpProof v)

pub record Ledger (v : Vendor) : Type 1 where
  pub GenesisTx : Type 0
  -- `genesis_tx.mantle_tx()`
  pub mantle_tx : GenesisTx → MantleTx v
  -- `GenesisTx::from_tx`, an error with its message
  pub from_tx : SignedMantleTx v → Result GenesisTx String
  pub hash_ledger_tx : LedgerTx v → v.Hash
  pub hash_mantle_tx : MantleTx v → v.Hash
  -- `Utxo::id`
  pub utxo_id : Utxo v → v.NoteId
  -- `Ed25519PublicKey::from_bytes(&[0; 32])`, the signer of the inscription
  pub zero_signer : Result (Unit {0}) String
  -- A genesis transaction wraps the transaction that it is made from.
  pub from_tx-ok :
      (tx : SignedMantleTx v) (g : GenesisTx) → from_tx tx ≡ ok g → mantle_tx g ≡ tx.mantle_tx
