-- ===== src/Config/Consensus/Funding.antt =====
-- The outputs that `append_wallet_utxos` adds to the genesis transaction pay to the wallet's accounts.
use logos_blockchain_testing.Prelude.{
  ℕ, suc, ◌≡◌, refl, some, List, [], ◌∷◌, ◌++◌, map, get_elem?, All, All-mono, ok,
}
use logos_blockchain_testing.Vendor.{Vendor}
use logos_blockchain_testing.Os.{NodeId}
use logos_blockchain_testing.Wallet.{WalletAccount, WalletConfig, public_key}
use logos_blockchain_testing.Config.Ledger.{Ledger, Note, Utxo}
use logos_blockchain_testing.Config.Consensus.{
  ConsensusParams, GeneralConsensusConfig, new_utxo, create_utxos_for_leader_and_services,
  append_wallet_utxos, create_consensus_configs,
}
use logos_blockchain_testing.Config.Consensus.Outputs.{IsFrom, create_consensus_configs-Made}

module _ (v : Vendor) where
  -- Some output pays to the account.
  abbrev pub IsPaid : List (Note v) → WalletAccount v → Type 0
  IsPaid outputs a =
      (i : ℕ) × (note : Note v) × (get_elem? outputs i ≡ some note) × (note.pk ≡ public_key v a)

  abbrev notes_of : List (Utxo v) → List (Note v)
  notes_of utxos = map (λ (u : Utxo v). u.note) utxos

  abbrev utxo_of : WalletAccount v → Utxo v
  utxo_of a = new_utxo v (record { value = a.value; pk = public_key v a })

  IsPaid-cons :
      (note : Note v) (outputs : List (Note v)) (a : WalletAccount v)
      → IsPaid outputs a
      → IsPaid (note ∷ outputs) a
  IsPaid-cons note outputs a (i, paid, e, same) = (suc i, paid, e, same)

  accounts-IsPaid : (as' : List (WalletAccount v)) → All (IsPaid (notes_of (map utxo_of as'))) as'
  accounts-IsPaid [] = tt
  accounts-IsPaid (a ∷ as') =
      let paid : Note v = record { value = a.value; pk = public_key v a } in
      let rest = notes_of (map utxo_of as') in
      (
        (0, paid, refl, refl),
        All-mono (IsPaid rest) (IsPaid (paid ∷ rest)) as' (IsPaid-cons paid rest)
            (accounts-IsPaid as'),
      )

  append-IsPaid :
      (utxos : List (Utxo v)) (as' : List (WalletAccount v))
      → All (IsPaid (notes_of (utxos ++ map utxo_of as'))) as'
  append-IsPaid [] as' = accounts-IsPaid as'
  append-IsPaid (u ∷ utxos) as' =
      let rest = notes_of (utxos ++ map utxo_of as') in
      All-mono (IsPaid rest) (IsPaid (u.note ∷ rest)) as' (IsPaid-cons u.note rest)
        (append-IsPaid utxos as')

module _ (v : Vendor) (l : Ledger v) where
  -- The genesis transaction of the configuration pays to each of the accounts.
  abbrev pub PaysAll : List (WalletAccount v) → GeneralConsensusConfig v l → Type 0
  PaysAll as' c = All (IsPaid v (l.mantle_tx c.genesis_tx).ledger_tx.outputs) as'

  -- The genesis transaction of every consensus configuration pays to every account of the wallet.
  pub create_consensus_configs-PaysAll :
      (ids : List NodeId) (params : ConsensusParams v) (wallet : WalletConfig v)
      (cs : List (GeneralConsensusConfig v l))
      → create_consensus_configs v l ids params wallet ≡ ok cs
      → All (PaysAll wallet.accounts) cs
  unfolding append_wallet_utxos
  create_consensus_configs-PaysAll ids params wallet cs e =
      let notes = create_utxos_for_leader_and_services v ids in
      let (g, outputs, _, all) = create_consensus_configs-Made v l ids params wallet cs e in
      let paid = append-IsPaid v notes.utxos wallet.accounts in
      All-mono (IsFrom v l g notes.blend_notes) (PaysAll wallet.accounts) cs
        (λ c from. rw (from.0, outputs) paid) all
