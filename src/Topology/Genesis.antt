-- ===== src/Topology/Genesis.antt =====
-- The service declarations of the genesis transaction lock notes that are outputs of its own ledger
-- transaction.
use logos_blockchain_testing.Prelude.{
  ℕ, suc, ◌+◌, ◌≤◌, ◌≡◌, refl, ap, List, [], ◌∷◌, map, length, length-map, get_elem?, get_elem?-lt,
  some, ok, >>=-eq-ok, map_err-eq-ok, All, All-get_elem?, arith,
}
use logos_blockchain_testing.Vendor.{Vendor}
use logos_blockchain_testing.Config.Ledger.{
  Ledger, Note, LedgerTx, InscriptionOp, DeclarationMessage, channel_inscribe, sdp_declare,
  MantleTx,
}
use logos_blockchain_testing.Config.Consensus.{
  ServiceNote, ProviderInfo, declaration, build_genesis_inscription, build_genesis_ops,
  build_genesis_ops_proofs, build_genesis_tx, create_genesis_tx_with_declarations, genesis_tx,
}
use logos_blockchain_testing.Config.Base.{GeneralBlendConfig}
use logos_blockchain_testing.Topology.{providers_from, provider_of, get_cloned}

module _ (v : Vendor) (l : Ledger v) where
  -- The declaration locks the output of the transaction's ledger transaction at some index.
  abbrev pub IsLocked : MantleTx v → DeclarationMessage v → Type 0
  IsLocked tx d =
      (index : ℕ) × (note : Note v) × (get_elem? tx.ledger_tx.outputs index ≡ some note)
      × (d.locked_note_id
          ≡ l.utxo_id (record {
            note = note;
            tx_hash = l.hash_ledger_tx tx.ledger_tx;
            output_index = index;
          }))

  -- An inscription, and then `count` declarations that each lock an output.
  abbrev pub HasDeclarations : ℕ → MantleTx v → Type 0
  HasDeclarations count tx =
      (inscription : InscriptionOp) × (ds : List (DeclarationMessage v)) × (tx.ops
        ≡ channel_inscribe inscription ∷ map sdp_declare ds)
      × (length ds ≡ count)
      × All (IsLocked tx) ds

  -- The note is the output that it names.
  abbrev pub IsOutput : LedgerTx v → ServiceNote v → Type 0
  IsOutput tx n = get_elem? tx.outputs n.output_index ≡ some n.note

  pub providers_from-total :
      (tx : LedgerTx v) (i : ℕ) (bs : List (GeneralBlendConfig v)) (notes : List (ServiceNote v))
      (expected : ℕ)
      → i + length bs ≤ length notes
      → All (IsOutput tx) notes
      → (ps : List (ProviderInfo v)) × (providers_from v l i bs notes expected ≡ ok ps)
        × (length ps ≡ length bs)
        × All (λ (p : ProviderInfo v). IsOutput tx p.note) ps
  unfolding providers_from get_cloned
  providers_from-total tx i [] notes expected h all = ([], refl, refl, tt)
  providers_from-total tx i (b ∷ rest) notes expected h all =
      let (note, found) = get_elem?-lt notes i (omega arith) in
      let (ps, made, size, locked) =
        providers_from-total tx (suc i) rest notes expected (omega arith) all in
      (
        provider_of v l b note ∷ ps,
        rw (found, made) refl,
        ap suc size,
        (All-get_elem? (IsOutput tx) notes i note all found, locked),
      )

  declarations-IsLocked :
      (tx : MantleTx v) (ps : List (ProviderInfo v))
      → All (λ (p : ProviderInfo v). IsOutput tx.ledger_tx p.note) ps
      → All (IsLocked tx) (map (declaration v l (l.hash_ledger_tx tx.ledger_tx)) ps)
  unfolding declaration
  declarations-IsLocked tx [] h = tt
  declarations-IsLocked tx (p ∷ ps) h =
      ((p.note.output_index, p.note.note, h.0, refl), declarations-IsLocked tx ps h.1)

  map-declarations :
      (hash : v.Hash) (ps : List (ProviderInfo v))
      → map (λ p. sdp_declare (declaration v l hash p)) ps
        ≡ map sdp_declare (map (declaration v l hash) ps)
  map-declarations hash [] = refl
  map-declarations hash (p ∷ ps) =
      ap (sdp_declare (declaration v l hash p) ∷◌) (map-declarations hash ps)

  pub create_genesis_tx-HasDeclarations :
      (tx : LedgerTx v) (ps : List (ProviderInfo v)) (g : l.GenesisTx)
      → All (λ (p : ProviderInfo v). IsOutput tx p.note) ps
      → create_genesis_tx_with_declarations v l tx ps ≡ ok g
      → ((l.mantle_tx g).ledger_tx ≡ tx) × HasDeclarations (length ps) (l.mantle_tx g)
  unfolding create_genesis_tx_with_declarations build_genesis_ops build_genesis_tx
  create_genesis_tx-HasDeclarations tx ps g all e =
      let (inscription, _, e1) = >>=-eq-ok (build_genesis_inscription v l) _ e in
      let (proofs, _, e2) = >>=-eq-ok (build_genesis_ops_proofs v l _ ps) _ e1 in
      let hash = l.hash_ledger_tx tx in
      let ds = map (declaration v l hash) ps in
      let ops = channel_inscribe inscription ∷ map (λ p. sdp_declare (declaration v l hash p)) ps in
      let mantle_tx : MantleTx v = record {
        ops = ops;
        ledger_tx = tx;
        execution_gas_price = 0;
        storage_gas_price = 0;
      } in
      let is = l.from_tx-ok _ g (map_err-eq-ok genesis_tx _ e2) in
      rw is (
        refl,
        (
          inscription,
          ds,
          ap (channel_inscribe inscription ∷◌) (map-declarations hash ps),
          length-map _ ps,
          declarations-IsLocked mantle_tx ps all,
        ),
      )
