-- ===== src/Config/Consensus/Outputs.antt =====
-- Every service note names its own output in the genesis ledger transaction.
use mathlib.Core.Path.{subst}
use logos_blockchain_testing.Prelude.{
  ℕ, zero, suc, ◌+◌, ◌*◌, ◌≤◌, ◌≡◌, refl, ap, sym, ◌∙◌, some, List, [], ◌∷◌, ◌++◌, map, length,
  length-append, get_elem?, get_elem?-append, get_elem?-push, All, All-append, All-mono, arith, ok,
  err, >>=-eq-ok, map_err-eq-ok, get_elem?-lt, ◌≢◌, inl, inr, Result-cases, ok-injective, ok_or,
}
use logos_blockchain_testing.Vendor.{Vendor}
use logos_blockchain_testing.Os.{NodeId}
use logos_blockchain_testing.Wallet.{WalletConfig}
use logos_blockchain_testing.Config.Ledger.{Note, Utxo, Ledger, MantleTx}
use logos_blockchain_testing.Config.Consensus.{
  ConsensusParams, ServiceNote, GeneralConsensusConfig, Notes, new_utxo, service_note, blend_prefix,
  sdp_prefix, push_leader_utxo, derive_key_material, leader_prefix, push_service_note, push_notes,
  push_all_notes, create_utxos_for_leader_and_services, append_wallet_utxos,
  create_consensus_configs, create_genesis_tx, consensus_configs_from, build_ledger_config,
  build_genesis_inscription, LeaderConfig, LedgerConfig, consensus_config, genesis_tx, index_panic,
}

module _ (v : Vendor) where
  -- The note stands among the outputs at its own index.
  abbrev pub IsPlaced : List (Utxo v) → ServiceNote v → Type 0
  IsPlaced utxos n = get_elem? utxos n.output_index ≡ some (new_utxo v n.note)

  abbrev pub ArePlaced : List (Utxo v) → List (ServiceNote v) → Type 0
  ArePlaced utxos = All (IsPlaced utxos)

  ArePlaced-append :
      (utxos more : List (Utxo v)) (ns : List (ServiceNote v))
      → ArePlaced utxos ns
      → ArePlaced (utxos ++ more) ns
  ArePlaced-append utxos more ns =
      All-mono (IsPlaced utxos) (IsPlaced (utxos ++ more)) ns
        (λ n. get_elem?-append utxos more n.output_index (new_utxo v n.note))

  -- After `count` ids.
  pub record IsSound (count : ℕ) (n : Notes v) : Type 0 where
    pub leaders : length n.leader_keys ≡ count
    pub blends : length n.blend_notes ≡ count
    pub sdps : length n.sdp_notes ≡ count
    pub outputs : length n.utxos ≡ 3 * count
    pub blend_placed : ArePlaced n.utxos n.blend_notes
    pub sdp_placed : ArePlaced n.utxos n.sdp_notes

  -- A note that is pushed with its output stands at the number of outputs so far.
  push-ArePlaced :
      (ns : List (ServiceNote v)) (utxos : List (Utxo v)) (prefix : List ℕ) (id : NodeId) (i : ℕ)
      → i ≡ length utxos
      → ArePlaced utxos ns
      → ArePlaced
          (utxos ++ new_utxo v (service_note v prefix id i).note ∷ [])
          (ns ++ service_note v prefix id i ∷ [])
  push-ArePlaced ns utxos prefix id i e h =
      let more = new_utxo v (service_note v prefix id i).note ∷ [] in
      All-append (IsPlaced (utxos ++ more)) ns (service_note v prefix id i ∷ [])
        (ArePlaced-append utxos more ns h) (rw e (get_elem?-push utxos _), tt)

  push_notes-IsSound :
      (id : NodeId) (n : Notes v) (count : ℕ)
      → IsSound count n
      → IsSound (suc count) (push_notes v id n (length n.utxos)).0
  unfolding push_notes push_service_note
  push_notes-IsSound id n count h =
      let led = push_leader_utxo v id n (length n.utxos) in
      let lead =
        new_utxo v (record {
          value = 1000;
          pk = v.to_public_key (v.zk_key (derive_key_material leader_prefix id));
        })
        ∷ [] in
      let us = n.utxos ++ lead in
      let i = length n.utxos + 1 in
      let size : length us ≡ i = length-append n.utxos lead in
      let bn = new_utxo v (service_note v blend_prefix id i).note ∷ [] in
      let size' : length (us ++ bn) ≡ i + 1 = omega (arith, size, length-append us bn) in
      let sn = new_utxo v (service_note v sdp_prefix id (i + 1)).note ∷ [] in
      record {
        leaders = omega (arith, h.leaders, length-append n.leader_keys _);
        blends = omega (arith, h.blends, length-append n.blend_notes _);
        sdps = omega (arith, h.sdps, length-append n.sdp_notes _);
        outputs = omega (arith, h.outputs, size', length-append (us ++ bn) sn);
        blend_placed = ArePlaced-append (us ++ bn) sn _ (
            push-ArePlaced n.blend_notes us blend_prefix id i (sym size)
              (ArePlaced-append n.utxos lead n.blend_notes h.blend_placed));
        sdp_placed = push-ArePlaced n.sdp_notes (us ++ bn) sdp_prefix id (i + 1) (sym size') (
            ArePlaced-append us bn n.sdp_notes
              (ArePlaced-append n.utxos lead n.sdp_notes h.sdp_placed));
      }

  push_notes-index : (id : NodeId) (n : Notes v) (i : ℕ) → (push_notes v id n i).1 ≡ i + 3
  unfolding push_notes
  push_notes-index id n i = omega arith

  push_all_notes-IsSound :
      (ids : List NodeId) (n : Notes v) (count i total : ℕ)
      → i ≡ length n.utxos
      → total ≡ length ids + count
      → IsSound count n
      → IsSound total (push_all_notes v ids n i)
  unfolding push_all_notes
  push_all_notes-IsSound [] n count i total e t h =
      let same : total ≡ count = omega (arith, t) in rw same h
  push_all_notes-IsSound (id ∷ ids) n count i total e t h =
      let next = rw (← e) at (push_notes-IsSound id n count h) in
      push_all_notes-IsSound ids (push_notes v id n i).0 (suc count) (push_notes v id n i).1 total
        (omega (arith, push_notes-index id n i, next.outputs, h.outputs, e)) (omega (arith, t)) next

  pub create_utxos-IsSound :
      (ids : List NodeId) → IsSound (length ids) (create_utxos_for_leader_and_services v ids)
  unfolding create_utxos_for_leader_and_services
  create_utxos-IsSound ids =
      push_all_notes-IsSound ids _ 0 0 (length ids) refl (omega arith) (record {
        leaders = refl;
        blends = refl;
        sdps = refl;
        outputs = refl;
        blend_placed = tt;
        sdp_placed = tt;
      })

get_elem?-notes :
    (v : Vendor) (utxos : List (Utxo v)) (i : ℕ) (n : Note v)
    → get_elem? utxos i ≡ some (new_utxo v n)
    → get_elem? (map (λ (u : Utxo v). u.note) utxos) i ≡ some n
get_elem?-notes v [] i n e = cc
get_elem?-notes v (u ∷ utxos) zero n e = ground arith
get_elem?-notes v (u ∷ utxos) (suc i) n e = get_elem?-notes v utxos i n e

module _ (v : Vendor) (l : Ledger v) where
  outputs-create_genesis_tx :
      (utxos : List (Utxo v)) (g : l.GenesisTx)
      → create_genesis_tx v l utxos ≡ ok g
      → (l.mantle_tx g).ledger_tx.outputs ≡ map (λ (u : Utxo v). u.note) utxos
  unfolding create_genesis_tx
  outputs-create_genesis_tx utxos g e =
      let (inscription, _, made) = >>=-eq-ok (build_genesis_inscription v l) _ e in
      ap (λ (t : MantleTx v). t.ledger_tx.outputs)
        (l.from_tx-ok _ g (map_err-eq-ok genesis_tx _ made))

  -- Where a configuration of the loop takes its genesis transaction and notes from.
  abbrev pub IsFrom : l.GenesisTx → List (ServiceNote v) → GeneralConsensusConfig v l → Type 0
  IsFrom g notes c = (c.genesis_tx ≡ g) × (c.blend_notes ≡ notes)

  consensus_configs_from-ok :
      (i : ℕ) (leaders : List (LeaderConfig v)) (ledger : LedgerConfig v) (g : l.GenesisTx)
      (utxos : List (Utxo v)) (notes : Notes v) (wallet : WalletConfig v)
      (cs : List (GeneralConsensusConfig v l))
      → consensus_configs_from v l i leaders ledger g utxos notes wallet ≡ ok cs
      → (length cs ≡ length leaders) × All (IsFrom g notes.blend_notes) cs
  unfolding consensus_configs_from
  consensus_configs_from-ok i [] ledger g utxos notes wallet cs e =
      subst (λ xs. (length xs ≡ 0) × All (IsFrom g notes.blend_notes) xs) (ok-injective _ _ e)
        (refl, tt)
  consensus_configs_from-ok i (leader ∷ rest) ledger g utxos notes wallet cs e =
      let (sdp, found, e1) = >>=-eq-ok (ok_or (get_elem? notes.sdp_notes i) index_panic) _ e in
      let (configs, made, e2) =
        >>=-eq-ok (consensus_configs_from v l (suc i) rest ledger g utxos notes wallet) _ e1 in
      let (size, all) =
        consensus_configs_from-ok (suc i) rest ledger g utxos notes wallet configs made in
      subst (λ xs. (length xs ≡ suc (length rest)) × All (IsFrom g notes.blend_notes) xs)
        (ok-injective _ _ e2) (ap suc size, ((refl, refl), all))

  consensus_configs_from-total :
      (i : ℕ) (leaders : List (LeaderConfig v)) (ledger : LedgerConfig v) (g : l.GenesisTx)
      (utxos : List (Utxo v)) (notes : Notes v) (wallet : WalletConfig v)
      → i + length leaders ≤ length notes.sdp_notes
      → (cs : List (GeneralConsensusConfig v l)) × (consensus_configs_from v l i leaders ledger g
            utxos notes wallet
          ≡ ok cs)
  unfolding consensus_configs_from
  consensus_configs_from-total i [] ledger g utxos notes wallet h = ([], refl)
  consensus_configs_from-total i (leader ∷ rest) ledger g utxos notes wallet h =
      let (sdp, found) = get_elem?-lt notes.sdp_notes i (omega arith) in
      let (cs, made) =
        consensus_configs_from-total (suc i) rest ledger g utxos notes wallet (omega arith) in
      (consensus_config v l leader ledger g utxos notes wallet sdp ∷ cs, rw (found, made) refl)

  -- What is behind a successful `create_consensus_configs`.
  abbrev pub Made : List NodeId → WalletConfig v → List (GeneralConsensusConfig v l) → Type 0
  Made ids wallet cs =
      let notes = create_utxos_for_leader_and_services v ids in
      (g : l.GenesisTx) × ((l.mantle_tx g).ledger_tx.outputs
        ≡ map (λ (u : Utxo v). u.note) (append_wallet_utxos v notes.utxos wallet))
      × (length cs ≡ length notes.leader_keys)
      × All (IsFrom g notes.blend_notes) cs

  pub create_consensus_configs-Made :
      (ids : List NodeId) (params : ConsensusParams v) (wallet : WalletConfig v)
      (cs : List (GeneralConsensusConfig v l))
      → create_consensus_configs v l ids params wallet ≡ ok cs
      → Made ids wallet cs
  unfolding create_consensus_configs
  create_consensus_configs-Made ids params wallet cs e =
      let notes = create_utxos_for_leader_and_services v ids in
      let utxos = append_wallet_utxos v notes.utxos wallet in
      let (g, made, e1) = >>=-eq-ok (create_genesis_tx v l utxos) _ e in
      let (ledger, _, e2) = >>=-eq-ok (build_ledger_config v params) _ e1 in
      let (size, all) =
        consensus_configs_from-ok 0 notes.leader_keys ledger g utxos notes wallet cs e2 in
      (g, outputs-create_genesis_tx utxos g made, size, all)

  -- There is a consensus configuration for every id, each with a blend note for every id, and every
  -- such note names an output of the genesis ledger transaction that is the note itself, whatever
  -- accounts the wallet adds.
  pub blend_notes_in_genesis :
      (ids : List NodeId) (params : ConsensusParams v) (wallet : WalletConfig v)
      (cs : List (GeneralConsensusConfig v l))
      → create_consensus_configs v l ids params wallet ≡ ok cs
      → (length cs ≡ length ids)
        × All
            (λ c.
              (length c.blend_notes ≡ length ids)
              × All
                  (λ (n : ServiceNote v).
                    get_elem? (l.mantle_tx c.genesis_tx).ledger_tx.outputs n.output_index
                    ≡ some n.note)
                  c.blend_notes)
            cs
  unfolding append_wallet_utxos
  blend_notes_in_genesis ids params wallet cs e =
      let notes = create_utxos_for_leader_and_services v ids in
      let sound = create_utxos-IsSound v ids in
      let (g, outputs, size, all) = create_consensus_configs-Made ids params wallet cs e in
      let placed =
        All-mono (IsPlaced v notes.utxos)
          (λ (n : ServiceNote v).
            get_elem? (l.mantle_tx g).ledger_tx.outputs n.output_index ≡ some n.note)
          notes.blend_notes
          (λ n h. rw outputs (
            get_elem?-notes v _ n.output_index n.note
              (get_elem?-append notes.utxos _ n.output_index _ h)))
          sound.blend_placed in
      (
        size ∙ sound.leaders,
        All-mono (IsFrom g notes.blend_notes) _ cs
            (λ c from. rw (from.0, from.1) (sound.blends, placed)) all,
      )

  create_genesis_tx-ne-index_panic :
      (utxos : List (Utxo v)) → create_genesis_tx v l utxos ≢ err index_panic
  unfolding create_genesis_tx build_genesis_inscription
  create_genesis_tx-ne-index_panic utxos e = ground arith

  build_ledger_config-ne-index_panic :
      (params : ConsensusParams v) → build_ledger_config v params ≢ err index_panic
  unfolding build_ledger_config
  build_ledger_config-ne-index_panic params e = ground arith

  -- The loop over the leader keys never indexes past the SDP notes.
  pub create_consensus_configs_no_panic :
      (ids : List NodeId) (params : ConsensusParams v) (wallet : WalletConfig v)
      → create_consensus_configs v l ids params wallet ≢ err index_panic
  unfolding create_consensus_configs
  create_consensus_configs_no_panic ids params wallet e =
      let notes = create_utxos_for_leader_and_services v ids in
      let utxos = append_wallet_utxos v notes.utxos wallet in
      let sound = create_utxos-IsSound v ids in
      elim (Result-cases (create_genesis_tx v l utxos)) [
        | inr (x, failed) ↦ ground (arith, failed, create_genesis_tx-ne-index_panic utxos)
        | inl (g, made) ↦ (elim (Result-cases (build_ledger_config v params)) [
          | inr (x, failed) ↦
              ground (arith, made, failed, build_ledger_config-ne-index_panic params)
          | inl (ledger, built) ↦
              let (cs, total) =
                consensus_configs_from-total 0 notes.leader_keys ledger g utxos notes wallet
                  (omega (arith, sound.leaders, sound.sdps)) in
              ground (arith, made, built, total)
        ])
      ]
