-- ===== src/Topology/Promise.antt =====
-- What `TopologyBuilder::build` promises, for every answer of the operating system.
use logos_blockchain_testing.Prelude.{
  ℕ, ◌<◌, ◌≡◌, refl, ◌∙◌, false, Option, none, some, List, ◌==◌, ==_iff, length, length-replicate,
  ok, err, arith, Holds, Holds-ok, Holds-err, Result-cases, Holds-map, inl, inr, Bool-cases,
}
use logos_blockchain_testing.Vendor.{Vendor}
use logos_blockchain_testing.Os.{
  NodeId, Os, >>=-Holds, convert-Holds, traverse-length, traverse, convert, random_id,
  get_available_udp_port,
}
use logos_blockchain_testing.Config.Ledger.{Ledger}
use logos_blockchain_testing.Config.Base.{
  GeneralApiConfig, create_api_config, create_api_configs, build_base_configs, default_time_config,
}
use logos_blockchain_testing.Topology.{
  TopologyBuildError, resolve, base, api, TopologyResolveError, port_allocation_failed,
  GeneratedTopology, participant_count, resolve_ids, resolve_ports, resolve_and_validate_vectors,
  calls,
}
use logos_blockchain_testing.Topology.Builder.{TopologyBuilder, build}
use logos_blockchain_testing.Topology.Bases.{IsBase, build_base_configs-IsBase}
use logos_blockchain_testing.Topology.Build.{IsTopology, is_internal, IsReported, assemble-Holds}

-- As many elements as participants, and those that the caller gave.
abbrev IsResolved : {A : Type 0} → Option (List A) → ℕ → List A → Type 0
IsResolved {A} wanted n xs = (length xs ≡ n) × ((given : List A) → wanted ≡ some given → xs ≡ given)

resolve_ids-IsResolved :
    (wanted : Option (List NodeId)) (n : ℕ) (os : Os)
    → Holds (IsResolved wanted n) (λ _. Unit) (resolve_ids wanted n os).0
unfolding resolve_ids
resolve_ids-IsResolved (some ids) n os = elim (Bool-cases (length ids == n)) [
  | inl e ↦ rw e ((==_iff (length ids) n).0 e, λ given h. cc)
  | inr e ↦ rw e tt
]
resolve_ids-IsResolved none n os =
    elim (Result-cases (traverse {E = TopologyResolveError} (λ _. random_id) (calls n) os).0) [
      | inl (ids, e) ↦ rw e (
        Holds-ok _ (λ _. Unit) _ ids e
              (traverse-length (λ _. Unit) (λ _. random_id) (calls n) os (λ _. tt))
            ∙ length-replicate n _,
        λ given h. cc,
      )
      | inr (x, e) ↦ rw e tt
    ]

resolve_ports-IsResolved :
    (wanted : Option (List ℕ)) (n : ℕ) (os : Os)
    → Holds (IsResolved wanted n) (λ _. Unit) (resolve_ports wanted n "Blend" os).0
unfolding resolve_ports
resolve_ports-IsResolved (some ports) n os = elim (Bool-cases (length ports == n)) [
  | inl e ↦ rw e ((==_iff (length ports) n).0 e, λ given h. cc)
  | inr e ↦ rw e tt
]
resolve_ports-IsResolved none n os =
    elim (Result-cases
      (traverse (λ _. get_available_udp_port (port_allocation_failed "Blend")) (calls n) os).0) [
        | inl (ports, e) ↦ rw e (elim (Bool-cases (length ports == n)) [
          | inl same ↦ rw same ((==_iff (length ports) n).0 same, λ given h. cc)
          | inr other ↦ rw other tt
        ])
        | inr (x, e) ↦ rw e tt
      ]

resolve_and_validate_vectors-IsResolved :
    (ids : Option (List NodeId)) (ports : Option (List ℕ)) (n : ℕ) (os : Os)
    → Holds
        (λ r. IsResolved ids n r.0 × IsResolved ports n r.1)
        IsReported
        (resolve_and_validate_vectors ids ports n os).0
unfolding resolve_and_validate_vectors
resolve_and_validate_vectors-IsResolved ids ports n os =
    >>=-Holds (IsResolved ids n) _ IsReported (convert resolve (resolve_ids ids n)) _ os
      (convert-Holds (IsResolved ids n) (λ _. Unit) IsReported resolve (resolve_ids ids n) os
        (resolve_ids-IsResolved ids n os) (λ _ _. refl))
      (λ found os' _ are.
        >>=-Holds (IsResolved ports n) _ IsReported
          (convert resolve (resolve_ports ports n "Blend")) _ os'
          (convert-Holds (IsResolved ports n) (λ _. Unit) IsReported resolve
            (resolve_ports ports n "Blend") os' (resolve_ports-IsResolved ports n os')
            (λ _ _. refl))
          (λ found' os'' _ are'. (are, are')))

module _ (v : Vendor) (l : Ledger v) where
  -- A topology of the builder's participants, with the ids and ports that the caller gave.
  abbrev pub IsBuilt : TopologyBuilder v → GeneratedTopology v l → Type 0
  IsBuilt b t =
      (ids : List NodeId) × (ports : List ℕ) × IsTopology v l b.config ids ports t
      × ((given : List NodeId) → b.ids ≡ some given → ids ≡ given)
      × ((given : List ℕ) → b.blend_ports ≡ some given → ports ≡ given)

  build-Holds : (b : TopologyBuilder v) (os : Os) → Holds (IsBuilt b) IsReported (build v l b os).0
  unfolding build participant_count create_api_configs
  build-Holds b os =
      let n = b.config.n_nodes in
      elim (Bool-cases (n == 0)) [
        | inl e ↦ rw e refl
        | inr e ↦ rw e (
            >>=-Holds (λ r. IsResolved b.ids n r.0 × IsResolved b.blend_ports n r.1) (IsBuilt b)
              IsReported (resolve_and_validate_vectors b.ids b.blend_ports n) _ os
              (resolve_and_validate_vectors-IsResolved b.ids b.blend_ports n os)
              (λ (ids, ports) os1 _ (are, are').
                >>=-Holds (IsBase v l n b.config.wallet_config.accounts) (IsBuilt b) IsReported
                  (convert base (
                    build_base_configs v l ids b.config.consensus_params b.config.network_params
                      b.config.wallet_config ports))
                  _ os1
                  (convert-Holds (IsBase v l n b.config.wallet_config.accounts) (λ _. Unit)
                    IsReported base
                    (build_base_configs v l ids b.config.consensus_params b.config.network_params
                      b.config.wallet_config ports)
                    os1
                    (build_base_configs-IsBase v l ids b.config.consensus_params
                      b.config.network_params b.config.wallet_config ports n os1 are.0 are'.0)
                    (λ _ _. refl))
                  (λ bs os2 _ is.
                    >>=-Holds (λ (apis : List GeneralApiConfig). length apis ≡ length ids)
                      (IsBuilt b) IsReported (convert api (create_api_configs ids)) _ os2
                      (convert-Holds _ (λ _. Unit) IsReported api (create_api_configs ids) os2
                        (traverse-length (λ _. Unit) create_api_config ids os2 (λ _. tt))
                        (λ _ _. refl))
                      (λ apis os3 _ size.
                        let pos : 0 < n = ground (arith, e) in
                        let made =
                          assemble-Holds v l b.config ids ports bs apis (default_time_config os3)
                            pos are.0 are'.0 is (size ∙ are.0) in
                        Holds-map (IsTopology v l b.config ids ports) (IsBuilt b) IsReported _ made
                          (λ t topology. (ids, ports, topology, are.1, are'.1))))))
      ]

  -- A topology that `build` returns has the builder's configuration and as many nodes as that asks for,
  -- at least one. Node `i` has index `i` and the id and the port at place `i`, of those that the
  -- caller gave if there are any. All nodes share one genesis transaction. It has an inscription and
  -- a declaration for every node, every declaration locks an output of its ledger transaction, and
  -- for every account of the wallet there is an output of that transaction that pays to it.
  pub build_topology :
      (b : TopologyBuilder v) (os : Os) (t : GeneratedTopology v l)
      → (build v l b os).0 ≡ ok t
      → IsBuilt b t
  build_topology b os t e = Holds-ok (IsBuilt b) IsReported _ t e (build-Holds b os)

  -- `build` never fails with a missing consensus configuration or a length mismatch of its vectors,
  -- whatever the builder and the answers of the operating system.
  pub build_no_internal_error :
      (b : TopologyBuilder v) (os : Os) (x : TopologyBuildError)
      → (build v l b os).0 ≡ err x
      → is_internal x ≡ false
  build_no_internal_error b os x e = Holds-err (IsBuilt b) IsReported _ x e (build-Holds b os)
