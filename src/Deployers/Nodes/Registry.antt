-- ===== src/Deployers/Nodes/Registry.antt =====
-- The registry of started nodes counts each of them, and two starts that overlap may break this.
use Prim.Native.String.{compare}
use text.Mathlib.TextPositions.{compare_refl}
use logos_blockchain_testing.Prelude.{
  ℕ, suc, ◌+◌, ◌≡◌, refl, ap, Bool, true, false, List, [], ◌∷◌, ◌++◌, length, length-append, String,
  Result, ok, arith, Bool-cases, inl, inr, Result-cases,
}
use logos_blockchain_testing.Config.Base.{contains_key, is_equal}
use logos_blockchain_testing.Deployers.Nodes.{
  LocalDynamicSeed, LocalDynamicState, insert_entry, label_of, seeded, stop_all, register_common,
  register_node, reserve, start_node,
}

insert_entry-length {ℓ} :
    {A : Type ℓ} (entries : List (String × A)) (key : String) (value : A)
    → contains_key key entries ≡ false
    → length (insert_entry entries key value) ≡ suc (length entries)
unfolding insert_entry contains_key
insert_entry-length [] key value h = refl
insert_entry-length ((k, a) ∷ rest) key value h = elim (Bool-cases (is_equal (compare key k))) [
  | inl same ↦ grind (arith, same, h)
  | inr differs ↦
      rw (differs, insert_entry)
        (ap suc (insert_entry-length rest key value (rw (differs, contains_key) at h)))
]

insert_entry-again {ℓ} :
    {A : Type ℓ} (entries : List (String × A)) (key : String) (value : A)
    → contains_key key entries ≡ true
    → length (insert_entry entries key value) ≡ length entries
unfolding insert_entry contains_key
insert_entry-again [] key value h = cc
insert_entry-again ((k, a) ∷ rest) key value h = elim (Bool-cases (is_equal (compare key k))) [
  | inl same ↦ rw (same, insert_entry) refl
  | inr differs ↦
      rw (differs, insert_entry)
        (ap suc (insert_entry-again rest key value (rw (differs, contains_key) at h)))
]

insert_entry-contains_key {ℓ} :
    {A : Type ℓ} (entries : List (String × A)) (key : String) (value : A)
    → contains_key key (insert_entry entries key value) ≡ true
unfolding insert_entry contains_key
insert_entry-contains_key [] key value = rw (compare_refl key) refl
insert_entry-contains_key ((k, a) ∷ rest) key value = elim (Bool-cases (is_equal (compare key k))) [
  | inl same ↦ rw (same, insert_entry) (rw (compare_refl key) refl)
  | inr differs ↦
      rw (differs, insert_entry)
        (rw (differs, contains_key) (insert_entry-contains_key rest key value))
]

module _ (Client Node Error : Type 0) (seed : LocalDynamicSeed) where
  -- What single calls do to the state.
  pub data Reachable : LocalDynamicState Client Node → Type 0 where
    new : Reachable (seeded seed)
    stop : (s : LocalDynamicState Client Node) → Reachable s → Reachable (stop_all seed s)
    start :
        (s : LocalDynamicState Client Node) (is_blank : Bool) (name : String)
        (spawned : Result (ℕ × Client × Node) Error)
        → Reachable s
        → Reachable (start_node is_blank name spawned s).1

  -- Every started node has its own name and port beside those of the seed.
  pub record IsCounted (s : LocalDynamicState Client Node) : Type 0 where
    pub count : s.node_count ≡ seed.node_count + length s.nodes
    pub ports : length s.peer_ports ≡ length seed.peer_ports + length s.nodes
    pub names : length s.peer_ports_by_name ≡ length seed.peer_ports_by_name + length s.nodes

  register_node-IsCounted :
      (s : LocalDynamicState Client Node) (label : String) (port : ℕ) (client : Client)
      (node : Node)
      → contains_key label s.peer_ports_by_name ≡ false
      → IsCounted s
      → IsCounted (register_node s label port client node)
  unfolding register_node register_common
  register_node-IsCounted s label port client node fresh h =
      let more = length-append s.nodes (node ∷ []) in
      record {
        count = omega (arith, h.count, more);
        ports = omega (arith, h.ports, more, length-append s.peer_ports (port ∷ []));
        names =
            omega (arith, h.names, more, insert_entry-length s.peer_ports_by_name label port fresh);
      }

  start_node-IsCounted :
      (s : LocalDynamicState Client Node) (is_blank : Bool) (name : String)
      (spawned : Result (ℕ × Client × Node) Error)
      → IsCounted s
      → IsCounted (start_node is_blank name spawned s).1
  unfolding start_node reserve
  start_node-IsCounted s is_blank name spawned h =
      elim (Bool-cases (contains_key (label_of is_blank name s.node_count) s.peer_ports_by_name)) [
        | inl taken ↦ rw (start_node, reserve, taken) h
        | inr fresh ↦ (elim (Result-cases spawned) [
          | inl ((port, client, node), e) ↦
              rw (start_node, reserve, fresh, e)
                (register_node-IsCounted s _ port client node fresh h)
          | inr (x, e) ↦ rw (start_node, reserve, fresh, e) h
        ])
      ]

  -- While no two calls overlap, every state of the registry has as many nodes, ports and names as the
  -- seed and the started nodes together.
  pub reachable-IsCounted : (s : LocalDynamicState Client Node) → Reachable s → IsCounted s
  unfolding seeded stop_all
  reachable-IsCounted s new = record {
    count = omega arith;
    ports = omega arith;
    names = omega arith;
  }
  reachable-IsCounted s (stop t r) = record {
    count = omega arith;
    ports = omega arith;
    names = omega arith;
  }
  reachable-IsCounted s (start t is_blank name spawned r) =
      start_node-IsCounted t is_blank name spawned (reachable-IsCounted t r)

module _ (Client Node Error : Type 0) where
  -- Two starts with one name that both take the first lock before either takes the second are both
  -- let through with the same name and index, and leave two more nodes under one more name.
  pub overlapping_starts :
      (s : LocalDynamicState Client Node) (is_blank : Bool) (name : String) (port port' : ℕ)
      (client client' : Client) (node node' : Node)
      → contains_key (label_of is_blank name s.node_count) s.peer_ports_by_name ≡ false
      → let label = label_of is_blank name s.node_count in
        let t = register_node (register_node s label port client node) label port' client' node' in
        (reserve {Error = Error} is_blank name s ≡ ok (label, s.node_count))
        × (length t.nodes ≡ length s.nodes + 2)
        × (length t.peer_ports_by_name ≡ length s.peer_ports_by_name + 1)
  unfolding reserve register_node register_common
  overlapping_starts s is_blank name port port' client client' node node' fresh =
      let label = label_of is_blank name s.node_count in
      (
        rw (reserve, fresh) refl,
        omega (
          arith,
          length-append (s.nodes ++ node ∷ []) (node' ∷ []),
          length-append s.nodes (node ∷ []),
        ),
        omega (
          arith,
          insert_entry-again (insert_entry s.peer_ports_by_name label port) label port'
              (insert_entry-contains_key s.peer_ports_by_name label port),
          insert_entry-length s.peer_ports_by_name label port fresh,
        ),
      )
