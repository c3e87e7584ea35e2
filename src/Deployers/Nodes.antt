-- ===== src/Deployers/Nodes.antt =====
-- testing-framework/deployers/local/src/node_control/{mod,state}.rs: the nodes that are started while
-- a scenario runs. `start_node` locks the state twice: `reserve` is what it does under the first lock,
-- `register_node` under the second. What lies between, the configuration and the spawn of the
-- process, is an argument: its port, client and node, or its error.
pub mod Registry
use logos_blockchain_testing.Prelude.{
  ℕ, suc, ◌+◌, Bool, true, false, Option, none, some, List, [], ◌∷◌, ◌++◌, String, concat, decimal,
  if◌then◌else◌, Result, ok, err,
}
use Prim.Native.String.{compare}
use logos_blockchain_testing.Config.Base.{contains_key, is_equal}

pub data LocalDynamicError (Error : Type 0) : Type 0 where
  -- of the configuration, of the ports or of the spawn
  failed : Error → LocalDynamicError Error
  invalid_argument : String → LocalDynamicError Error

pub record LocalDynamicSeed : Type 0 where
  pub node_count : ℕ
  pub peer_ports : List ℕ
  pub peer_ports_by_name : List (String × ℕ)

pub record LocalDynamicState (Client Node : Type 0) : Type 0 where
  pub node_count : ℕ
  pub peer_ports : List ℕ
  pub peer_ports_by_name : List (String × ℕ)
  pub clients_by_name : List (String × Client)
  pub nodes : List Node

-- `HashMap::insert`
unfoldable pub insert_entry {ℓ} : {A : Type ℓ} → List (String × A) → String → A → List (String × A)
insert_entry [] key value = (key, value) ∷ []
insert_entry ((k, a) ∷ rest) key value =
    let others = insert_entry rest key value in
    if is_equal (compare key k) then (key, value) ∷ rest else (k, a) ∷ others

-- `is_blank` is `name.trim().is_empty()`.
unfoldable pub label_of : Bool → String → ℕ → String
unfolding decimal
label_of is_blank name index =
    if is_blank then concat "node-" (decimal index) else concat "node-" name

module _ {Client Node : Type 0} where
  -- The state of `new_with_seed`.
  unfoldable pub seeded : LocalDynamicSeed → LocalDynamicState Client Node
  seeded seed = record {
    node_count = seed.node_count;
    peer_ports = seed.peer_ports;
    peer_ports_by_name = seed.peer_ports_by_name;
    clients_by_name = [];
    nodes = [];
  }

  unfoldable pub stop_all :
      LocalDynamicSeed → LocalDynamicState Client Node → LocalDynamicState Client Node
  stop_all seed s = record s {
    nodes = [];
    peer_ports = seed.peer_ports;
    peer_ports_by_name = seed.peer_ports_by_name;
    clients_by_name = [];
    node_count = seed.node_count;
  }

  unfoldable pub register_common :
      LocalDynamicState Client Node → String → ℕ → Client → LocalDynamicState Client Node
  unfolding insert_entry
  register_common s node_name network_port client = record s {
    peer_ports = s.peer_ports ++ network_port ∷ [];
    peer_ports_by_name = insert_entry s.peer_ports_by_name node_name network_port;
    clients_by_name = insert_entry s.clients_by_name node_name client;
  }

  unfoldable pub register_node :
      LocalDynamicState Client Node → String → ℕ → Client → Node → LocalDynamicState Client Node
  unfolding register_common
  register_node s node_name network_port client node =
      let t = register_common s node_name network_port client in
      record t { node_count = t.node_count + 1; nodes = t.nodes ++ node ∷ [] }

module _ {Client Node Error : Type 0} where
  -- The first locked block of `start_node`: the label and the index.
  unfoldable pub reserve :
      Bool → String → LocalDynamicState Client Node → Result (String × ℕ) (LocalDynamicError Error)
  unfolding label_of contains_key
  reserve is_blank name s =
      let label = label_of is_blank name s.node_count in
      if contains_key label s.peer_ports_by_name
      then err (invalid_argument (concat "node name '" (concat label "' already exists")))
      else ok (label, s.node_count)

  abbrev finish :
      String
      → Result (ℕ × Client × Node) Error
      → LocalDynamicState Client Node
      → Result Client (LocalDynamicError Error) × LocalDynamicState Client Node
  finish label (err e) s = (err (failed e), s)
  finish label (ok (port, client, node)) s = (ok client, register_node s label port client node)

  -- `start_node`, where no other call comes between its two locks.
  unfoldable pub start_node :
      Bool
      → String
      → Result (ℕ × Client × Node) Error
      → LocalDynamicState Client Node
      → Result Client (LocalDynamicError Error) × LocalDynamicState Client Node
  unfolding reserve register_node
  start_node is_blank name spawned s = elim (reserve is_blank name s) [
    | err e ↦ (err e, s)
    | ok (label, index) ↦ finish label spawned s
  ]
