-- ===== src/Config/Invariants.antt =====
-- testing-framework/configs/src/topology/invariants.rs: the counts that all configuration pipelines
-- check first.
pub mod Counts
use logos_blockchain_testing.Prelude.{
  ℕ, Option, none, some, List, ◌==◌, length, if◌then◌else◌, Result, ok, err, ◌>>◌,
}
use logos_blockchain_testing.Os.{NodeId}

pub data TopologyInvariantError : Type 0 where
  empty_participants : TopologyInvariantError
  id_count_mismatch : ℕ → ℕ → TopologyInvariantError
  da_port_count_mismatch : ℕ → ℕ → TopologyInvariantError
  blend_port_count_mismatch : ℕ → ℕ → TopologyInvariantError

-- `if actual != expected { return Err(e) }`
abbrev require_count {κ} : {E : Type κ} → ℕ → ℕ → E → Result (Unit {0}) E
require_count actual expected e = if actual == expected then ok tt else err e

abbrev require_some_count {κ} :
    {A : Type 0} {E : Type κ} → Option (List A) → ℕ → (ℕ → E) → Result (Unit {0}) E
require_some_count none expected e = ok tt
require_some_count (some l) expected e = require_count (length l) expected (e (length l))

unfoldable pub validate_node_vectors :
    ℕ → Option (List NodeId) → Option (List ℕ) → Result (Unit {0}) TopologyInvariantError
validate_node_vectors participants ids blend_ports =
    if participants == 0
    then err empty_participants
    else (require_some_count ids participants (λ actual. id_count_mismatch actual participants)
        >> require_some_count blend_ports participants
            (λ actual. blend_port_count_mismatch actual participants))

unfoldable pub validate_generated_vectors :
    ℕ → List NodeId → List ℕ → Result (Unit {0}) TopologyInvariantError
validate_generated_vectors participants ids blend_ports =
    if participants == 0
    then err empty_participants
    else (require_count (length ids) participants (id_count_mismatch (length ids) participants)
        >> require_count (length blend_ports) participants
            (blend_port_count_mismatch (length blend_ports) participants))
