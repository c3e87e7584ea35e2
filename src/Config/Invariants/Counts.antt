-- ===== src/Config/Invariants/Counts.antt =====
-- When the validations of the vectors succeed.
use logos_blockchain_testing.Prelude.{ℕ, ◌≡◌, ◌≢◌, ◌↔◌, Option, none, some, List, length, ok, arith}
use logos_blockchain_testing.Os.{NodeId}
use logos_blockchain_testing.Config.Invariants.{validate_node_vectors, validate_generated_vectors}

-- The vector, if there is one, has an element for each participant.
abbrev pub Fits : {A : Type 0} → ℕ → Option (List A) → Type 0
Fits n none = Unit
Fits n (some xs) = length xs ≡ n

-- The validation of optional vectors succeeds exactly where there are participants and the vectors
-- that are given have an element for each.
pub validate_node_vectors_lem :
    (participants : ℕ) (ids : Option (List NodeId)) (blend_ports : Option (List ℕ))
    → (validate_node_vectors participants ids blend_ports ≡ ok tt)
      ↔ ((participants ≢ 0) × Fits participants ids × Fits participants blend_ports)
unfolding validate_node_vectors
validate_node_vectors_lem n none none = ground arith
validate_node_vectors_lem n none (some ports) = ground arith
validate_node_vectors_lem n (some ids) none = ground arith
validate_node_vectors_lem n (some ids) (some ports) = ground arith

-- The validation of generated vectors succeeds exactly where there are participants and each has an
-- id and a port.
pub validate_generated_vectors_lem :
    (participants : ℕ) (ids : List NodeId) (blend_ports : List ℕ)
    → (validate_generated_vectors participants ids blend_ports ≡ ok tt)
      ↔ ((participants ≢ 0) × (length ids ≡ participants) × (length blend_ports ≡ participants))
unfolding validate_generated_vectors
validate_generated_vectors_lem n ids ports = ground arith
