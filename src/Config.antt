-- ===== src/Config.antt =====
-- testing-framework/configs/src/topology: the configuration of each node of a network.
pub mod Invariants
pub mod Network
pub mod Ledger
pub mod Consensus
pub mod Base
