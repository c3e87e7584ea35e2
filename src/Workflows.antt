-- ===== src/Workflows.antt =====
-- testing-framework/workflows: the expectations and workloads that a scenario is made of.
pub mod Liveness
pub mod Chaos
pub mod Transaction
pub mod Cluster
pub mod Inclusion
pub mod Builder
