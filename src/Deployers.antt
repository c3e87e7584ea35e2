-- ===== src/Deployers.antt =====
-- testing-framework/deployers: the state of the nodes that the local deployer starts during a run.
pub mod Nodes
