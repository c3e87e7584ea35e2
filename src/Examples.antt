-- ===== src/Examples.antt =====
-- Concrete keys, addresses and a ledger, and a run of each theorem on them.
mod Toy
mod Topologies
mod Scans
mod Scenarios
mod Vectors
mod Nodes
mod Restarts
mod Transactions
mod Submissions
mod Runs
mod Texts
mod Hosts
