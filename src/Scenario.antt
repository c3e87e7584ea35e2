-- ===== src/Scenario.antt =====
-- testing-framework/core/src/scenario: the definition of a scenario, and the feed of blocks that a run
-- is observed by.
pub mod Feed
pub mod Metrics
pub mod Definition
pub mod Promise
pub mod Runner
