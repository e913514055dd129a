-- ===== src/Orchestrator.antt =====
-- The package internal/vshard/orchestrator: the analysis of a replica set and its recovery.
pub mod Analysis
pub mod Monitor
pub mod Sampler
pub mod Query
pub mod Recovery
pub mod World
pub mod Hooker
pub mod Failover
pub mod Fixtures
mod Tests
