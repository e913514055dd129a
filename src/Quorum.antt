-- ===== src/Quorum.antt =====
-- The package internal/quorum: the election of a new master among the followers of a replica set.
pub mod Candidates
pub mod Idle
pub mod Smart
pub mod Elector
mod Tests
