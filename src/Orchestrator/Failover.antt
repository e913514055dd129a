-- ===== src/Orchestrator/Failover.antt =====
-- internal/vshard/orchestrator/failover.go and instance_utils.go: the recovery of a replica set.
pub mod State
pub mod Order
pub mod Promote
pub mod CoMasters
pub mod Serve
pub mod Safety
pub mod Begun
pub mod Steps
pub mod Registers
pub mod Remembers
pub mod Once
pub mod Told
mod Tests
mod RunTests
