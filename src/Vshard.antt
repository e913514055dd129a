-- ===== src/Vshard.antt =====
-- The package internal/vshard: instances, replica sets, snapshots, the parser of Tarantool's
-- replies, and the state of a cluster.
pub mod Error
pub mod Instance
pub mod Router
pub mod ReplicaSet
pub mod Snapshot
pub mod Cluster
pub mod Tarantool
pub mod Pool
pub mod Connector
pub mod Fingerprint
pub mod Text
pub mod Parser
pub mod Discovery
pub mod Fixtures
mod Tests
