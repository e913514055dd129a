-- ===== src/Orchestrator/Failover/Once.antt =====
-- A replica set is not failed over twice within the block time.
use qumomf.Prelude.{List}
use qumomf.Vshard.Instance.{Instance}
use qumomf.Vshard.Cluster.{Cluster}
use qumomf.Orchestrator.Recovery.{Recovery}
use qumomf.Orchestrator.World.{World}
use qumomf.Orchestrator.Failover.State.{Failover}
