-- ===== src/Vshard/Cluster.antt =====
-- internal/vshard/cluster.go: the state of a cluster behind its mutex, and the operations on it. The
-- mutex makes each operation one step.
use qumomf.Prelude.{
  String, ◌==◌, Bool, true, false, Option, none, some, List, [], ◌∷◌, ◌++◌, map, find,
}
use qumomf.Prelude.Int.{ℤ}
use qumomf.Prelude.Dict.{Dict}
use qumomf.Prelude.Result.{Result, ok, err}
use qumomf.Vshard.Error.{Error, instance_not_found}
use qumomf.Vshard.Instance.{InstanceUuid, ReplicaSetUuid, Instance}
use qumomf.Vshard.Router.{Router, new_router}
use qumomf.Vshard.ReplicaSet.{ReplicaSet}
use qumomf.Vshard.Snapshot.{Snapshot, update_priorities, replica_set as set_in_snapshot}

pub record Cluster : Type 0 where
  pub name : String
  pub snapshot : Snapshot
  pub read_only : Bool
  pub has_active_recovery : Bool

-- `NewCluster`, with the addresses of the routers and the time stamp of its creation.
unfoldable pub new_cluster : String → Bool → Dict ℤ → List String → ℤ → Cluster
new_cluster name read_only priorities addresses now =
    let s =
      update_priorities priorities
        (record { created = now; routers = []; replica_sets = []; priorities = [] }) in
    record {
      name = name;
      snapshot = record s { routers = map new_router addresses };
      read_only = read_only;
      has_active_recovery = false;
    }

unfoldable pub set_priorities : Dict ℤ → Cluster → Cluster
set_priorities priorities c = record c { snapshot = update_priorities priorities c.snapshot }

unfoldable pub last_discovered : Cluster → ℤ
last_discovered c = c.snapshot.created

unfoldable pub set_read_only : Bool → Cluster → Cluster
set_read_only v c = record c { read_only = v }

unfoldable pub routers : Snapshot → List Router
routers s = s.routers

unfoldable pub replica_sets : Snapshot → List ReplicaSet
replica_sets s = s.replica_sets

unfoldable pub replica_set : Snapshot → ReplicaSetUuid → Result Error ReplicaSet
replica_set s uuid = set_in_snapshot s uuid

-- `Instances`: the instances of all sets, in order.
unfoldable pub instances_of : List ReplicaSet → List Instance
instances_of [] = []
instances_of (set ∷ sets) = set.instances ++ instances_of sets

unfoldable pub instances : Snapshot → List Instance
unfolding instances_of
instances s = instances_of s.replica_sets

abbrev first_of_sets : Option Instance → Option Instance → Option Instance
first_of_sets none rest = rest
first_of_sets (some inst) rest = some inst

-- The nested loops of `Instance`.
unfoldable pub find_instance : List ReplicaSet → InstanceUuid → Option Instance
find_instance [] uuid = none
find_instance (set ∷ sets) uuid =
    first_of_sets (find (λ inst. inst.uuid == uuid) set.instances) (find_instance sets uuid)

abbrev instance_or : Option Instance → Result Error Instance
instance_or none = err instance_not_found
instance_or (some inst) = ok inst

unfoldable pub instance_by : Snapshot → InstanceUuid → Result Error Instance
unfolding find_instance
instance_by s uuid = instance_or (find_instance s.replica_sets uuid)

unfoldable pub start_recovery : Cluster → Cluster
start_recovery c = record c { has_active_recovery = true }

unfoldable pub stop_recovery : Cluster → Cluster
stop_recovery c = record c { has_active_recovery = false }
