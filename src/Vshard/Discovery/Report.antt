-- ===== src/Vshard/Discovery/Report.antt =====
-- What a discovery tells of itself, at the end of `Discover` in internal/vshard/cluster.go: the levels
-- of its replica sets, the level at which each is logged, and the callback.
use qumomf.Prelude.{String, Bool, not, Option, none, some, List, [], ◌∷◌, if◌then◌else◌}
use qumomf.Prelude.Int.{ℤ, ltb_ℤ}
use qumomf.Prelude.Sort.{Sorter}
use qumomf.Prelude.Result.{Result, ok, err}
use qumomf.Vshard.Error.{Error}
use qumomf.Vshard.Instance.{ReplicaSetUuid, Instance}
use qumomf.Vshard.ReplicaSet.{ReplicaSet, health_status, same_as}
use qumomf.Vshard.Snapshot.{Snapshot, update_priorities, replica_set}
use qumomf.Vshard.Cluster.{Cluster}

pub data Level : Type 0 where
  info_level debug_level : Level

-- The calls of `SetShardCriticalLevel`, with the name of the cluster.
unfoldable pub critical_levels : String → List ReplicaSet → List (String × ReplicaSetUuid × ℤ)
unfolding health_status
critical_levels name [] = []
critical_levels name (set ∷ sets) =
    (name, set.uuid, (health_status set).0) ∷ critical_levels name sets

module _ (sorter : Sorter Instance) where
  abbrev pub level_if_same : Option (Bool × ReplicaSet × ReplicaSet) → Option Level
  level_if_same none = none
  level_if_same (some (same, a, b)) = some (if same then debug_level else info_level)

  abbrev pub level_against : Result Error ReplicaSet → ReplicaSet → Option Level
  unfolding same_as
  level_against (err e) set = some info_level
  level_against (ok previous) set = level_if_same (same_as sorter previous set)

  -- `logDiscoveredReplicaSet`, without what it does to the order of the instances; `none` is a panic.
  unfoldable pub log_level : Snapshot → ReplicaSet → Option Level
  unfolding replica_set level_against
  log_level s set = level_against (replica_set s set.uuid) set

-- The snapshot that the callback gets, if there is a callback and the discovery is not too old.
unfoldable pub on_discovered : Bool → Snapshot → Cluster → Option Snapshot
unfolding update_priorities
on_discovered has_callback ns c =
    if not (ltb_ℤ ns.created c.snapshot.created)
    then (if has_callback then some (update_priorities c.snapshot.priorities ns) else none)
    else none
