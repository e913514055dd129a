-- ===== src/Vshard/Snapshot.antt =====
-- internal/vshard/snapshot.go: the topology of a cluster at a moment.
pub mod Priorities
pub mod Health
use qumomf.Prelude.{
  ℕ, String, ◌==◌, Bool, true, false, Option, none, some, List, [], ◌∷◌, map, find, if◌then◌else◌,
}
use qumomf.Prelude.Int.{ℤ, pos, ltb_ℤ}
use qumomf.Prelude.Dict.{Dict, lookup}
use qumomf.Prelude.Result.{Result, ok, err}
use qumomf.Vshard.Error.{Error, replica_set_not_found}
use qumomf.Vshard.Instance.{ReplicaSetUuid, Instance, HealthLevel, health_code_green, level_of_code}
use qumomf.Vshard.Router.{Router}
use qumomf.Vshard.ReplicaSet.{ReplicaSet, health_status, copy_set}

pub record Snapshot : Type 0 where
  pub created : ℤ
  pub routers : List Router
  pub replica_sets : List ReplicaSet
  pub priorities : Dict ℤ

-- `Snapshot{}`
abbrev pub zero_snapshot : Snapshot
zero_snapshot = record { created = pos 0; routers = []; replica_sets = []; priorities = [] }

-- The loop of `ClusterHealthLevel`, from the code that it has so far.
unfoldable pub worst_code : ℤ → List ReplicaSet → ℤ
worst_code hc [] = hc
worst_code hc (set ∷ sets) =
    let got = (health_status set).0 in worst_code (if ltb_ℤ hc got then got else hc) sets

unfoldable pub cluster_health_level : Snapshot → HealthLevel
unfolding level_of_code worst_code
cluster_health_level s = level_of_code (worst_code health_code_green s.replica_sets)

-- `Copy`
unfoldable pub copy : Snapshot → Snapshot
unfolding copy_set
copy s = record {
  created = s.created;
  routers = s.routers;
  replica_sets = map copy_set s.replica_sets;
  priorities = s.priorities;
}

unfoldable pub find_set : List ReplicaSet → ReplicaSetUuid → Option ReplicaSet
find_set sets uuid = find (λ set. set.uuid == uuid) sets

abbrev topology_or : Option ReplicaSet → Result Error (List Instance)
topology_or none = err replica_set_not_found
topology_or (some set) = ok set.instances

unfoldable pub topology_of : Snapshot → ReplicaSetUuid → Result Error (List Instance)
unfolding find_set
topology_of s uuid = topology_or (find_set s.replica_sets uuid)

abbrev pub set_or : Option ReplicaSet → Result Error ReplicaSet
set_or none = err replica_set_not_found
set_or (some set) = ok set

unfoldable pub replica_set : Snapshot → ReplicaSetUuid → Result Error ReplicaSet
unfolding find_set
replica_set s uuid = set_or (find_set s.replica_sets uuid)

abbrev pub priority_or : Option ℤ → ℤ
priority_or none = pos 0
priority_or (some p) = p

-- The inner and the outer loop of `UpdatePriorities`.
unfoldable pub prioritise : Dict ℤ → Instance → Instance
prioritise priorities inst = record inst { priority = priority_or (lookup inst.uuid priorities) }

unfoldable pub prioritise_set : Dict ℤ → ReplicaSet → ReplicaSet
unfolding prioritise
prioritise_set priorities set = record set { instances = map (prioritise priorities) set.instances }

unfoldable pub update_priorities : Dict ℤ → Snapshot → Snapshot
unfolding prioritise_set
update_priorities priorities s = record s {
  priorities = priorities;
  replica_sets = map (prioritise_set priorities) s.replica_sets;
}
