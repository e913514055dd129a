-- ===== src/Api.antt =====
-- internal/api/api.go: what the service reads from the storage, which is a parameter.
pub mod Lookup
pub mod Alerting
mod Tests
use qumomf.Prelude.{
  ℕ, String, ◌==◌, Bool, Option, none, some, List, [], ◌∷◌, ◌++◌, map, filter, find, length,
  if◌then◌else◌,
}
use qumomf.Prelude.Int.{ℤ}
use qumomf.Prelude.Result.{Result, ok, err, ◌>>=◌}
use qumomf.Vshard.Error.{Error as VshardError}
use qumomf.Vshard.Instance.{InstanceUuid, ReplicaSetUuid, HealthLevel, Alert, Instance}
use qumomf.Vshard.Router.{Router}
use qumomf.Vshard.ReplicaSet.{ReplicaSet}
use qumomf.Vshard.Snapshot.{Snapshot, cluster_health_level, replica_set as set_of_snapshot}
use qumomf.Orchestrator.Recovery.{Recovery}

-- The errors of the storage: no row, or another failure.
pub data StorageError : Type 0 where
  empty_result : StorageError
  storage_failed : String → StorageError

pub data Error : Type 0 where
  cluster_not_found replica_set_not_found instance_not_found : Error
  storage : StorageError → Error

pub record ClusterSnapshot : Type 0 where
  pub name : String
  pub snapshot : Snapshot

-- The storage, as one call sees it.
pub record Storage : Type 0 where
  pub get_clusters : Result StorageError (List ClusterSnapshot)
  pub get_cluster_snapshot : String → Result StorageError Snapshot
  pub get_recoveries : String → Result StorageError (List Recovery)

pub record ClusterInfo : Type 0 where
  pub name : String
  pub shards_count : ℕ
  pub routers_count : ℕ
  pub discovered_at : ℤ
  pub health_level : HealthLevel

pub record InstanceAlerts : Type 0 where
  pub cluster_name : String
  pub shard_uuid : ReplicaSetUuid
  pub instance_uri : String
  pub alerts : List Alert

pub record RoutersAlerts : Type 0 where
  pub uri : String
  pub alerts : List Alert

pub record AlertsResponse : Type 0 where
  pub instances_alerts : List InstanceAlerts
  pub routers_alerts : List RoutersAlerts

abbrev pub or_storage : {A : Type 0} → Result StorageError A → Result Error A
or_storage (ok a) = ok a
or_storage (err e) = err (storage e)

-- No row means that there is no such cluster.
abbrev pub or_not_found : {A : Type 0} → Result StorageError A → Result Error A
or_not_found (ok a) = ok a
or_not_found (err empty_result) = err cluster_not_found
or_not_found (err (storage_failed s)) = err (storage (storage_failed s))

abbrev info_of : ClusterSnapshot → ClusterInfo
info_of c = record {
  name = c.name;
  shards_count = length c.snapshot.replica_sets;
  routers_count = length c.snapshot.routers;
  discovered_at = c.snapshot.created;
  health_level = cluster_health_level c.snapshot;
}

unfoldable pub clusters_list : Storage → Result Error (List ClusterInfo)
unfolding cluster_health_level
clusters_list db = or_storage db.get_clusters >>= λ cs. ok (map info_of cs)

unfoldable pub cluster_snapshot : Storage → String → Result Error Snapshot
cluster_snapshot db name = or_not_found (db.get_cluster_snapshot name)

abbrev pub set_or_not_found : Result VshardError ReplicaSet → Result Error ReplicaSet
set_or_not_found (ok set) = ok set
set_or_not_found (err e) = err replica_set_not_found

-- The look-up in a snapshot has one error only, that there is no such set.
unfoldable pub replica_set : Storage → String → ReplicaSetUuid → Result Error ReplicaSet
unfolding set_of_snapshot
replica_set db name uuid =
    or_not_found (db.get_cluster_snapshot name) >>= λ s. set_or_not_found (set_of_snapshot s uuid)

abbrev pub instance_or_not_found : Option Instance → Result Error Instance
instance_or_not_found none = err instance_not_found
instance_or_not_found (some i) = ok i

unfoldable pub instance : Storage → String → ReplicaSetUuid → InstanceUuid → Result Error Instance
unfolding replica_set
instance db name set_uuid uuid = replica_set db name set_uuid >>= λ set.
    instance_or_not_found (find (λ i. i.uuid == uuid) set.instances)

unfoldable pub recoveries : Storage → String → ReplicaSetUuid → Result Error (List Recovery)
recoveries db name set_uuid =
    or_storage (db.get_recoveries name) >>= λ rs. ok (filter (λ r. r.set_uuid == set_uuid) rs)

abbrev with_router : Router → List Alert → List RoutersAlerts → List RoutersAlerts
with_router r [] rest = rest
with_router r (a ∷ as') rest = record { uri = r.uri; alerts = a ∷ as' } ∷ rest

unfoldable pub routers_alerts : List Router → List RoutersAlerts
routers_alerts [] = []
routers_alerts (r ∷ rs) = with_router r r.info.alerts (routers_alerts rs)

abbrev pub with_instance :
    String → ReplicaSetUuid → Instance → List Alert → List InstanceAlerts → List InstanceAlerts
with_instance name uuid i [] rest = rest
with_instance name uuid i (a ∷ as') rest =
    record { cluster_name = name; shard_uuid = uuid; instance_uri = i.uri; alerts = a ∷ as' } ∷ rest

-- The inner and the outer loop of `instanceAlerts`.
unfoldable pub alerts_of_set : String → ReplicaSetUuid → List Instance → List InstanceAlerts
alerts_of_set name uuid [] = []
alerts_of_set name uuid (i ∷ is) =
    with_instance name uuid i i.storage_info.alerts (alerts_of_set name uuid is)

unfoldable pub instance_alerts : String → List ReplicaSet → List InstanceAlerts
unfolding alerts_of_set
instance_alerts name [] = []
instance_alerts name (set ∷ sets) =
    alerts_of_set name set.uuid set.instances ++ instance_alerts name sets

unfoldable pub alerts_of_clusters : List ClusterSnapshot → AlertsResponse
unfolding routers_alerts instance_alerts
alerts_of_clusters [] = record { instances_alerts = []; routers_alerts = [] }
alerts_of_clusters (c ∷ cs) =
    let rest = alerts_of_clusters cs in
    record {
      instances_alerts = instance_alerts c.name c.snapshot.replica_sets ++ rest.instances_alerts;
      routers_alerts = routers_alerts c.snapshot.routers ++ rest.routers_alerts;
    }

unfoldable pub alerts : Storage → Result Error AlertsResponse
unfolding alerts_of_clusters
alerts db = or_storage db.get_clusters >>= λ cs. ok (alerts_of_clusters cs)

unfoldable pub cluster_alerts : Storage → String → Result Error AlertsResponse
unfolding cluster_snapshot instance_alerts routers_alerts
cluster_alerts db name = cluster_snapshot db name >>= λ s. ok record {
  instances_alerts = instance_alerts name s.replica_sets;
  routers_alerts = routers_alerts s.routers;
}
