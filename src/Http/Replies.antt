-- ===== src/Http/Replies.antt =====
-- What the response of a handler says of the error behind it.
use qumomf.Prelude.{
  String, ◌==◌, ◌≢◌, refl, Bool, true, false, ◌||◌, Option, none, some, find, if◌then◌else◌,
}
use qumomf.Prelude.Dict.{Dict}
use qumomf.Prelude.Result.{Result, ok, err, ◌>>=◌}
use qumomf.Vshard.Error.{Error as VshardError}
use qumomf.Vshard.Instance.{Instance}
use qumomf.Vshard.ReplicaSet.{ReplicaSet}
use qumomf.Vshard.Snapshot.{replica_set as set_of_snapshot}
use qumomf.Api.{
  Storage, StorageError, empty_result, storage_failed, Error, storage, cluster_not_found,
  replica_set_not_found, instance_not_found, or_storage, or_not_found, set_or_not_found,
  instance_or_not_found,
}
use qumomf.Storage.Service.{ListsAll}
use qumomf.Api
use qumomf.Http.{
  Marshal, Response, of_service, of_json, new_ok_response, new_bad_request_response,
  new_internal_err_response, is_not_found_type_err, parse_not_found_type_err, parse_params,
  marshalled, reply, reply_found, invalid_params, cluster_list, cluster_snapshot, shard_snapshot,
  instance_snapshot, shard_recoveries, alerts, cluster_alerts,
}

-- The handlers of `APIHandler`.
pub data Handler : Type 0 where
  to_cluster_list to_cluster_snapshot to_shard_snapshot to_instance_snapshot : Handler
  to_shard_recoveries to_alerts to_cluster_alerts : Handler

-- A handler, called with the variables of a path.
unfoldable pub handle : Marshal → Storage → Handler → Dict String → Response
unfolding cluster_list cluster_snapshot shard_snapshot instance_snapshot shard_recoveries alerts
    cluster_alerts parse_params
handle marshal db to_cluster_list vars = cluster_list marshal db
handle marshal db to_cluster_snapshot vars = cluster_snapshot marshal db (parse_params vars)
handle marshal db to_shard_snapshot vars = shard_snapshot marshal db (parse_params vars)
handle marshal db to_instance_snapshot vars = instance_snapshot marshal db (parse_params vars)
handle marshal db to_shard_recoveries vars = shard_recoveries marshal db (parse_params vars)
handle marshal db to_alerts vars = alerts marshal db
handle marshal db to_cluster_alerts vars = cluster_alerts marshal db (parse_params vars)

-- A success and a bad request carry no error; an internal error carries a failure of the storage or of
-- the marshalling, never that something was not found and never that a row is missing.
pub data IsSound : Response → Type 0 where
  success : (body : String) → IsSound record { status_code = 200; body = body; cause = none }
  bad_request : (body : String) → IsSound record { status_code = 400; body = body; cause = none }
  storage_error :
      (body m : String)
      → IsSound record {
        status_code = 500;
        body = body;
        cause = some (of_service (storage (storage_failed m)));
      }
  json_error :
      (body m : String)
      → IsSound record { status_code = 500; body = body; cause = some (of_json m) }

-- Results that can only be failures of the storage.
pub data IsStored {A : Type 0} : Result Error A → Type 0 where
  stored : (a : A) → IsStored (ok a)
  not_stored : (m : String) → IsStored (err (storage (storage_failed m)))

IsStored-or_storage :
    {A B : Type 0} (r : Result StorageError A) (f : A → B)
    → r ≢ err empty_result
    → IsStored (or_storage r >>= λ a. ok (f a))
IsStored-or_storage (ok a) f n = stored (f a)
IsStored-or_storage (err empty_result) f n = absurd (n refl)
IsStored-or_storage (err (storage_failed m)) f n = not_stored m

marshalled-IsSound : (r : Result String String) → IsSound (marshalled r)
unfolding new_ok_response new_internal_err_response
marshalled-IsSound (ok body) = success body
marshalled-IsSound (err m) = json_error "failed to marshal data" m

reply-IsSound :
    {A : Type 0} (msg : String) (marshal : A → Result String String) (r : Result Error A)
    → IsStored r
    → IsSound (reply msg marshal r)
unfolding new_internal_err_response
reply-IsSound msg marshal (ok a) s = marshalled-IsSound (marshal a)
reply-IsSound msg marshal (err (storage empty_result)) s = elim s [ ]
reply-IsSound msg marshal (err (storage (storage_failed m))) s = storage_error msg m
reply-IsSound msg marshal (err cluster_not_found) s = elim s [ ]
reply-IsSound msg marshal (err replica_set_not_found) s = elim s [ ]
reply-IsSound msg marshal (err instance_not_found) s = elim s [ ]

-- Results that are no missing row of the storage.
pub data IsFound {A : Type 0} : Result Error A → Type 0 where
  found : (a : A) → IsFound (ok a)
  no_cluster : IsFound (err cluster_not_found)
  no_replica_set : IsFound (err replica_set_not_found)
  no_instance : IsFound (err instance_not_found)
  failed : (m : String) → IsFound (err (storage (storage_failed m)))

or_not_found-IsFound : {A : Type 0} (r : Result StorageError A) → IsFound (or_not_found r)
or_not_found-IsFound (ok a) = found a
or_not_found-IsFound (err empty_result) = no_cluster
or_not_found-IsFound (err (storage_failed m)) = failed m

-- What is done with a value that was found keeps this.
found_then :
    {A B : Type 0} (r : Result Error A) (f : A → Result Error B)
    → IsFound r
    → ((a : A) → IsFound (f a))
    → IsFound (r >>= f)
found_then (ok a) f k g = g a
found_then (err cluster_not_found) f k g = no_cluster
found_then (err replica_set_not_found) f k g = no_replica_set
found_then (err instance_not_found) f k g = no_instance
found_then (err (storage empty_result)) f k g = elim k [ ]
found_then (err (storage (storage_failed m))) f k g = failed m

reply_found-IsSound :
    {A : Type 0} (msg : String) (marshal : A → Result String String) (r : Result Error A)
    → IsFound r
    → IsSound (reply_found msg marshal r)
unfolding is_not_found_type_err parse_not_found_type_err new_bad_request_response
    new_internal_err_response
reply_found-IsSound msg marshal (ok a) k = marshalled-IsSound (marshal a)
reply_found-IsSound msg marshal (err (storage empty_result)) k = elim k [ ]
reply_found-IsSound msg marshal (err (storage (storage_failed m))) k = storage_error msg m
reply_found-IsSound msg marshal (err cluster_not_found) k = bad_request "cluster snapshot not found"
reply_found-IsSound msg marshal (err replica_set_not_found) k =
    bad_request "shard snapshot not found"
reply_found-IsSound msg marshal (err instance_not_found) k =
    bad_request "instance snapshot not found"

module _ (db : Storage) where
  cluster_snapshot-IsFound : (name : String) → IsFound (Api.cluster_snapshot db name)
  unfolding Api.cluster_snapshot
  cluster_snapshot-IsFound name = or_not_found-IsFound (db.get_cluster_snapshot name)

  replica_set-IsFound : (name uuid : String) → IsFound (Api.replica_set db name uuid)
  unfolding Api.replica_set
  replica_set-IsFound name uuid =
      found_then (or_not_found (db.get_cluster_snapshot name))
        (λ s. set_or_not_found (set_of_snapshot s uuid))
        (or_not_found-IsFound (db.get_cluster_snapshot name)) (λ s. of_set (set_of_snapshot s uuid))
    where
      of_set : (r : Result VshardError ReplicaSet) → IsFound (set_or_not_found r)
      of_set (ok set) = found set
      of_set (err e) = no_replica_set

  instance-IsFound : (name set_uuid uuid : String) → IsFound (Api.instance db name set_uuid uuid)
  unfolding Api.instance
  instance-IsFound name set_uuid uuid =
      found_then (Api.replica_set db name set_uuid)
        (λ set. instance_or_not_found (find (λ i. i.uuid == uuid) set.instances))
        (replica_set-IsFound name set_uuid)
        (λ set. of_find (find (λ i. i.uuid == uuid) set.instances))
    where
      of_find : (o : Option Instance) → IsFound (instance_or_not_found o)
      of_find none = no_instance
      of_find (some i) = found i

  cluster_alerts-IsFound : (name : String) → IsFound (Api.cluster_alerts db name)
  unfolding Api.cluster_alerts
  cluster_alerts-IsFound name =
      found_then (Api.cluster_snapshot db name) _ (cluster_snapshot-IsFound name) (λ s. found _)

checked-IsSound : (b : Bool) (r : Response) → IsSound r → IsSound (if b then invalid_params else r)
unfolding new_bad_request_response
checked-IsSound true r s = bad_request "one or more parameters are invalid"
checked-IsSound false r s = s

-- Every response of the interface is a success, a bad request without an error, or an internal error
-- that carries a failure of the storage or of the marshalling: that a cluster, a set or an instance
-- was not found, or that the storage has no row for it, is never reported as an internal error. This
-- holds if the storage reports a missing row to those only who ask for one cluster.
pub handle-IsSound :
    (marshal : Marshal) (db : Storage) (h : Handler) (vars : Dict String)
    → ListsAll db
    → IsSound (handle marshal db h vars)
unfolding handle cluster_list cluster_snapshot shard_snapshot instance_snapshot shard_recoveries
    alerts cluster_alerts Api.clusters_list Api.recoveries Api.alerts
handle-IsSound marshal db to_cluster_list vars (clusters, recoveries) =
    reply-IsSound "failed to get cluster list" marshal.clusters (Api.clusters_list db)
      (IsStored-or_storage db.get_clusters _ clusters)
handle-IsSound marshal db to_cluster_snapshot vars (clusters, recoveries) =
    let p = parse_params vars in
    checked-IsSound (p.cluster_name == "") _ (
      reply_found-IsSound "failed get cluster snapshot" marshal.snapshot
        (Api.cluster_snapshot db p.cluster_name) (cluster_snapshot-IsFound db p.cluster_name))
handle-IsSound marshal db to_shard_snapshot vars (clusters, recoveries) =
    let p = parse_params vars in
    checked-IsSound (p.cluster_name == "" || p.shard_uuid == "") _ (
      reply_found-IsSound "failed get shard snapshot" marshal.replica_set
        (Api.replica_set db p.cluster_name p.shard_uuid)
        (replica_set-IsFound db p.cluster_name p.shard_uuid))
handle-IsSound marshal db to_instance_snapshot vars (clusters, recoveries) =
    let p = parse_params vars in
    checked-IsSound (p.cluster_name == "" || (p.shard_uuid == "" || p.instance_uuid == "")) _ (
      reply_found-IsSound "failed get instance snapshot" marshal.instance
        (Api.instance db p.cluster_name p.shard_uuid p.instance_uuid)
        (instance-IsFound db p.cluster_name p.shard_uuid p.instance_uuid))
handle-IsSound marshal db to_shard_recoveries vars (clusters, recoveries) =
    let p = parse_params vars in
    checked-IsSound (p.cluster_name == "" || p.shard_uuid == "") _ (
      reply-IsSound "failed get shard recovery" marshal.recoveries
        (Api.recoveries db p.cluster_name p.shard_uuid)
        (IsStored-or_storage (db.get_recoveries p.cluster_name) _ (recoveries p.cluster_name)))
handle-IsSound marshal db to_alerts vars (clusters, recoveries) =
    reply-IsSound "failed get alerts list" marshal.alerts (Api.alerts db)
      (IsStored-or_storage db.get_clusters _ clusters)
handle-IsSound marshal db to_cluster_alerts vars (clusters, recoveries) =
    let p = parse_params vars in
    checked-IsSound (p.cluster_name == "") _ (
      reply_found-IsSound "failed get cluster alerts" marshal.alerts
        (Api.cluster_alerts db p.cluster_name) (cluster_alerts-IsFound db p.cluster_name))
