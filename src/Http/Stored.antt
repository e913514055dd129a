-- ===== src/Http/Stored.antt =====
-- What a client reads of what the coordinator has stored: the handlers over the service over the
-- tables.
use qumomf.Prelude.{◌==◌, ◌≡◌, refl, ◌≢◌, Option, none, some, List, Permᴰ, filter, filter-perm}
use qumomf.Vshard.Snapshot.{Snapshot}
use qumomf.Orchestrator.Recovery.{Recovery}
use qumomf.Api.{
  Storage, StorageError, storage_failed, Error, storage, or_not_found, or_storage,
  cluster_not_found,
}
use qumomf.Api
use qumomf.Storage.{Backend, Tables, no_tables}
use qumomf.Storage.Rows.{not-eq}
use qumomf.Storage.Service.{as_storage}
use qumomf.Storage.Refinement.{
  Call, Model, no_model, found, ReadsSnapshots, ReadsRecoveries, Scans, effects, updates,
}
use qumomf.Storage.Refinement.Reads.{effects-Refines}
use qumomf.Http.{
  Marshal, Params, Response, new_bad_request_response, new_internal_err_response, marshalled, reply,
  reply_found, cluster_snapshot, shard_recoveries, is_not_found_type_err, parse_not_found_type_err,
}

module _ {Bytes : Type 0} (json : Backend Bytes) (marshal : Marshal) where
  abbrev pub shown : Option Snapshot → Response
  unfolding new_bad_request_response
  shown none = new_bad_request_response "cluster snapshot not found"
  shown (some s) = marshalled (marshal.snapshot s)

  -- What the two maps make of a request for a cluster and of one for the recoveries of a shard.
  abbrev pub Answers : Tables Bytes → Model → Params → Type 0
  Answers t m p =
      let db = as_storage json none t in
      (cluster_snapshot marshal db p ≡ shown (m.snapshots p.cluster_name))
      × ((rs : List Recovery) × Permᴰ rs
            (filter (λ (r : Recovery). r.set_uuid == p.shard_uuid) (m.recoveries p.cluster_name))
          × (shard_recoveries marshal db p ≡ marshalled (marshal.recoveries rs)))

  found_lem :
      (o : Option Snapshot)
      → reply_found "failed get cluster snapshot" marshal.snapshot (or_not_found (found o))
        ≡ shown o
  unfolding is_not_found_type_err parse_not_found_type_err new_bad_request_response
      new_internal_err_response
  found_lem none = refl
  found_lem (some s) = refl

  -- After any calls that write, a request for a cluster gets the snapshot that was accepted last for
  -- it, or is told that there is none; a request for the recoveries of a shard gets those that were
  -- accepted for its cluster and have its UUID, in some order. This holds if JSON gives back the
  -- exported fields of what it writes, if the database returns every row once, and if it refuses none
  -- of the statements that read.
  pub effects-Answers :
      ReadsSnapshots json
      → ReadsRecoveries json
      → Scans json
      → (calls : List Call) (p : Params) → p.cluster_name ≢ ""
      → p.shard_uuid ≢ ""
      → Answers (effects json calls no_tables) (updates json calls no_model) p
  unfolding as_storage cluster_snapshot shard_recoveries Api.cluster_snapshot Api.recoveries
      marshalled reply
  effects-Answers reads reads_r scans calls p c d =
      let (snapshots, recoveries, _) = effects-Refines json scans reads reads_r calls in
      let (rs, e, q) = recoveries p.cluster_name in
      let c' = not-eq p.cluster_name "" c in
      let d' = not-eq p.shard_uuid "" d in
      (
        rw (c', snapshots p.cluster_name) (found_lem _),
        (
          filter (λ (r : Recovery). r.set_uuid == p.shard_uuid) rs,
          filter-perm (λ (r : Recovery). r.set_uuid == p.shard_uuid) q,
          rw (c', d', e) refl,
        ),
      )
