-- ===== src/Storage/Tests.antt =====
-- Runs of the storage on the backend of the fixtures.
use qumomf.Prelude.{◌≡◌, refl, none, some}
use qumomf.Prelude.Result.{ok, err}
use qumomf.Vshard.Fixtures.{broken_snapshot}
use qumomf.Api.{storage_failed}
use qumomf.Storage.{no_tables, get_cluster_snapshot}
use qumomf.Storage.Refinement.{no_model, effects, updates, Refines}
use qumomf.Storage.Refinement.Reads.{effects-Refines}
use qumomf.Storage.Fixtures.{
  backend, backend-ReadsSnapshots, backend-ReadsRecoveries, backend-Scans, calls,
}

effects-Refines_example :
    Refines backend (effects backend calls no_tables) (updates backend calls no_model)
effects-Refines_example =
    effects-Refines backend backend-Scans backend-ReadsSnapshots backend-ReadsRecoveries calls

last_stays :
    get_cluster_snapshot backend none "sandbox" (effects backend calls no_tables)
    ≡ ok broken_snapshot
unfolding get_cluster_snapshot effects
last_stays = refl

-- The error of the driver is lost, and that of the JSON reader is returned.
driver_error :
    get_cluster_snapshot backend (some "locked") "sandbox" no_tables
    ≡ err (storage_failed "unexpected end of JSON input")
unfolding get_cluster_snapshot
driver_error = refl
