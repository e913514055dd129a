-- ===== src/Storage/Service.antt =====
-- The interface internal/storage/storage.go that the service reads, as the tables fill it. The driver
-- accepts or refuses all the statements of one request.
use qumomf.Prelude.{String, ◌≢◌, Option, none, some, List, [], ◌∷◌}
use qumomf.Prelude.Result.{Result, ok, err, ◌>>=◌}
use qumomf.Api.{Storage, StorageError, empty_result}
use qumomf.Storage.{
  Backend, Tables, Row, or_failed, read_clusters, read_recoveries, get_clusters,
  get_cluster_snapshot, get_recoveries,
}

unfoldable pub as_storage :
    {Bytes : Type 0} → Backend Bytes → Option String → Tables Bytes → Storage
as_storage json refused t = record {
  get_clusters = get_clusters json refused t;
  get_cluster_snapshot = λ name. get_cluster_snapshot json refused name t;
  get_recoveries = λ name. get_recoveries json refused name t;
}

-- A storage reports that a row is missing to those only who ask for one cluster.
abbrev pub ListsAll : Storage → Type 0
ListsAll db =
    (db.get_clusters ≢ err empty_result)
    × ((name : String) → db.get_recoveries name ≢ err empty_result)

-- The reading of a row can only fail.
read_more :
    {A B : Type 0} (r : Result String A) (f : A → Result StorageError B)
    → ((a : A) → f a ≢ err empty_result)
    → (or_failed r >>= f) ≢ err empty_result
read_more (ok a) f g e = g a e
read_more (err m) f g e = cc

one_more :
    {A B : Type 0} (r : Result StorageError A) (f : A → B)
    → r ≢ err empty_result
    → (r >>= λ a. ok (f a)) ≢ err empty_result
one_more (ok a) f n e = cc
one_more (err x) f n e = n cc

module _ {Bytes : Type 0} (json : Backend Bytes) where
  clusters_listed : (rows : List (Row Bytes)) → read_clusters json rows ≢ err empty_result
  unfolding read_clusters
  clusters_listed [] = λ e. cc
  clusters_listed (row ∷ rows) =
      read_more (json.unmarshal_snapshot row.bytes) _
        (λ s. one_more (read_clusters json rows) _ (clusters_listed rows))

  recoveries_listed : (rows : List (Row Bytes)) → read_recoveries json rows ≢ err empty_result
  unfolding read_recoveries
  recoveries_listed [] = λ e. cc
  recoveries_listed (row ∷ rows) =
      read_more (json.unmarshal_recovery row.bytes) _
        (λ r. one_more (read_recoveries json rows) _ (recoveries_listed rows))

  -- The tables do.
  pub as_storage-ListsAll :
      (refused : Option String) (t : Tables Bytes) → ListsAll (as_storage json refused t)
  unfolding as_storage get_clusters get_recoveries
  as_storage-ListsAll none t = (clusters_listed _, λ name. recoveries_listed _)
  as_storage-ListsAll (some m) t = ((λ e. cc), λ name e. cc)
