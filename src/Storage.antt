-- ===== src/Storage.antt =====
-- internal/storage/sqlite/sqlite.go: the two tables and the statements of the storage. The texts in
-- JSON, which encoding/json writes and reads, and the order in which the database returns rows that
-- the query does not sort, are parameters. The driver may refuse any statement: each operation takes
-- the error that it then reports, or `none`. A statement that is refused changes nothing.
pub mod Rows
pub mod Refinement
pub mod Service
pub mod Fixtures
mod Tests
use qumomf.Prelude.{
  String, ◌==◌, Bool, Option, none, some, List, [], ◌∷◌, ◌++◌, filter, if◌then◌else◌,
}
use qumomf.Prelude.Int.{ℤ, pos}
use qumomf.Prelude.Result.{Result, ok, err, ◌>>=◌}
use qumomf.Vshard.Snapshot.{Snapshot}
use qumomf.Orchestrator.Recovery.{Recovery}
use qumomf.Api.{StorageError, empty_result, storage_failed, ClusterSnapshot}

-- A row of either table. The rows of a table are listed by their ids, which AUTOINCREMENT makes grow,
-- so the ids themselves are left out.
pub record Row (Bytes : Type 0) : Type 0 where
  pub cluster_name : String
  pub created_at : ℤ
  -- the column `data`
  pub bytes : Bytes

pub record Tables (Bytes : Type 0) : Type 0 where
  pub snapshots : List (Row Bytes)
  pub recoveries : List (Row Bytes)

-- What the storage uses of encoding/json and of the database.
pub record Backend (Bytes : Type 0) : Type 0 where
  pub no_bytes : Bytes
  pub marshal_snapshot : Snapshot → Result String Bytes
  pub unmarshal_snapshot : Bytes → Result String Snapshot
  pub marshal_recovery : Recovery → Result String Bytes
  pub unmarshal_recovery : Bytes → Result String Recovery
  pub scan : List (Row Bytes) → List (Row Bytes)

abbrev pub or_failed : {A : Type 0} → Result String A → Result StorageError A
or_failed (ok a) = ok a
or_failed (err m) = err (storage_failed m)

-- `createTables` on a new file.
abbrev pub no_tables : {Bytes : Type 0} → Tables Bytes
no_tables = record { snapshots = []; recoveries = [] }

module _ {Bytes : Type 0} where
  -- `querySaveSnapshot`: the name is unique, and a conflict updates the row in its place.
  unfoldable pub upsert : Row Bytes → List (Row Bytes) → List (Row Bytes)
  upsert new [] = new ∷ []
  upsert new (row ∷ rows) =
      let rest = upsert new rows in
      if row.cluster_name == new.cluster_name
      then record row { created_at = new.created_at; bytes = new.bytes } ∷ rows
      else row ∷ rest

  abbrev pub later_or : Option (Row Bytes) → Option (Row Bytes) → Option (Row Bytes)
  later_or (some row) o = some row
  later_or none o = o

  -- `queryGetLastSnapshot`: of the rows with the name, the one with the greatest id.
  unfoldable pub last_row : String → List (Row Bytes) → Option (Row Bytes)
  last_row name [] = none
  last_row name (row ∷ rows) =
      later_or (last_row name rows) (if row.cluster_name == name then some row else none)

  -- `queryGetRecoveries`
  unfoldable pub rows_of : String → List (Row Bytes) → List (Row Bytes)
  rows_of name rows = filter (λ (row : Row Bytes). row.cluster_name == name) rows

module _ {Bytes : Type 0} (json : Backend Bytes) where
  abbrev pub Saved : Type 0
  Saved = Result StorageError Unit × Tables Bytes

  -- A statement that is sent, and what the tables are if the driver accepts it.
  abbrev pub executed : Option String → Tables Bytes → Tables Bytes → Saved
  executed none old new = (ok tt, new)
  executed (some m) old new = (err (storage_failed m), old)

  abbrev pub put_snapshot :
      Option String → String → Snapshot → Tables Bytes → Result String Bytes → Saved
  put_snapshot refused name s t (err m) = (err (storage_failed m), t)
  put_snapshot refused name s t (ok bytes) = executed refused t (record t {
    snapshots =
        upsert record { cluster_name = name; created_at = s.created; bytes = bytes } t.snapshots;
  })

  unfoldable pub save_snapshot : Option String → String → Snapshot → Tables Bytes → Saved
  unfolding upsert
  save_snapshot refused name s t = put_snapshot refused name s t (json.marshal_snapshot s)

  abbrev pub put_recovery : Option String → Recovery → Tables Bytes → Result String Bytes → Saved
  put_recovery refused r t (err m) = (err (storage_failed m), t)
  put_recovery refused r t (ok bytes) = executed refused t (record t {
    recoveries =
        t.recoveries
        ++ record { cluster_name = r.cluster_name; created_at = pos r.end_timestamp; bytes = bytes }
          ∷ [];
  })

  unfoldable pub save_recovery : Option String → Recovery → Tables Bytes → Saved
  save_recovery refused r t = put_recovery refused r t (json.marshal_recovery r)

  abbrev pub scanned : Option (Row Bytes) → Result StorageError Snapshot
  scanned none = err empty_result
  scanned (some row) = or_failed (json.unmarshal_snapshot row.bytes)

  -- Only `ErrNoRows` is looked at: after any other error of the driver, the bytes that were not
  -- filled are read as JSON.
  unfoldable pub get_cluster_snapshot :
      Option String → String → Tables Bytes → Result StorageError Snapshot
  unfolding last_row
  get_cluster_snapshot none name t = scanned (last_row name t.snapshots)
  get_cluster_snapshot (some m) name t = or_failed (json.unmarshal_snapshot json.no_bytes)

  -- The loop of `GetClusters`.
  unfoldable pub read_clusters : List (Row Bytes) → Result StorageError (List ClusterSnapshot)
  read_clusters [] = ok []
  read_clusters (row ∷ rows) = or_failed (json.unmarshal_snapshot row.bytes) >>= λ s.
      read_clusters rows >>= λ cs. ok (record { name = row.cluster_name; snapshot = s } ∷ cs)

  unfoldable pub get_clusters :
      Option String → Tables Bytes → Result StorageError (List ClusterSnapshot)
  unfolding read_clusters
  get_clusters none t = read_clusters (json.scan t.snapshots)
  get_clusters (some m) t = err (storage_failed m)

  -- The loop of `GetRecoveries`.
  unfoldable pub read_recoveries : List (Row Bytes) → Result StorageError (List Recovery)
  read_recoveries [] = ok []
  read_recoveries (row ∷ rows) = or_failed (json.unmarshal_recovery row.bytes) >>= λ r.
      read_recoveries rows >>= λ rs. ok (r ∷ rs)

  unfoldable pub get_recoveries :
      Option String → String → Tables Bytes → Result StorageError (List Recovery)
  unfolding read_recoveries rows_of
  get_recoveries none name t = read_recoveries (json.scan (rows_of name t.recoveries))
  get_recoveries (some m) name t = err (storage_failed m)

-- `New`: the error of opening the file, the tables that the file has, and the error of creating those
-- that it lacks.
unfoldable pub new_storage :
    {Bytes : Type 0}
    → Option String
    → Option String
    → Option (Tables Bytes)
    → Result String (Tables Bytes)
new_storage (some m) refused stored = err m
new_storage none (some m) stored = err m
new_storage none none none = ok no_tables
new_storage none none (some t) = ok t
