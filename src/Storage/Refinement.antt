-- ===== src/Storage/Refinement.antt =====
-- The storage implements two maps: a snapshot for a cluster, and the recoveries of a cluster, of which
-- no order is promised. What no reader can see, a snapshot's table of priorities, is not stored.
pub mod Writes
pub mod Reads
use qumomf.Prelude.{
  String, ◌==◌, eq_iff, eq_refl, ◌≡◌, refl, sym, ap, ◌∙◌, ◌↔◌, Bool, true, false, Option, none,
  some, List, [], ◌∷◌, ◌++◌, Memᴰ, Permᴰ, mem-perm, All, All-tabulate, some_eq, if◌then◌else◌,
  Bool-cases, inl, inr,
}
use mathlib.Core.Path.{subst}
use qumomf.Prelude.Result.{Result, ok, err, ◌>>=◌}
use qumomf.Vshard.Snapshot.{Snapshot}
use qumomf.Orchestrator.Recovery.{Recovery}
use qumomf.Api.{StorageError, empty_result, storage_failed, ClusterSnapshot}
use qumomf.Storage.{
  Row, Tables, Backend, no_tables, last_row, rows_of, scanned, or_failed, save_snapshot,
  save_recovery, get_cluster_snapshot, get_clusters, get_recoveries, read_clusters, read_recoveries,
}
use qumomf.Storage.Rows.{
  IsUnique, upsert-IsUnique, last_row-mem, mem-last_row, last_row-upsert_same,
  last_row-upsert_other, rows_of-append,
}

-- What JSON keeps of a snapshot: its exported fields.
abbrev pub exported : Snapshot → Snapshot
exported s = record s { priorities = [] }

-- A call that writes, with what the driver answers.
pub data Call : Type 0 where
  saves_snapshot : Option String → String → Snapshot → Call
  saves_recovery : Option String → Recovery → Call

-- The two maps.
pub record Model : Type 0 where
  pub snapshots : String → Option Snapshot
  pub recoveries : String → List Recovery

abbrev pub no_model : Model
no_model = record { snapshots = λ name. none; recoveries = λ name. [] }

abbrev pub found : Option Snapshot → Result StorageError Snapshot
found none = err empty_result
found (some s) = ok s

module _ {Bytes : Type 0} (json : Backend Bytes) where
  -- What is read back from a text that was written is what had been written.
  abbrev pub ReadsSnapshots : Type 0
  ReadsSnapshots =
      (s : Snapshot) (b : Bytes)
      → json.marshal_snapshot s ≡ ok b
      → json.unmarshal_snapshot b ≡ ok (exported s)

  abbrev pub ReadsRecoveries : Type 0
  ReadsRecoveries =
      (r : Recovery) (b : Bytes) → json.marshal_recovery r ≡ ok b → json.unmarshal_recovery b ≡ ok r

  -- The database returns every row once, in some order.
  abbrev pub Scans : Type 0
  Scans = (rows : List (Row Bytes)) → Permᴰ (json.scan rows) rows

  unfoldable pub effect : Call → Tables Bytes → Tables Bytes
  unfolding save_snapshot save_recovery
  effect (saves_snapshot refused name s) t = (save_snapshot json refused name s t).1
  effect (saves_recovery refused r) t = (save_recovery json refused r t).1

  unfoldable pub effects : List Call → Tables Bytes → Tables Bytes
  unfolding effect
  effects [] t = t
  effects (c ∷ cs) t = effects cs (effect c t)

  abbrev pub accepted : Option String → Result String Bytes → Bool
  accepted none (ok b) = true
  accepted (some m) (ok b) = false
  accepted refused (err m) = false

  -- The same calls, on the maps.
  abbrev pub update : Call → Model → Model
  update (saves_snapshot refused name s) m =
      if accepted refused (json.marshal_snapshot s)
      then record m { snapshots = λ n. if name == n then some (exported s) else m.snapshots n }
      else m
  update (saves_recovery refused r) m =
      if accepted refused (json.marshal_recovery r)
      then record m {
        recoveries = λ n. m.recoveries n ++ (if r.cluster_name == n then r ∷ [] else []);
      }
      else m

  abbrev pub updates : List Call → Model → Model
  updates [] m = m
  updates (c ∷ cs) m = updates cs (update c m)

  abbrev pub ShowsSnapshot : Option (Row Bytes) → Option Snapshot → Type 0
  ShowsSnapshot none none = Unit
  ShowsSnapshot (some row) (some s) = json.unmarshal_snapshot row.bytes ≡ ok s
  ShowsSnapshot none (some s) = ⊥
  ShowsSnapshot (some row) none = ⊥

  abbrev pub ShowsAll : List (Row Bytes) → List Recovery → Type 0
  ShowsAll [] [] = Unit
  ShowsAll (row ∷ rows) (r ∷ rs) = (json.unmarshal_recovery row.bytes ≡ ok r) × ShowsAll rows rs
  ShowsAll [] (r ∷ rs) = ⊥
  ShowsAll (row ∷ rows) [] = ⊥

  -- The tables show the maps.
  abbrev pub Shows : Tables Bytes → Model → Type 0
  Shows t m =
      IsUnique t.snapshots
      × ((name : String) → ShowsSnapshot (last_row name t.snapshots) (m.snapshots name))
      × ((name : String) → ShowsAll (rows_of name t.recoveries) (m.recoveries name))

  -- What the readers of the storage see, when the driver refuses nothing.
  abbrev pub Refines : Tables Bytes → Model → Type 0
  Refines t m =
      ((name : String) → get_cluster_snapshot json none name t ≡ found (m.snapshots name))
      × ((name : String)
          → (rs : List Recovery) × (get_recoveries json none name t ≡ ok rs)
            × Permᴰ rs (m.recoveries name))
      × ((cs : List ClusterSnapshot) × (get_clusters json none t ≡ ok cs)
          × ((c : ClusterSnapshot) → Memᴰ c cs ↔ (m.snapshots c.name ≡ some c.snapshot)))
