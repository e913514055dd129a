-- ===== src/Storage/Refinement/Writes.antt =====
-- Every call that writes keeps the tables and the two maps together.
use qumomf.Prelude.{
  String, ◌==◌, eq_iff, ◌≡◌, refl, Bool, true, false, Option, none, some, List, [], ◌∷◌, ◌++◌,
  if◌then◌else◌, Bool-cases, inl, inr, ◌≢◌,
}
use mathlib.Core.Path.{subst}
use qumomf.Prelude.Int.{pos}
use qumomf.Prelude.Result.{Result, ok, err}
use qumomf.Vshard.Snapshot.{Snapshot}
use qumomf.Orchestrator.Recovery.{Recovery}
use qumomf.Storage.{
  Row, Tables, Backend, last_row, rows_of, upsert, save_snapshot, save_recovery, put_snapshot,
  put_recovery,
}
use qumomf.Storage.Rows.{
  upsert-IsUnique, last_row-upsert_same, last_row-upsert_other, rows_of-append, both,
}
use qumomf.Storage.Refinement.{
  Call, saves_snapshot, saves_recovery, Model, exported, ReadsSnapshots, ReadsRecoveries, effect,
  effects, update, updates, accepted, ShowsSnapshot, ShowsAll, Shows,
}

module _ {Bytes : Type 0} (json : Backend Bytes) where
  ShowsAll-append :
      (rows new : List (Row Bytes)) (rs r : List Recovery)
      → ShowsAll json rows rs
      → ShowsAll json new r
      → ShowsAll json (rows ++ new) (rs ++ r)
  ShowsAll-append [] new [] r h k = k
  ShowsAll-append [] new (x ∷ rs) r h k = elim h [ ]
  ShowsAll-append (row ∷ rows) new [] r h k = elim h [ ]
  ShowsAll-append (row ∷ rows) new (x ∷ rs) r h k = (h.0, ShowsAll-append rows new rs r h.1 k)

  -- One row at the end, or none, shows one recovery more, or none.
  ShowsAll-single :
      (b : Bool) (row : Row Bytes) (r : Recovery)
      → json.unmarshal_recovery row.bytes ≡ ok r
      → ShowsAll json (if b then row ∷ [] else []) (if b then r ∷ [] else [])
  ShowsAll-single true row r h = (h, tt)
  ShowsAll-single false row r h = tt

  snapshot_at :
      (new : Row Bytes) (t : Tables Bytes) (m : Model) (s : Snapshot) (name : String)
      → Shows json t m
      → json.unmarshal_snapshot new.bytes ≡ ok s
      → ShowsSnapshot json
          (last_row name (upsert new t.snapshots))
          (if new.cluster_name == name then some s else m.snapshots name)
  snapshot_at new t m s name h d = elim (Bool-cases (new.cluster_name == name)) [
    | inl e ↦
        rw e (same ((eq_iff new.cluster_name name).0 e) (last_row-upsert_same new t.snapshots h.0))
    | inr e ↦ rw e (rw (last_row-upsert_other name new t.snapshots (other e)) (h.1 name))
  ]
    where
      other : (new.cluster_name == name) ≡ false → new.cluster_name ≢ name
      other e q = both ((eq_iff new.cluster_name name).1 q) e

      same :
          new.cluster_name ≡ name
          → (row : Row Bytes) × (last_row new.cluster_name (upsert new t.snapshots) ≡ some row)
            × (row.bytes ≡ new.bytes)
          → ShowsSnapshot json (last_row name (upsert new t.snapshots)) (some s)
      same q (row, l, k) =
          subst (λ n. ShowsSnapshot json (last_row n (upsert new t.snapshots)) (some s)) q
            (rw (l, k) d)

  update-Shows :
      ReadsSnapshots json
      → ReadsRecoveries json
      → (c : Call) (t : Tables Bytes) (m : Model) → Shows json t m
      → Shows json (effect json c t) (update json c m)
  unfolding effect save_snapshot save_recovery
  update-Shows reads reads_r (saves_snapshot refused name s) t m h =
      at refused (json.marshal_snapshot s) refl
    where
      at :
          (refused : Option String) (r : Result String Bytes)
          → json.marshal_snapshot s ≡ r
          → Shows json (put_snapshot json refused name s t r).1 (
              if accepted json refused r
              then record m {
                snapshots = λ n. if name == n then some (exported s) else m.snapshots n;
              }
              else m)
      at none (ok b) e =
          let new : Row Bytes = record { cluster_name = name; created_at = s.created; bytes = b } in
          (
            upsert-IsUnique new t.snapshots h.0,
            (λ n. snapshot_at new t m (exported s) n h (reads s b e)),
            h.2,
          )
      at (some k) (ok b) e = h
      at none (err k) e = h
      at (some x) (err k) e = h
  update-Shows reads reads_r (saves_recovery refused r) t m h =
      at refused (json.marshal_recovery r) refl
    where
      at :
          (refused : Option String) (o : Result String Bytes)
          → json.marshal_recovery r ≡ o
          → Shows json (put_recovery json refused r t o).1 (
              if accepted json refused o
              then record m {
                recoveries = λ n. m.recoveries n ++ (if r.cluster_name == n then r ∷ [] else []);
              }
              else m)
      at none (ok b) e =
          let new : Row Bytes = record {
            cluster_name = r.cluster_name;
            created_at = pos r.end_timestamp;
            bytes = b;
          } in
          (
            h.0,
            h.1,
            λ n. rw (rows_of-append n t.recoveries new) (
                ShowsAll-append (rows_of n t.recoveries)
                  (if r.cluster_name == n then new ∷ [] else []) (m.recoveries n)
                  (if r.cluster_name == n then r ∷ [] else []) (h.2 n)
                  (ShowsAll-single (r.cluster_name == n) new r (reads_r r b e))),
          )
      at (some k) (ok b) e = h
      at none (err k) e = h
      at (some x) (err k) e = h

  pub updates-Shows :
      ReadsSnapshots json
      → ReadsRecoveries json
      → (cs : List Call) (t : Tables Bytes) (m : Model) → Shows json t m
      → Shows json (effects json cs t) (updates json cs m)
  unfolding effects
  updates-Shows reads reads_r [] t m h = h
  updates-Shows reads reads_r (c ∷ cs) t m h =
      updates-Shows reads reads_r cs (effect json c t) (update json c m)
        (update-Shows reads reads_r c t m h)
