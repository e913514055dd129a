-- ===== src/Storage/Refinement/Reads.antt =====
-- What the readers of the storage see of tables that show the two maps.
use qumomf.Prelude.{
  String, ◌≡◌, refl, sym, ap, ◌∙◌, ◌↔◌, Option, none, some, List, [], ◌∷◌, Memᴰ, Permᴰ, mem-perm,
  All, All-tabulate, filter,
}
use mathlib.Core.Path.{subst}
use mathlib.Core.List.Permᴰ
use qumomf.Prelude.Result.{ok, ok_eq}
use qumomf.Vshard.Snapshot.{Snapshot}
use qumomf.Orchestrator.Recovery.{Recovery}
use qumomf.Api.{ClusterSnapshot}
use qumomf.Storage.{
  Row, Tables, Backend, no_tables, last_row, rows_of, scanned, get_cluster_snapshot, get_clusters,
  get_recoveries, read_clusters, read_recoveries,
}
use qumomf.Storage.Rows.{last_row-mem, mem-last_row}
use qumomf.Storage.Refinement.{
  Call, Model, no_model, found, ReadsSnapshots, ReadsRecoveries, Scans, effects, updates,
  ShowsSnapshot, ShowsAll, Shows, Refines,
}
use qumomf.Storage.Refinement.Writes.{updates-Shows}

module _ {Bytes : Type 0} (json : Backend Bytes) where
  scanned_of :
      (o : Option (Row Bytes)) (s : Option Snapshot)
      → ShowsSnapshot json o s
      → scanned json o ≡ found s
  scanned_of none none h = refl
  scanned_of none (some s) h = elim h [ ]
  scanned_of (some row) none h = elim h [ ]
  scanned_of (some row) (some s) h = rw h refl

  -- Rows in another order show the recoveries in another order.
  ShowsAll-perm :
      {rows' rows : List (Row Bytes)}
      → Permᴰ rows' rows
      → (rs : List Recovery) → ShowsAll json rows rs
      → (rs' : List Recovery) × ShowsAll json rows' rs' × Permᴰ rs' rs
  ShowsAll-perm Permᴰ.nil [] h = ([], tt, Permᴰ.nil)
  ShowsAll-perm Permᴰ.nil (r ∷ rs) h = elim h [ ]
  ShowsAll-perm (Permᴰ.cons e p) [] h = elim h [ ]
  ShowsAll-perm (Permᴰ.cons e p) (r ∷ rs) h =
      let (rs', k, q) = ShowsAll-perm p rs h.1 in (r ∷ rs', (rw e h.0, k), Permᴰ.cons refl q)
  ShowsAll-perm (Permᴰ.swap e f) [] h = elim h [ ]
  ShowsAll-perm (Permᴰ.swap e f) (r ∷ []) h = elim h.1 [ ]
  ShowsAll-perm (Permᴰ.swap e f) (r ∷ r2 ∷ rs) h =
      (r2 ∷ r ∷ rs, (rw e h.1.0, (rw f h.0, h.1.1)), Permᴰ.swap refl refl)
  ShowsAll-perm (Permᴰ.trans p q) rs h =
      let (rs1, k1, q1) = ShowsAll-perm q rs h in
      let (rs2, k2, q2) = ShowsAll-perm p rs1 k1 in (rs2, k2, Permᴰ.trans q2 q1)

  read_recoveries_of :
      (rows : List (Row Bytes)) (rs : List Recovery)
      → ShowsAll json rows rs
      → read_recoveries json rows ≡ ok rs
  unfolding read_recoveries
  read_recoveries_of [] [] h = refl
  read_recoveries_of [] (r ∷ rs) h = elim h [ ]
  read_recoveries_of (row ∷ rows) [] h = elim h [ ]
  read_recoveries_of (row ∷ rows) (r ∷ rs) h = rw (h.0, read_recoveries_of rows rs h.1) refl

  abbrev Readable : Row Bytes → Type 0
  Readable row = (s : Snapshot) × (json.unmarshal_snapshot row.bytes ≡ ok s)

  -- The cluster is that of one of the rows.
  abbrev IsRow : List (Row Bytes) → ClusterSnapshot → Type 0
  IsRow rows c =
      (row : Row Bytes) × Memᴰ row rows
      × (row.cluster_name ≡ c.name)
      × (json.unmarshal_snapshot row.bytes ≡ ok c.snapshot)

  read_clusters_of :
      (rows : List (Row Bytes))
      → All Readable rows
      → (cs : List ClusterSnapshot) × (read_clusters json rows ≡ ok cs)
        × ((c : ClusterSnapshot) → Memᴰ c cs ↔ IsRow rows c)
  unfolding read_clusters
  read_clusters_of [] h = ([], refl, λ c. (λ m. elim m [ ], λ r. elim r.1 [ ]))
  read_clusters_of (row ∷ rows) h =
      let (s, d) = h.0 in
      let (cs, e, k) = read_clusters_of rows h.1 in
      let c : ClusterSnapshot = record { name = row.cluster_name; snapshot = s } in
      (c ∷ cs, rw (d, e) refl, λ x. (to s d cs k x, back s d cs k x))
    where
      to :
          (s : Snapshot)
          → json.unmarshal_snapshot row.bytes ≡ ok s
          → (cs : List ClusterSnapshot) → ((c : ClusterSnapshot) → Memᴰ c cs ↔ IsRow rows c)
          → (x : ClusterSnapshot) → Memᴰ x (record { name = row.cluster_name; snapshot = s } ∷ cs)
          → IsRow (row ∷ rows) x
      to s d cs k x (Memᴰ.head q) = (row, Memᴰ.head refl, rw q refl, rw q d)
      to s d cs k x (Memᴰ.tail m) = let (r, n, u, v) = (k x).0 m in (r, Memᴰ.tail n, u, v)

      back :
          (s : Snapshot)
          → json.unmarshal_snapshot row.bytes ≡ ok s
          → (cs : List ClusterSnapshot) → ((c : ClusterSnapshot) → Memᴰ c cs ↔ IsRow rows c)
          → (x : ClusterSnapshot) → IsRow (row ∷ rows) x
          → Memᴰ x (record { name = row.cluster_name; snapshot = s } ∷ cs)
      back s d cs k x (r, Memᴰ.head q, u, v) = Memᴰ.head (
          eta (sym u ∙ ap (λ (z : Row Bytes). z.cluster_name) q)
            (ok_eq (sym v ∙ (ap (λ (z : Row Bytes). json.unmarshal_snapshot z.bytes) q ∙ d))))
        where
          eta :
              x.name ≡ row.cluster_name
              → x.snapshot ≡ s
              → x ≡ record { name = row.cluster_name; snapshot = s }
          eta e f = cc
      back s d cs k x (r, Memᴰ.tail m, u, v) = Memᴰ.tail ((k x).1 (r, m, u, v))

  -- A row of the table is one that its name finds, so it shows the snapshot of its cluster.
  row_of :
      (t : Tables Bytes) (m : Model) (row : Row Bytes)
      → Shows json t m
      → Memᴰ row t.snapshots
      → (s : Snapshot) × (json.unmarshal_snapshot row.bytes ≡ ok s)
        × (m.snapshots row.cluster_name ≡ some s)
  row_of t m row h k = at (m.snapshots row.cluster_name) refl (
      subst (λ o. ShowsSnapshot json o (m.snapshots row.cluster_name))
        (mem-last_row t.snapshots h.0 k) (h.1 row.cluster_name))
    where
      at :
          (o : Option Snapshot)
          → m.snapshots row.cluster_name ≡ o
          → ShowsSnapshot json (some row) (m.snapshots row.cluster_name)
          → (s : Snapshot) × (json.unmarshal_snapshot row.bytes ≡ ok s)
            × (m.snapshots row.cluster_name ≡ some s)
      at none e d = elim (subst (λ o. ShowsSnapshot json (some row) o) e d) [ ]
      at (some s) e d = (s, subst (λ o. ShowsSnapshot json (some row) o) e d, e)

  found_row :
      (t : Tables Bytes) (m : Model) (name : String) (s : Snapshot)
      → Shows json t m
      → m.snapshots name ≡ some s
      → (row : Row Bytes) × Memᴰ row t.snapshots
        × (row.cluster_name ≡ name)
        × (json.unmarshal_snapshot row.bytes ≡ ok s)
  found_row t m name s h e =
      at (last_row name t.snapshots) refl
        (subst (λ o. ShowsSnapshot json (last_row name t.snapshots) o) e (h.1 name))
    where
      at :
          (o : Option (Row Bytes))
          → last_row name t.snapshots ≡ o
          → ShowsSnapshot json (last_row name t.snapshots) (some s)
          → (row : Row Bytes) × Memᴰ row t.snapshots
            × (row.cluster_name ≡ name)
            × (json.unmarshal_snapshot row.bytes ≡ ok s)
      at none f d = elim (subst (λ o. ShowsSnapshot json o (some s)) f d) [ ]
      at (some row) f d =
          let (k, n) = last_row-mem name t.snapshots f in
          (row, k, n, subst (λ o. ShowsSnapshot json o (some s)) f d)

  module _ (scans : Scans json) where
    clusters_of :
        (t : Tables Bytes) (m : Model)
        → Shows json t m
        → (cs : List ClusterSnapshot) × (get_clusters json none t ≡ ok cs)
          × ((c : ClusterSnapshot) → Memᴰ c cs ↔ (m.snapshots c.name ≡ some c.snapshot))
    unfolding get_clusters
    clusters_of t m h =
        let rows = json.scan t.snapshots in
        let p = scans t.snapshots in
        let (cs, e, k) = read_clusters_of rows (All-tabulate Readable rows (readable p)) in
        (cs, e, λ c. (λ n. to c ((k c).0 n), λ q. (k c).1 (back c q)))
      where
        readable :
            Permᴰ (json.scan t.snapshots) t.snapshots
            → (row : Row Bytes) → Memᴰ row (json.scan t.snapshots)
            → Readable row
        readable p row k = let (s, d, _) = row_of t m row h (mem-perm p k) in (s, d)

        to :
            (c : ClusterSnapshot)
            → IsRow (json.scan t.snapshots) c
            → m.snapshots c.name ≡ some c.snapshot
        to c (row, k, n, d) =
            let (s, d', q) = row_of t m row h (mem-perm (scans t.snapshots) k) in
            ap m.snapshots (sym n) ∙ q ∙ ap some (ok_eq (sym d' ∙ d))

        back :
            (c : ClusterSnapshot)
            → m.snapshots c.name ≡ some c.snapshot
            → IsRow (json.scan t.snapshots) c
        back c q =
            let (row, k, n, d) = found_row t m c.name c.snapshot h q in
            (row, mem-perm (Permᴰ.symm (scans t.snapshots)) k, n, d)

    Shows-Refines : (t : Tables Bytes) (m : Model) → Shows json t m → Refines json t m
    unfolding get_cluster_snapshot get_recoveries
    Shows-Refines t m h = (
      (λ name. scanned_of (last_row name t.snapshots) (m.snapshots name) (h.1 name)),
      (λ name.
          let (rs, k, p) =
            ShowsAll-perm (scans (rows_of name t.recoveries)) (m.recoveries name) (h.2 name) in
          (rs, read_recoveries_of (json.scan (rows_of name t.recoveries)) rs k, p)),
      clusters_of t m h,
    )

    -- However the driver answers the calls that write, the readers then see the two maps that the
    -- accepted calls make: for each cluster its last snapshot and, in some order, its recoveries, and
    -- a list of exactly the clusters that have a snapshot. This holds if JSON gives back the exported
    -- fields of what it writes, and the database returns every row once.
    pub effects-Refines :
        ReadsSnapshots json
        → ReadsRecoveries json
        → (calls : List Call)
        → Refines json (effects json calls no_tables) (updates json calls no_model)
    unfolding last_row rows_of filter
    effects-Refines reads reads_r calls =
        Shows-Refines (effects json calls no_tables) (updates json calls no_model)
          (updates-Shows json reads reads_r calls no_tables no_model none_shown)
      where
        none_shown : Shows json no_tables no_model
        none_shown = (tt, (λ name. tt), λ name. tt)
