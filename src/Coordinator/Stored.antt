-- ===== src/Coordinator/Stored.antt =====
-- What the storage shows of a cluster when its snapshots are saved in the order in which the cluster
-- installs them. Each save runs on its own, so the program does not promise this order.
use qumomf.Prelude.{
  String, eq_refl, ◌≡◌, refl, sym, ap, ◌∙◌, true, false, Bool-cases, inl, inr, Option, none, some,
  List, [], ◌∷◌, ◌++◌, Memᴰ, mem_append_right, arith,
}
use mathlib.Core.Path.{subst}
use qumomf.Prelude.Int.{ltb_ℤ, ◌≤ℤ◌}
use qumomf.Prelude.Result.{ok}
use qumomf.Vshard.Snapshot.{Snapshot, update_priorities}
use qumomf.Vshard.Cluster.{Cluster}
use qumomf.Vshard.Discovery.{commit}
use qumomf.Vshard.Discovery.Report.{on_discovered}
use qumomf.Storage.{Backend, no_tables, get_cluster_snapshot}
use qumomf.Storage.Refinement.{
  Call, saves_snapshot, Model, no_model, exported, found, ReadsSnapshots, ReadsRecoveries, Scans,
  effects, update, updates,
}
use qumomf.Storage.Refinement.Reads.{effects-Refines}

abbrev call_of : String → Option Snapshot → List Call
call_of name none = []
call_of name (some s) = saves_snapshot none name s ∷ []

-- The cluster after some discoveries, and the calls of its callback in order.
unfoldable pub commits : List Snapshot → Cluster → Cluster
commits [] c = c
commits (ns ∷ nss) c = commits nss (commit ns c)

unfoldable pub saves : List Snapshot → Cluster → List Call
saves [] c = []
saves (ns ∷ nss) c = call_of c.name (on_discovered true ns c) ++ saves nss (commit ns c)

module _ {Bytes : Type 0} (json : Backend Bytes) where
  -- The snapshot can be written as JSON.
  abbrev pub Writes : Snapshot → Type 0
  Writes s = (b : Bytes) × (json.marshal_snapshot s ≡ ok b)

  -- Every snapshot that a call saves can.
  abbrev pub WritesAll : List Call → Type 0
  WritesAll calls =
      (name : String) (s : Snapshot) → Memᴰ (saves_snapshot none name s) calls → Writes s

  -- A discovery that is too old changes nothing and tells nothing.
  too_old :
      (ns : Snapshot) (c : Cluster)
      → ltb_ℤ ns.created c.snapshot.created ≡ true
      → (commit ns c ≡ c) × (on_discovered true ns c ≡ none)
  unfolding commit on_discovered
  too_old ns c e = (rw e refl, rw e refl)

  -- Any other one tells what it installs.
  installed :
      (ns : Snapshot) (c : Cluster)
      → ltb_ℤ ns.created c.snapshot.created ≡ false
      → (commit ns c ≡ record c { snapshot = update_priorities c.snapshot.priorities ns })
        × (on_discovered true ns c ≡ some (update_priorities c.snapshot.priorities ns))
  unfolding commit on_discovered
  installed ns c e = (rw e refl, rw e refl)

  -- A call that is accepted stores what it is given.
  stored :
      (name : String) (s : Snapshot) (m : Model)
      → Writes s
      → (update json (saves_snapshot none name s) m).snapshots name ≡ some (exported s)
  stored name s m (b, e) = rw (e, eq_refl name) refl

  -- The maps show the cluster's snapshot.
  abbrev ShowsCluster : Model → Cluster → Type 0
  ShowsCluster m c = m.snapshots c.name ≡ some (exported c.snapshot)

  step-ShowsCluster :
      (ns : Snapshot) (nss : List Snapshot) (c : Cluster) (m : Model) (c' : Cluster)
      (o : Option Snapshot)
      → (commit ns c ≡ c') × (on_discovered true ns c ≡ o)
      → ShowsCluster (updates json (call_of c.name o ++ saves nss c') m) (commits nss c')
      → ShowsCluster (updates json (saves (ns ∷ nss) c) m) (commits (ns ∷ nss) c)
  unfolding saves commits
  step-ShowsCluster ns nss c m c' o (k, l) g =
      subst
        (λ x.
          ShowsCluster (updates json (call_of c.name (on_discovered true ns c) ++ saves nss x) m)
            (commits nss x))
        (sym k)
        (subst
          (λ x. ShowsCluster (updates json (call_of c.name x ++ saves nss c') m) (commits nss c'))
          (sym l) g)

  -- The calls after the first discovery, and the call of the first, are among all calls.
  saves_later :
      (ns : Snapshot) (nss : List Snapshot) (c c' : Cluster) (o : Option Snapshot)
      → (commit ns c ≡ c') × (on_discovered true ns c ≡ o)
      → WritesAll (saves (ns ∷ nss) c)
      → WritesAll (saves nss c')
  unfolding saves
  saves_later ns nss c c' o (k, l) writes name s m = writes name s (
      mem_append_right (call_of c.name (on_discovered true ns c)) _
        (subst (λ x. Memᴰ (saves_snapshot none name s) (saves nss x)) (sym k) m))

  saves_first :
      (ns : Snapshot) (nss : List Snapshot) (c c' : Cluster) (s : Snapshot)
      → (commit ns c ≡ c') × (on_discovered true ns c ≡ some s)
      → WritesAll (saves (ns ∷ nss) c)
      → Writes s
  unfolding saves
  saves_first ns nss c c' s (k, l) writes = writes c.name s (
      subst (λ o. Memᴰ (saves_snapshot none c.name s) (call_of c.name o ++ saves nss (commit ns c)))
        (sym l) (Memᴰ.head refl))

  saves-ShowsCluster :
      (nss : List Snapshot) (c : Cluster) (m : Model)
      → WritesAll (saves nss c)
      → ShowsCluster m c
      → ShowsCluster (updates json (saves nss c) m) (commits nss c)
  unfolding saves commits
  saves-ShowsCluster [] c m writes h = h
  saves-ShowsCluster (ns ∷ nss) c m writes h =
      elim (Bool-cases (ltb_ℤ ns.created c.snapshot.created)) [
        | inl e ↦
            step-ShowsCluster ns nss c m c none (too_old ns c e)
              (saves-ShowsCluster nss c m (saves_later ns nss c c none (too_old ns c e) writes) h)
        | inr e ↦
            let s = update_priorities c.snapshot.priorities ns in
            step-ShowsCluster ns nss c m (record c { snapshot = s }) (some s) (installed ns c e)
              (saves-ShowsCluster nss (record c { snapshot = s })
                (update json (saves_snapshot none c.name s) m)
                (saves_later ns nss c (record c { snapshot = s }) (some s) (installed ns c e)
                  writes)
                (stored c.name s m
                  (saves_first ns nss c (record c { snapshot = s }) s (installed ns c e) writes)))
      ]

  -- If the snapshots of a cluster are saved in the order in which it installs them, every save is
  -- accepted, and the cluster has installed one since the tables were made, then the storage shows
  -- the exported fields of the cluster's own snapshot. This holds if every snapshot that is saved can be
  -- written as JSON, JSON gives back the exported fields of what it writes, and the database returns every row
  -- once.
  pub saves-shown :
      ReadsSnapshots json
      → ReadsRecoveries json
      → Scans json
      → (c : Cluster) (ns : Snapshot) (nss : List Snapshot) → WritesAll (saves (ns ∷ nss) c)
      → c.snapshot.created ≤ℤ ns.created
      → get_cluster_snapshot json none
          (commits (ns ∷ nss) c).name
          (effects json (saves (ns ∷ nss) c) no_tables)
        ≡ ok (exported (commits (ns ∷ nss) c).snapshot)
  saves-shown reads reads_r scans c ns nss writes h =
      (effects-Refines json scans reads reads_r (saves (ns ∷ nss) c)).0 (commits (ns ∷ nss) c).name
      ∙ ap found shows
    where
      fresh : ltb_ℤ ns.created c.snapshot.created ≡ false
      fresh = ground arith

      shows : ShowsCluster (updates json (saves (ns ∷ nss) c) no_model) (commits (ns ∷ nss) c)
      shows =
          let s = update_priorities c.snapshot.priorities ns in
          step-ShowsCluster ns nss c no_model (record c { snapshot = s }) (some s)
            (installed ns c fresh)
            (saves-ShowsCluster nss (record c { snapshot = s })
              (update json (saves_snapshot none c.name s) no_model)
              (saves_later ns nss c (record c { snapshot = s }) (some s) (installed ns c fresh)
                writes)
              (stored c.name s no_model
                (saves_first ns nss c (record c { snapshot = s }) s (installed ns c fresh) writes)))
