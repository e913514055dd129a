-- ===== src/Http/Recovered.antt =====
-- From a failover to a client: `checkAndRecover` of internal/vshard/orchestrator/failover.go tells the
-- coordinator's callback of a recovery, the callback saves it, and the handler of a shard's recoveries
-- reads it.
use qumomf.Prelude.{
  String, ◌==◌, eq_refl, ◌≡◌, refl, ◌≢◌, sym, ◌∙◌, ◌⊎◌, inl, inr, Bool-cases, true, none, some,
  List, [], ◌∷◌, ◌++◌, Memᴰ, filter-mem, mem-perm, mem_append_left, mem_append_right,
}
use mathlib.Core.List.Permᴰ
use mathlib.Core.List.{Permᴰ}
use qumomf.Prelude.{ap, All, All-of_mem}
use mathlib.Core.Path.{subst}
use qumomf.Prelude.Sort.{Sorter}
use qumomf.Prelude.Result.{ok}
use qumomf.Vshard.Instance.{Instance}
use qumomf.Vshard.Cluster.{Cluster}
use qumomf.Orchestrator.Analysis.{ReplicationAnalysis}
use qumomf.Orchestrator.Recovery.{Recovery}
use qumomf.Orchestrator.World.{Env, World, Event, process, query, recovered, discovery}
use qumomf.Orchestrator.Failover.State.{Failover}
use qumomf.Orchestrator.Failover.Serve.{check_and_recover}
use qumomf.Orchestrator.Failover.Registers.{Promotes}
use qumomf.Orchestrator.Failover.Told.{check_and_recover-Tells}
use qumomf.Storage.{Backend, Tables, no_tables}
use qumomf.Coordinator.{on_cluster_recovered}
use qumomf.Storage.Service.{as_storage}
use qumomf.Storage.Refinement.{
  Call, saves_snapshot, saves_recovery, Model, no_model, ReadsSnapshots, ReadsRecoveries, Scans,
  effect, effects, accepted, update, updates,
}
use qumomf.Http.{Marshal, Params, marshalled, shard_recoveries}
use qumomf.Http.Stored.{effects-Answers}

-- The recoveries that the callback was told of.
abbrev pub recoveries_told : List Event → List Recovery
recoveries_told [] = []
recoveries_told (process c vs async ∷ es) = recoveries_told es
recoveries_told (query uri q ∷ es) = recoveries_told es
recoveries_told (recovered r ∷ es) = r ∷ recoveries_told es
recoveries_told (discovery ∷ es) = recoveries_told es

told_of : {r : Recovery} (es : List Event) → Memᴰ (recovered r) es → Memᴰ r (recoveries_told es)
told_of [] m = elim m [ ]
told_of (process c vs async ∷ es) (Memᴰ.head q) = cc
told_of (process c vs async ∷ es) (Memᴰ.tail m) = told_of es m
told_of (query uri q ∷ es) (Memᴰ.head e) = cc
told_of (query uri q ∷ es) (Memᴰ.tail m) = told_of es m
told_of (recovered x ∷ es) (Memᴰ.head q) = Memᴰ.head cc
told_of (recovered x ∷ es) (Memᴰ.tail m) = Memᴰ.tail (told_of es m)
told_of (discovery ∷ es) (Memᴰ.head q) = cc
told_of (discovery ∷ es) (Memᴰ.tail m) = told_of es m

module _ {Bytes : Type 0} (json : Backend Bytes) where
  -- The recovery can be written as JSON.
  abbrev pub Writes : Recovery → Type 0
  Writes r = (b : Bytes) × (json.marshal_recovery r ≡ ok b)

  -- What the tables may become while the callback runs once for each of some recoveries, in any order
  -- of them, and anything else is saved before, between and after. The database may refuse the other
  -- calls, but not those of the callback.
  pub data CallsBack : List Recovery → Tables Bytes → Tables Bytes → Type 0 where
    finished : (t : Tables Bytes) → CallsBack [] t t
    calls_back :
        (r : Recovery) (rs : List Recovery) (t t' : Tables Bytes)
        → CallsBack rs (on_cluster_recovered json none r t) t'
        → CallsBack (r ∷ rs) t t'
    saves :
        (c : Call) (rs : List Recovery) (t t' : Tables Bytes)
        → CallsBack rs (effect json c t) t'
        → CallsBack rs t t'

  module _ (r : Recovery) (name : String) where
    update-recoveries :
        (c : Call) (m : Model)
        → Memᴰ r (m.recoveries name)
        → Memᴰ r ((update json c m).recoveries name)
    update-recoveries (saves_snapshot refused n s) m k =
        elim (Bool-cases (accepted json refused (json.marshal_snapshot s))) [
          | inl e ↦ rw e k
          | inr e ↦ rw e k
        ]
    update-recoveries (saves_recovery refused x) m k =
        elim (Bool-cases (accepted json refused (json.marshal_recovery x))) [
          | inl e ↦ rw e (mem_append_left (m.recoveries name) _ k)
          | inr e ↦ rw e k
        ]

    updates-recoveries :
        (cs : List Call) (m : Model)
        → Memᴰ r (m.recoveries name)
        → Memᴰ r ((updates json cs m).recoveries name)
    updates-recoveries [] m k = k
    updates-recoveries (c ∷ cs) m k =
        updates-recoveries cs (update json c m) (update-recoveries c m k)

  saved :
      (r : Recovery) (m : Model)
      → Writes r
      → Memᴰ r ((update json (saves_recovery none r) m).recoveries r.cluster_name)
  saved r m (b, e) =
      rw (e, eq_refl r.cluster_name)
        (mem_append_right (m.recoveries r.cluster_name) _ (Memᴰ.head refl))

  -- A recovery that was saved stays in the map.
  saved-recoveries :
      (r : Recovery) (cs : List Call) (m : Model)
      → Writes r
      → Memᴰ (saves_recovery none r) cs
      → Memᴰ r ((updates json cs m).recoveries r.cluster_name)
  saved-recoveries r [] m writes k = elim k [ ]
  saved-recoveries r (c ∷ cs) m writes (Memᴰ.head q) =
      updates-recoveries r r.cluster_name cs (update json c m)
        (subst (λ c. Memᴰ r ((update json c m).recoveries r.cluster_name)) q (saved r m writes))
  saved-recoveries r (c ∷ cs) m writes (Memᴰ.tail k) =
      saved-recoveries r cs (update json c m) writes k

  -- The calls of the storage in such a run, with one for each recovery.
  calls_of :
      {rs : List Recovery} {t t' : Tables Bytes}
      → CallsBack rs t t'
      → (calls : List Call) × (effects json calls t ≡ t')
        × ((r : Recovery) → Memᴰ r rs → Memᴰ (saves_recovery none r) calls)
  unfolding effects effect on_cluster_recovered
  calls_of (CallsBack.finished t) = ([], refl, λ r m. elim m [ ])
  calls_of (CallsBack.calls_back x xs t t' run) =
      let (calls, e, k) = calls_of run in (saves_recovery none x ∷ calls, e, called x xs calls k)
    where
      called :
          (x : Recovery) (xs : List Recovery) (calls : List Call)
          → ((r : Recovery) → Memᴰ r xs → Memᴰ (saves_recovery none r) calls)
          → (r : Recovery) → Memᴰ r (x ∷ xs)
          → Memᴰ (saves_recovery none r) (saves_recovery none x ∷ calls)
      called x xs calls k r (Memᴰ.head q) = Memᴰ.head (ap (λ y. saves_recovery none y) q)
      called x xs calls k r (Memᴰ.tail m) = Memᴰ.tail (k r m)
  calls_of (CallsBack.saves c xs t t' run) =
      let (calls, e, k) = calls_of run in (c ∷ calls, e, λ r m. Memᴰ.tail (k r m))

  -- A client that asks for the recoveries of the replica set gets this one among them.
  abbrev pub IsServed : Marshal → Tables Bytes → Params → Recovery → Type 0
  IsServed marshal t p r =
      (rs : List Recovery) × Memᴰ r rs
      × (shard_recoveries marshal (as_storage json none t) p ≡ marshalled (marshal.recoveries rs))

  module _ (marshal : Marshal) (sorter : Sorter Instance) (env : Env) where
    -- After a check that called for a failover, either nothing was registered, or one recovery was,
    -- and a client that asks for the recoveries of the replica set of the failover's cluster gets it
    -- among them, once the coordinator's callback has run for every recovery that it was told of, in
    -- any order, and whatever else was saved meanwhile, from empty tables on. This holds if the
    -- failover has a callback, the database does not refuse what the callback saves, the recoveries
    -- that the callback was told of can be written as JSON, JSON gives back the exported fields of what
    -- it writes, neither of the two names is empty, and the database returns every row once and refuses
    -- none of the statements that read.
    pub failover-IsServed :
        ReadsSnapshots json
        → ReadsRecoveries json
        → Scans json
        → (c c' : Cluster) (f f' : Failover) (a : ReplicationAnalysis) (w w' : World)
          (told : List Recovery) (t : Tables Bytes) (p : Params)
        → Promotes sorter env a
        → f.notifies ≡ true
        → check_and_recover sorter c f a env w ≡ some ((c', f'), w')
        → Permᴰ (recoveries_told w'.trace) told
        → All Writes told
        → CallsBack told no_tables t
        → p.cluster_name ≡ f.cluster_name
        → p.shard_uuid ≡ a.set.uuid
        → p.cluster_name ≢ ""
        → p.shard_uuid ≢ ""
        → (f'.recoveries ≡ f.recoveries)
          ⊎ ((r : Recovery) × (f'.recoveries ≡ f.recoveries ++ r ∷ []) × IsServed marshal t p r)
    failover-IsServed reads reads_r scans c c' f f' a w w' told t p h n k perm writes run name uuid
          named has_uuid =
        elim (check_and_recover-Tells sorter env c f a w h n k) [
          | inl e ↦ inl e
          | inr (r, (l, event, set, cluster)) ↦
              let called : Memᴰ r told = mem-perm perm (told_of w'.trace event) in
              inr (
                r,
                l,
                served r called (All-of_mem Writes told writes called) set cluster (calls_of run),
              )
        ]
      where
        served :
            (r : Recovery)
            → Memᴰ r told
            → Writes r
            → r.set_uuid ≡ a.set.uuid
            → r.cluster_name ≡ f.cluster_name
            → (calls : List Call) × (effects json calls no_tables ≡ t)
              × ((r : Recovery) → Memᴰ r told → Memᴰ (saves_recovery none r) calls)
            → IsServed marshal t p r
        served r m write set cluster (calls, e, each) =
            let (_, (rs, q, shown)) =
              effects-Answers json marshal reads reads_r scans calls p named has_uuid in
            let there : Memᴰ r ((updates json calls no_model).recoveries p.cluster_name) =
              subst (λ n. Memᴰ r ((updates json calls no_model).recoveries n)) (cluster ∙ sym name)
                (saved-recoveries r calls no_model write (each r m)) in
            let of_set : (r.set_uuid == p.shard_uuid) ≡ true =
              subst (λ u. (r.set_uuid == u) ≡ true) (set ∙ sym uuid) (eq_refl r.set_uuid) in
            (
              rs,
              mem-perm (Permᴰ.symm q)
                  (filter-mem (λ (r : Recovery). r.set_uuid == p.shard_uuid) _ there of_set),
              subst
                  (λ t.
                    shard_recoveries marshal (as_storage json none t) p
                    ≡ marshalled (marshal.recoveries rs))
                  e shown,
            )
