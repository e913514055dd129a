-- ===== src/Coordinator/Registration.antt =====
-- The clusters of a coordinator and its queue of shutdown tasks.
use qumomf.Prelude.{
  ℕ, String, ◌==◌, eq_iff, ◌≡◌, refl, sym, ap, ◌∙◌, ◌≢◌, Bool-cases, inl, inr, Option, none, some,
  some_eq, List, [], ◌∷◌, ◌++◌, All, Ordered, if◌then◌else◌, is_some,
}
use mathlib.Core.Path.{subst}
use qumomf.Prelude.Int.{ℤ}
use qumomf.Prelude.Float.{Float64}
use qumomf.Prelude.Dict.{Dict, lookup, insert}
use qumomf.Prelude.Result.{Result, ok, err}
use qumomf.Config.{ClusterConfig}
use qumomf.Config.Setup.{Qumomf}
use qumomf.Storage.Rows.{not-eq, both}
use qumomf.Coordinator.{
  Error, cluster_already_exist, ShutdownTask, cluster_shutdown, monitor_shutdown, failover_shutdown,
  Parts, Coordinator, add_shutdown_task, new_parts, registered, register_cluster, shutdown_from,
  shutdown,
}

abbrev pub Missing : {Value : Type 0} → String → Dict Value → Type 0
Missing {Value} name entries = All (λ (e : String × Value). e.0 ≢ name) entries

-- Every name stands once.
abbrev pub HasUniqueNames : {Value : Type 0} → Dict Value → Type 0
HasUniqueNames {Value} entries = Ordered (λ (a b : String × Value). b.0 ≢ a.0) entries

pub lookup-Missing :
    {Value : Type 0} (name : String) (entries : Dict Value)
    → Missing name entries
    → lookup name entries ≡ none
unfolding lookup
lookup-Missing name [] h = refl
lookup-Missing name (e ∷ es) h = rw (not-eq (e.0) name h.0) (lookup-Missing name es h.1)

Missing-lookup :
    {Value : Type 0} (name : String) (entries : Dict Value)
    → lookup name entries ≡ none
    → Missing name entries
unfolding lookup
Missing-lookup name [] h = tt
Missing-lookup name (e ∷ es) h = elim (Bool-cases (e.0 == name)) [
  | inl t ↦
      elim (some_none (subst (λ b. (if b then some (e.1) else lookup name es) ≡ none) t h)) [ ]
  | inr f ↦ (
    (λ q. both ((eq_iff (e.0) name).1 q) f),
    Missing-lookup name es (subst (λ b. (if b then some (e.1) else lookup name es) ≡ none) f h),
  )
]
  where
    some_none : {A : Type 0} {a : A} → some a ≡ none → ⊥
    some_none q = cc

-- A new name is added at the end.
pub insert-Missing :
    {Value : Type 0} (name : String) (v : Value) (entries : Dict Value)
    → Missing name entries
    → insert name v entries ≡ entries ++ (name, v) ∷ []
unfolding insert
insert-Missing name v [] h = refl
insert-Missing name v (e ∷ es) h =
    rw (not-eq (e.0) name h.0) (ap (λ rest. e ∷ rest) (insert-Missing name v es h.1))

append-HasUniqueNames :
    {Value : Type 0} (name : String) (v : Value) (entries : Dict Value)
    → Missing name entries
    → HasUniqueNames entries
    → HasUniqueNames (entries ++ (name, v) ∷ [])
append-HasUniqueNames name v [] h u = (tt, tt)
append-HasUniqueNames {Value} name v (e ∷ es) h u =
    (more es u.0, append-HasUniqueNames name v es h.1 u.1)
  where
    more :
        (es : Dict Value)
        → All (λ (b : String × Value). b.0 ≢ e.0) es
        → All (λ (b : String × Value). b.0 ≢ e.0) (es ++ (name, v) ∷ [])
    more [] k = ((λ q. h.0 (sym q)), tt)
    more (x ∷ xs) k = (k.0, more xs k.1)

-- What the registrations have queued, and what is to be run.
abbrev pub tasks_of : Dict Parts → List ShutdownTask
tasks_of [] = []
tasks_of ((name, parts) ∷ rest) =
    cluster_shutdown name ∷ monitor_shutdown name ∷ failover_shutdown name ∷ tasks_of rest

-- The last cluster stops first, and of each cluster its failover, its monitor and then the pool of its
-- connections.
abbrev pub stops : Dict Parts → List ShutdownTask
stops [] = []
stops ((name, parts) ∷ rest) =
    stops rest ++ failover_shutdown name ∷ monitor_shutdown name ∷ cluster_shutdown name ∷ []

-- The names are unique, and the queue holds the tasks of each cluster in the order of registration.
abbrev pub IsConsistent : Coordinator → Type 0
IsConsistent c = HasUniqueNames c.clusters × (c.shutdown_queue ≡ tasks_of c.clusters)

pub append_assoc : {A : Type 0} (xs ys zs : List A) → (xs ++ ys) ++ zs ≡ xs ++ (ys ++ zs)
append_assoc [] ys zs = refl
append_assoc (x ∷ xs) ys zs = ap (λ rest. x ∷ rest) (append_assoc xs ys zs)

pub append_nil : {A : Type 0} (xs : List A) → xs ++ [] ≡ xs
append_nil [] = refl
append_nil (x ∷ xs) = ap (λ rest. x ∷ rest) (append_nil xs)

tasks_of-append :
    (entries : Dict Parts) (name : String) (parts : Parts)
    → tasks_of (entries ++ (name, parts) ∷ [])
      ≡ tasks_of entries
        ++ cluster_shutdown name ∷ monitor_shutdown name ∷ failover_shutdown name ∷ []
tasks_of-append [] name parts = refl
tasks_of-append ((n, p) ∷ rest) name parts =
    ap (λ ts. cluster_shutdown n ∷ monitor_shutdown n ∷ failover_shutdown n ∷ ts)
      (tasks_of-append rest name parts)

shutdown_from-append :
    (xs ys : List ShutdownTask) → shutdown_from (xs ++ ys) ≡ shutdown_from ys ++ shutdown_from xs
unfolding shutdown_from
shutdown_from-append [] ys = sym (append_nil (shutdown_from ys))
shutdown_from-append (x ∷ xs) ys =
    ap (λ ts. ts ++ x ∷ []) (shutdown_from-append xs ys)
    ∙ append_assoc (shutdown_from ys) (shutdown_from xs) (x ∷ [])

shutdown_tasks : (entries : Dict Parts) → shutdown_from (tasks_of entries) ≡ stops entries
unfolding shutdown_from
shutdown_tasks [] = refl
shutdown_tasks ((name, parts) ∷ rest) =
    ap
      (λ ts.
        ((ts ++ failover_shutdown name ∷ []) ++ monitor_shutdown name ∷ [])
        ++ cluster_shutdown name ∷ [])
      (shutdown_tasks rest)
    ∙ (ap (λ ts. ts ++ cluster_shutdown name ∷ [])
          (append_assoc (stops rest) (failover_shutdown name ∷ []) (monitor_shutdown name ∷ []))
        ∙ append_assoc (stops rest) (failover_shutdown name ∷ monitor_shutdown name ∷ [])
            (cluster_shutdown name ∷ []))

-- A second registration of a name is refused and changes nothing; the first one adds the cluster.
abbrev pub Registers : String → Coordinator → Result Error Unit → Coordinator → Type 0
Registers name c (err cluster_already_exist) c' =
    (c' ≡ c) × ((parts : Parts) × (lookup name c.clusters ≡ some parts))
Registers name c (ok u) c' =
    Missing name c.clusters × ((parts : Parts) × (c'.clusters ≡ c.clusters ++ (name, parts) ∷ []))

module _ (seconds : ℕ → Float64) (now : ℤ) where
  registered-IsConsistent :
      (name : String) (c c' : Coordinator) (o : Option Parts) (r : Result Error Unit)
      → Missing name c.clusters
      → IsConsistent c
      → registered seconds now name c o ≡ some (r, c')
      → IsConsistent c' × Registers name c r c'
  unfolding registered add_shutdown_task
  registered-IsConsistent name c c' none r m h e = cc
  registered-IsConsistent name c c' (some parts) r m h e =
      subst (λ (x : Result Error Unit × Coordinator). IsConsistent x.1 × Registers name c x.0 x.1)
        (some_eq e) ((unique, queued), (m, (parts, inserted)))
    where
      inserted : insert name parts c.clusters ≡ c.clusters ++ (name, parts) ∷ []
      inserted = insert-Missing name parts c.clusters m

      unique : HasUniqueNames (insert name parts c.clusters)
      unique =
          subst (λ (d : Dict Parts). HasUniqueNames d) (sym inserted)
            (append-HasUniqueNames name parts c.clusters m h.0)

      queued :
          ((c.shutdown_queue ++ cluster_shutdown name ∷ []) ++ monitor_shutdown name ∷ [])
            ++ failover_shutdown name ∷ []
          ≡ tasks_of (insert name parts c.clusters)
      queued =
          append_assoc (c.shutdown_queue ++ cluster_shutdown name ∷ []) (monitor_shutdown name ∷ [])
            (failover_shutdown name ∷ [])
          ∙ (append_assoc c.shutdown_queue (cluster_shutdown name ∷ [])
                (monitor_shutdown name ∷ failover_shutdown name ∷ [])
              ∙ (ap
                    (λ ts.
                      ts
                      ++ cluster_shutdown name
                        ∷ monitor_shutdown name
                        ∷ failover_shutdown name
                        ∷ [])
                    h.1
                  ∙ (sym (tasks_of-append c.clusters name parts) ∙ ap tasks_of (sym inserted))))

  -- A registration that does not panic keeps the names unique and the queue in the order of
  -- registration; it is refused, and changes nothing, exactly if the name is taken.
  pub register_cluster-IsConsistent :
      (name : String) (cfg : ClusterConfig) (q : Qumomf) (c c' : Coordinator)
      (r : Result Error Unit)
      → IsConsistent c
      → register_cluster seconds now name cfg q c ≡ some (r, c')
      → IsConsistent c' × Registers name c r c'
  unfolding register_cluster
  register_cluster-IsConsistent name cfg q c c' r h e = at (lookup name c.clusters) refl e
    where
      at :
          (o : Option Parts)
          → lookup name c.clusters ≡ o
          → (if is_some o
              then some (err cluster_already_exist, c)
              else registered seconds now name c (new_parts seconds now name cfg q))
            ≡ some (r, c')
          → IsConsistent c' × Registers name c r c'
      at none m k =
          registered-IsConsistent name c c' (new_parts seconds now name cfg q) r
            (Missing-lookup name c.clusters m) h k
      at (some parts) m k =
          subst
            (λ (x : Result Error Unit × Coordinator). IsConsistent x.1 × Registers name c x.0 x.1)
            (some_eq k) (h, (refl, (parts, m)))

-- The tasks of a consistent coordinator stop its clusters in the reverse order of registration.
pub shutdown_lem : (c : Coordinator) → IsConsistent c → shutdown c ≡ stops c.clusters
unfolding shutdown
shutdown_lem c h = ap shutdown_from h.1 ∙ shutdown_tasks c.clusters
