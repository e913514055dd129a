-- ===== src/Vshard/Discovery/Outcome.antt =====
-- What a discovery's new snapshot says of the replica sets and the instances.
use qumomf.Prelude.{
  String, ◌≡◌, refl, sym, ap, true, false, Option, none, some, some_eq, List, [], ◌∷◌, Memᴰ, Permᴰ,
  All, All-perm,
}
use mathlib.Core.Path.{subst}
use qumomf.Prelude.Result.{Result, ok, err, ◌>>=◌}
use qumomf.Prelude.Dict.{Dict}
use qumomf.Vshard.Error.{Error}
use qumomf.Vshard.Instance.{Instance, InstanceInfo}
use qumomf.Vshard.Router.{Router, RouterInfo, RouterInstanceParameters}
use qumomf.Vshard.ReplicaSet.{ReplicaSet}
use qumomf.Vshard.Snapshot.{Snapshot, copy}
use qumomf.Vshard.Cluster.{Cluster}
use qumomf.Vshard.Parser.Router.{parse_router_info}
use qumomf.Vshard.Parser.Storage.{parse_instance_info}
use qumomf.Vshard.Discovery.{
  Answers, pick_up_random_router, update_instance, discover_instance, discover_instances,
  topology_for, discover_set, discover_sets, probe, set_from, cons_if, probe_with, probed,
}

abbrev pub checked_info : Answers → Instance → Result Error InstanceInfo
checked_info a i = a.instance_info i.uuid i.uri >>= λ resp. parse_instance_info resp

-- The instance shows what its node has replied: a check that is valid shows the reply, and one that
-- is not follows a query that failed or a reply that could not be read.
abbrev pub Shows : Instance → Result Error InstanceInfo → Type 0
Shows i (ok info) =
    (i.last_check_valid ≡ true)
    × (i.readonly ≡ info.readonly)
    × (i.storage_info ≡ info.storage_info)
    × (i.vshard_fingerprint ≡ info.vshard_fingerprint)
Shows i (err e) = i.last_check_valid ≡ false

abbrev pub IsChecked : Answers → Instance → Type 0
IsChecked a i = Shows i (checked_info a i)

discover_instance-IsChecked : (a : Answers) (i : Instance) → IsChecked a (discover_instance a i)
unfolding discover_instance
discover_instance-IsChecked a i = rw (asked (checked_info a i)) (shown (checked_info a i))
  where
    asked :
        (r : Result Error InstanceInfo)
        → a.instance_info (update_instance i r).uuid (update_instance i r).uri
          ≡ a.instance_info i.uuid i.uri
    asked (ok info) = refl
    asked (err e) = refl

    shown : (r : Result Error InstanceInfo) → Shows (update_instance i r) r
    shown (ok info) = (refl, refl, refl, refl)
    shown (err e) = refl

discover_instances-IsChecked :
    (a : Answers) (is : List Instance) → All (IsChecked a) (discover_instances a is)
unfolding discover_instances
discover_instances-IsChecked a [] = tt
discover_instances-IsChecked a (i ∷ is) =
    (discover_instance-IsChecked a i, discover_instances-IsChecked a is)

-- The replica set is one of the router's, with the master that the router names, and all of its
-- instances were asked.
abbrev pub IsDiscovered : Answers → Dict RouterInstanceParameters → ReplicaSet → Type 0
IsDiscovered a ms set =
    (master : RouterInstanceParameters) × Memᴰ (set.uuid, master) ms
    × (set.master_uuid ≡ master.uuid)
    × (set.master_uri ≡ master.uri)
    × All (IsChecked a) set.instances

joined :
    {P : ReplicaSet → Type 0} (o : Option ReplicaSet) (sets : List ReplicaSet)
    → ((set : ReplicaSet) → o ≡ some set → P set)
    → All P sets
    → All P (cons_if o sets)
joined none sets p h = h
joined (some set) sets p h = (p set refl, h)

set_from-IsDiscovered :
    (a : Answers) (ms : Dict RouterInstanceParameters) (uuid : String)
    (master : RouterInstanceParameters) (t : Option (List Instance))
    → Memᴰ (uuid, master) ms
    → (set : ReplicaSet) → set_from a uuid master t ≡ some set
    → IsDiscovered a ms set
set_from-IsDiscovered a ms uuid master none m set e = cc
set_from-IsDiscovered a ms uuid master (some is) m set e =
    subst (IsDiscovered a ms) (some_eq e) (master, m, refl, refl, discover_instances-IsChecked a is)

sets-IsDiscovered :
    (a : Answers) (s : Snapshot) (ms : Dict RouterInstanceParameters)
    → All (IsDiscovered a ms) (discover_sets a s ms)
unfolding discover_sets discover_set
sets-IsDiscovered a s ms = from ms (λ p m. m)
  where
    from :
        (ns : Dict RouterInstanceParameters)
        → ((p : String × RouterInstanceParameters) → Memᴰ p ns → Memᴰ p ms)
        → All (IsDiscovered a ms) (discover_sets a s ns)
    from [] f = tt
    from ((uuid, master) ∷ ns) f =
        joined {P = IsDiscovered a ms} (set_from a uuid master (topology_for a s uuid master))
          (discover_sets a s ns)
          (set_from-IsDiscovered a ms uuid master (topology_for a s uuid master)
            (f (uuid, master) (Memᴰ.head refl)))
          (from ns (λ p m. f p (Memᴰ.tail m)))

module _ (a : Answers) (order : List ReplicaSet → List ReplicaSet) where
  -- What the router that was picked reports.
  abbrev pub reported : Router → Result Error RouterInfo
  reported router = a.router_info router.uri >>= λ resp. parse_router_info resp

  -- A router was picked and its report was read, and the snapshot follows the report.
  abbrev pub HasReport : Cluster → Snapshot → Type 0
  HasReport c ns =
      (router : Router) × (info : RouterInfo) × (pick_up_random_router a c.snapshot.routers
        ≡ some router)
      × (reported router ≡ ok info)
      × (ns.created ≡ a.created)
      × All (IsDiscovered a info.replica_sets) ns.replica_sets

  -- A discovery that makes a new snapshot has picked a router and read its report, whatever the
  -- order in which the replica sets arrive: each set of the snapshot is one of the report, with the
  -- master that the report names, and each of its instances shows what its own node replied.
  pub probe-IsDiscovered :
      (c : Cluster) (ns : Snapshot)
      → ((sets : List ReplicaSet) → Permᴰ sets (order sets))
      → probe a order c ≡ some ns
      → HasReport c ns
  unfolding probe copy
  probe-IsDiscovered c ns perm h = picked (pick_up_random_router a c.snapshot.routers) refl h
    where
      made :
          (router : Router) (r : Result Error RouterInfo)
          → pick_up_random_router a c.snapshot.routers ≡ some router
          → reported router ≡ r
          → probed a order (copy c.snapshot) router r ≡ some ns
          → HasReport c ns
      made router (err e) p q k = cc
      made router (ok info) p q k = (
        router,
        info,
        p,
        q,
        ap (λ (x : Snapshot). x.created) (sym (some_eq k)),
        subst (λ (x : Snapshot). All (IsDiscovered a info.replica_sets) x.replica_sets) (some_eq k)
            (All-perm (IsDiscovered a info.replica_sets)
              (perm (discover_sets a (copy c.snapshot) info.replica_sets))
              (sets-IsDiscovered a (copy c.snapshot) info.replica_sets)),
      )

      picked :
          (o : Option Router)
          → pick_up_random_router a c.snapshot.routers ≡ o
          → probe_with a order (copy c.snapshot) o ≡ some ns
          → HasReport c ns
      picked none p k = cc
      picked (some router) p k = made router (reported router) p refl k
