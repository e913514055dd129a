-- ===== src/Vshard/Discovery/Priorities.antt =====
-- What discoveries and the other operations of a cluster keep, in any order: the priorities of its
-- instances, and the direction of time.
use qumomf.Prelude.{
  String, ◌≡◌, refl, sym, Bool, Bool-cases, inl, inr, List, [], ◌∷◌, map, All, arith,
}
use mathlib.Core.Path.{subst}
use qumomf.Prelude.Int.{ℤ, ltb_ℤ, ◌≤ℤ◌}
use qumomf.Prelude.{Option, none, some}
use qumomf.Prelude.Dict.{Dict, lookup}
use qumomf.Vshard.Instance.{Instance}
use qumomf.Vshard.ReplicaSet.{ReplicaSet}
use qumomf.Vshard.Snapshot.{Snapshot, priority_or, prioritise, prioritise_set, update_priorities}
use qumomf.Vshard.Cluster.{
  Cluster, new_cluster, set_priorities, set_read_only, start_recovery, stop_recovery,
}
use qumomf.Vshard.Discovery.{Answers, commit, commit_if, probe, discover}

-- The instance has the priority that a table says.
abbrev pub HasPriority : Dict ℤ → Instance → Type 0
HasPriority priorities i = i.priority ≡ priority_or (lookup i.uuid priorities)

-- The snapshot has the table and shows it.
abbrev pub IsPrioritised : Dict ℤ → Snapshot → Type 0
IsPrioritised d s =
    (s.priorities ≡ d)
    × All (λ (set : ReplicaSet). All (HasPriority d) set.instances) s.replica_sets

prioritised_instances :
    (d : Dict ℤ) (is : List Instance) → All (HasPriority d) (map (prioritise d) is)
unfolding prioritise
prioritised_instances d [] = tt
prioritised_instances d (i ∷ is) = (refl, prioritised_instances d is)

prioritised_sets :
    (d : Dict ℤ) (sets : List ReplicaSet)
    → All (λ (set : ReplicaSet). All (HasPriority d) set.instances) (map (prioritise_set d) sets)
unfolding prioritise_set
prioritised_sets d [] = tt
prioritised_sets d (set ∷ sets) = (prioritised_instances d set.instances, prioritised_sets d sets)

update_priorities-IsPrioritised :
    (d : Dict ℤ) (s : Snapshot) → IsPrioritised d (update_priorities d s)
unfolding update_priorities
update_priorities-IsPrioritised d s = (refl, prioritised_sets d s.replica_sets)

-- One operation on a cluster. A discovery may have begun at any earlier state.
pub data Step : Cluster → Cluster → Type 0 where
  discovered :
      (a : Answers) (order : List ReplicaSet → List ReplicaSet) (start c : Cluster)
      → Step c (discover a order start c)
  prioritised : (d : Dict ℤ) (c : Cluster) → Step c (set_priorities d c)
  switched : (v : Bool) (c : Cluster) → Step c (set_read_only v c)
  started : (c : Cluster) → Step c (start_recovery c)
  stopped : (c : Cluster) → Step c (stop_recovery c)

pub data Reaches : Cluster → Cluster → Type 0 where
  here : (c : Cluster) → Reaches c c
  there : {a b c : Cluster} → Reaches a b → Step b c → Reaches a c

-- The table that was configured last.
abbrev pub after_step : {b c : Cluster} → Step b c → Dict ℤ → Dict ℤ
after_step (prioritised d c) old = d
after_step (discovered a order start c) old = old
after_step (switched v c) old = old
after_step (started c) old = old
after_step (stopped c) old = old

abbrev pub configured : {b c : Cluster} → Reaches b c → Dict ℤ → Dict ℤ
configured (here c) d = d
configured (there r s) d = after_step s (configured r d)

commit-IsPrioritised :
    (ns : Snapshot) (c : Cluster) (d : Dict ℤ)
    → IsPrioritised d c.snapshot
    → IsPrioritised d (commit ns c).snapshot
unfolding commit
commit-IsPrioritised ns c d h = elim (Bool-cases (ltb_ℤ ns.created c.snapshot.created)) [
  | inl e ↦ rw e h
  | inr e ↦ rw e (
      subst (λ t. IsPrioritised d (update_priorities t ns)) (sym h.0)
        (update_priorities-IsPrioritised d ns))
]

commit-created :
    (ns : Snapshot) (c : Cluster) → c.snapshot.created ≤ℤ (commit ns c).snapshot.created
unfolding commit update_priorities
commit-created ns c = elim (Bool-cases (ltb_ℤ ns.created c.snapshot.created)) [
  | inl e ↦ rw e (omega arith)
  | inr e ↦ rw e (ground arith)
]

Step-IsPrioritised :
    {b c : Cluster} (step : Step b c) (d : Dict ℤ)
    → IsPrioritised d b.snapshot
    → IsPrioritised (after_step step d) c.snapshot
unfolding discover set_priorities set_read_only start_recovery stop_recovery
Step-IsPrioritised (discovered a order start c) d h = at (probe a order start)
  where
    at : (p : Option Snapshot) → IsPrioritised d (commit_if p c).snapshot
    at none = h
    at (some ns) = commit-IsPrioritised ns c d h
Step-IsPrioritised (prioritised new c) d h = update_priorities-IsPrioritised new c.snapshot
Step-IsPrioritised (switched v c) d h = h
Step-IsPrioritised (started c) d h = h
Step-IsPrioritised (stopped c) d h = h

step-created : {b c : Cluster} → Step b c → b.snapshot.created ≤ℤ c.snapshot.created
unfolding discover set_priorities set_read_only start_recovery stop_recovery update_priorities
step-created (discovered a order start c) = at (probe a order start)
  where
    at : (p : Option Snapshot) → c.snapshot.created ≤ℤ (commit_if p c).snapshot.created
    at none = omega arith
    at (some ns) = commit-created ns c
step-created (prioritised d c) = omega arith
step-created (switched v c) = omega arith
step-created (started c) = omega arith
step-created (stopped c) = omega arith

Reaches-IsPrioritised :
    {b c : Cluster} (r : Reaches b c) (d : Dict ℤ)
    → IsPrioritised d b.snapshot
    → IsPrioritised (configured r d) c.snapshot
Reaches-IsPrioritised (here c) d h = h
Reaches-IsPrioritised (there r s) d h =
    Step-IsPrioritised s (configured r d) (Reaches-IsPrioritised r d h)

-- Whatever discoveries, switches and recoveries a new cluster goes through, its snapshot has the
-- table of priorities that was configured last, at its creation or by a later change, and every
-- instance of the snapshot has the priority that this table gives it, or 0.
pub new_cluster-IsPrioritised :
    (name : String) (read_only : Bool) (d : Dict ℤ) (addresses : List String) (now : ℤ)
    {c : Cluster} (r : Reaches (new_cluster name read_only d addresses now) c)
    → IsPrioritised (configured r d) c.snapshot
unfolding new_cluster update_priorities
new_cluster-IsPrioritised name read_only d addresses now r = Reaches-IsPrioritised r d (refl, tt)

-- No sequence of operations, with discoveries that overlap in any way, replaces a snapshot by one
-- that was made earlier.
pub reaches-created : {b c : Cluster} → Reaches b c → b.snapshot.created ≤ℤ c.snapshot.created
reaches-created (here c) = omega arith
reaches-created (there r s) = omega (arith, reaches-created r, step-created s)
