-- ===== src/Vshard/ReplicaSet.antt =====
-- internal/vshard/replicaset.go: a replica set in regard to its current master.
pub mod Laws
pub mod Matched
pub mod Same
use Prim.Native.String.{compare}
use text.Mathlib.Text.{is_lt}
use qumomf.Prelude.{
  ℕ, String, ◌==◌, Bool, true, false, ◌&&◌, not, Option, none, some, List, [], ◌∷◌, filter, find,
  length, eqb, if◌then◌else◌,
}
use qumomf.Prelude.Int.{ℤ}
use qumomf.Prelude.Sort.{Sorter}
use qumomf.Prelude.Result.{Result, ok, err}
use qumomf.Vshard.Error.{Error, master_not_found}
use qumomf.Vshard.Instance.{
  InstanceUuid, ReplicaSetUuid, Instance, Upstream, Downstream, HealthLevel, unknown,
  health_code_unknown, critical_code, critical_level, same_instance, upstream_disconnected,
  upstream_stopped, downstream_stopped,
}

pub record ReplicaSet : Type 0 where
  pub uuid : ReplicaSetUuid
  pub master_uuid : InstanceUuid
  pub master_uri : String
  pub instances : List Instance

-- `ReplicaSet{}`
abbrev pub zero_set : ReplicaSet
zero_set = record { uuid = ""; master_uuid = ""; master_uri = ""; instances = [] }

unfoldable pub is_master : ReplicaSet → Instance → Bool
is_master set inst = inst.uuid == set.master_uuid

unfoldable pub followers : ReplicaSet → List Instance
unfolding is_master
followers set = filter (λ inst. not (is_master set inst)) set.instances

abbrev pub is_replicating : Option Upstream → Option Downstream → Bool
is_replicating (some u) _ =
    not (u.status == upstream_disconnected) && not (u.status == upstream_stopped)
is_replicating none (some d) = not (d.status == downstream_stopped)
is_replicating none none = false

-- What `AliveFollowers` asks of an instance.
unfoldable pub is_alive_follower : ReplicaSet → Instance → Bool
unfolding is_master
is_alive_follower set inst =
    if is_master set inst
    then false
    else if inst.last_check_valid
    then is_replicating inst.upstream inst.downstream
    else false

unfoldable pub alive_followers : ReplicaSet → List Instance
alive_followers set = filter (is_alive_follower set) set.instances

abbrev master_or : ReplicaSet → Option Instance → Result Error Instance
master_or set none = err (master_not_found set.uuid set.master_uuid)
master_or set (some inst) = ok inst

-- `Master`: the first instance that has the master's UUID.
unfoldable pub master : ReplicaSet → Result Error Instance
unfolding is_master
master set = master_or set (find (is_master set) set.instances)

abbrev health_of : Result Error Instance → ℤ × HealthLevel
health_of (ok m) = (critical_code m, critical_level m)
health_of (err e) = (health_code_unknown, unknown)

unfoldable pub health_status : ReplicaSet → ℤ × HealthLevel
unfolding master critical_code critical_level
health_status set = health_of (master set)

-- `Copy`: the instances are copied into a new slice, so a value is its own copy.
unfoldable pub copy_set : ReplicaSet → ReplicaSet
copy_set set = record {
  uuid = set.uuid;
  master_uuid = set.master_uuid;
  master_uri = set.master_uri;
  instances = set.instances;
}

-- The comparison of `sortInstances`.
unfoldable pub uuid_less : Instance → Instance → Option Bool
uuid_less a b = some (is_lt (compare a.uuid b.uuid))

unfoldable pub all_same : List Instance → List Instance → Bool
all_same (a ∷ as') (b ∷ bs) =
    let rest = all_same as' bs in if same_instance a b then rest else false
all_same _ _ = true

module _ (sorter : Sorter Instance) where
  abbrev pub compare_sorted :
      ReplicaSet
      → ReplicaSet
      → Option (List Instance)
      → Option (List Instance)
      → Option (Bool × ReplicaSet × ReplicaSet)
  compare_sorted set another (some xs) (some ys) =
      some (all_same xs ys, record set { instances = xs }, record another { instances = ys })
  compare_sorted set another _ _ = none

  -- `SameAs` sorts the instances of both sets in place: the sets after it are part of the result.
  unfoldable pub same_as : ReplicaSet → ReplicaSet → Option (Bool × ReplicaSet × ReplicaSet)
  unfolding all_same uuid_less
  same_as set another =
      if not (set.uuid == another.uuid)
      then some (false, set, another)
      else if not (set.master_uuid == another.master_uuid)
      then some (false, set, another)
      else if not (eqb (length set.instances) (length another.instances))
      then some (false, set, another)
      else compare_sorted set another (sorter.sort uuid_less set.instances)
          (sorter.sort uuid_less another.instances)
