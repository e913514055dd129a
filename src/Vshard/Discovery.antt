-- ===== src/Vshard/Discovery.antt =====
-- `Discover` of internal/vshard/cluster.go. The nodes and the random choice of a router are an
-- `Answers`: what each node replies to each of the three queries, a failed query being an error. The
-- goroutines of a discovery share nothing that they write, and the order in which the replica sets
-- reach the channel is a parameter. The snapshot is read at the start and replaced at the end, with
-- any change of the cluster in between.
pub mod Outcome
pub mod Priorities
pub mod Report
use qumomf.Prelude.{
  ℕ, zero, suc, String, ◌==◌, Bool, true, false, not, Option, none, some, List, [], ◌∷◌, map,
  if◌then◌else◌,
}
use qumomf.Prelude.Int.{ℤ, ltb_ℤ}
use qumomf.Prelude.Result.{Result, ok, err, ◌>>=◌}
use qumomf.Prelude.Dict.{Dict}
use qumomf.Vshard.Error.{Error, master_not_available}
use qumomf.Vshard.Instance.{
  InstanceUuid, ReplicaSetUuid, Instance, InstanceInfo, instance_available,
}
use qumomf.Vshard.Router.{Router, RouterInfo, RouterInstanceParameters}
use qumomf.Vshard.ReplicaSet.{ReplicaSet}
use qumomf.Vshard.Snapshot.{Snapshot, copy, topology_of, update_priorities}
use qumomf.Vshard.Cluster.{Cluster}
use qumomf.Vshard.Parser.Value.{Values}
use qumomf.Vshard.Parser.Router.{parse_router_info}
use qumomf.Vshard.Parser.Storage.{parse_instance_info}
use qumomf.Vshard.Parser.Replication.{parse_replication}

-- A reply's data, or the error of the query.
abbrev pub Reply : Type 0
Reply = Result Error (List Values)

pub record Answers : Type 0 where
  -- `rand.Intn`, on a number of routers
  pub intn : ℕ → ℕ
  -- what the node with a URI replies to each query, by the instance that is asked for
  pub router_info : String → Reply
  pub box_info : InstanceUuid → String → Reply
  pub instance_info : InstanceUuid → String → Reply
  -- the time at which the router was seen, and at which the snapshot is made
  pub seen : ℤ
  pub created : ℤ

abbrev nth : List Router → ℕ → Option Router
nth [] i = none
nth (r ∷ rs) zero = some r
nth (r ∷ rs) (suc i) = nth rs i

abbrev count : List Router → ℕ
count [] = 0
count (r ∷ rs) = suc (count rs)

-- `pickUpRandomRouter`
unfoldable pub pick_up_random_router : Answers → List Router → Option Router
pick_up_random_router a rs = nth rs (a.intn (count rs))

-- The first instance that has the master's UUID gets the master's URI.
unfoldable pub set_master_uri : RouterInstanceParameters → List Instance → List Instance
set_master_uri master [] = []
set_master_uri master (i ∷ is) =
    let rest = set_master_uri master is in
    if i.uuid == master.uuid then record i { uri = master.uri } ∷ is else i ∷ rest

-- `discoverReplication`
unfoldable pub discover_replication :
    Answers → RouterInstanceParameters → Result Error (List Instance)
unfolding set_master_uri
discover_replication a master =
    if not (master.status == instance_available) then err master_not_available else (do
      resp ← a.box_info master.uuid master.uri
      topology ← parse_replication resp
      ok (set_master_uri master topology))

abbrev pub update_instance : Instance → Result Error InstanceInfo → Instance
update_instance i (err e) = record i { last_check_valid = false }
update_instance i (ok info) = record i {
  readonly = info.readonly;
  storage_info = info.storage_info;
  vshard_fingerprint = info.vshard_fingerprint;
  last_check_valid = true;
}

-- `discoverInstance`: a failed query and a reply that cannot be read end the same.
unfoldable pub discover_instance : Answers → Instance → Instance
discover_instance a i =
    update_instance i (a.instance_info i.uuid i.uri >>= λ resp. parse_instance_info resp)

unfoldable pub discover_instances : Answers → List Instance → List Instance
discover_instances a is = map (discover_instance a) is

-- The topology of a set, with the previous snapshot to fall back to.
abbrev or_previous :
    Result Error (List Instance) → Result Error (List Instance) → Option (List Instance)
or_previous (ok is) previous = some is
or_previous (err e) (ok is) = some is
or_previous (err e) (err _) = none

unfoldable pub topology_for :
    Answers → Snapshot → ReplicaSetUuid → RouterInstanceParameters → Option (List Instance)
topology_for a s uuid master = or_previous (discover_replication a master) (topology_of s uuid)

abbrev pub set_from :
    Answers → ReplicaSetUuid → RouterInstanceParameters → Option (List Instance) → Option ReplicaSet
set_from a uuid master none = none
set_from a uuid master (some is) = some record {
  uuid = uuid;
  master_uuid = master.uuid;
  master_uri = master.uri;
  instances = discover_instances a is;
}

-- What one goroutine sends, if it sends anything.
unfoldable pub discover_set :
    Answers → Snapshot → ReplicaSetUuid → RouterInstanceParameters → Option ReplicaSet
unfolding topology_for discover_instances
discover_set a s uuid master = set_from a uuid master (topology_for a s uuid master)

abbrev pub cons_if : Option ReplicaSet → List ReplicaSet → List ReplicaSet
cons_if none sets = sets
cons_if (some set) sets = set ∷ sets

-- All that the goroutines send, in the order of the router's sets.
unfoldable pub discover_sets : Answers → Snapshot → Dict RouterInstanceParameters → List ReplicaSet
unfolding discover_set
discover_sets a s [] = []
discover_sets a s ((uuid, master) ∷ ms) =
    cons_if (discover_set a s uuid master) (discover_sets a s ms)

-- The first router that has the URI gets what it has reported.
unfoldable pub update_router : String → RouterInfo → List Router → List Router
update_router uri info [] = []
update_router uri info (r ∷ rs) =
    let rest = update_router uri info rs in
    if r.uri == uri then record r { info = info } ∷ rs else r ∷ rest

abbrev pub seen_at : ℤ → RouterInfo → RouterInfo
seen_at now info = record info { last_seen = now }

module _ (a : Answers) (order : List ReplicaSet → List ReplicaSet) where
  abbrev pub probed : Snapshot → Router → Result Error RouterInfo → Option Snapshot
  probed s router (err e) = none
  probed s router (ok info) = some record {
    created = a.created;
    routers = update_router router.uri (seen_at a.seen info) s.routers;
    replica_sets = order (discover_sets a s info.replica_sets);
    priorities = [];
  }

  abbrev pub probe_with : Snapshot → Option Router → Option Snapshot
  probe_with s none = none
  probe_with s (some router) =
      probed s router (a.router_info router.uri >>= λ resp. parse_router_info resp)

  -- `Discover` from its copy of the snapshot up to the lock: the new snapshot, unless it gives up.
  unfoldable pub probe : Cluster → Option Snapshot
  unfolding copy pick_up_random_router discover_sets update_router
  probe c = let s = copy c.snapshot in probe_with s (pick_up_random_router a s.routers)

-- The end of `Discover`, under the lock.
unfoldable pub commit : Snapshot → Cluster → Cluster
unfolding update_priorities
commit ns c =
    if not (ltb_ℤ ns.created c.snapshot.created)
    then record c { snapshot = update_priorities c.snapshot.priorities ns }
    else c

abbrev pub commit_if : Option Snapshot → Cluster → Cluster
commit_if none c = c
commit_if (some ns) c = commit ns c

-- The whole of it: `start` is the cluster at its beginning, `end` is the cluster at its end.
unfoldable pub discover :
    Answers → (List ReplicaSet → List ReplicaSet) → Cluster → Cluster → Cluster
unfolding probe commit
discover a order start end = commit_if (probe a order start) end
