-- ===== src/Orchestrator/Analysis.antt =====
-- internal/vshard/orchestrator/analysis.go, and `analyze` of monitor.go: the state of a replica set
-- from the counts over its followers. The counters are bounded by the number of followers, so they
-- are plain numbers.
pub mod Counts
pub mod States
use qumomf.Prelude.{
  ℕ, suc, String, ◌==◌, Bool, true, false, not, ◌&&◌, Option, none, some, List, [], ◌∷◌, ◌++◌, eqb,
  ltb, leb, if◌then◌else◌,
}
use qumomf.Prelude.Result.{Result, ok, err}
use qumomf.Vshard.Error.{Error}
use qumomf.Vshard.Instance.{Instance, InstanceUuid, status_follow, status_master}
use qumomf.Vshard.ReplicaSet.{ReplicaSet, followers, master}

pub data ReplicaSetState : Type 0 where
  no_problem dead_master dead_master_and_followers dead_master_and_some_followers : ReplicaSetState
  dead_master_without_followers dead_followers : ReplicaSetState
  all_master_followers_not_replicating network_problems master_master_replication : ReplicaSetState
  inconsistent_vshard_configuration : ReplicaSetState

abbrev pub replica_set_state_enum : List ReplicaSetState
replica_set_state_enum =
    no_problem ∷ dead_master ∷ dead_master_and_followers ∷ dead_master_and_some_followers
    ∷ dead_master_without_followers ∷ dead_followers ∷ all_master_followers_not_replicating
    ∷ network_problems ∷ master_master_replication ∷ inconsistent_vshard_configuration ∷ []

-- The text of a state.
unfoldable pub state_name : ReplicaSetState → String
state_name no_problem = "NoProblem"
state_name dead_master = "DeadMaster"
state_name dead_master_and_followers = "DeadMasterAndFollowers"
state_name dead_master_and_some_followers = "DeadMasterAndSomeFollowers"
state_name dead_master_without_followers = "DeadMasterWithoutFollowers"
state_name dead_followers = "DeadFollowers"
state_name all_master_followers_not_replicating = "AllMasterFollowersNotReplicating"
state_name network_problems = "NetworkProblems"
state_name master_master_replication = "MasterMasterReplication"
state_name inconsistent_vshard_configuration = "InconsistentVShardConfiguration"

pub record ReplicationAnalysis : Type 0 where
  pub set : ReplicaSet
  pub count_replicas : ℕ
  pub count_working_replicas : ℕ
  pub count_replicating_replicas : ℕ
  pub count_inconsistent_vshard_conf : ℕ
  pub state : ReplicaSetState
  pub dead_followers : List InstanceUuid

-- The variables of the loop over the followers.
pub record Counters : Type 0 where
  pub replicas : ℕ
  pub working : ℕ
  pub replicating : ℕ
  pub inconsistent : ℕ
  pub master_master : Bool
  pub dead : List InstanceUuid

abbrev pub zero_counters : Counters
zero_counters = record {
  replicas = 0;
  working = 0;
  replicating = 0;
  inconsistent = 0;
  master_master = false;
  dead = [];
}

-- The `switch` on the replication status of a follower that was polled with success.
unfoldable pub count_status : Instance → Counters → Counters
count_status r c =
    let status = r.storage_info.replication in
    if status == status_follow
    then record c { replicating = suc c.replicating }
    else if status == status_master
    then record c { replicating = suc c.replicating; master_master = true }
    else record c { dead = c.dead ++ r.uuid ∷ [] }

unfoldable pub count_conf : Instance → Instance → Counters → Counters
count_conf master r c =
    if not (eqb r.vshard_fingerprint master.vshard_fingerprint)
    then record c { inconsistent = suc c.inconsistent }
    else c

-- The body of the loop, and the loop.
unfoldable pub count_follower : Instance → Instance → Counters → Counters
unfolding count_status count_conf
count_follower master r c =
    let c' = record c { replicas = suc c.replicas } in
    if r.last_check_valid
    then count_conf master r (count_status r (record c' { working = suc c'.working }))
    else c'

unfoldable pub count_followers : Instance → List Instance → Counters → Counters
count_followers master [] c = c
count_followers master (r ∷ rs) c = count_followers master rs (count_follower master r c)

-- The ladder that turns the counts into a state.
unfoldable pub state_of : Bool → Counters → ReplicaSetState
state_of is_master_dead c =
    if is_master_dead && (eqb c.working c.replicas && eqb c.replicating 0)
    then (if eqb c.replicas 0 then dead_master_without_followers else dead_master)
    else if is_master_dead && (leb c.working c.replicas && eqb c.replicating 0)
    then (if eqb c.working 0 then dead_master_and_followers else dead_master_and_some_followers)
    else if is_master_dead && not (eqb c.replicating 0)
    then network_problems
    else if not is_master_dead && (ltb 0 c.replicas && eqb c.replicating 0)
    then all_master_followers_not_replicating
    else if ltb 0 c.inconsistent
    then (if c.master_master then master_master_replication else inconsistent_vshard_configuration)
    else if not is_master_dead && (ltb 0 c.replicas && ltb c.replicating c.replicas)
    then dead_followers
    else no_problem

unfoldable pub analysis_of : ReplicaSet → Instance → ReplicationAnalysis
unfolding state_of
analysis_of set master =
    let c = count_followers master (followers set) zero_counters in
    record {
      set = set;
      count_replicas = c.replicas;
      count_working_replicas = c.working;
      count_replicating_replicas = c.replicating;
      count_inconsistent_vshard_conf = c.inconsistent;
      state = state_of (not master.last_check_valid) c;
      dead_followers = c.dead;
    }

abbrev analyze_with : ReplicaSet → Result Error Instance → Option ReplicationAnalysis
analyze_with set (ok m) = some (analysis_of set m)
analyze_with set (err e) = none

-- `analyze`; nil if the set does not hold its master.
unfoldable pub analyze : ReplicaSet → Option ReplicationAnalysis
analyze set = analyze_with set (master set)
