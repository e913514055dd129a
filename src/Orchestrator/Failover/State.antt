-- ===== src/Orchestrator/Failover/State.antt =====
-- The state of a failover, the recoveries that it remembers, and which recovery a state calls for
-- (failover.go).
pub mod Blocking
pub mod Cleanup
use qumomf.Prelude.{
  ℕ, String, ◌==◌, Bool, true, false, not, Option, none, some, List, [], ◌∷◌, ◌++◌, if◌then◌else◌,
}
use qumomf.Prelude.Int.{ℤ, pos, ltb_ℤ}
use qumomf.Vshard.Instance.{Instance, Upstream, upstream_follow, upstream_running}
use qumomf.Quorum.Elector.{Elector}
use qumomf.Orchestrator.Analysis.{
  ReplicaSetState, no_problem, dead_master, dead_master_and_followers,
  dead_master_and_some_followers, dead_master_without_followers, dead_followers,
  all_master_followers_not_replicating, network_problems, master_master_replication,
  inconsistent_vshard_configuration,
}
use qumomf.Orchestrator.Recovery.{Recovery, scope_key, expired}
use qumomf.Orchestrator.World.{M, ◌>>=◌, pure, read_clock}
use qumomf.Orchestrator.Hooker.{Hooker}

pub record Failover : Type 0 where
  pub cluster_name : String
  pub elector : Elector
  pub hooker : Hooker
  pub recoveries : List Recovery
  pub recv_set_ttl : ℕ
  pub recv_instance_ttl : ℕ
  -- is a callback on recoveries set?
  pub notifies : Bool

-- `NewDefaultFailover`
abbrev pub new_failover : String → Elector → Hooker → ℕ → ℕ → Failover
new_failover name elector hooker set_ttl instance_ttl = record {
  cluster_name = name;
  elector = elector;
  hooker = hooker;
  recoveries = [];
  recv_set_ttl = set_ttl;
  recv_instance_ttl = instance_ttl;
  notifies = false;
}

unfoldable pub set_on_cluster_recovered : Failover → Failover
set_on_cluster_recovered f = record f { notifies = true }

unfoldable pub registry_recovery : Recovery → Failover → Failover
registry_recovery r f = record f { recoveries = f.recoveries ++ r ∷ [] }

-- The loop of `hasBlockedRecovery`; the clock is read for each recovery of the key.
unfoldable pub has_blocked_from : List Recovery → String → M Bool
has_blocked_from [] key env w = some (false, w)
has_blocked_from (b ∷ bs) key env w =
    let rest = has_blocked_from bs key in
    if scope_key b == key
    then (read_clock >>= λ now. if not (expired now b) then pure true else rest) env w
    else rest env w

unfoldable pub has_blocked_recovery : Failover → String → M Bool
unfolding has_blocked_from
has_blocked_recovery f key = has_blocked_from f.recoveries key

-- The loop of `cleanup`.
unfoldable pub alive_from : List Recovery → M (List Recovery)
alive_from [] env w = some ([], w)
alive_from (b ∷ bs) env w =
    (read_clock >>= λ now.
    alive_from bs >>= λ alive. pure (if not (expired now b) then b ∷ alive else alive))
      env w

unfoldable pub cleanup : Bool → Failover → M Failover
unfolding alive_from
cleanup true f = pure (record f { recoveries = [] })
cleanup false f = alive_from f.recoveries >>= λ alive. pure (record f { recoveries = alive })

-- The recovery functions, by name.
pub data RecoveryFunc : Type 0 where
  promote_follower_to_master apply_follower_role_to_co_masters : RecoveryFunc

-- `getCheckAndRecoveryFunc`. Every state that there is has its case, so its panic cannot happen.
unfoldable pub get_check_and_recovery_func : ReplicaSetState → Option RecoveryFunc × String
get_check_and_recovery_func no_problem = (none, "")
get_check_and_recovery_func dead_master =
    (some promote_follower_to_master, "Master cannot be reached by qumomf. Will run failover.")
get_check_and_recovery_func dead_master_and_some_followers = (
  some promote_follower_to_master,
  "Master cannot be reached by qumomf and some of its followers are unreachable. Will run failover.",
)
get_check_and_recovery_func dead_master_and_followers = (
  none,
  "Master cannot be reached by qumomf and none of its followers is replicating. No actions will be applied.",
)
get_check_and_recovery_func all_master_followers_not_replicating = (
  none, "Master is reachable but none of its replicas is replicating. No actions will be applied.",
)
get_check_and_recovery_func dead_master_without_followers =
    (none, "Master cannot be reached by qumomf and has no followers. No actions will be applied.")
get_check_and_recovery_func dead_followers = (
  none,
  "Master is reachable but some of its replicas are not replicating. No actions will be applied.",
)
get_check_and_recovery_func network_problems = (
  none,
  "Master cannot be reached by qumomf but some followers are still replicating. It might be a network problem, no actions will be applied.",
)
get_check_and_recovery_func master_master_replication = (
  some apply_follower_role_to_co_masters,
  "Found master-master topology. Will apply follower role to all co-masters except a shard leader.",
)
get_check_and_recovery_func inconsistent_vshard_configuration =
    (none, "Found replicas with inconsistent vshard topology. No actions will be applied.")

abbrev follows_or_runs : Option Upstream → Option Bool
follows_or_runs none = none
follows_or_runs (some u) = some (
    if not (u.status == upstream_follow)
    then (if not (u.status == upstream_running) then false else true)
    else true)

-- `shouldPromoteFollower`, without the reason that it gives; it panics on an instance that has no
-- upstream.
unfoldable pub should_promote_follower : Instance → Option Bool
should_promote_follower inst =
    if ltb_ℤ inst.lsn_behind_master (pos 0) then some false else follows_or_runs inst.upstream
