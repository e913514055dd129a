-- ===== src/Orchestrator/Failover/CoMasters.antt =====
-- `applyFollowerRoleToCoMasters` of failover.go: co-masters are made followers of the leader.
pub mod Targets
use qumomf.Prelude.{
  ℕ, ◌/◌, ◌^◌, String, Bool, true, false, Option, none, some, List, [], ◌∷◌, ◌++◌, eqb,
  if◌then◌else◌,
}
use qumomf.Vshard.Instance.{Instance, ident}
use qumomf.Vshard.ReplicaSet.{ReplicaSet, followers, master}
use qumomf.Orchestrator.Analysis.{ReplicationAnalysis}
use qumomf.Orchestrator.Query.{Query, build_recovery_query}
use qumomf.Orchestrator.Recovery.{Recovery, scope_instance, new_recovery, expire_after}
use qumomf.Orchestrator.World.{M, ◌>>=◌, ◌>>◌, pure, read_clock, exec}
use qumomf.Orchestrator.Hooker.{pre_failover, execute_processes}
use qumomf.Orchestrator.Failover.State.{Failover, has_blocked_recovery}
use qumomf.Orchestrator.Failover.Promote.{instance_or_zero}

abbrev pub demotion : Failover → ReplicationAnalysis → Instance → ℕ → ℕ → Recovery
demotion f analysis inst now later =
    record (expire_after f.recv_instance_ttl later
      (new_recovery scope_instance (ident inst) analysis now)) {
        cluster_name = f.cluster_name;
        successor = ident inst;
      }

abbrev pub ended : Recovery → ℕ → Recovery
ended r now = record r { end_timestamp = now / 10 ^ 9 }

-- Once the hooks have run: the query, unless one of them has stopped it, and the time stamp.
abbrev pub after_hooks : Instance → Query → Recovery → Bool → M Recovery
after_hooks inst q recv true = read_clock >>= λ end. pure (ended recv end)
after_hooks inst q recv false = exec inst.uri q >>= λ failed. read_clock >>= λ end.
    pure (ended (record recv { is_successful = if failed then false else true }) end)

-- One follower that is not blocked: the hooks, then the query.
unfoldable pub demote_one : Failover → ReplicationAnalysis → Query → Instance → M Recovery
demote_one f analysis q inst = do
  now ← read_clock
  later ← read_clock
  let recv = demotion f analysis inst now later
  stopped ← execute_processes f.hooker pre_failover recv true
  after_hooks inst q recv stopped

abbrev pub unless_blocked : M (List Recovery) → M Recovery → Bool → M (List Recovery)
unless_blocked later one true = later
unless_blocked later one false = one >>= λ recv. later >>= λ recoveries. pure (recv ∷ recoveries)

-- The loop over the followers.
unfoldable pub demote_all :
    Failover → ReplicationAnalysis → Query → Instance → List Instance → M (List Recovery)
unfolding demote_one
demote_all f analysis q master [] env w = some ([], w)
demote_all f analysis q master (inst ∷ rest) env w =
    let later = demote_all f analysis q master rest in
    if eqb inst.vshard_fingerprint master.vshard_fingerprint
    then later env w
    else (has_blocked_recovery f inst.uuid >>= unless_blocked later (demote_one f analysis q inst))
        env w

unfoldable pub demote : Failover → ReplicationAnalysis → M (List Recovery)
unfolding demote_all
demote f analysis =
    demote_all f analysis (build_recovery_query analysis.set.uuid analysis.set.master_uuid)
      (instance_or_zero (master analysis.set)) (followers analysis.set)
