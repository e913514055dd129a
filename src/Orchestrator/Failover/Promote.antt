-- ===== src/Orchestrator/Failover/Promote.antt =====
-- `promoteFollowerToMaster` of failover.go: the failover proper.
pub mod Queries
pub mod Outcome
pub mod Whole
pub mod Panic
pub mod Totality
use qumomf.Prelude.{
  ℕ, ◌/◌, ◌^◌, String, ◌==◌, Bool, true, false, not, Option, none, some, List, [], ◌∷◌, map, filter,
  if◌then◌else◌,
}
use qumomf.Prelude.Sort.{Sorter}
use qumomf.Prelude.Result.{Result, ok, err}
use qumomf.Vshard.Error.{Error as VshardError}
use qumomf.Vshard.Instance.{InstanceUuid, Instance, ident, zero_instance}
use qumomf.Vshard.Router.{Router}
use qumomf.Vshard.ReplicaSet.{ReplicaSet, master}
use qumomf.Vshard.Snapshot.{Snapshot}
use qumomf.Vshard.Cluster.{routers, instances, instance_by}
use qumomf.Quorum.Candidates.{Error}
use qumomf.Quorum.Elector.{choose_master}
use qumomf.Orchestrator.Analysis.{ReplicationAnalysis}
use qumomf.Orchestrator.Query.{Query, build_recovery_query}
use qumomf.Orchestrator.Recovery.{Recovery, scope_set, new_recovery, expire_after}
use qumomf.Orchestrator.World.{M, ◌>>=◌, ◌>>◌, pure, panic, read_clock, read_snapshot, exec}
use qumomf.Orchestrator.Hooker.{pre_failover, execute_processes}
use qumomf.Orchestrator.Failover.State.{Failover, has_blocked_recovery, should_promote_follower}
use qumomf.Orchestrator.Failover.Order.{failover_less}

-- What `inst, _ := …` leaves: the zero instance if there is an error.
abbrev pub instance_or_zero : Result VshardError Instance → Instance
instance_or_zero (ok inst) = inst
instance_or_zero (err e) = zero_instance

-- A loop that sends the query to one node after another; an error is only logged.
unfoldable pub exec_all : List String → Query → M Unit
exec_all [] q env w = some (tt, w)
exec_all (uri ∷ uris) q env w = (exec uri q >>= λ failed. exec_all uris q) env w

abbrev pub router_uris : Snapshot → List String
router_uris s = map (λ (r : Router). r.uri) (routers s)

-- The instances that are updated after the candidate.
abbrev pub other_uris : InstanceUuid → List Instance → List String
other_uris candidate is = map (λ (i : Instance). i.uri) (filter (λ i. not (i.uuid == candidate)) is)

module _ (sorter : Sorter Instance) where
  abbrev pub sorted_or_panic : Option (List Instance) → M (List Instance)
  sorted_or_panic none = panic
  sorted_or_panic (some is) = pure is

  -- Once the new master has its configuration: the routers, then all the other instances.
  unfoldable pub update_cluster : InstanceUuid → Query → M Unit
  unfolding exec_all
  update_cluster candidate q = do
    s ← read_snapshot
    exec_all (router_uris s) q
    s' ← read_snapshot
    is ← sorted_or_panic (sorter.sort (λ l r. some (failover_less l r)) (instances s'))
    exec_all (other_uris candidate is) q

  abbrev pub after_check : InstanceUuid → Instance → Query → Recovery → Option Bool → M Recovery
  after_check candidate_uuid candidate q recv none = panic
  after_check candidate_uuid candidate q recv (some false) = pure recv
  after_check candidate_uuid candidate q recv (some true) = exec candidate.uri q >>= λ failed.
      if failed
      then pure recv
      else (update_cluster candidate_uuid q >>= λ _. pure (record recv { is_successful = true }))

  -- From the elected candidate on.
  unfoldable pub promote_candidate : ReplicaSet → InstanceUuid → Recovery → M Recovery
  unfolding update_cluster
  promote_candidate bad_set candidate_uuid recv = do
    s ← read_snapshot
    let candidate = instance_or_zero (instance_by s candidate_uuid)
    let recv' = record recv { successor = ident candidate }
    after_check candidate_uuid candidate (build_recovery_query bad_set.uuid candidate_uuid) recv'
        (should_promote_follower candidate)

  abbrev pub after_election :
      ReplicaSet → Recovery → Option (Result Error InstanceUuid) → M Recovery
  after_election bad_set recv none = panic
  after_election bad_set recv (some (err e)) = pure recv
  after_election bad_set recv (some (ok uuid)) = promote_candidate bad_set uuid recv

  -- From the first hook on, up to the deferred time stamp.
  unfoldable pub attempt : Failover → ReplicaSet → Recovery → M Recovery
  unfolding promote_candidate
  attempt f bad_set recv = do
    failed ← execute_processes f.hooker pre_failover recv true
    if failed
        then pure recv
        else after_election bad_set recv (choose_master sorter f.elector bad_set)

  -- The recovery that is begun, at two readings of the clock.
  abbrev pub begun : Failover → ReplicationAnalysis → ℕ → ℕ → Recovery
  begun f analysis now later =
      record (expire_after f.recv_set_ttl later
        (new_recovery scope_set (ident (instance_or_zero (master analysis.set))) analysis now)) {
          cluster_name = f.cluster_name;
        }

  unfoldable pub promote : Failover → ReplicationAnalysis → M (List Recovery)
  unfolding attempt
  promote f analysis = do
    blocked ← has_blocked_recovery f analysis.set.uuid
    if blocked then pure [] else do
      now ← read_clock
      later ← read_clock
      recv ← attempt f analysis.set (begun f analysis now later)
      end ← read_clock
      pure (record recv { end_timestamp = end / 10 ^ 9 } ∷ [])
