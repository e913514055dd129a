-- ===== src/Orchestrator/Failover/Tests.antt =====
-- Recoveries of the small cluster.
use qumomf.Prelude.{
  suc, sym, ℕ, ◌≤◌, ◌<◌, ◌≡◌, refl, ◌≢◌, ◌↔◌, ◌+◌, ◌*◌, ◌^◌, ◌++◌, Bool, true, false, Option, none,
  some, List, [], ◌∷◌, Memᴰ, length, map, arith, String,
}
use qumomf.Prelude.Counting.{NonePass}
use qumomf.Prelude.Float.{float_of_int}
use mathlib.Core.Path.{subst}
use qumomf.Prelude.Result.{ok}
use qumomf.Prelude.Sort.Insertion.{insertion}
use qumomf.Vshard.Instance.{
  Instance, has_alert, alert_unreachable_master, zero_instance, zero_storage_info, status_master,
}
use qumomf.Vshard.ReplicaSet.{ReplicaSet, followers, master}
use qumomf.Vshard.Cluster.{Cluster, instance_by, start_recovery, stop_recovery}
use qumomf.Vshard.Fixtures.{
  follower, late_follower, old_master, broken_set, broken_snapshot, broken_cluster,
}
use qumomf.Quorum.Candidates.{Error, Options}
use qumomf.Quorum.Elector.{smart_elector, choose_master}
use qumomf.Orchestrator.Analysis.{ReplicationAnalysis, analysis_of}
use qumomf.Orchestrator.Analysis.Counts.{replicates}
use qumomf.Orchestrator.Query.{build_recovery_query}
use qumomf.Orchestrator.Recovery.{Recovery, scope_key}
use qumomf.Orchestrator.World.{Env, World}
use qumomf.Orchestrator.Hooker.{Hooker, pre_failover, HookType, execute_processes}
use qumomf.Orchestrator.Failover.State.{
  Failover, new_failover, promote_follower_to_master, get_check_and_recovery_func,
  has_blocked_recovery, cleanup,
}
use qumomf.Orchestrator.Failover.State.Blocking.{NotYet}
use qumomf.Orchestrator.Failover.Promote.{promote, begun, instance_or_zero}
use qumomf.Orchestrator.Failover.Promote.Whole.{promote_blocked}
use qumomf.Orchestrator.Failover.Promote.Panic.{ElectionPanics, AttemptPanics, promote_panics_iff}
use qumomf.Orchestrator.Failover.CoMasters.{demote}
use qumomf.Orchestrator.Failover.CoMasters.Targets.{OnlyTargets, demote-OnlyTargets}
use qumomf.Orchestrator.Failover.Serve.{cleanup_tick, analysis, serve}
use qumomf.Orchestrator.Failover.Safety.{promotes-condition, serve_read_only}
use qumomf.Orchestrator.Fixtures.{blocked, env, failover, found, registered, result_of, start}

promotes-condition_example :
    ((get_check_and_recovery_func found.state).0 ≡ some promote_follower_to_master) ↔ (
      (old_master.last_check_valid ≡ false)
      × (¬ NonePass (λ (r : Instance). r.last_check_valid) (followers broken_set))
      × NonePass replicates (followers broken_set))
promotes-condition_example = promotes-condition broken_set old_master

abbrev promoted : List Recovery × World
promoted = result_of (promote insertion failover found env start)

not_yet : NotYet env start 1 registered
not_yet n h = omega arith

promote_blocked_example :
    (w' : World) × (promote insertion blocked found env start ≡ some ([], w'))
    × (w'.trace ≡ start.trace)
unfolding analysis_of scope_key
promote_blocked_example =
    promote_blocked insertion blocked found env start registered (Memᴰ.head refl) refl not_yet

abbrev alerting : Instance
alerting = record old_master {
  storage_info = record zero_storage_info {
    alerts = record { type = alert_unreachable_master; description = "" } ∷ [];
  };
}

has_one : has_alert alerting alert_unreachable_master ≡ true
unfolding has_alert
has_one = refl

no_alert : has_alert follower alert_unreachable_master ≡ false
unfolding has_alert
no_alert = refl

-- The replica set is no longer in the snapshot when its candidate is looked up.
abbrev forgetful : Env
forgetful = record env { snapshot = λ n. record broken_snapshot { replica_sets = [] } }

promote_panics_iff_example : (promote insertion failover found forgetful start ≡ none) ↔ (
    (w1 : World) × (has_blocked_recovery failover found.set.uuid forgetful start ≡ some (false, w1))
    × AttemptPanics forgetful insertion failover found.set
        (suc (suc w1.step))
        (begun insertion failover found (forgetful.now w1.step) (forgetful.now (suc w1.step))))
promote_panics_iff_example = promote_panics_iff forgetful insertion failover found start

serve_read_only_example :
    (c' : Cluster) × (f' : Failover) × (w' : World) × (serve insertion broken_cluster blocked
        (analysis found ∷ cleanup_tick ∷ [])
        env
        start
      ≡ some ((c', f'), w'))
    × (c'.read_only ≡ true)
    × (w'.trace ≡ start.trace)
serve_read_only_example =
    serve_read_only insertion broken_cluster blocked (analysis found ∷ cleanup_tick ∷ []) env start
      refl (tt, (tt, tt))

-- A second master, whose configuration differs.
abbrev co_master : Instance
co_master = record late_follower {
  vshard_fingerprint = 17;
  storage_info = record zero_storage_info { replication = status_master };
}

abbrev split_set : ReplicaSet
split_set = record broken_set {
  instances = record old_master { last_check_valid = true } ∷ co_master ∷ follower ∷ [];
}

abbrev split : ReplicationAnalysis
split = analysis_of split_set (record old_master { last_check_valid = true })

abbrev demoted : List Recovery × World
demoted = result_of (demote failover split env start)

is_demoted : demote failover split env start ≡ some demoted
unfolding demote followers qumomf.Prelude.filter analysis_of master qumomf.Prelude.find
    has_blocked_recovery qumomf.Orchestrator.World.read_clock execute_processes
    qumomf.Orchestrator.Hooker.Command.prepare_command qumomf.Orchestrator.World.run_process
    qumomf.Orchestrator.World.start_process qumomf.Orchestrator.World.exec
is_demoted = refl

demote-OnlyTargets_example :
    OnlyTargets
      (build_recovery_query "set" "m")
      (instance_or_zero (master split_set))
      (followers split_set)
      start
      demoted.1
unfolding analysis_of
demote-OnlyTargets_example =
    demote-OnlyTargets failover split env start demoted.0 demoted.1 is_demoted

elects : choose_master insertion failover.elector broken_set ≡ some (ok "f")
unfolding choose_master qumomf.Quorum.Smart.choose_master qumomf.Quorum.Candidates.candidates
    qumomf.Quorum.Candidates.filter qumomf.Prelude.filter qumomf.Vshard.ReplicaSet.alive_followers
    qumomf.Vshard.ReplicaSet.is_alive_follower qumomf.Prelude.Float.feq float_of_int
    qumomf.Prelude.Float.float_zero qumomf.Prelude.Float.flt qumomf.Vshard.Instance.idle master
    qumomf.Prelude.find insertion qumomf.Quorum.Smart.less
elects = refl

-- The zero instance that the look-up leaves is asked for its upstream.
forgetful_panics : promote insertion failover found forgetful start ≡ none
unfolding has_blocked_recovery analysis_of instance_by qumomf.Prelude.find
    qumomf.Orchestrator.Hooker.Run.any_fails qumomf.Orchestrator.Hooker.Run.until_failure
    qumomf.Orchestrator.Hooker.Command.prepare_command
forgetful_panics = (promote_panics_iff forgetful insertion failover found start).1 (
  start,
  refl,
  (
    refl,
    subst (ElectionPanics forgetful insertion failover broken_set 4) (sym elects)
        (refl, omega arith),
  ),
)
