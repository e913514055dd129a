-- ===== src/Orchestrator/Failover/RunTests.antt =====
-- A failover of the small cluster, to its end and to a client.
use qumomf.Prelude.{
  ◌≡◌, refl, ◌≢◌, ◌↔◌, ◌⊎◌, ◌+◌, ◌*◌, ◌^◌, ◌++◌, Bool, true, false, Option, none, some, List, [],
  ◌∷◌, Memᴰ, length, map, String,
}
use qumomf.Prelude.Float.{float_of_int}
use qumomf.Prelude.Result.{ok}
use qumomf.Prelude.Sort.Insertion.{insertion}
use qumomf.Vshard.Instance.{
  Instance, has_alert, alert_unreachable_master, zero_instance, zero_storage_info, status_master,
}
use qumomf.Vshard.ReplicaSet.{ReplicaSet, followers, master}
use qumomf.Vshard.Cluster.{Cluster, instance_by}
use qumomf.Vshard.Fixtures.{broken_set, broken_cluster}
use qumomf.Quorum.Candidates.{Error, Options}
use qumomf.Quorum.Elector.{smart_elector, choose_master}
use qumomf.Orchestrator.Analysis.{ReplicationAnalysis, analysis_of}
use qumomf.Orchestrator.Recovery.{Recovery}
use qumomf.Orchestrator.World.{Env, World}
use qumomf.Orchestrator.Hooker.{Hooker, pre_failover, HookType, execute_processes}
use qumomf.Orchestrator.Failover.State.{
  Failover, new_failover, promote_follower_to_master, get_check_and_recovery_func,
  has_blocked_recovery, cleanup, should_promote_follower,
}
use qumomf.Orchestrator.Failover.Order.{failover_less}
use qumomf.Orchestrator.Failover.Promote.{promote}
use qumomf.Orchestrator.Failover.Serve.{cleanup_tick, serve, check_and_recover}
use qumomf.Orchestrator.Fixtures.{env, failover, found, start}
use qumomf.Orchestrator.World.{Event, process, query, recovered, discovery}
use qumomf.Storage.Fixtures.{
  backend, backend-ReadsSnapshots, backend-ReadsRecoveries, backend-Scans,
}
use qumomf.Http.{Marshal, Params}
use qumomf.Http.Recovered.{recoveries_told, Writes, CallsBack, IsServed, failover-IsServed}
use mathlib.Core.List.Permᴰ
use qumomf.Storage.{Tables, no_tables}
use qumomf.Storage.Fixtures.{Column}
use qumomf.Coordinator.{on_cluster_recovered}
use qumomf.Prelude.{All, Permᴰ}

abbrev told : Failover
told = record failover { notifies = true }

abbrev ran_of : Option ((Cluster × Failover) × World) → (Cluster × Failover) × World
ran_of none = ((broken_cluster, told), start)
ran_of (some r) = r

abbrev ran : (Cluster × Failover) × World
unfolding check_and_recover
ran = ran_of (check_and_recover insertion broken_cluster told found env start)

-- The loop cleans up after it.
abbrev cleaned : (Cluster × Failover) × World
unfolding serve ran
cleaned = ran_of (serve insertion ran.0.0 ran.0.1 (cleanup_tick ∷ []) env ran.1)

has_run :
    (check_and_recover insertion broken_cluster told found env start
      ≡ some ((ran.0.0, ran.0.1), ran.1))
    × ((get_check_and_recovery_func found.state).0 ≡ some promote_follower_to_master)
    × (serve insertion ran.0.0 ran.0.1 (cleanup_tick ∷ []) env ran.1
        ≡ some ((cleaned.0.0, cleaned.0.1), cleaned.1))
    × (cleaned.1.step + length cleaned.0.1.recoveries ≡ 16)
unfolding promote has_blocked_recovery qumomf.Orchestrator.World.read_clock execute_processes
    qumomf.Orchestrator.Hooker.Command.prepare_command qumomf.Orchestrator.World.run_process
    qumomf.Orchestrator.World.start_process qumomf.Quorum.Elector.choose_master
    qumomf.Quorum.Smart.choose_master qumomf.Quorum.Candidates.candidates
    qumomf.Quorum.Candidates.filter qumomf.Prelude.filter qumomf.Vshard.ReplicaSet.alive_followers
    analysis_of qumomf.Vshard.ReplicaSet.is_alive_follower qumomf.Prelude.Float.feq float_of_int
    qumomf.Prelude.Float.float_zero qumomf.Prelude.Float.flt qumomf.Vshard.Instance.idle master
    qumomf.Prelude.find insertion qumomf.Quorum.Smart.less qumomf.Orchestrator.World.read_snapshot
    qumomf.Orchestrator.Failover.State.should_promote_follower instance_by
    qumomf.Orchestrator.World.exec qumomf.Vshard.Cluster.routers qumomf.Vshard.Cluster.instances
    failover_less has_alert check_and_recover ran serve cleaned
    qumomf.Orchestrator.Failover.Serve.handle qumomf.Orchestrator.Failover.State.cleanup
    qumomf.Orchestrator.Failover.State.alive_from qumomf.Orchestrator.Recovery.expired
    qumomf.Orchestrator.Recovery.expire_after get_check_and_recovery_func
    qumomf.Orchestrator.Analysis.count_followers followers
    qumomf.Orchestrator.Analysis.count_follower qumomf.Orchestrator.World.note
    qumomf.Orchestrator.Failover.State.registry_recovery
has_run = (refl, refl, refl, refl)

abbrev told_of_run : List Recovery
told_of_run = recoveries_told ran.1.trace

-- The tables once the callback has run for them in order.
abbrev called_back : List Recovery → Tables Column → Tables Column
unfolding on_cluster_recovered
called_back [] t = t
called_back (r ∷ rs) t = called_back rs (on_cluster_recovered backend none r t)

in_order : (rs : List Recovery) (t : Tables Column) → CallsBack backend rs t (called_back rs t)
unfolding called_back
in_order [] t = CallsBack.finished t
in_order (r ∷ rs) t =
    CallsBack.calls_back r rs t (called_back (r ∷ rs) t)
      (in_order rs (on_cluster_recovered backend none r t))

recoveries_written : (rs : List Recovery) → All (Writes backend) rs
recoveries_written [] = tt
recoveries_written (r ∷ rs) = ((_, refl), recoveries_written rs)

abbrev marshal : Marshal
marshal = record {
  clusters = λ x. ok "[]";
  snapshot = λ x. ok "{}";
  replica_set = λ x. ok "{}";
  instance = λ x. ok "{}";
  recoveries = λ x. ok "[]";
  alerts = λ x. ok "[]";
}

abbrev asked : Params
asked = record { cluster_name = "sandbox"; shard_uuid = broken_set.uuid; instance_uuid = "" }

failover-IsServed_example :
    (ran.0.1.recoveries ≡ told.recoveries)
    ⊎ ((r : Recovery) × (ran.0.1.recoveries ≡ told.recoveries ++ r ∷ [])
        × IsServed backend marshal (called_back told_of_run no_tables) asked r)
unfolding analysis_of
failover-IsServed_example =
    failover-IsServed backend marshal insertion env backend-ReadsSnapshots backend-ReadsRecoveries
      backend-Scans broken_cluster ran.0.0 told ran.0.1 found start ran.1 told_of_run
      (called_back told_of_run no_tables) asked has_run.1 refl has_run.0 (Permᴰ.refl told_of_run)
      (recoveries_written told_of_run) (in_order told_of_run no_tables) refl refl (λ e. cc)
      (λ e. cc)
