-- ===== src/Orchestrator/Failover/Serve.antt =====
-- The handling of an analysis in failover.go: `shouldBeAnalysisChecked`, `checkAndRecover` and the
-- loop of `Serve`, whose channels are a list of what arrives. The log sampler and the metrics are
-- left out: nothing reads them back.
use qumomf.Prelude.{Bool, true, false, Option, none, some, List, [], ◌∷◌, if◌then◌else◌}
use qumomf.Prelude.Sort.{Sorter}
use qumomf.Vshard.Instance.{Instance}
use qumomf.Vshard.Cluster.{Cluster, start_recovery, stop_recovery, set_read_only}
use qumomf.Orchestrator.Analysis.{ReplicationAnalysis}
use qumomf.Orchestrator.Recovery.{Recovery}
use qumomf.Orchestrator.World.{M, ◌>>=◌, ◌>>◌, pure, note, recovered, discovery}
use qumomf.Orchestrator.Hooker.{
  HookType, post_successful_failover, post_unsuccessful_failover, execute_processes,
}
use qumomf.Orchestrator.Failover.State.{
  Failover, RecoveryFunc, promote_follower_to_master, apply_follower_role_to_co_masters,
  registry_recovery, cleanup, get_check_and_recovery_func,
}
use qumomf.Orchestrator.Failover.Promote.{promote}
use qumomf.Orchestrator.Failover.CoMasters.{demote}

unfoldable pub should_be_analysis_checked : Cluster → Bool
should_be_analysis_checked c =
    if c.read_only then false else if c.has_active_recovery then false else true

-- What arrives at the loop of `Serve`, and the switch of the cluster's mode from outside.
pub data Message : Type 0 where
  cleanup_tick : Message
  analysis : ReplicationAnalysis → Message
  read_only_mode : Bool → Message

abbrev pub post_hook : Recovery → HookType
post_hook r = if r.is_successful then post_successful_failover else post_unsuccessful_failover

abbrev pub notify : Failover → Recovery → M Unit
notify f r = if f.notifies then note (recovered r) else pure tt

-- The loop over the recoveries that were applied.
unfoldable pub register_all : List Recovery → Failover → M Failover
register_all [] f env w = some (f, w)
register_all (r ∷ rs) f env w =
    let f' = registry_recovery r f in
    (notify f r >>= λ _.
    execute_processes f.hooker (post_hook r) r false >>= λ _. register_all rs f')
      env w

abbrev pub rediscover : List Recovery → M Unit
rediscover [] = pure tt
rediscover (r ∷ rs) = note discovery

module _ (sorter : Sorter Instance) where
  abbrev pub run_func : RecoveryFunc → Failover → ReplicationAnalysis → M (List Recovery)
  run_func promote_follower_to_master f a = promote sorter f a
  run_func apply_follower_role_to_co_masters f a = demote f a

  abbrev pub recover_with :
      Option RecoveryFunc → Cluster → Failover → ReplicationAnalysis → M (Cluster × Failover)
  recover_with none c f a = pure (c, f)
  recover_with (some func) c f a = do
    let c' = start_recovery c
    recoveries ← run_func func f a
    f' ← register_all recoveries f
    rediscover recoveries
    pure (stop_recovery c', f')

  -- `checkAndRecover`
  unfoldable pub check_and_recover :
      Cluster → Failover → ReplicationAnalysis → M (Cluster × Failover)
  unfolding register_all start_recovery stop_recovery
  check_and_recover c f a = recover_with (get_check_and_recovery_func a.state).0 c f a

  unfoldable pub handle : Cluster → Failover → Message → M (Cluster × Failover)
  unfolding check_and_recover should_be_analysis_checked
  handle c f cleanup_tick = cleanup false f >>= λ f'. pure (c, f')
  handle c f (analysis a) =
      if should_be_analysis_checked c then check_and_recover c f a else pure (c, f)
  handle c f (read_only_mode v) = pure (set_read_only v c, f)

  unfoldable pub serve : Cluster → Failover → List Message → M (Cluster × Failover)
  serve c f [] env w = some ((c, f), w)
  serve c f (m ∷ ms) env w = (handle c f m >>= λ s. serve s.0 s.1 ms) env w
