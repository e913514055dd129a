-- ===== src/Orchestrator/Failover/Promote/Whole.antt =====
-- The failover as a whole: how it can end, what blocks it, and where it panics.
use qumomf.Prelude.{◌≡◌, refl, some, [], Memᴰ, length}
use qumomf.Prelude.Sort.{Sorter}
use qumomf.Vshard.Instance.{Instance}
use qumomf.Vshard.ReplicaSet.{ReplicaSet}
use qumomf.Orchestrator.Analysis.{ReplicationAnalysis}
use qumomf.Orchestrator.Recovery.{Recovery, scope_key}
use qumomf.Orchestrator.World.{Env, World}
use qumomf.Orchestrator.Failover.State.{Failover}
use qumomf.Orchestrator.Failover.State.Blocking.{NotYet, has_blocked_recovery-registered}
use qumomf.Orchestrator.Failover.Promote.{promote}

module _ (sorter : Sorter Instance) (f : Failover) where
  -- While a registered recovery of the replica set has not expired, a failover of the set returns
  -- no recovery and leaves no trace: no hook is run and no query is sent.
  pub promote_blocked :
      (a : ReplicationAnalysis) (env : Env) (w : World) (r : Recovery)
      → Memᴰ r f.recoveries
      → scope_key r ≡ a.set.uuid
      → NotYet env w (length f.recoveries) r
      → (w' : World) × (promote sorter f a env w ≡ some ([], w')) × (w'.trace ≡ w.trace)
  unfolding promote
  promote_blocked a env w r m k h =
      let (w', e, t) = has_blocked_recovery-registered f env w r m h in
      (w', rw (← k) (rw e refl), t)
