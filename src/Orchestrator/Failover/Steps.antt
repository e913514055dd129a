-- ===== src/Orchestrator/Failover/Steps.antt =====
-- The operations of a failover end at no earlier step than they began.
use qumomf.Prelude.{
  ◌≤◌, ◌/◌, ◌^◌, String, arith, ◌≡◌, Bool, true, false, Option, none, some, List, [], ◌∷◌, eqb,
  if◌then◌else◌,
}
use qumomf.Prelude.Sort.{Sorter}
use qumomf.Prelude.Result.{Result, ok, err}
use qumomf.Vshard.Instance.{InstanceUuid, Instance, ident}
use qumomf.Vshard.ReplicaSet.{ReplicaSet, master, followers}
use qumomf.Vshard.Cluster.{Cluster, start_recovery, stop_recovery, instance_by}
use qumomf.Quorum.Candidates.{Error}
use qumomf.Quorum.Elector.{choose_master}
use qumomf.Orchestrator.Analysis.{ReplicationAnalysis}
use qumomf.Orchestrator.Query.{Query, build_recovery_query}
use qumomf.Orchestrator.Recovery.{Recovery}
use qumomf.Orchestrator.World.{
  Env, World, M, ◌>>=◌, pure, read_clock, read_snapshot, exec, note, recovered, discovery,
}
use qumomf.Orchestrator.World.Steps.{
  Later, ends_at, bind-Later, pure-Later, panic-Later, read_clock-Later, read_snapshot-Later,
  exec-Later, note-Later, execute_processes-Later,
}
use qumomf.Orchestrator.Hooker.{pre_failover, execute_processes}
use qumomf.Orchestrator.Failover.State.{
  Failover, RecoveryFunc, promote_follower_to_master, apply_follower_role_to_co_masters,
  registry_recovery, has_blocked_recovery, should_promote_follower,
}
use qumomf.Orchestrator.Failover.Begun.{later_step}
use qumomf.Orchestrator.Failover.Promote.{
  instance_or_zero, exec_all, router_uris, other_uris, sorted_or_panic, update_cluster, after_check,
  promote_candidate, after_election, attempt, begun, promote,
}
use qumomf.Orchestrator.Failover.CoMasters.{
  demotion, ended, after_hooks, demote_one, unless_blocked, demote_all, demote,
}
use qumomf.Orchestrator.Failover.Serve.{
  post_hook, notify, register_all, rediscover, run_func, recover_with,
}

module _ (env : Env) where
  blocked-Later : (f : Failover) (key : String) → Later env (has_blocked_recovery f key)
  unfolding has_blocked_recovery
  blocked-Later f key = record { steps = λ w w' b h. later_step f.recoveries key env w h }

  exec_all-Later : (uris : List String) (q : Query) → Later env (exec_all uris q)
  unfolding exec_all
  exec_all-Later [] q = record { steps = λ w w' a h. ends_at w h (omega arith) }
  exec_all-Later (uri ∷ uris) q =
      bind-Later env (exec uri q) (λ failed. exec_all uris q) (exec-Later env uri q)
        (λ failed. exec_all-Later uris q)

  module _ (sorter : Sorter Instance) where
    sorted-Later : (o : Option (List Instance)) → Later env (sorted_or_panic sorter o)
    sorted-Later none = panic-Later env
    sorted-Later (some is) = pure-Later env is

    update_cluster-Later :
        (uuid : InstanceUuid) (q : Query) → Later env (update_cluster sorter uuid q)
    unfolding update_cluster
    update_cluster-Later uuid q = bind-Later env read_snapshot _ (read_snapshot-Later env) (λ s.
        bind-Later env (exec_all (router_uris s) q) _ (exec_all-Later (router_uris s) q) (λ u.
          bind-Later env read_snapshot _ (read_snapshot-Later env) (λ s'.
            bind-Later env _ _ (sorted-Later _) (λ is. exec_all-Later (other_uris uuid is) q))))

    after_check-Later :
        (uuid : InstanceUuid) (candidate : Instance) (q : Query) (recv : Recovery) (o : Option Bool)
        → Later env (after_check sorter uuid candidate q recv o)
    after_check-Later uuid candidate q recv none = panic-Later env
    after_check-Later uuid candidate q recv (some false) = pure-Later env recv
    after_check-Later uuid candidate q recv (some true) =
        bind-Later env (exec candidate.uri q) _ (exec-Later env candidate.uri q)
          (λ failed. answered failed)
      where
        answered :
            (failed : Bool)
            → Later env (
                if failed
                then pure recv
                else (update_cluster sorter uuid q >>= λ _.
                    pure (record recv { is_successful = true })))
        answered true = pure-Later env recv
        answered false =
            bind-Later env (update_cluster sorter uuid q) _ (update_cluster-Later uuid q)
              (λ u. pure-Later env (record recv { is_successful = true }))

    after_election-Later :
        (set : ReplicaSet) (recv : Recovery) (o : Option (Result Error InstanceUuid))
        → Later env (after_election sorter set recv o)
    unfolding promote_candidate
    after_election-Later set recv none = panic-Later env
    after_election-Later set recv (some (err e)) = pure-Later env recv
    after_election-Later set recv (some (ok uuid)) =
        bind-Later env read_snapshot _ (read_snapshot-Later env) (λ s.
          let candidate = instance_or_zero (instance_by s uuid) in
          after_check-Later uuid candidate (build_recovery_query set.uuid uuid)
            (record recv { successor = ident candidate }) (should_promote_follower candidate))

    attempt-Later :
        (f : Failover) (set : ReplicaSet) (recv : Recovery) → Later env (attempt sorter f set recv)
    unfolding attempt
    attempt-Later f set recv =
        bind-Later env (execute_processes f.hooker pre_failover recv true) _
          (execute_processes-Later env f.hooker pre_failover recv true) (λ failed. hooked failed)
      where
        hooked :
            (failed : Bool)
            → Later env (
                if failed
                then pure recv
                else after_election sorter set recv (choose_master sorter f.elector set))
        hooked true = pure-Later env recv
        hooked false = after_election-Later set recv (choose_master sorter f.elector set)

    promote-Later : (f : Failover) (a : ReplicationAnalysis) → Later env (promote sorter f a)
    unfolding promote
    promote-Later f a =
        bind-Later env (has_blocked_recovery f a.set.uuid) _ (blocked-Later f a.set.uuid)
          (λ blocked. unless blocked)
      where
        unless :
            (blocked : Bool)
            → Later env (
                if blocked
                then pure []
                else (read_clock >>= λ now. read_clock >>= λ later.
                    attempt sorter f a.set (begun sorter f a now later) >>= λ recv.
                    read_clock >>= λ end. pure (record recv { end_timestamp = end / 10 ^ 9 } ∷ [])))
        unless true = pure-Later env []
        unless false = bind-Later env read_clock _ (read_clock-Later env) (λ now.
            bind-Later env read_clock _ (read_clock-Later env) (λ later.
              bind-Later env (attempt sorter f a.set (begun sorter f a now later)) _
                (attempt-Later f a.set (begun sorter f a now later))
                (λ recv.
                  bind-Later env read_clock _ (read_clock-Later env)
                    (λ end. pure-Later env (record recv { end_timestamp = end / 10 ^ 9 } ∷ [])))))

  after_hooks-Later :
      (inst : Instance) (q : Query) (recv : Recovery) (stopped : Bool)
      → Later env (after_hooks inst q recv stopped)
  after_hooks-Later inst q recv true =
      bind-Later env read_clock _ (read_clock-Later env) (λ end. pure-Later env (ended recv end))
  after_hooks-Later inst q recv false =
      bind-Later env (exec inst.uri q) _ (exec-Later env inst.uri q)
        (λ failed. bind-Later env read_clock _ (read_clock-Later env) (λ end. pure-Later env _))

  demote_one-Later :
      (f : Failover) (a : ReplicationAnalysis) (q : Query) (inst : Instance)
      → Later env (demote_one f a q inst)
  unfolding demote_one
  demote_one-Later f a q inst = bind-Later env read_clock _ (read_clock-Later env) (λ now.
      bind-Later env read_clock _ (read_clock-Later env) (λ later.
        let recv = demotion f a inst now later in
        bind-Later env (execute_processes f.hooker pre_failover recv true) _
          (execute_processes-Later env f.hooker pre_failover recv true)
          (λ stopped. after_hooks-Later inst q recv stopped)))

  unless_blocked-Later :
      (later : M (List Recovery)) (one : M Recovery) (blocked : Bool)
      → Later env later
      → Later env one
      → Later env (unless_blocked later one blocked)
  unless_blocked-Later later one true l o = l
  unless_blocked-Later later one false l o =
      bind-Later env one _ o
        (λ recv. bind-Later env later _ l (λ recoveries. pure-Later env (recv ∷ recoveries)))

  demote_all-Later :
      (f : Failover) (a : ReplicationAnalysis) (q : Query) (m : Instance) (is : List Instance)
      → Later env (demote_all f a q m is)
  unfolding demote_all
  demote_all-Later f a q m [] = record { steps = λ w w' r h. ends_at w h (omega arith) }
  demote_all-Later f a q m (inst ∷ rest) = record {
    steps = λ w w' r h.
        at w w' r (eqb inst.vshard_fingerprint m.vshard_fingerprint) (demote_all-Later f a q m rest)
          h;
  }
    where
      at :
          (w w' : World) (r : List Recovery) (b : Bool)
          → Later env (demote_all f a q m rest)
          → (if b
              then demote_all f a q m rest env w
              else (has_blocked_recovery f inst.uuid
                    >>= unless_blocked (demote_all f a q m rest) (demote_one f a q inst))
                  env w)
            ≡ some (r, w')
          → w.step ≤ w'.step
      at w w' r true ih k = ih.steps w w' r k
      at w w' r false ih k =
          (bind-Later env (has_blocked_recovery f inst.uuid)
              (unless_blocked (demote_all f a q m rest) (demote_one f a q inst))
              (blocked-Later f inst.uuid)
              (λ b.
                unless_blocked-Later (demote_all f a q m rest) (demote_one f a q inst) b ih
                  (demote_one-Later f a q inst))).steps
            w w' r k

  run_func-Later :
      (sorter : Sorter Instance) (func : RecoveryFunc) (f : Failover) (a : ReplicationAnalysis)
      → Later env (run_func sorter func f a)
  unfolding demote
  run_func-Later sorter promote_follower_to_master f a = promote-Later sorter f a
  run_func-Later sorter apply_follower_role_to_co_masters f a =
      demote_all-Later f a (build_recovery_query a.set.uuid a.set.master_uuid)
        (instance_or_zero (master a.set)) (followers a.set)

  notify-Later : (f : Failover) (r : Recovery) → Later env (notify f r)
  notify-Later f r = at f.notifies
    where
      at : (b : Bool) → Later env (if b then note (recovered r) else pure tt)
      at true = note-Later env (recovered r)
      at false = pure-Later env tt

  register_all-Later : (rs : List Recovery) (f : Failover) → Later env (register_all rs f)
  unfolding register_all
  register_all-Later [] f = record { steps = λ w w' a h. ends_at w h (omega arith) }
  register_all-Later (r ∷ rs) f = bind-Later env (notify f r) _ (notify-Later f r) (λ u.
      bind-Later env (execute_processes f.hooker (post_hook r) r false) _
        (execute_processes-Later env f.hooker (post_hook r) r false)
        (λ b. register_all-Later rs (registry_recovery r f)))

  rediscover-Later : (rs : List Recovery) → Later env (rediscover rs)
  rediscover-Later [] = pure-Later env tt
  rediscover-Later (r ∷ rs) = note-Later env discovery

  pub recover_with-Later :
      (sorter : Sorter Instance) (o : Option RecoveryFunc) (c : Cluster) (f : Failover)
      (a : ReplicationAnalysis)
      → Later env (recover_with sorter o c f a)
  recover_with-Later sorter none c f a = pure-Later env (c, f)
  recover_with-Later sorter (some func) c f a =
      bind-Later env (run_func sorter func f a) _ (run_func-Later sorter func f a) (λ recoveries.
        bind-Later env (register_all recoveries f) _ (register_all-Later recoveries f) (λ f'.
          bind-Later env (rediscover recoveries) _ (rediscover-Later recoveries)
            (λ u. pure-Later env (stop_recovery (start_recovery c), f'))))
