-- ===== src/Orchestrator/Failover/Promote/Totality.antt =====
-- What of a failover cannot panic: all that comes after the check of the candidate.
use qumomf.Prelude.{
  String, ◌≡◌, ◌≢◌, refl, Bool, true, false, Option, none, some, List, [], ◌∷◌, All-tabulate,
  if◌then◌else◌,
}
use qumomf.Prelude.Sort.{Sorter}
use qumomf.Vshard.Instance.{InstanceUuid, Instance}
use qumomf.Vshard.ReplicaSet.{ReplicaSet}
use qumomf.Vshard.Cluster.{instances}
use qumomf.Orchestrator.Query.{Query}
use qumomf.Orchestrator.Recovery.{Recovery}
use qumomf.Orchestrator.World.{Env, World, M, ◌>>=◌, pure, read_clock, read_snapshot, exec, tick}
use qumomf.Orchestrator.Hooker.{Hooker, HookType, execute_processes}
use qumomf.Orchestrator.Hooker.Run.{any_fails, after, until_failure, execute_processes_lem}
use qumomf.Orchestrator.Failover.State.{Failover}
use qumomf.Orchestrator.Failover.Order.{failover_less}
use qumomf.Orchestrator.Failover.Promote.{
  exec_all, router_uris, other_uris, sorted_or_panic, update_cluster, after_check,
}

-- The action returns from every state.
abbrev pub Total : {A : Type 0} → Env → M A → Type 0
Total {A} env m = (w : World) → (a : A) × (w' : World) × (m env w ≡ some (a, w'))

module _ (env : Env) where
  bind-Total :
      {A B : Type 0} (m : M A) (f : A → M B)
      → Total env m
      → ((a : A) → Total env (f a))
      → Total env (m >>= f)
  bind-Total m f t g w = let (a, w1, e) = t w in let (b, w2, k) = g a w1 in (b, w2, rw e k)

  pure-Total : {A : Type 0} (a : A) → Total env (pure a)
  pure-Total a w = (a, w, refl)

  read_clock-Total : Total env read_clock
  unfolding read_clock
  read_clock-Total w = (env.now w.step, tick w, refl)

  exec-Total : (uri : String) (q : Query) → Total env (exec uri q)
  unfolding exec
  exec-Total uri q w = (_, _, refl)

  execute_processes-Total :
      (h : Hooker) (t : HookType) (recv : Recovery) → Total env (execute_processes h t recv true)
  execute_processes-Total h t recv w = (
    any_fails env recv w.step (h.processes t),
    after env recv w (until_failure env recv w.step (h.processes t)),
    (execute_processes_lem h t recv env w).1,
  )

  exec_all-Total : (uris : List String) (q : Query) → Total env (exec_all uris q)
  unfolding exec_all
  exec_all-Total [] q w = (tt, w, refl)
  exec_all-Total (uri ∷ uris) q w =
      bind-Total (exec uri q) (λ failed. exec_all uris q) (exec-Total uri q)
        (λ failed. exec_all-Total uris q) w

  module _ (sorter : Sorter Instance) (f : Failover) (set : ReplicaSet) where
    sort-Total :
        (is : List Instance)
        → Total env (sorted_or_panic sorter (sorter.sort (λ l r. some (failover_less l r)) is))
    sort-Total is w =
        let (sorted, e) =
          sorter.sort_total (λ l r. some (failover_less l r)) (λ i. Unit {0}) is
            (λ l r p q. (failover_less l r, refl)) (All-tabulate (λ i. Unit {0}) is (λ i m. tt)) in
        (sorted, w, rw e refl)

    update_cluster-Total :
        (uuid : InstanceUuid) (q : Query) → Total env (update_cluster sorter uuid q)
    unfolding update_cluster read_snapshot
    update_cluster-Total uuid q w =
        let (u, w1, e) = exec_all-Total (router_uris (env.snapshot w.step)) q (tick w) in
        let is = instances (env.snapshot w1.step) in
        let (v, w2, k) =
          bind-Total (sorted_or_panic sorter (sorter.sort (λ l r. some (failover_less l r)) is))
            (λ sorted. exec_all (other_uris uuid sorted) q) (sort-Total is)
            (λ sorted. exec_all-Total (other_uris uuid sorted) q) (tick w1) in
        (v, w2, rw e k)

    pub after_check-Total :
        (uuid : InstanceUuid) (candidate : Instance) (q : Query) (recv : Recovery) (o : Option Bool)
        → o ≢ none
        → Total env (after_check sorter uuid candidate q recv o)
    after_check-Total uuid candidate q recv none n = absurd (n refl)
    after_check-Total uuid candidate q recv (some false) n = pure-Total recv
    after_check-Total uuid candidate q recv (some true) n =
        bind-Total (exec candidate.uri q)
          (λ failed.
            if failed
            then pure recv
            else (update_cluster sorter uuid q >>= λ _.
                pure (record recv { is_successful = true })))
          (exec-Total candidate.uri q) (λ failed. told failed)
      where
        told :
            (failed : Bool)
            → Total env (
                if failed
                then pure recv
                else (update_cluster sorter uuid q >>= λ _.
                    pure (record recv { is_successful = true })))
        told true = pure-Total recv
        told false =
            bind-Total (update_cluster sorter uuid q)
              (λ u. pure (record recv { is_successful = true })) (update_cluster-Total uuid q)
              (λ u. pure-Total (record recv { is_successful = true }))
