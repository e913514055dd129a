-- ===== src/Orchestrator/Failover/Registers.antt =====
-- What a check of an analysis registers.
use qumomf.Prelude.{◌≡◌, sym, ap, ◌∙◌, false, some, some_eq, List, [], ◌∷◌, ◌++◌}
use mathlib.Core.Path.{subst}
use mathlib.Core.List.{append_assoc, append-nil}
use qumomf.Prelude.Sort.{Sorter}
use qumomf.Vshard.Instance.{Instance}
use qumomf.Vshard.Cluster.{Cluster}
use qumomf.Orchestrator.Analysis.{ReplicationAnalysis}
use qumomf.Orchestrator.Recovery.{Recovery}
use qumomf.Orchestrator.World.{Env, World}
use qumomf.Orchestrator.World.Trace.{bind-eq_some}
use qumomf.Orchestrator.Hooker.{execute_processes}
use qumomf.Orchestrator.Failover.State.{
  Failover, promote_follower_to_master, registry_recovery, get_check_and_recovery_func,
}
use qumomf.Orchestrator.Failover.Promote.{promote}
use qumomf.Orchestrator.Failover.Serve.{
  notify, post_hook, register_all, rediscover, recover_with, check_and_recover,
}
use qumomf.Orchestrator.Failover.Begun.{returned}

pub register_all-recoveries :
    (rs : List Recovery) (f : Failover) (env : Env) (w : World) {f' : Failover} {w' : World}
    → register_all rs f env w ≡ some (f', w')
    → record f { recoveries = f.recoveries ++ rs } ≡ f'
unfolding register_all registry_recovery
register_all-recoveries [] f env w h =
    ap (λ rs. record f { recoveries = rs }) (append-nil f.recoveries) ∙ returned h
register_all-recoveries (r ∷ rs) f env w h =
    let f1 = registry_recovery r f in
    let (_, w1, e1, h1) = bind-eq_some (notify f r env w) _ h in
    let (_, w2, e2, h2) =
      bind-eq_some (execute_processes f.hooker (post_hook r) r false env w1) _ h1 in
    ap (λ rs. record f { recoveries = rs }) (sym (append_assoc f.recoveries (r ∷ []) rs))
    ∙ register_all-recoveries rs f1 env w2 h2

module _ (sorter : Sorter Instance) (env : Env) where
  -- The analysis calls for a failover.
  abbrev pub Promotes : ReplicationAnalysis → Type 0
  Promotes a = (get_check_and_recovery_func a.state).0 ≡ some promote_follower_to_master

  -- A check that calls for a failover registers what the failover returns.
  pub registers :
      (c : Cluster) (f : Failover) (a : ReplicationAnalysis) (w : World) {c' : Cluster}
      {f' : Failover} {w' : World}
      → Promotes a
      → check_and_recover sorter c f a env w ≡ some ((c', f'), w')
      → (rs : List Recovery) × (w1 : World) × (promote sorter f a env w ≡ some (rs, w1))
        × ((w2 : World) × (register_all rs f env w1 ≡ some (f', w2))
            × (rediscover rs env w2 ≡ some (tt, w')))
  unfolding check_and_recover
  registers c f a w {c'} {f'} {w'} p h =
      at (subst (λ o. recover_with sorter o c f a env w ≡ some ((c', f'), w')) p h)
    where
      at :
          recover_with sorter (some promote_follower_to_master) c f a env w ≡ some ((c', f'), w')
          → (rs : List Recovery) × (w1 : World) × (promote sorter f a env w ≡ some (rs, w1))
            × ((w2 : World) × (register_all rs f env w1 ≡ some (f', w2))
                × (rediscover rs env w2 ≡ some (tt, w')))
      at k =
          let (rs, w1, e1, h1) = bind-eq_some (promote sorter f a env w) _ k in
          let (f1, w2, e2, h2) = bind-eq_some (register_all rs f env w1) _ h1 in
          let (_, w3, e3, h3) = bind-eq_some (rediscover rs env w2) _ h2 in
          let last : w3 ≡ w' = ap (λ x. x.1) (some_eq h3) in
          let same : f1 ≡ f' = ap (λ x. x.1) (returned h3) in
          (
            rs,
            w1,
            e1,
            (
              w2,
              subst (λ x. register_all rs f env w1 ≡ some (x, w2)) same e2,
              subst (λ x. rediscover rs env w2 ≡ some (tt, x)) last e3,
            ),
          )
