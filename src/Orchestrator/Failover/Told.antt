-- ===== src/Orchestrator/Failover/Told.antt =====
-- The callback of failover.go learns of what a failover registers.
use qumomf.Prelude.{
  ◌≡◌, refl, sym, ap, ◌∙◌, ◌⊎◌, inl, inr, Bool, true, false, some, some_eq, [], ◌∷◌, ◌++◌, Memᴰ,
  if◌then◌else◌, mem_append_left, mem_append_right,
}
use mathlib.Core.Path.{subst}
use mathlib.Core.List.{append-nil}
use qumomf.Prelude.Sort.{Sorter}
use qumomf.Vshard.Instance.{Instance}
use qumomf.Vshard.Cluster.{Cluster}
use qumomf.Orchestrator.Analysis.{ReplicationAnalysis}
use qumomf.Orchestrator.Recovery.{Recovery}
use qumomf.Orchestrator.World.{Env, World, Event, recovered, note, pure}
use qumomf.Orchestrator.World.Trace.{bind-eq_some}
use qumomf.Orchestrator.Hooker.{Hooker, HookType, execute_processes}
use qumomf.Orchestrator.Hooker.Run.{execute_processes_lem}
use qumomf.Orchestrator.Failover.State.{Failover}
use qumomf.Orchestrator.Failover.Serve.{
  notify, post_hook, register_all, rediscover, check_and_recover,
}
use qumomf.Orchestrator.Failover.Begun.{promote-Blocks}
use qumomf.Orchestrator.Failover.Registers.{Promotes, registers, register_all-recoveries}

module _ (env : Env) (e : Event) where
  -- A hook keeps what has happened.
  hook-trace :
      (h : Hooker) (t : HookType) (r : Recovery) (w : World) {b : Bool} {w' : World}
      → execute_processes h t r false env w ≡ some (b, w')
      → Memᴰ e w.trace
      → Memᴰ e w'.trace
  hook-trace h t r w k m =
      subst (λ (x : World). Memᴰ e x.trace)
        (ap (λ x. x.1) (some_eq (sym (execute_processes_lem h t r env w).0 ∙ k)))
        (mem_append_left w.trace _ m)

  rediscover-trace :
      (r : Recovery) (w w' : World)
      → rediscover (r ∷ []) env w ≡ some (tt, w')
      → Memᴰ e w.trace
      → Memᴰ e w'.trace
  unfolding note
  rediscover-trace r w w' k m =
      subst (λ (x : World). Memᴰ e x.trace) (ap (λ x. x.1) (some_eq k))
        (mem_append_left w.trace _ m)

register_all-trace :
    (r : Recovery) (f : Failover) (env : Env) (w : World) {f' : Failover} {w' : World}
    → f.notifies ≡ true
    → register_all (r ∷ []) f env w ≡ some (f', w')
    → Memᴰ (recovered r) w'.trace
unfolding register_all note
register_all-trace r f env w {f'} {w'} n h =
    let (_, w1, e1, h1) = bind-eq_some (notify f r env w) _ h in
    let (_, w2, e2, h2) =
      bind-eq_some (execute_processes f.hooker (post_hook r) r false env w1) _ h1 in
    subst (λ (x : World). Memᴰ (recovered r) x.trace) (ap (λ x. x.1) (some_eq h2))
      (hook-trace env (recovered r) f.hooker (post_hook r) r w1 e2 (noted f.notifies w1 n e1))
  where
    noted :
        (b : Bool) (w1 : World)
        → b ≡ true
        → (if b then note (recovered r) else pure tt) env w ≡ some (tt, w1)
        → Memᴰ (recovered r) w1.trace
    noted true w1 h k =
        subst (λ (x : World). Memᴰ (recovered r) x.trace) (ap (λ x. x.1) (some_eq k))
          (mem_append_right w.trace _ (Memᴰ.head refl))
    noted false w1 h k = cc

module _ (sorter : Sorter Instance) (env : Env) where
  -- A failover that registers a recovery registers one, of its cluster and set, and tells of it.
  abbrev pub Tells : Failover → ReplicationAnalysis → Failover → World → Recovery → Type 0
  Tells f a f' w' r =
      (f'.recoveries ≡ f.recoveries ++ r ∷ [])
      × Memᴰ (recovered r) w'.trace
      × (r.set_uuid ≡ a.set.uuid)
      × (r.cluster_name ≡ f.cluster_name)

  pub check_and_recover-Tells :
      (c : Cluster) (f : Failover) (a : ReplicationAnalysis) (w : World) {c' : Cluster}
      {f' : Failover} {w' : World}
      → Promotes sorter env a
      → f.notifies ≡ true
      → check_and_recover sorter c f a env w ≡ some ((c', f'), w')
      → (f'.recoveries ≡ f.recoveries) ⊎ ((r : Recovery) × Tells f a f' w' r)
  check_and_recover-Tells c f a w {c'} {f'} {w'} p n h =
      let (rs, w1, e, (w2, k, last)) = registers sorter env c f a w p h in
      let kept =
        ap (λ (x : Failover). x.recoveries) (sym (register_all-recoveries rs f env w1 k)) in
      elim (promote-Blocks sorter f env a w rs w1 e) [
        | inl z ↦ inl (kept ∙ ap (λ rs. f.recoveries ++ rs) z ∙ append-nil f.recoveries)
        | inr (r, z, (_, _, u, name)) ↦ inr (
          r,
          (
            kept ∙ ap (λ rs. f.recoveries ++ rs) z,
            rediscover-trace env (recovered r) r w2 w'
                (subst (λ rs. rediscover rs env w2 ≡ some (tt, w')) z last)
                (register_all-trace r f env w1 n
                  (subst (λ rs. register_all rs f env w1 ≡ some (f', w2)) z k)),
            u,
            name,
          ),
        )
      ]
