-- ===== src/Orchestrator/Failover/Remembers.antt =====
-- The loop of `Serve` keeps a recovery that it remembers until the clock has passed its expiration.
use qumomf.Prelude.{
  ℕ, ◌+◌, ◌≤◌, ◌<◌, arith, ◌≡◌, sym, ap, ◌∙◌, Bool, true, false, Option, none, some, some_eq, List,
  [], ◌∷◌, Memᴰ, mem_append_left, length, if◌then◌else◌,
}
use mathlib.Core.Path.{subst}
use qumomf.Prelude.Sort.{Sorter}
use qumomf.Vshard.Instance.{Instance}
use qumomf.Vshard.Cluster.{Cluster, set_read_only}
use qumomf.Orchestrator.Analysis.{ReplicationAnalysis}
use qumomf.Orchestrator.Recovery.{Recovery, seconds}
use qumomf.Orchestrator.World.{Env, World, pure, read_clock, tick}
use qumomf.Orchestrator.World.Trace.{bind-eq_some}
use qumomf.Orchestrator.World.Steps.{Later, ends_at, bind-Later, pure-Later}
use qumomf.Orchestrator.Failover.State.{
  Failover, RecoveryFunc, get_check_and_recovery_func, alive_from, cleanup,
}
use qumomf.Orchestrator.Failover.State.Cleanup.{cleanup-KeepsAlive}
use qumomf.Orchestrator.Failover.Begun.{returned}
use qumomf.Orchestrator.Failover.Registers.{register_all-recoveries}
use qumomf.Orchestrator.Failover.Steps.{recover_with-Later}
use qumomf.Orchestrator.Failover.Serve.{
  Message, cleanup_tick, analysis, read_only_mode, should_be_analysis_checked, run_func,
  register_all, rediscover, recover_with, check_and_recover, handle, serve,
}

-- The clock has not passed the expiration at any step before `n`.
abbrev pub Lasts : Env → ℕ → Recovery → Type 0
Lasts env n r = (i : ℕ) → i < n → seconds (env.now i) ≤ r.expiration

alive_from-steps :
    (bs : List Recovery) (env : Env) (w : World) {rs : List Recovery} {w' : World}
    → alive_from bs env w ≡ some (rs, w')
    → w'.step ≡ w.step + length bs
unfolding alive_from read_clock
alive_from-steps [] env w h = ap (λ x. x.1.step) (sym (some_eq h)) ∙ omega arith
alive_from-steps (b ∷ bs) env w h =
    let (rs, w1, e, k) = bind-eq_some (alive_from bs env (tick w)) _ h in
    ap (λ x. x.1.step) (sym (some_eq k)) ∙ alive_from-steps bs env (tick w) e ∙ omega arith

cleanup-steps :
    (f : Failover) (env : Env) (w : World) {f' : Failover} {w' : World}
    → cleanup false f env w ≡ some (f', w')
    → w'.step ≡ w.step + length f.recoveries
unfolding cleanup
cleanup-steps f env w h =
    let (rs, w1, e, k) = bind-eq_some (alive_from f.recoveries env w) _ h in
    ap (λ x. x.1.step) (sym (some_eq k)) ∙ alive_from-steps f.recoveries env w e

module _ (sorter : Sorter Instance) (env : Env) where
  cleanup-Later : (f : Failover) → Later env (cleanup false f)
  cleanup-Later f = record { steps = λ w w' f' h. let e = cleanup-steps f env w h in omega arith }

  handle-Later : (c : Cluster) (f : Failover) (m : Message) → Later env (handle sorter c f m)
  unfolding handle check_and_recover
  handle-Later c f cleanup_tick =
      bind-Later env (cleanup false f) _ (cleanup-Later f) (λ f'. pure-Later env (c, f'))
  handle-Later c f (analysis a) = at (should_be_analysis_checked c)
    where
      at :
          (b : Bool)
          → Later env (
              if b
              then recover_with sorter (get_check_and_recovery_func a.state).0 c f a
              else pure (c, f))
      at true = recover_with-Later env sorter (get_check_and_recovery_func a.state).0 c f a
      at false = pure-Later env (c, f)
  handle-Later c f (read_only_mode v) = pure-Later env (set_read_only v c, f)

  pub serve-Later :
      (c : Cluster) (f : Failover) (ms : List Message) → Later env (serve sorter c f ms)
  unfolding serve
  serve-Later c f [] = record { steps = λ w w' a h. ends_at w h (omega arith) }
  serve-Later c f (m ∷ ms) =
      bind-Later env (handle sorter c f m) _ (handle-Later c f m) (λ s. serve-Later s.0 s.1 ms)

  module _ (r : Recovery) (end : ℕ) (lasts : Lasts env end r) where
    -- An action that ends by the step `end` keeps the recovery.
    abbrev Keeps : Failover → Failover → World → Type 0
    Keeps f f' w' = w'.step ≤ end → Memᴰ r f.recoveries → Memᴰ r f'.recoveries

    cleanup-Keeps :
        (f : Failover) (w : World) {f' : Failover} {w' : World}
        → cleanup false f env w ≡ some (f', w')
        → Keeps f f' w'
    cleanup-Keeps f w h l m =
        let (g, w1, e, t, (sub, sup)) = cleanup-KeepsAlive f env w in
        let steps = cleanup-steps f env w h in
        subst (λ (x : Failover). Memᴰ r x.recoveries) (returned (sym e ∙ h))
          (sup r m (λ i b. lasts i (omega arith)))

    recover_with-Keeps :
        (o : Option RecoveryFunc) (c : Cluster) (f : Failover) (a : ReplicationAnalysis) (w : World)
        {c' : Cluster} {f' : Failover} {w' : World}
        → recover_with sorter o c f a env w ≡ some ((c', f'), w')
        → Keeps f f' w'
    recover_with-Keeps none c f a w h l m =
        subst (λ (x : Failover). Memᴰ r x.recoveries) (ap (λ x. x.1) (returned h)) m
    recover_with-Keeps (some func) c f a w h l m =
        let (rs, w1, e1, h1) = bind-eq_some (run_func sorter func f a env w) _ h in
        let (f1, w2, e2, h2) = bind-eq_some (register_all rs f env w1) _ h1 in
        let (_, w3, e3, h3) = bind-eq_some (rediscover rs env w2) _ h2 in
        subst (λ (x : Failover). Memᴰ r x.recoveries)
          (register_all-recoveries rs f env w1 e2 ∙ ap (λ x. x.1) (returned h3))
          (mem_append_left f.recoveries rs m)

    handle-Keeps :
        (c : Cluster) (f : Failover) (m : Message) (w : World) {c' : Cluster} {f' : Failover}
        {w' : World}
        → handle sorter c f m env w ≡ some ((c', f'), w')
        → Keeps f f' w'
    unfolding handle check_and_recover
    handle-Keeps c f cleanup_tick w h l m =
        let (g, w1, e, k) = bind-eq_some (cleanup false f env w) _ h in
        let same = ap (λ x. x.1) (returned k) in
        let last = ap (λ x. x.1.step) (some_eq k) in
        subst (λ (x : Failover). Memᴰ r x.recoveries) same (cleanup-Keeps f w e (omega arith) m)
    handle-Keeps c f (analysis a) w {c'} {f'} {w'} h l m = at (should_be_analysis_checked c) h
      where
        at :
            (b : Bool)
            → (if b
                  then recover_with sorter (get_check_and_recovery_func a.state).0 c f a
                  else pure (c, f))
                env w
              ≡ some ((c', f'), w')
            → Memᴰ r f'.recoveries
        at true k = recover_with-Keeps (get_check_and_recovery_func a.state).0 c f a w k l m
        at false k = subst (λ (x : Failover). Memᴰ r x.recoveries) (ap (λ x. x.1) (returned k)) m
    handle-Keeps c f (read_only_mode v) w h l m =
        subst (λ (x : Failover). Memᴰ r x.recoveries) (ap (λ x. x.1) (returned h)) m

    -- Whatever the loop handles meanwhile, it remembers the recovery as long as that lasts.
    pub serve-Keeps :
        (c : Cluster) (f : Failover) (ms : List Message) (w : World) {c' : Cluster} {f' : Failover}
        {w' : World}
        → serve sorter c f ms env w ≡ some ((c', f'), w')
        → Keeps f f' w'
    unfolding serve
    serve-Keeps c f [] w h l m =
        subst (λ (x : Failover). Memᴰ r x.recoveries) (ap (λ x. x.1) (returned h)) m
    serve-Keeps c f (x ∷ ms) w {c'} {f'} {w'} h l m =
        let (s, w1, e, k) = bind-eq_some (handle sorter c f x env w) _ h in
        let step = (serve-Later s.0 s.1 ms).steps w1 w' (c', f') k in
        serve-Keeps s.0 s.1 ms w1 k l (handle-Keeps c f x w e (omega arith) m)
