-- ===== src/Orchestrator/Failover/Begun.antt =====
-- What a failover makes of the recovery that it has begun.
use qumomf.Prelude.{
  ℕ, suc, ◌+◌, ◌/◌, ◌^◌, ◌≤◌, arith, ◌==◌, ◌≡◌, sym, ap, ◌⊎◌, inl, inr, Bool, true, false, not,
  String, Option, none, some, some_eq, List, [], ◌∷◌, if◌then◌else◌,
}
use mathlib.Core.Path.{subst}
use qumomf.Prelude.Sort.{Sorter}
use qumomf.Prelude.Result.{Result, ok, err}
use qumomf.Vshard.Instance.{InstanceUuid, Instance, ident}
use qumomf.Vshard.ReplicaSet.{ReplicaSet}
use qumomf.Vshard.Cluster.{instance_by}
use qumomf.Quorum.Candidates.{Error}
use qumomf.Quorum.Elector.{choose_master}
use qumomf.Orchestrator.Analysis.{ReplicationAnalysis}
use qumomf.Orchestrator.Query.{Query, build_recovery_query}
use qumomf.Orchestrator.Recovery.{Recovery, seconds, new_recovery, expire_after, scope_key, expired}
use qumomf.Orchestrator.World.{
  Env, World, ◌>>=◌, pure, read_clock, read_snapshot, exec, bind_result, tick,
}
use qumomf.Orchestrator.World.Trace.{bind-eq_some}
use qumomf.Orchestrator.Hooker.{pre_failover, execute_processes}
use qumomf.Orchestrator.Failover.State.{
  Failover, has_blocked_from, has_blocked_recovery, should_promote_follower,
}
use qumomf.Orchestrator.Failover.Promote.{
  instance_or_zero, update_cluster, after_check, promote_candidate, after_election, attempt, begun,
  promote,
}

-- What a failover leaves of the recovery that it has begun.
abbrev Kept : Recovery → Recovery → Type 0
Kept a b =
    (a.scope ≡ b.scope)
    × (a.set_uuid ≡ b.set_uuid)
    × (a.expiration ≡ b.expiration)
    × (a.cluster_name ≡ b.cluster_name)

Kept-of_eq : (a b : Recovery) → a ≡ b → Kept a b
Kept-of_eq a b e = (
  ap (λ (r : Recovery). r.scope) e,
  ap (λ (r : Recovery). r.set_uuid) e,
  ap (λ (r : Recovery). r.expiration) e,
  ap (λ (r : Recovery). r.cluster_name) e,
)

pub returned :
    {A : Type 0} {a b : A} {w w' : World}
    → ◌≡◌ {A = Option (A × World)} (some (a, w)) (some (b, w'))
    → a ≡ b
returned h = ap (λ x. x.0) (some_eq h)

module _ (sorter : Sorter Instance) (f : Failover) (set : ReplicaSet) (env : Env) where
  after_check-Kept :
      (uuid : InstanceUuid) (candidate : Instance) (q : Query) (recv : Recovery) (w : World)
      (o : Option Bool) {r : Recovery} {w' : World}
      → after_check sorter uuid candidate q recv o env w ≡ some (r, w')
      → Kept recv r
  after_check-Kept uuid candidate q recv w none h = cc
  after_check-Kept uuid candidate q recv w (some false) {r} h = Kept-of_eq recv r (returned h)
  after_check-Kept uuid candidate q recv w (some true) {r} {w'} h =
      let (b, w1, e1, h1) = bind-eq_some (exec candidate.uri q env w) _ h in answered b w1 h1
    where
      answered :
          (b : Bool) (w1 : World)
          → (if b
                then pure recv
                else (update_cluster sorter uuid q >>= λ _.
                    pure (record recv { is_successful = true })))
              env w1
            ≡ some (r, w')
          → Kept recv r
      answered true w1 h1 = Kept-of_eq recv r (returned h1)
      answered false w1 h1 =
          let (t, w2, e2, h2) = bind-eq_some (update_cluster sorter uuid q env w1) _ h1 in
          Kept-of_eq (record recv { is_successful = true }) r (returned h2)

  after_election-Kept :
      (recv : Recovery) (w : World) (o : Option (Result Error InstanceUuid)) {r : Recovery}
      {w' : World}
      → after_election sorter set recv o env w ≡ some (r, w')
      → Kept recv r
  unfolding promote_candidate
  after_election-Kept recv w none h = cc
  after_election-Kept recv w (some (err e)) {r} h = Kept-of_eq recv r (returned h)
  after_election-Kept recv w (some (ok uuid)) h =
      let (s, w1, e1, h1) = bind-eq_some (read_snapshot env w) _ h in
      let candidate = instance_or_zero (instance_by s uuid) in
      after_check-Kept uuid candidate (build_recovery_query set.uuid uuid)
        (record recv { successor = ident candidate }) w1 (should_promote_follower candidate) h1

  attempt-Kept :
      (recv : Recovery) (w : World) {r : Recovery} {w' : World}
      → attempt sorter f set recv env w ≡ some (r, w')
      → Kept recv r
  unfolding attempt
  attempt-Kept recv w {r} {w'} h =
      let (failed, w1, e1, h1) =
        bind-eq_some (execute_processes f.hooker pre_failover recv true env w) _ h in
      hooked failed w1 h1
    where
      hooked :
          (failed : Bool) (w1 : World)
          → (if failed
                then pure recv
                else after_election sorter set recv (choose_master sorter f.elector set))
              env w1
            ≡ some (r, w')
          → Kept recv r
      hooked true w1 h1 = Kept-of_eq recv r (returned h1)
      hooked false w1 h1 = after_election-Kept recv w1 (choose_master sorter f.elector set) h1

pub later_step :
    (bs : List Recovery) (key : String) (env : Env) (w : World) {b : Bool} {w' : World}
    → has_blocked_from bs key env w ≡ some (b, w')
    → w.step ≤ w'.step
unfolding has_blocked_from read_clock
later_step [] key env w {b} {w'} h =
    subst (λ (x : World). w.step ≤ x.step) (ap (λ x. x.1) (some_eq h)) (omega arith)
later_step (r ∷ bs) key env w {b} {w'} h =
    at (scope_key r == key) (expired (env.now w.step) r) (λ w. later_step bs key env w) h
  where
    at :
        (s e : Bool)
        → ((w : World) → has_blocked_from bs key env w ≡ some (b, w') → w.step ≤ w'.step)
        → (if s
            then bind_result
                (some (env.now w.step, tick w))
                (λ now w1. (if not e then pure true else has_blocked_from bs key) env w1)
            else has_blocked_from bs key env w)
          ≡ some (b, w')
        → w.step ≤ w'.step
    at true true ih k = let l = ih (tick w) k in omega arith
    at true false ih k =
        subst (λ (x : World). w.step ≤ x.step) (ap (λ x. x.1) (some_eq k)) (omega arith)
    at false e ih k = ih w k

module _ (sorter : Sorter Instance) (f : Failover) (env : Env) where
  -- A recovery of the cluster and the set, that expires after the block time from some reading of the
  -- clock.
  abbrev Blocks : ReplicationAnalysis → World → Recovery → Type 0
  Blocks a w r =
      (scope_key r ≡ a.set.uuid)
      × ((k : ℕ) × (w.step ≤ k) × (r.expiration ≡ seconds (env.now k + f.recv_set_ttl)))
      × (r.set_uuid ≡ a.set.uuid)
      × (r.cluster_name ≡ f.cluster_name)

  stamped-Blocks :
      (a : ReplicationAnalysis) (w : World) (now k end : ℕ) (r : Recovery)
      → w.step ≤ k
      → Kept (begun sorter f a now (env.now k)) r
      → Blocks a w (record r { end_timestamp = end })
  unfolding scope_key new_recovery expire_after
  stamped-Blocks a w now k end r l (s, u, e, n) = (rw (← s) (sym u), (k, l, sym e), sym u, sym n)

  -- A failover that returns was blocked, or has one recovery, which blocks the next one.
  pub promote-Blocks :
      (a : ReplicationAnalysis) (w : World) (rs : List Recovery) (w' : World)
      → promote sorter f a env w ≡ some (rs, w')
      → (rs ≡ []) ⊎ ((r : Recovery) × (rs ≡ r ∷ []) × Blocks a w r)
  unfolding promote has_blocked_recovery read_clock
  promote-Blocks a w rs w' h =
      let (b, w1, e1, h1) = bind-eq_some (has_blocked_from f.recoveries a.set.uuid env w) _ h in
      checked b w1 (later_step f.recoveries a.set.uuid env w e1) h1
    where
      checked :
          (b : Bool) (w1 : World)
          → w.step ≤ w1.step
          → (if b
                then pure []
                else (read_clock >>= λ now. read_clock >>= λ later.
                    attempt sorter f a.set (begun sorter f a now later) >>= λ recv.
                    read_clock >>= λ end. pure (record recv { end_timestamp = end / 10 ^ 9 } ∷ [])))
              env w1
            ≡ some (rs, w')
          → (rs ≡ []) ⊎ ((r : Recovery) × (rs ≡ r ∷ []) × Blocks a w r)
      checked true w1 l h1 = inl (sym (returned h1))
      checked false w1 l h1 =
          let now = env.now w1.step in
          let k = suc w1.step in
          let (r, w4, e4, h4) =
            bind-eq_some
              (attempt sorter f a.set (begun sorter f a now (env.now k)) env (tick (tick w1))) _
              h1 in
          let end = env.now w4.step in
          inr (
            record r { end_timestamp = end / 10 ^ 9 },
            sym (returned h4),
            stamped-Blocks a w now k (end / 10 ^ 9) r (omega arith) (
                attempt-Kept sorter f a.set env (begun sorter f a now (env.now k)) (tick (tick w1))
                  e4),
          )
