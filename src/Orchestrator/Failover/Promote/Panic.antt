-- ===== src/Orchestrator/Failover/Promote/Panic.antt =====
-- Where a failover panics: in its election, or where the upstream of the elected candidate is looked
-- into without a check.
use qumomf.Prelude.{
  ℕ, suc, ◌+◌, length, ◌/◌, ◌^◌, ◌≡◌, ◌≢◌, refl, sym, ap, ◌∙◌, ◌↔◌, Bool, true, false, Option, none,
  some, some_eq, List, [], ◌∷◌, arith, if◌then◌else◌,
}
use mathlib.Core.Path.{subst}
use qumomf.Prelude.Int.{pos, ◌≤ℤ◌, ltb_ℤ}
use qumomf.Prelude.Sort.{Sorter}
use qumomf.Prelude.Result.{Result, ok, err}
use qumomf.Vshard.Instance.{InstanceUuid, Instance, Upstream, ident}
use qumomf.Vshard.ReplicaSet.{ReplicaSet}
use qumomf.Vshard.Cluster.{instance_by}
use qumomf.Quorum.Candidates.{Error}
use qumomf.Quorum.Elector.{choose_master}
use qumomf.Orchestrator.Analysis.{ReplicationAnalysis}
use qumomf.Orchestrator.Query.{Query, build_recovery_query}
use qumomf.Orchestrator.Recovery.{Recovery}
use qumomf.Orchestrator.World.{
  Env, World, ◌>>=◌, pure, bind_result, read_clock, read_snapshot, tick,
}
use qumomf.Orchestrator.Hooker.{pre_failover}
use qumomf.Orchestrator.Hooker.Run.{any_fails, after, until_failure, execute_processes_lem}
use qumomf.Orchestrator.Failover.State.{Failover, has_blocked_recovery, should_promote_follower}
use qumomf.Orchestrator.Failover.State.Blocking.{has_blocked_from_total}
use qumomf.Orchestrator.Failover.Promote.{
  instance_or_zero, after_check, promote_candidate, after_election, attempt, begun, promote,
}
use qumomf.Orchestrator.Failover.Promote.Totality.{after_check-Total}

-- The check of the instance panics: no upstream, and not ahead of the master.
abbrev pub IsUnchecked : Instance → Type 0
IsUnchecked inst = (inst.upstream ≡ none) × (pos 0 ≤ℤ inst.lsn_behind_master)

should_promote_follower_iff :
    (inst : Instance) → (should_promote_follower inst ≡ none) ↔ IsUnchecked inst
unfolding should_promote_follower
should_promote_follower_iff inst = (panics, λ h. rw (h.0, not_ahead h.1) refl)
  where
    not_ahead : pos 0 ≤ℤ inst.lsn_behind_master → ltb_ℤ inst.lsn_behind_master (pos 0) ≡ false
    not_ahead l = ground arith

    at :
        (o : Option Upstream)
        → inst.upstream ≡ o
        → should_promote_follower inst ≡ none
        → inst.upstream ≡ none
    at none k h = k
    at (some u) k h = ground (arith, k, h)

    panics : should_promote_follower inst ≡ none → IsUnchecked inst
    panics h = (at inst.upstream refl h, ground (arith, h))

-- A bind whose second part never panics panics in its first part alone.
bind_none :
    {A B : Type 0} (m : Option (A × World)) (f : A → World → Option (B × World))
    → ((a : A) (w : World) → f a w ≢ none)
    → (bind_result m f ≡ none) ↔ (m ≡ none)
bind_none none f t = ((λ h. refl), λ h. refl)
bind_none (some (a, w)) f t = ((λ h. absurd (t a w h)), λ h. cc)

module _ (env : Env) (sorter : Sorter Instance) (f : Failover) (set : ReplicaSet) where
  after_check_iff :
      (uuid : InstanceUuid) (candidate : Instance) (q : Query) (recv : Recovery) (o : Option Bool)
      (w : World)
      → (after_check sorter uuid candidate q recv o env w ≡ none) ↔ (o ≡ none)
  after_check_iff uuid candidate q recv none w = ((λ h. refl), λ h. refl)
  after_check_iff uuid candidate q recv (some b) w = (
    (λ h.
        let (r, w', e) =
          after_check-Total env sorter f set uuid candidate q recv (some b) (λ k. cc) w in
        cc),
    λ h. cc,
  )

  -- The election panics, or it has chosen a candidate whose check panics in the snapshot at step `n`.
  abbrev pub ElectionPanics : ℕ → Option (Result Error InstanceUuid) → Type 0
  ElectionPanics n none = Unit
  ElectionPanics n (some (err e)) = ⊥
  ElectionPanics n (some (ok uuid)) =
      IsUnchecked (instance_or_zero (instance_by (env.snapshot n) uuid))

  after_election_iff :
      (recv : Recovery) (o : Option (Result Error InstanceUuid)) (w : World)
      → (after_election sorter set recv o env w ≡ none) ↔ ElectionPanics w.step o
  unfolding promote_candidate read_snapshot
  after_election_iff recv none w = ((λ h. tt), λ h. refl)
  after_election_iff recv (some (err e)) w = ((λ h. cc), λ h. elim h [ ])
  after_election_iff recv (some (ok uuid)) w =
      let candidate = instance_or_zero (instance_by (env.snapshot w.step) uuid) in
      let (to, from) =
        after_check_iff uuid candidate (build_recovery_query set.uuid uuid)
          (record recv { successor = ident candidate }) (should_promote_follower candidate)
          (tick w) in
      let (to', from') = should_promote_follower_iff candidate in
      ((λ h. to' (to h)), λ h. from (from' h))

  -- No hook fails from step `n` on, and then the election panics.
  abbrev pub AttemptPanics : ℕ → Recovery → Type 0
  AttemptPanics n recv =
      let hooks = f.hooker.processes pre_failover in
      (any_fails env recv n hooks ≡ false)
      × ElectionPanics (n + length (until_failure env recv n hooks))
          (choose_master sorter f.elector set)

  attempt_iff :
      (recv : Recovery) (w : World)
      → (attempt sorter f set recv env w ≡ none) ↔ AttemptPanics w.step recv
  unfolding attempt
  attempt_iff recv w =
      let hooks = f.hooker.processes pre_failover in
      let ran = (execute_processes_lem f.hooker pre_failover recv env w).1 in
      let end = after env recv w (until_failure env recv w.step hooks) in
      let (to, from) = hooked (any_fails env recv w.step hooks) end in
      ((λ h. to (subst Panics ran h)), λ h. subst Panics (sym ran) (from h))
    where
      later : Bool → World → Option (Recovery × World)
      later failed v =
          (if failed
              then pure recv
              else after_election sorter set recv (choose_master sorter f.elector set))
            env v

      Panics : Option (Bool × World) → Type 0
      Panics o = bind_result o later ≡ none

      hooked :
          (failed : Bool) (v : World)
          → (later failed v ≡ none)
            ↔ ((failed ≡ false) × ElectionPanics v.step (choose_master sorter f.elector set))
      hooked true v = ((λ h. cc), λ h. cc)
      hooked false v =
          let (to, from) = after_election_iff recv (choose_master sorter f.elector set) v in
          ((λ h. (refl, to h)), λ h. from h.1)

-- A failover panics exactly if it is not blocked, none of its hooks fails, and then its election
-- panics or chooses an instance that the cluster's snapshot of that moment shows without an upstream
-- and not ahead of the master. Nothing else in it panics.
pub promote_panics_iff :
    (env : Env) (sorter : Sorter Instance) (f : Failover) (a : ReplicationAnalysis) (w : World)
    → (promote sorter f a env w ≡ none) ↔ (
        (w1 : World) × (has_blocked_recovery f a.set.uuid env w ≡ some (false, w1))
        × AttemptPanics env sorter f a.set
            (suc (suc w1.step))
            (begun sorter f a (env.now w1.step) (env.now (suc w1.step))))
unfolding promote read_clock has_blocked_recovery
promote_panics_iff env sorter f a w =
    let (b, w1, e, t) = has_blocked_from_total f.recoveries a.set.uuid env w in
    let (to, from) = checked b w1 e in
    ((λ h. to (subst Stops e h)), λ h. subst Stops (sym e) (from h))
  where
    rest : Bool → World → Option (List Recovery × World)
    rest blocked v =
        (if blocked
            then pure []
            else (read_clock >>= λ now. read_clock >>= λ later.
                attempt sorter f a.set (begun sorter f a now later) >>= λ recv.
                read_clock >>= λ end. pure (record recv { end_timestamp = end / 10 ^ 9 } ∷ [])))
          env v

    Stops : Option (Bool × World) → Type 0
    Stops o = bind_result o rest ≡ none

    Panics : World → Type 0
    Panics v =
        AttemptPanics env sorter f a.set (suc (suc v.step))
          (begun sorter f a (env.now v.step) (env.now (suc v.step)))

    checked :
        (b : Bool) (w1 : World)
        → has_blocked_recovery f a.set.uuid env w ≡ some (b, w1)
        → (rest b w1 ≡ none)
          ↔ ((v : World) × (has_blocked_recovery f a.set.uuid env w ≡ some (false, v)) × Panics v)
    checked true w1 e = ((λ h. cc), λ h. let k = h.1 in cc)
    checked false w1 e =
        let recv = begun sorter f a (env.now w1.step) (env.now (suc w1.step)) in
        let (to, from) = attempt_iff env sorter f a.set recv (tick (tick w1)) in
        let (to', from') =
          bind_none (attempt sorter f a.set recv env (tick (tick w1)))
            (λ recv v. some (record recv { end_timestamp = env.now v.step / 10 ^ 9 } ∷ [], tick v))
            (λ recv v h. cc) in
        (
          (λ h. (w1, e, to (to' h))),
          λ h.
              let same : h.0 ≡ w1 = ap (λ x. x.1) (some_eq (sym h.1 ∙ e)) in
              from' (from (subst Panics same h.2)),
        )
