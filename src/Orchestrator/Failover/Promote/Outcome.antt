-- ===== src/Orchestrator/Failover/Promote/Outcome.antt =====
-- How a failover ends, branch by branch.
use qumomf.Prelude.{
  ℕ, suc, ◌≤◌, String, ◌≡◌, refl, sym, ap, ◌∙◌, ◌⊎◌, inl, inr, Bool, true, false, Option, none,
  some, some_eq, List, [], ◌∷◌, ◌++◌, if◌then◌else◌,
}
use mathlib.Core.Path.{subst}
use mathlib.Core.List.{append_assoc}
use qumomf.Prelude.Sort.{Sorter}
use qumomf.Prelude.Result.{Result, ok, err}
use qumomf.Vshard.Instance.{InstanceUuid, Instance, ident}
use qumomf.Vshard.ReplicaSet.{ReplicaSet}
use qumomf.Vshard.Cluster.{instance_by}
use qumomf.Quorum.Candidates.{Error}
use qumomf.Quorum.Elector.{choose_master}
use qumomf.Orchestrator.Query.{Query, build_recovery_query}
use qumomf.Orchestrator.Recovery.{Recovery}
use qumomf.Orchestrator.World.{Env, World, ◌>>=◌, pure, read_snapshot, exec, tick}
use qumomf.Orchestrator.World.Steps.{execute_processes-Later}
use qumomf.Orchestrator.World.Trace.{queried, bind-eq_some, exec-step, exec-queried}
use qumomf.Orchestrator.Hooker.{pre_failover, execute_processes}
use qumomf.Orchestrator.Hooker.Run.{execute_processes-queried}
use qumomf.Orchestrator.Failover.State.{Failover, should_promote_follower}
use qumomf.Orchestrator.Failover.Promote.{
  instance_or_zero, update_cluster, after_check, promote_candidate, after_election, attempt,
}
use qumomf.Orchestrator.Failover.Promote.Queries.{to_each, Updated, update_cluster-queried}

abbrev pub Queries : Type 0
Queries = List (String × Query)

-- An unsuccessful failover has sent nothing, or its query to one node alone.
abbrev pub Stopped : Recovery → Queries → Queries → Type 0
Stopped r before after =
    (r.is_successful ≡ false)
    × ((after ≡ before) ⊎ ((uri : String) × (q : Query) × (after ≡ before ++ (uri, q) ∷ [])))

-- A successful failover has elected a candidate, found it fit for promotion in the cluster's snapshot
-- of some step after its start, and sent one query: to the candidate first, then to the routers of
-- the snapshot two steps later, when the candidate has answered, then to all the other instances of
-- the one after that.
pub record Promoted (sorter : Sorter Instance) (f : Failover) (set : ReplicaSet) (env : Env)
    (start : ℕ) (r : Recovery) (before after : Queries) : Type 0 where
  pub successful : r.is_successful ≡ true
  pub candidate_uuid : InstanceUuid
  pub elected : choose_master sorter f.elector set ≡ some (ok candidate_uuid)
  pub reading : ℕ
  pub in_time : start ≤ reading
  pub fit :
      should_promote_follower (instance_or_zero (instance_by (env.snapshot reading) candidate_uuid))
      ≡ some true
  pub named :
      r.successor ≡ ident (instance_or_zero (instance_by (env.snapshot reading) candidate_uuid))
  pub uris : List String
  pub updated : Updated sorter env (suc (suc reading)) candidate_uuid uris
  pub sent :
      after
      ≡ before
        ++ to_each
            (build_recovery_query set.uuid candidate_uuid)
            ((instance_or_zero (instance_by (env.snapshot reading) candidate_uuid)).uri ∷ uris)

module _ (sorter : Sorter Instance) (f : Failover) (set : ReplicaSet) (env : Env) where
  abbrev pub Ends : ℕ → Recovery → Queries → Queries → Type 0
  Ends start r before after =
      Stopped r before after ⊎ Promoted sorter f set env start r before after

  after_check-Ends :
      (start : ℕ) (uuid : InstanceUuid) (n : ℕ) (recv : Recovery) (w : World) (o : Option Bool)
      → start ≤ n
      → w.step ≡ suc n
      → choose_master sorter f.elector set ≡ some (ok uuid)
      → recv.is_successful ≡ false
      → recv.successor ≡ ident (instance_or_zero (instance_by (env.snapshot n) uuid))
      → should_promote_follower (instance_or_zero (instance_by (env.snapshot n) uuid)) ≡ o
      → {r : Recovery} {w' : World}
      → after_check sorter uuid
          (instance_or_zero (instance_by (env.snapshot n) uuid))
          (build_recovery_query set.uuid uuid)
          recv
          o
          env
          w
        ≡ some (r, w')
      → Ends start r (queried w) (queried w')
  after_check-Ends start uuid n recv w none l at el u name fit h = cc
  after_check-Ends start uuid n recv w (some false) l at el u name fit h = inl (
    ap (λ x. x.0.is_successful) (sym (some_eq h)) ∙ u,
    inl (ap (λ x. queried x.1) (sym (some_eq h))),
  )
  after_check-Ends start uuid n recv w (some true) l at el u name fit {r} {w'} h =
      let q = build_recovery_query set.uuid uuid in
      let candidate = instance_or_zero (instance_by (env.snapshot n) uuid) in
      let (b, w1, e1, h1) = bind-eq_some (exec candidate.uri q env w) _ h in answered b w1 e1 h1
    where
      answered :
          (b : Bool) (w1 : World)
          → exec
              (instance_or_zero (instance_by (env.snapshot n) uuid)).uri
              (build_recovery_query set.uuid uuid)
              env
              w
            ≡ some (b, w1)
          → (if b
                then pure recv
                else (update_cluster sorter uuid (build_recovery_query set.uuid uuid) >>= λ _.
                    pure (record recv { is_successful = true })))
              env w1
            ≡ some (r, w')
          → Ends start r (queried w) (queried w')
      answered true w1 e1 h1 = inl (
        ap (λ x. x.0.is_successful) (sym (some_eq h1)) ∙ u,
        inr (
          (instance_or_zero (instance_by (env.snapshot n) uuid)).uri,
          build_recovery_query set.uuid uuid,
          ap (λ x. queried x.1) (sym (some_eq h1))
              ∙ exec-queried env w (instance_or_zero (instance_by (env.snapshot n) uuid)).uri
                  (build_recovery_query set.uuid uuid) e1,
        ),
      )
      answered false w1 e1 h1 =
          let q = build_recovery_query set.uuid uuid in
          let candidate = instance_or_zero (instance_by (env.snapshot n) uuid) in
          let (t, w2, e2, h2) = bind-eq_some (update_cluster sorter uuid q env w1) _ h1 in
          let (uris, up, sent) = update_cluster-queried sorter uuid q env w1 e2 in
          inr (record {
            successful = ap (λ x. x.0.is_successful) (sym (some_eq h2));
            candidate_uuid = uuid;
            elected = el;
            reading = n;
            in_time = l;
            fit = fit;
            named = ap (λ x. x.0.successor) (sym (some_eq h2)) ∙ name;
            uris = uris;
            updated =
                subst (λ k. Updated sorter env k uuid uris)
                  (exec-step env w candidate.uri q e1 ∙ ap suc at) up;
            sent =
                ap (λ x. queried x.1) (sym (some_eq h2))
                ∙ sent
                ∙ ap (λ l. l ++ to_each q uris) (exec-queried env w candidate.uri q e1)
                ∙ append_assoc (queried w) ((candidate.uri, q) ∷ []) (to_each q uris);
          })

  after_election-Ends :
      (start : ℕ) (recv : Recovery) (w : World) (o : Option (Result Error InstanceUuid))
      → start ≤ w.step
      → choose_master sorter f.elector set ≡ o
      → recv.is_successful ≡ false
      → {r : Recovery} {w' : World} → after_election sorter set recv o env w ≡ some (r, w')
      → Ends start r (queried w) (queried w')
  unfolding promote_candidate read_snapshot
  after_election-Ends start recv w none l el u h = cc
  after_election-Ends start recv w (some (err e)) l el u h = inl (
    ap (λ x. x.0.is_successful) (sym (some_eq h)) ∙ u,
    inl (ap (λ x. queried x.1) (sym (some_eq h))),
  )
  after_election-Ends start recv w (some (ok uuid)) l el u {r} {w'} h =
      let candidate = instance_or_zero (instance_by (env.snapshot w.step) uuid) in
      after_check-Ends start uuid w.step (record recv { successor = ident candidate }) (tick w)
        (should_promote_follower candidate) l refl el u refl refl h

  pub attempt-Ends :
      (recv : Recovery) (w : World)
      → recv.is_successful ≡ false
      → {r : Recovery} {w' : World} → attempt sorter f set recv env w ≡ some (r, w')
      → Ends w.step r (queried w) (queried w')
  unfolding attempt
  attempt-Ends recv w u {r} {w'} h =
      let (b, w1, e1, h1) =
        bind-eq_some (execute_processes f.hooker pre_failover recv true env w) _ h in
      subst (λ qs. Ends w.step r qs (queried w'))
        (execute_processes-queried f.hooker pre_failover recv true env w e1)
        (hooked b w1 ((execute_processes-Later env f.hooker pre_failover recv true).steps w w1 b e1)
          h1)
    where
      hooked :
          (b : Bool) (w1 : World)
          → w.step ≤ w1.step
          → (if b
                then pure recv
                else after_election sorter set recv (choose_master sorter f.elector set))
              env w1
            ≡ some (r, w')
          → Ends w.step r (queried w1) (queried w')
      hooked true w1 l h1 = inl (
        ap (λ x. x.0.is_successful) (sym (some_eq h1)) ∙ u,
        inl (ap (λ x. queried x.1) (sym (some_eq h1))),
      )
      hooked false w1 l h1 =
          after_election-Ends w.step recv w1 (choose_master sorter f.elector set) l refl u h1
