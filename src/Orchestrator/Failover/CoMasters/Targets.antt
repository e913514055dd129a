-- ===== src/Orchestrator/Failover/CoMasters/Targets.antt =====
-- Which nodes are told to follow the leader.
use qumomf.Prelude.{
  String, ◌≡◌, ◌≢◌, refl, sym, ap, ◌∙◌, Bool, true, false, some, some_eq, List, [], ◌∷◌, ◌++◌, Memᴰ,
  All, eqb, arith, if◌then◌else◌,
}
use mathlib.Core.List.{append_assoc, append-nil}
use qumomf.Vshard.Instance.{Instance}
use qumomf.Vshard.ReplicaSet.{followers, master}
use qumomf.Orchestrator.Analysis.{ReplicationAnalysis}
use qumomf.Orchestrator.Query.{Query, build_recovery_query}
use qumomf.Orchestrator.Recovery.{Recovery}
use qumomf.Orchestrator.World.{Env, World, M, ◌>>=◌, read_clock, exec}
use qumomf.Orchestrator.World.Trace.{
  queried, queries_of, bind-eq_some, read_clock-queried, exec-queried,
}
use qumomf.Orchestrator.Hooker.{pre_failover, execute_processes}
use qumomf.Orchestrator.Hooker.Run.{execute_processes-queried}
use qumomf.Orchestrator.Failover.State.{Failover, has_blocked_recovery}
use qumomf.Orchestrator.Failover.State.Blocking.{has_blocked_from_total}
use qumomf.Orchestrator.Failover.Promote.{instance_or_zero}
use qumomf.Orchestrator.Failover.Promote.Queries.{to_each}
use qumomf.Orchestrator.Failover.CoMasters.{
  demotion, demote_one, after_hooks, unless_blocked, demote_all, demote,
}

module _ (q : Query) (leader : Instance) where
  -- The node is a follower whose configuration differs from the leader's.
  abbrev pub IsTarget : List Instance → String → Type 0
  IsTarget fs uri =
      (inst : Instance) × Memᴰ inst fs
      × (inst.uri ≡ uri)
      × (inst.vshard_fingerprint ≢ leader.vshard_fingerprint)

  -- What was sent between two states: the query, to targets alone.
  abbrev pub OnlyTargets : List Instance → World → World → Type 0
  OnlyTargets fs w w' =
      (uris : List String) × (queried w' ≡ queried w ++ to_each q uris) × All (IsTarget fs) uris

  nothing : (fs : List Instance) (w w' : World) → queried w' ≡ queried w → OnlyTargets fs w w'
  nothing fs w w' e = ([], e ∙ sym (append-nil (queried w)), tt)

  -- A state with no query in between counts for the one before it.
  from :
      (fs : List Instance) (w v w' : World)
      → queried v ≡ queried w
      → OnlyTargets fs v w'
      → OnlyTargets fs w w'
  from fs w v w' e (uris, s, t) = (uris, s ∙ ap (λ l. l ++ to_each q uris) e, t)

  up_to :
      (fs : List Instance) (w v w' : World)
      → queried w' ≡ queried v
      → OnlyTargets fs w v
      → OnlyTargets fs w w'
  up_to fs w v w' e (uris, s, t) = (uris, e ∙ s, t)

  one_query :
      (fs : List Instance) (inst : Instance) (w w' : World)
      → Memᴰ inst fs
      → inst.vshard_fingerprint ≢ leader.vshard_fingerprint
      → queried w' ≡ queried w ++ (inst.uri, q) ∷ []
      → OnlyTargets fs w w'
  one_query fs inst w w' m n e = (inst.uri ∷ [], e, ((inst, m, refl, n), tt))

  All-append : (P : String → Type 0) (us vs : List String) → All P us → All P vs → All P (us ++ vs)
  All-append P [] vs h k = k
  All-append P (u ∷ us) vs h k = (h.0, All-append P us vs h.1 k)

  to_each-append : (us vs : List String) → to_each q (us ++ vs) ≡ to_each q us ++ to_each q vs
  to_each-append [] vs = refl
  to_each-append (u ∷ us) vs = ap (λ l. (u, q) ∷ l) (to_each-append us vs)

  both :
      (fs : List Instance) (w v w' : World)
      → OnlyTargets fs w v
      → OnlyTargets fs v w'
      → OnlyTargets fs w w'
  both fs w v w' (us, e, h) (vs, k, l) = (
    us ++ vs,
    k
        ∙ ap (λ x. x ++ to_each q vs) e
        ∙ append_assoc (queried w) (to_each q us) (to_each q vs)
        ∙ ap (λ x. queried w ++ x) (sym (to_each-append us vs)),
    All-append (IsTarget fs) us vs h l,
  )

  module _ (f : Failover) (a : ReplicationAnalysis) (env : Env) (fs : List Instance) where
    module _ (inst : Instance) (m : Memᴰ inst fs)
        (n : inst.vshard_fingerprint ≢ leader.vshard_fingerprint) where
      after_hooks-OnlyTargets :
          (recv : Recovery) (stopped : Bool) (w : World) {r : Recovery} {w' : World}
          → after_hooks inst q recv stopped env w ≡ some (r, w')
          → OnlyTargets fs w w'
      after_hooks-OnlyTargets recv true w {r} {w'} h =
          let (now, v, e, k) = bind-eq_some (read_clock env w) _ h in
          nothing fs w w' (ap (λ x. queried x.1) (sym (some_eq k)) ∙ read_clock-queried env w e)
      after_hooks-OnlyTargets recv false w {r} {w'} h =
          let (b, v, e, k) = bind-eq_some (exec inst.uri q env w) _ h in
          let (now, u, e2, k2) = bind-eq_some (read_clock env v) _ k in
          up_to fs w v w' (ap (λ x. queried x.1) (sym (some_eq k2)) ∙ read_clock-queried env v e2)
            (one_query fs inst w v m n (exec-queried env w inst.uri q e))

      demote_one-OnlyTargets :
          (w : World) {r : Recovery} {w' : World}
          → demote_one f a q inst env w ≡ some (r, w')
          → OnlyTargets fs w w'
      unfolding demote_one
      demote_one-OnlyTargets w {r} {w'} h =
          let (now, w1, e1, h1) = bind-eq_some (read_clock env w) _ h in
          let (later, w2, e2, h2) = bind-eq_some (read_clock env w1) _ h1 in
          let recv = demotion f a inst now later in
          let (stopped, w3, e3, h3) =
            bind-eq_some (execute_processes f.hooker pre_failover recv true env w2) _ h2 in
          from fs w w3 w'
            (execute_processes-queried f.hooker pre_failover recv true env w2 e3
              ∙ read_clock-queried env w1 e2
              ∙ read_clock-queried env w e1)
            (after_hooks-OnlyTargets recv stopped w3 h3)

      unless_blocked-OnlyTargets :
          (later : M (List Recovery)) (blocked : Bool) (w : World) {rs : List Recovery} {w' : World}
          → ((v : World) (rs : List Recovery) (v' : World)
              → later env v ≡ some (rs, v')
              → OnlyTargets fs v v')
          → unless_blocked later (demote_one f a q inst) blocked env w ≡ some (rs, w')
          → OnlyTargets fs w w'
      unless_blocked-OnlyTargets later true w {rs} {w'} p h = p w rs w' h
      unless_blocked-OnlyTargets later false w {rs} {w'} p h =
          let (r, v, e, k) = bind-eq_some (demote_one f a q inst env w) _ h in
          let (qs, u, e2, k2) = bind-eq_some (later env v) _ k in
          up_to fs w u w' (ap (λ x. queried x.1) (sym (some_eq k2)))
            (both fs w v u (demote_one-OnlyTargets w e) (p v qs u e2))

    blocked-queried :
        (key : String) (w : World) {b : Bool} {w' : World}
        → has_blocked_recovery f key env w ≡ some (b, w')
        → queried w' ≡ queried w
    unfolding has_blocked_recovery
    blocked-queried key w h =
        let (c, w1, e, t) = has_blocked_from_total f.recoveries key env w in
        ap (λ x. queried x.1) (some_eq (sym h ∙ e)) ∙ ap queries_of t

    demote_all-OnlyTargets :
        (rest : List Instance)
        → ((inst : Instance) → Memᴰ inst rest → Memᴰ inst fs)
        → (w : World) (rs : List Recovery) (w' : World)
        → demote_all f a q leader rest env w ≡ some (rs, w')
        → OnlyTargets fs w w'
    unfolding demote_all
    demote_all-OnlyTargets [] sub w rs w' h =
        nothing fs w w' (ap (λ x. queried x.1) (sym (some_eq h)))
    demote_all-OnlyTargets (inst ∷ rest) sub w rs w' h =
        at (demote_all-OnlyTargets rest (λ i k. sub i (Memᴰ.tail k)))
          (eqb inst.vshard_fingerprint leader.vshard_fingerprint) refl h
      where
        at :
            ((v : World) (qs : List Recovery) (v' : World)
              → demote_all f a q leader rest env v ≡ some (qs, v')
              → OnlyTargets fs v v')
            → (same : Bool) → eqb inst.vshard_fingerprint leader.vshard_fingerprint ≡ same
            → (if same
                then demote_all f a q leader rest env w
                else (has_blocked_recovery f inst.uuid
                      >>= unless_blocked (demote_all f a q leader rest) (demote_one f a q inst))
                    env w)
              ≡ some (rs, w')
            → OnlyTargets fs w w'
        at later true e k = later w rs w' k
        at later false e k =
            let (b, v, e2, k2) = bind-eq_some (has_blocked_recovery f inst.uuid env w) _ k in
            from fs w v w' (blocked-queried inst.uuid w e2) (
              unless_blocked-OnlyTargets inst (sub inst (Memᴰ.head refl)) (ground arith)
                (demote_all f a q leader rest) b v later k2)

-- A demotion that returns has sent one query, the one that makes the set's master its leader, and
-- sent it to followers whose configuration differs from the leader's, and to no other node.
pub demote-OnlyTargets :
    (f : Failover) (a : ReplicationAnalysis) (env : Env) (w : World) (rs : List Recovery)
    (w' : World)
    → demote f a env w ≡ some (rs, w')
    → OnlyTargets
        (build_recovery_query a.set.uuid a.set.master_uuid)
        (instance_or_zero (master a.set))
        (followers a.set)
        w
        w'
unfolding demote
demote-OnlyTargets f a env w rs w' h =
    demote_all-OnlyTargets (build_recovery_query a.set.uuid a.set.master_uuid)
      (instance_or_zero (master a.set)) f a env (followers a.set) (followers a.set) (λ i m. m) w rs
      w' h
