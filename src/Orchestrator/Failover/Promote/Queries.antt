-- ===== src/Orchestrator/Failover/Promote/Queries.antt =====
-- Which nodes a failover sends its query to, and in which order.
use qumomf.Prelude.{
  ℕ, suc, ◌+◌, length, arith, String, ◌≡◌, refl, sym, ap, ◌∙◌, Option, none, some, some_eq, List,
  [], ◌∷◌, ◌++◌, map, Permᴰ,
}
use mathlib.Core.List.{append_assoc, append-nil, map-append}
use mathlib.Core.Path.{subst}
use qumomf.Prelude.Sort.{Sorter}
use qumomf.Vshard.Instance.{InstanceUuid, Instance}
use qumomf.Vshard.Snapshot.{Snapshot}
use qumomf.Vshard.Cluster.{instances}
use qumomf.Orchestrator.Query.{Query}
use qumomf.Orchestrator.World.{Env, World, query, read_snapshot, exec, tick}
use qumomf.Orchestrator.World.Trace.{queried, bind-eq_some, exec-queried}
use qumomf.Orchestrator.Failover.Order.{failover_less}
use qumomf.Orchestrator.Failover.Promote.{
  exec_all, router_uris, other_uris, sorted_or_panic, update_cluster,
}

-- Queries of one text to a list of nodes.
abbrev pub to_each : Query → List String → List (String × Query)
to_each q uris = map (λ (u : String). (u, q)) uris

exec_all-queried :
    (uris : List String) (q : Query) (env : Env) (w : World) {u : Unit {0}} {w' : World}
    → exec_all uris q env w ≡ some (u, w')
    → queried w' ≡ queried w ++ to_each q uris
unfolding exec_all
exec_all-queried [] q env w h =
    ap (λ r. queried r.1) (sym (some_eq h)) ∙ sym (append-nil (queried w))
exec_all-queried (uri ∷ uris) q env w h =
    let (b, v, e, k) = bind-eq_some (exec uri q env w) (λ b v. exec_all uris q env v) h in
    exec_all-queried uris q env v k
    ∙ ap (λ l. l ++ to_each q uris) (exec-queried env w uri q e)
    ∙ append_assoc (queried w) ((uri, q) ∷ []) (to_each q uris)

-- The loop takes a step for each node.
exec_all-steps :
    (uris : List String) (q : Query) (env : Env) (w : World) {u : Unit {0}} {w' : World}
    → exec_all uris q env w ≡ some (u, w')
    → w'.step ≡ w.step + length uris
unfolding exec_all exec
exec_all-steps [] q env w h = ap (λ r. r.1.step) (sym (some_eq h)) ∙ omega arith
exec_all-steps (uri ∷ uris) q env w h =
    exec_all-steps uris q env (record { step = suc w.step; trace = w.trace ++ query uri q ∷ [] }) h
    ∙ omega arith

module _ (sorter : Sorter Instance) where
  sorted-eq_some :
      (o : Option (List Instance)) (env : Env) (w : World) {is : List Instance} {w' : World}
      → sorted_or_panic sorter o env w ≡ some (is, w')
      → (o ≡ some is) × (w' ≡ w)
  sorted-eq_some none env w h = cc
  sorted-eq_some (some is) env w h = (cc, cc)

  -- The snapshot from which the instances are taken: the one that is there once the routers, which
  -- were taken from the snapshot at step `n`, have got their queries.
  abbrev pub after_routers : Env → ℕ → Snapshot
  after_routers env n = env.snapshot (suc n + length (router_uris (env.snapshot n)))

  -- The nodes that are updated after the candidate, from step `n` on: the routers of the snapshot, then
  -- the instances of the later one, all but the candidate, in some order.
  pub record Updated (env : Env) (n : ℕ) (candidate : InstanceUuid) (uris : List String)
      : Type 0 where
    pub sorted : List Instance
    pub rearranged : Permᴰ (instances (after_routers env n)) sorted
    pub same : uris ≡ router_uris (env.snapshot n) ++ other_uris candidate sorted

  pub update_cluster-queried :
      (candidate : InstanceUuid) (q : Query) (env : Env) (w : World) {u : Unit {0}} {w' : World}
      → update_cluster sorter candidate q env w ≡ some (u, w')
      → (uris : List String) × Updated env w.step candidate uris
        × (queried w' ≡ queried w ++ to_each q uris)
  unfolding update_cluster read_snapshot
  update_cluster-queried candidate q env w h =
      let s = env.snapshot w.step in
      let (u2, w2, e2, h2) = bind-eq_some (exec_all (router_uris s) q env (tick w)) _ h in
      let s' = env.snapshot w2.step in
      let w3 = tick w2 in
      let h3 = h2 in
      let steps = exec_all-steps (router_uris s) q env (tick w) e2 in
      let less = λ (l r : Instance). some (failover_less l r) in
      let (is, w4, e4, h4) =
        bind-eq_some (sorted_or_panic sorter (sorter.sort less (instances s')) env w3) _ h3 in
      let (e5, e6) = sorted-eq_some (sorter.sort less (instances s')) env w3 e4 in
      (
        router_uris s ++ other_uris candidate is,
        record {
          sorted = is;
          rearranged =
              subst (λ k. Permᴰ (instances (env.snapshot k)) is) steps
                (sorter.sort_perm less (instances s') is e5);
          same = refl;
        },
        exec_all-queried (other_uris candidate is) q env w4 h4
            ∙ ap (λ l. l ++ to_each q (other_uris candidate is))
                (ap queried e6 ∙ exec_all-queried (router_uris s) q env (tick w) e2)
            ∙ append_assoc (queried w) (to_each q (router_uris s))
                (to_each q (other_uris candidate is))
            ∙ ap (λ l. queried w ++ l)
                (sym
                  (map-append (λ (u : String). (u, q)) (router_uris s) (other_uris candidate is))),
      )
