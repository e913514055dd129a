-- ===== src/Orchestrator/Failover/Safety.antt =====
-- When a recovery is run at all, and what the loop of `Serve` keeps.
use qumomf.Prelude.{
  ℕ, ◌≤◌, not, ◌≡◌, refl, ◌∙◌, ◌↔◌, ◌⊎◌, inl, inr, ◌≢◌, true, false, some, List, [], ◌∷◌, All,
  count, length, leb, Bool-cases, arith, if◌then◌else◌,
}
use qumomf.Prelude.Counting.{NonePass, AllPass, AllPass-of_count, count-of_AllPass}
use qumomf.Prelude.Sort.{Sorter}
use qumomf.Vshard.Instance.{Instance}
use qumomf.Vshard.ReplicaSet.{ReplicaSet, followers}
use qumomf.Vshard.Cluster.{Cluster, set_read_only}
use qumomf.Orchestrator.Analysis.{
  ReplicaSetState, no_problem, dead_master, dead_master_and_some_followers, analysis_of,
}
use qumomf.Orchestrator.Analysis.Counts.{works, replicates}
use qumomf.Orchestrator.Analysis.States.{analysis-Means}
use qumomf.Orchestrator.World.{Env, World, read_clock, tick}
use qumomf.Orchestrator.Recovery.{Recovery, expired}
use qumomf.Orchestrator.Failover.State.{
  Failover, promote_follower_to_master, get_check_and_recovery_func, alive_from, cleanup,
}
use qumomf.Orchestrator.Failover.Serve.{
  Message, cleanup_tick, analysis, read_only_mode, should_be_analysis_checked, handle, serve,
}

promotes_iff :
    (s : ReplicaSetState)
    → ((get_check_and_recovery_func s).0 ≡ some promote_follower_to_master)
      ↔ ((s ≡ dead_master) ⊎ (s ≡ dead_master_and_some_followers))
unfolding get_check_and_recovery_func
promotes_iff no_problem = ground arith
promotes_iff _ = ground arith

some_works : (fs : List Instance) → fs ≢ [] → AllPass works fs → ¬ NonePass works fs
some_works [] n a p = n refl
some_works (f ∷ fs) n a p = cc (a.0, p.0)

none_empty : (fs : List Instance) → ¬ NonePass works fs → fs ≢ []
none_empty [] n e = n tt
none_empty (f ∷ fs) n e = cc

all_or_not : (fs : List Instance) → AllPass works fs ⊎ (¬ AllPass works fs)
all_or_not fs = elim (Bool-cases (leb (length fs) (count works fs))) [
  | inl e ↦ inl (AllPass-of_count works fs (ground arith))
  | inr e ↦
      inr
        (λ a. le_false (length fs) (count works fs) e (omega (arith, count-of_AllPass works fs a)))
]
  where
    le_false : (a b : ℕ) → leb a b ≡ false → a ≤ b → ⊥
    le_false a b h k = ground arith

-- A failover is called for exactly when the master was not reached, some follower was reached, and
-- no follower that was reached replicates.
pub promotes-condition :
    (set : ReplicaSet) (m : Instance)
    → ((get_check_and_recovery_func (analysis_of set m).state).0 ≡ some promote_follower_to_master)
      ↔ ((m.last_check_valid ≡ false)
          × (¬ NonePass works (followers set))
          × NonePass replicates (followers set))
promotes-condition set m = (
  (λ h. elim ((promotes_iff (analysis_of set m).state).0 h) [
    | inl e ↦
        let (d, n, a, r) = (analysis-Means set m dead_master).0 e in
        (d, some_works (followers set) n a, r)
    | inr e ↦
        let (d, w, n, r) = (analysis-Means set m dead_master_and_some_followers).0 e in (d, w, r)
  ]),
  λ (d, w, r). (promotes_iff (analysis_of set m).state).1 (elim (all_or_not (followers set)) [
    | inl a ↦ inl ((analysis-Means set m dead_master).1 (d, none_empty (followers set) w, a, r))
    | inr n ↦ inr ((analysis-Means set m dead_master_and_some_followers).1 (d, w, n, r))
  ]),
)

-- Messages that do not switch the read-only mode off.
abbrev pub KeepsReadOnly : Message → Type 0
KeepsReadOnly cleanup_tick = Unit
KeepsReadOnly (analysis a) = Unit
KeepsReadOnly (read_only_mode v) = v ≡ true

alive_from_total :
    (bs : List Recovery) (env : Env) (w : World)
    → (rs : List Recovery) × (w' : World) × (alive_from bs env w ≡ some (rs, w'))
      × (w'.trace ≡ w.trace)
unfolding alive_from read_clock
alive_from_total [] env w = ([], w, refl, refl)
alive_from_total (b ∷ bs) env w =
    let (rs, w', e, t) = alive_from_total bs env (tick w) in
    ((if not (expired (env.now w.step) b) then b ∷ rs else rs), w', rw e refl, t)

cleanup_total :
    (f : Failover) (env : Env) (w : World)
    → (f' : Failover) × (w' : World) × (cleanup false f env w ≡ some (f', w'))
      × (w'.trace ≡ w.trace)
unfolding cleanup
cleanup_total f env w =
    let (rs, w', e, t) = alive_from_total f.recoveries env w in
    (record f { recoveries = rs }, w', rw e refl, t)

module _ (sorter : Sorter Instance) where
  -- One message that reaches a cluster in the read-only mode.
  handle_read_only :
      (c : Cluster) (f : Failover) (m : Message) (env : Env) (w : World)
      → c.read_only ≡ true
      → KeepsReadOnly m
      → (c' : Cluster) × (f' : Failover) × (w' : World) × (handle sorter c f m env w
          ≡ some ((c', f'), w'))
        × (c'.read_only ≡ true)
        × (w'.trace ≡ w.trace)
  unfolding handle should_be_analysis_checked set_read_only
  handle_read_only c f cleanup_tick env w h k =
      let (f', w', e, t) = cleanup_total f env w in (c, f', w', rw e refl, h, t)
  handle_read_only c f (analysis a) env w h k = (c, f, w, rw h refl, h, refl)
  handle_read_only c f (read_only_mode v) env w h k =
      (record c { read_only = v }, f, w, refl, k, refl)

  -- While nothing switches the read-only mode off, the loop handles every message and leaves no
  -- trace: no hook is run and no query is sent, whatever the analyses say.
  pub serve_read_only :
      (c : Cluster) (f : Failover) (ms : List Message) (env : Env) (w : World)
      → c.read_only ≡ true
      → All KeepsReadOnly ms
      → (c' : Cluster) × (f' : Failover) × (w' : World) × (serve sorter c f ms env w
          ≡ some ((c', f'), w'))
        × (c'.read_only ≡ true)
        × (w'.trace ≡ w.trace)
  unfolding serve
  serve_read_only c f [] env w h k = (c, f, w, refl, h, refl)
  serve_read_only c f (m ∷ ms) env w h (k, ks) =
      let (c1, f1, w1, e1, h1, t1) = handle_read_only c f m env w h k in
      let (c2, f2, w2, e2, h2, t2) = serve_read_only c1 f1 ms env w1 h1 ks in
      (c2, f2, w2, rw e1 e2, h2, t2 ∙ t1)
