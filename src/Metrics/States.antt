-- ===== src/Metrics/States.antt =====
-- The gauges of the states of a shard after an analysis of it.
use qumomf.Prelude.{
  ℕ, String, ◌==◌, eq_iff, eq_refl, ◌≡◌, refl, sym, ap, ◌∙◌, true, false, Bool-cases, inl, inr, ◌⊎◌,
  Option, some, List, [], ◌∷◌, Memᴰ, if◌then◌else◌,
}
use mathlib.Core.Path.{subst}
use qumomf.Orchestrator.Analysis.{
  ReplicaSetState, no_problem, dead_master, dead_master_and_followers,
  dead_master_and_some_followers, dead_master_without_followers, dead_followers,
  all_master_followers_not_replicating, network_problems, master_master_replication,
  inconsistent_vshard_configuration, replica_set_state_enum, state_name, ReplicationAnalysis,
}
use qumomf.Metrics.{Registry, same_shard, set_shard_state, set_states, set_shard_states}

-- The enumeration has every state.
in_enum : (s : ReplicaSetState) → Memᴰ s replica_set_state_enum
in_enum no_problem = Memᴰ.head refl
in_enum dead_master = Memᴰ.tail (Memᴰ.head refl)
in_enum dead_master_and_followers = Memᴰ.tail (Memᴰ.tail (Memᴰ.head refl))
in_enum dead_master_and_some_followers = Memᴰ.tail (Memᴰ.tail (Memᴰ.tail (Memᴰ.head refl)))
in_enum dead_master_without_followers =
    Memᴰ.tail (Memᴰ.tail (Memᴰ.tail (Memᴰ.tail (Memᴰ.head refl))))
in_enum dead_followers = Memᴰ.tail (Memᴰ.tail (Memᴰ.tail (Memᴰ.tail (Memᴰ.tail (Memᴰ.head refl)))))
in_enum all_master_followers_not_replicating =
    Memᴰ.tail (Memᴰ.tail (Memᴰ.tail (Memᴰ.tail (Memᴰ.tail (Memᴰ.tail (Memᴰ.head refl))))))
in_enum network_problems =
    Memᴰ.tail
      (Memᴰ.tail (Memᴰ.tail (Memᴰ.tail (Memᴰ.tail (Memᴰ.tail (Memᴰ.tail (Memᴰ.head refl)))))))
in_enum master_master_replication = Memᴰ.tail (
    Memᴰ.tail
      (Memᴰ.tail (Memᴰ.tail (Memᴰ.tail (Memᴰ.tail (Memᴰ.tail (Memᴰ.tail (Memᴰ.head refl))))))))
in_enum inconsistent_vshard_configuration = Memᴰ.tail (
    Memᴰ.tail (
      Memᴰ.tail
        (Memᴰ.tail (Memᴰ.tail (Memᴰ.tail (Memᴰ.tail (Memᴰ.tail (Memᴰ.tail (Memᴰ.head refl)))))))))

module _ (cluster : String) (a : ReplicationAnalysis) where
  -- The value that the gauge of a state has to have.
  abbrev pub flag : String → ℕ
  flag name = if name == state_name a.state then 1 else 0

  abbrev gauge : Registry → String → Option ℕ
  gauge r name = r.shard_state cluster a.set.uuid name

  own_shard : same_shard cluster a.set.uuid cluster a.set.uuid ≡ true
  own_shard = rw (eq_refl cluster) (eq_refl a.set.uuid)

  abbrev updated : ReplicaSetState → Registry → Registry
  updated s r =
      set_shard_state cluster a.set.uuid (state_name s) (state_name s == state_name a.state) r

  -- The gauge of a name is right once it has been set, and stays so.
  gauge_updated :
      (s : ReplicaSetState) (r : Registry) (name : String)
      → (state_name s ≡ name) ⊎ (gauge r name ≡ some (flag name))
      → gauge (updated s r) name ≡ some (flag name)
  unfolding set_shard_state
  gauge_updated s r name (inl q) =
      rw (own_shard, subst (λ n. (n == name) ≡ true) (sym q) (eq_refl name))
        (ap (λ n. some (flag n)) q)
  gauge_updated s r name (inr k) = elim (Bool-cases (state_name s == name)) [
    | inl e ↦ rw (own_shard, e) (ap (λ n. some (flag n)) ((eq_iff (state_name s) name).0 e))
    | inr e ↦ rw (own_shard, e) k
  ]

  gauge_kept :
      (states : List ReplicaSetState) (r : Registry) (name : String)
      → gauge r name ≡ some (flag name)
      → gauge (set_states cluster a states r) name ≡ some (flag name)
  unfolding set_states
  gauge_kept [] r name h = h
  gauge_kept (s ∷ states) r name h =
      gauge_kept states (updated s r) name (gauge_updated s r name (inr h))

  gauge_set :
      (states : List ReplicaSetState) (r : Registry) (state : ReplicaSetState)
      → Memᴰ state states
      → gauge (set_states cluster a states r) (state_name state) ≡ some (flag (state_name state))
  unfolding set_states
  gauge_set [] r state m = elim m [ ]
  gauge_set (s ∷ states) r state (Memᴰ.head q) =
      gauge_kept states (updated s r) (state_name state)
        (gauge_updated s r (state_name state) (inl (ap state_name (sym q))))
  gauge_set (s ∷ states) r state (Memᴰ.tail m) = gauge_set states (updated s r) state m

  other_kept :
      (states : List ReplicaSetState) (r : Registry) (c u name : String)
      → same_shard cluster a.set.uuid c u ≡ false
      → (set_states cluster a states r).shard_state c u name ≡ r.shard_state c u name
  unfolding set_states set_shard_state
  other_kept [] r c u name d = refl
  other_kept (s ∷ states) r c u name d = other_kept states (updated s r) c u name d ∙ rw d refl

  -- After an analysis, the gauge of each of the ten states of its shard is set, to 1 for the state of
  -- the analysis and to 0 for the others, and no gauge of another shard has changed.
  pub set_shard_states-flag :
      (r : Registry)
      → ((state : ReplicaSetState)
          → (set_shard_states cluster a r).shard_state cluster a.set.uuid (state_name state)
            ≡ some (if state_name state == state_name a.state then 1 else 0))
        × ((c u name : String)
            → same_shard cluster a.set.uuid c u ≡ false
            → (set_shard_states cluster a r).shard_state c u name ≡ r.shard_state c u name)
  unfolding set_shard_states
  set_shard_states-flag r = (
    (λ state. gauge_set replica_set_state_enum r state (in_enum state)),
    λ c u name d. other_kept replica_set_state_enum r c u name d,
  )
