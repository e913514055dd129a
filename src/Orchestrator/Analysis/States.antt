-- ===== src/Orchestrator/Analysis/States.antt =====
-- Each state that `analyze` reports, by what it says of the master and of the followers.
use qumomf.Prelude.{
  ◌≤◌, ◌≡◌, ◌≢◌, ◌↔◌, Bool, true, false, not, List, [], count, exists, length, &&-eq_true, ap, sym,
  ◌∙◌, arith,
}
use qumomf.Prelude.Counting.{
  NonePass, AllPass, count-le-length, NonePass-of_count, count-of_NonePass, AllPass-of_count,
  count-of_AllPass, count_mono, nil-of_length,
}
use qumomf.Vshard.Instance.{Instance}
use qumomf.Vshard.ReplicaSet.{ReplicaSet, followers}
use qumomf.Orchestrator.Analysis.{
  ReplicaSetState, no_problem, dead_master, dead_master_and_followers,
  dead_master_and_some_followers, dead_master_without_followers, dead_followers,
  all_master_followers_not_replicating, network_problems, master_master_replication,
  inconsistent_vshard_configuration, Counters, state_of, analysis_of,
}
use qumomf.Orchestrator.Analysis.Counts.{
  works, replicates, differs, co_master, tally, count_followers-tally,
}

-- A state by the counts, for counts that can occur.
abbrev CountsMean : ReplicaSetState → Bool → Counters → Type 0
CountsMean no_problem dead c = (dead ≡ false) × (c.inconsistent ≡ 0) × (c.replicas ≤ c.replicating)
CountsMean dead_master dead c =
    (dead ≡ true) × (c.replicas ≢ 0) × (c.replicas ≤ c.working) × (c.replicating ≡ 0)
CountsMean dead_master_and_followers dead c = (dead ≡ true) × (c.replicas ≢ 0) × (c.working ≡ 0)
CountsMean dead_master_and_some_followers dead c =
    (dead ≡ true) × (c.working ≢ 0) × (¬ (c.replicas ≤ c.working)) × (c.replicating ≡ 0)
CountsMean dead_master_without_followers dead c = (dead ≡ true) × (c.replicas ≡ 0)
CountsMean dead_followers dead c =
    (dead ≡ false) × (c.replicating ≢ 0) × (c.inconsistent ≡ 0) × (¬ (c.replicas ≤ c.replicating))
CountsMean all_master_followers_not_replicating dead c =
    (dead ≡ false) × (c.replicas ≢ 0) × (c.replicating ≡ 0)
CountsMean network_problems dead c = (dead ≡ true) × (c.replicating ≢ 0)
CountsMean master_master_replication dead c =
    (dead ≡ false) × (c.replicating ≢ 0) × (c.inconsistent ≢ 0) × (c.master_master ≡ true)
CountsMean inconsistent_vshard_configuration dead c =
    (dead ≡ false) × (c.replicating ≢ 0) × (c.inconsistent ≢ 0) × (c.master_master ≡ false)

module _ (dead : Bool) (c : Counters) (rw' : c.replicating ≤ c.working)
    (wr : c.working ≤ c.replicas) (iw : c.inconsistent ≤ c.working) where
  state-CountsMean : (s : ReplicaSetState) → state_of dead c ≡ s → CountsMean s dead c
  unfolding state_of
  state-CountsMean no_problem h = ground arith
  state-CountsMean _ h = ground arith

  CountsMean-state : (s : ReplicaSetState) → CountsMean s dead c → state_of dead c ≡ s
  unfolding state_of
  CountsMean-state no_problem h = ground arith
  CountsMean-state _ h = ground arith

-- The same by the master and the followers. A follower `works` if it was polled with success, and
-- `replicates` if it also reports that it follows or is a master.
abbrev pub Means : ReplicaSetState → Instance → List Instance → Type 0
Means no_problem m fs =
    (m.last_check_valid ≡ true) × NonePass (differs m) fs × AllPass replicates fs
Means dead_master m fs =
    (m.last_check_valid ≡ false) × (fs ≢ []) × AllPass works fs × NonePass replicates fs
Means dead_master_and_followers m fs = (m.last_check_valid ≡ false) × (fs ≢ []) × NonePass works fs
Means dead_master_and_some_followers m fs =
    (m.last_check_valid ≡ false)
    × (¬ NonePass works fs)
    × (¬ AllPass works fs)
    × NonePass replicates fs
Means dead_master_without_followers m fs = (m.last_check_valid ≡ false) × (fs ≡ [])
Means dead_followers m fs =
    (m.last_check_valid ≡ true)
    × (¬ NonePass replicates fs)
    × NonePass (differs m) fs
    × (¬ AllPass replicates fs)
Means all_master_followers_not_replicating m fs =
    (m.last_check_valid ≡ true) × (fs ≢ []) × NonePass replicates fs
Means network_problems m fs = (m.last_check_valid ≡ false) × (¬ NonePass replicates fs)
Means master_master_replication m fs =
    (m.last_check_valid ≡ true)
    × (¬ NonePass replicates fs)
    × (¬ NonePass (differs m) fs)
    × (exists co_master fs ≡ true)
Means inconsistent_vshard_configuration m fs =
    (m.last_check_valid ≡ true)
    × (¬ NonePass replicates fs)
    × (¬ NonePass (differs m) fs)
    × (exists co_master fs ≡ false)

not-true : (b : Bool) → not b ≡ true → b ≡ false
not-true b h = ground arith

not-false : (b : Bool) → not b ≡ false → b ≡ true
not-false b h = ground arith

some_pass : (p : Instance → Bool) (fs : List Instance) → count p fs ≢ 0 → ¬ NonePass p fs
some_pass p fs n h = n (count-of_NonePass p fs h)

some_fail : (p : Instance → Bool) (fs : List Instance) → ¬ (length fs ≤ count p fs) → ¬ AllPass p fs
some_fail p fs n h = n (omega (arith, count-of_AllPass p fs h))

some_pass_iff : (p : Instance → Bool) (fs : List Instance) → ¬ NonePass p fs → count p fs ≢ 0
some_pass_iff p fs n h = n (NonePass-of_count p fs h)

some_fail_iff :
    (p : Instance → Bool) (fs : List Instance) → ¬ AllPass p fs → ¬ (length fs ≤ count p fs)
some_fail_iff p fs n h = n (AllPass-of_count p fs h)

not_nil : (fs : List Instance) → length fs ≢ 0 → fs ≢ []
not_nil fs n e = n (ap length e)

not_zero : (fs : List Instance) → fs ≢ [] → length fs ≢ 0
not_zero fs n e = n (nil-of_length fs e)

Means-of_counts :
    (m : Instance) (fs : List Instance) (s : ReplicaSetState)
    → CountsMean s (not m.last_check_valid) (tally m fs)
    → Means s m fs
Means-of_counts m fs no_problem (a, b, c) =
    (not-false _ a, NonePass-of_count (differs m) fs b, AllPass-of_count replicates fs c)
Means-of_counts m fs dead_master (a, b, c, d) =
    (not-true _ a, not_nil fs b, AllPass-of_count works fs c, NonePass-of_count replicates fs d)
Means-of_counts m fs dead_master_and_followers (a, b, c) =
    (not-true _ a, not_nil fs b, NonePass-of_count works fs c)
Means-of_counts m fs dead_master_and_some_followers (a, b, c, d) =
    (not-true _ a, some_pass works fs b, some_fail works fs c, NonePass-of_count replicates fs d)
Means-of_counts m fs dead_master_without_followers (a, b) = (not-true _ a, nil-of_length fs b)
Means-of_counts m fs dead_followers (a, b, c, d) = (
  not-false _ a,
  some_pass replicates fs b,
  NonePass-of_count (differs m) fs c,
  some_fail replicates fs d,
)
Means-of_counts m fs all_master_followers_not_replicating (a, b, c) =
    (not-false _ a, not_nil fs b, NonePass-of_count replicates fs c)
Means-of_counts m fs network_problems (a, b) = (not-true _ a, some_pass replicates fs b)
Means-of_counts m fs master_master_replication (a, b, c, d) =
    (not-false _ a, some_pass replicates fs b, some_pass (differs m) fs c, d)
Means-of_counts m fs inconsistent_vshard_configuration (a, b, c, d) =
    (not-false _ a, some_pass replicates fs b, some_pass (differs m) fs c, d)

counts-of_Means :
    (m : Instance) (fs : List Instance) (s : ReplicaSetState)
    → Means s m fs
    → CountsMean s (not m.last_check_valid) (tally m fs)
counts-of_Means m fs no_problem (a, b, c) =
    (ap not a, count-of_NonePass (differs m) fs b, omega (arith, count-of_AllPass replicates fs c))
counts-of_Means m fs dead_master (a, b, c, d) = (
  ap not a,
  not_zero fs b,
  omega (arith, count-of_AllPass works fs c),
  count-of_NonePass replicates fs d,
)
counts-of_Means m fs dead_master_and_followers (a, b, c) =
    (ap not a, not_zero fs b, count-of_NonePass works fs c)
counts-of_Means m fs dead_master_and_some_followers (a, b, c, d) = (
  ap not a,
  some_pass_iff works fs b,
  some_fail_iff works fs c,
  count-of_NonePass replicates fs d,
)
counts-of_Means m fs dead_master_without_followers (a, b) = (ap not a, ap length b)
counts-of_Means m fs dead_followers (a, b, c, d) = (
  ap not a,
  some_pass_iff replicates fs b,
  count-of_NonePass (differs m) fs c,
  some_fail_iff replicates fs d,
)
counts-of_Means m fs all_master_followers_not_replicating (a, b, c) =
    (ap not a, not_zero fs b, count-of_NonePass replicates fs c)
counts-of_Means m fs network_problems (a, b) = (ap not a, some_pass_iff replicates fs b)
counts-of_Means m fs master_master_replication (a, b, c, d) =
    (ap not a, some_pass_iff replicates fs b, some_pass_iff (differs m) fs c, d)
counts-of_Means m fs inconsistent_vshard_configuration (a, b, c, d) =
    (ap not a, some_pass_iff replicates fs b, some_pass_iff (differs m) fs c, d)

module _ (set : ReplicaSet) (m : Instance) where
  analysis-state :
      (analysis_of set m).state ≡ state_of (not m.last_check_valid) (tally m (followers set))
  unfolding analysis_of
  analysis-state = ap (state_of (not m.last_check_valid)) (count_followers-tally m (followers set))

  abbrev ImpliesWorks : (p : Instance → Bool) → Type 0
  ImpliesWorks p = (x : Instance) → p x ≡ true → works x ≡ true

  replicates_works : ImpliesWorks replicates
  replicates_works x h = (&&-eq_true _ _ h).0

  differs_works : ImpliesWorks (differs m)
  differs_works x h = (&&-eq_true _ _ h).0

  -- An analysis reports a state exactly when what the state says of the master and of the followers
  -- holds.
  pub analysis-Means :
      (s : ReplicaSetState) → ((analysis_of set m).state ≡ s) ↔ Means s m (followers set)
  analysis-Means s =
      let fs = followers set in
      let r = count_mono replicates works replicates_works fs in
      let d = count_mono (differs m) works differs_works fs in
      let w = count-le-length works fs in
      (
        (λ e. Means-of_counts m fs s (
            state-CountsMean (not m.last_check_valid) (tally m fs) r w d s
              (sym analysis-state ∙ e))),
        λ h.
            analysis-state
            ∙ CountsMean-state (not m.last_check_valid) (tally m fs) r w d s
                (counts-of_Means m fs s h),
      )
