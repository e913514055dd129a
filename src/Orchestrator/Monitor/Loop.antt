-- ===== src/Orchestrator/Monitor/Loop.antt =====
-- `continuousDiscovery` of internal/vshard/orchestrator/monitor.go: the loop over the ticks of two
-- clocks and the stop signal. A discovery runs on its own, so the loop only starts it. A recovery tick
-- comes with the time since the loop began and with the two snapshots that `checkCluster` reads.
use qumomf.Prelude.{
  ℕ, suc, ◌*◌, ◌≤◌, arith, ◌≡◌, refl, Bool, true, false, Bool-cases, inl, inr, ◌⊎◌, not, List, [],
  ◌∷◌, ◌++◌, Memᴰ, All, leb, if◌then◌else◌, mem_append_left, mem_append_right, mem-append,
}
use qumomf.Prelude.Int.{ltb_ℤ, ◌<ℤ◌}
use qumomf.Vshard.Snapshot.{Snapshot}
use qumomf.Orchestrator.Analysis.{ReplicationAnalysis}
use qumomf.Orchestrator.Monitor.{
  Monitor, analyze_all, check_cluster, IsAnalysis, is_analysis, check_cluster_once,
}

pub data Tick : Type 0 where
  stop_signal discovery_tick : Tick
  recovery_tick : ℕ → Snapshot → Snapshot → Tick

-- How many discoveries the loop has started, and the analyses that it has sent.
pub record Served : Type 0 where
  pub discoveries : ℕ
  pub sent : List ReplicationAnalysis

abbrev pub ripe : ℕ → ℕ → Bool
ripe poll_time elapsed = leb (3 * poll_time) elapsed

abbrev pub and_sent : List ReplicationAnalysis → Served → Served
and_sent as' s = record s { sent = as' ++ s.sent }

-- With the discovery poll time.
unfoldable pub continuous_discovery : ℕ → List Tick → Monitor → Served
unfolding check_cluster
continuous_discovery poll_time [] m = record { discoveries = 0; sent = [] }
continuous_discovery poll_time (stop_signal ∷ ticks) m = record { discoveries = 0; sent = [] }
continuous_discovery poll_time (discovery_tick ∷ ticks) m =
    let rest = continuous_discovery poll_time ticks m in
    record rest { discoveries = suc rest.discoveries }
continuous_discovery poll_time (recovery_tick elapsed first second ∷ ticks) m =
    let checked = check_cluster m first second in
    let later = continuous_discovery poll_time ticks checked.0 in
    let waiting = continuous_discovery poll_time ticks m in
    if ripe poll_time elapsed then and_sent checked.1 later else waiting

-- A tick before which the loop does not stop, and that shows an older snapshot.
abbrev pub IsBefore : Snapshot → Tick → Type 0
IsBefore s stop_signal = ⊥
IsBefore s discovery_tick = Unit
IsBefore s (recovery_tick elapsed first second) = first.created <ℤ s.created

checked_older :
    (m : Monitor) (first second s : Snapshot)
    → m.analyzed <ℤ s.created
    → first.created <ℤ s.created
    → (check_cluster m first second).0.analyzed <ℤ s.created
unfolding check_cluster
checked_older m first second s h k = elim (Bool-cases (ltb_ℤ m.analyzed first.created)) [
  | inl e ↦ rw e k
  | inr e ↦ rw e h
]

module _ (poll_time : ℕ) where
  after_wait : (elapsed : ℕ) → 3 * poll_time ≤ elapsed → ripe poll_time elapsed ≡ true
  after_wait elapsed h = ground arith

  -- A recovery tick after three discovery periods, with a snapshot that is newer than those of all
  -- ticks before it, makes the loop send the analysis of each replica set that holds its master,
  -- unless it was stopped before.
  pub continuous_discovery-sends :
      (before after : List Tick) (elapsed : ℕ) (first second : Snapshot) (m : Monitor)
      (a : ReplicationAnalysis)
      → All (IsBefore first) before
      → m.analyzed <ℤ first.created
      → 3 * poll_time ≤ elapsed
      → IsAnalysis second.replica_sets a
      → Memᴰ a
          (continuous_discovery poll_time
            (before ++ recovery_tick elapsed first second ∷ after)
            m).sent
  unfolding continuous_discovery
  continuous_discovery-sends [] after elapsed first second m a b h r k = rw (after_wait elapsed r) (
      mem_append_left (check_cluster m first second).1 _
        (((check_cluster_once m first second second h).0 a).1 k))
  continuous_discovery-sends (stop_signal ∷ before) after elapsed first second m a b h r k =
      elim b.0 [ ]
  continuous_discovery-sends (discovery_tick ∷ before) after elapsed first second m a b h r k =
      continuous_discovery-sends before after elapsed first second m a b.1 h r k
  continuous_discovery-sends (recovery_tick t first2 second2 ∷ before) after elapsed first second m
        a b h r k =
      elim (Bool-cases (ripe poll_time t)) [
        | inl e ↦ rw e (
            mem_append_right (check_cluster m first2 second2).1 _ (
              continuous_discovery-sends before after elapsed first second
                (check_cluster m first2 second2).0 a b.1
                (checked_older m first2 second2 first h b.0) r k))
        | inr e ↦ rw e (continuous_discovery-sends before after elapsed first second m a b.1 h r k)
      ]

  -- The analysis is that of a set that a tick after the waiting period has shown.
  abbrev pub IsShown : List Tick → ReplicationAnalysis → Type 0
  IsShown ticks a =
      (elapsed : ℕ) × (first : Snapshot) × (second : Snapshot) × Memᴰ
        (recovery_tick elapsed first second) ticks
      × (3 * poll_time ≤ elapsed)
      × IsAnalysis second.replica_sets a

  IsShown-later :
      (tick : Tick) (ticks : List Tick) (a : ReplicationAnalysis)
      → IsShown ticks a
      → IsShown (tick ∷ ticks) a
  IsShown-later tick ticks a (t, f, s, k, r, i) = (t, f, s, Memᴰ.tail k, r, i)

  waited : (elapsed : ℕ) → ripe poll_time elapsed ≡ true → 3 * poll_time ≤ elapsed
  waited elapsed h = ground arith

  checked-IsAnalysis :
      (m : Monitor) (first second : Snapshot) (a : ReplicationAnalysis)
      → Memᴰ a (check_cluster m first second).1
      → IsAnalysis second.replica_sets a
  unfolding check_cluster
  checked-IsAnalysis m first second a k = at (ltb_ℤ m.analyzed first.created) k
    where
      at :
          (b : Bool)
          → Memᴰ a
              (if◌then◌else◌ {A = Monitor × List ReplicationAnalysis}
                (not b)
                (m, [])
                (record m { analyzed = first.created }, analyze_all second.replica_sets)).1
          → IsAnalysis second.replica_sets a
      at true k = is_analysis second.replica_sets a k
      at false k = elim k [ ]

  -- The loop sends nothing before three discovery periods have passed, and only analyses of replica
  -- sets that a later recovery tick has shown.
  pub continuous_discovery-IsShown :
      (ticks : List Tick) (m : Monitor) (a : ReplicationAnalysis)
      → Memᴰ a (continuous_discovery poll_time ticks m).sent
      → IsShown ticks a
  unfolding continuous_discovery
  continuous_discovery-IsShown [] m a k = elim k [ ]
  continuous_discovery-IsShown (stop_signal ∷ ticks) m a k = elim k [ ]
  continuous_discovery-IsShown (discovery_tick ∷ ticks) m a k =
      IsShown-later discovery_tick ticks a (continuous_discovery-IsShown ticks m a k)
  continuous_discovery-IsShown (recovery_tick t first second ∷ ticks) m a k =
      at (ripe poll_time t) refl (continuous_discovery-IsShown ticks m a)
        (continuous_discovery-IsShown ticks (check_cluster m first second).0 a) k
    where
      sent_here :
          ripe poll_time t ≡ true
          → Memᴰ a (check_cluster m first second).1
            ⊎ Memᴰ a (continuous_discovery poll_time ticks (check_cluster m first second).0).sent
          → (Memᴰ a (continuous_discovery poll_time ticks (check_cluster m first second).0).sent
              → IsShown ticks a)
          → IsShown (recovery_tick t first second ∷ ticks) a
      sent_here e (inl l) ih =
          (t, first, second, Memᴰ.head refl, waited t e, checked-IsAnalysis m first second a l)
      sent_here e (inr r) ih = IsShown-later (recovery_tick t first second) ticks a (ih r)

      at :
          (b : Bool)
          → ripe poll_time t ≡ b
          → (Memᴰ a (continuous_discovery poll_time ticks m).sent → IsShown ticks a)
          → (Memᴰ a (continuous_discovery poll_time ticks (check_cluster m first second).0).sent
              → IsShown ticks a)
          → Memᴰ a
              (if b
                then and_sent
                    (check_cluster m first second).1
                    (continuous_discovery poll_time ticks (check_cluster m first second).0)
                else continuous_discovery poll_time ticks m).sent
          → IsShown (recovery_tick t first second ∷ ticks) a
      at true e ih ih2 k = sent_here e (mem-append (check_cluster m first second).1 _ k) ih2
      at false e ih ih2 k = IsShown-later (recovery_tick t first second) ticks a (ih k)
