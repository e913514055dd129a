-- ===== src/Metrics.antt =====
-- internal/metrics/metrics.go: the gauges and counters of the registry, which the client library keeps
-- for each tuple of labels, and the loop of monitor.go that sets the states of a shard. A gauge that was
-- never set is absent; the values 0 and 1 and the counts are plain numbers.
pub mod States
use qumomf.Prelude.{
  ℕ, suc, ◌-◌, String, ◌==◌, Bool, true, false, ◌&&◌, Option, none, some, List, [], ◌∷◌, ◌++◌,
  if◌then◌else◌,
}
use qumomf.Prelude.Int.{ℤ}
use qumomf.Orchestrator.Analysis.{
  ReplicaSetState, replica_set_state_enum, state_name, ReplicationAnalysis,
}

-- The two histograms of durations, with the labels of a series.
pub data Series : Type 0 where
  instance_durations : String → String → Series
  cluster_durations : String → Series

pub record Registry : Type 0 where
  pub shard_critical_level : String → String → Option ℤ
  pub shard_state : String → String → String → Option ℕ
  pub discovery_errors : ℕ
  pub shard_state_event : String → String → String → ℕ
  pub discovery_durations : Series → List ℕ

-- The registry after `init`.
abbrev pub new_registry : Registry
new_registry = record {
  shard_critical_level = λ cluster uuid. none;
  shard_state = λ cluster uuid state. none;
  discovery_errors = 0;
  shard_state_event = λ cluster uuid state. 0;
  discovery_durations = λ series. [];
}

-- The labels of a shard, and those of a state of it.
abbrev pub same_shard : String → String → String → String → Bool
same_shard cluster uuid c u = cluster == c && uuid == u

unfoldable pub set_shard_critical_level : String → String → ℤ → Registry → Registry
set_shard_critical_level cluster uuid level r = record r {
  shard_critical_level =
      λ c u. if same_shard cluster uuid c u then some level else r.shard_critical_level c u;
}

unfoldable pub set_shard_state : String → String → String → Bool → Registry → Registry
set_shard_state cluster uuid state active r = record r {
  shard_state = λ c u s.
      if same_shard cluster uuid c u && state == s
      then some (if active then 1 else 0)
      else r.shard_state c u s;
}

unfoldable pub record_discovery_error : Registry → Registry
record_discovery_error r = record r { discovery_errors = suc r.discovery_errors }

unfoldable pub record_discovered_shard_state : String → String → String → Registry → Registry
record_discovered_shard_state cluster uuid state r = record r {
  shard_state_event = λ c u s.
      if same_shard cluster uuid c u && state == s
      then suc (r.shard_state_event c u s)
      else r.shard_state_event c u s;
}

-- The loop of `checkCluster` over the states, for one analysis.
unfoldable pub set_states :
    String → ReplicationAnalysis → List ReplicaSetState → Registry → Registry
unfolding set_shard_state state_name
set_states cluster a [] r = r
set_states cluster a (state ∷ states) r = set_states cluster a states (
    set_shard_state cluster a.set.uuid (state_name state) (state_name state == state_name a.state)
      r)

unfoldable pub set_shard_states : String → ReplicationAnalysis → Registry → Registry
unfolding set_states
set_shard_states cluster a r = set_states cluster a replica_set_state_enum r

abbrev same_series : Series → Series → Bool
same_series (instance_durations c h) (instance_durations c' h') = c == c' && h == h'
same_series (cluster_durations c) (cluster_durations c') = c == c'
same_series _ _ = false

-- A duration that is measured, at readings of the clock.
pub record Transaction : Type 0 where
  pub series : Series
  pub started : ℕ

unfoldable pub start_instance_discovery : String → String → ℕ → Transaction
start_instance_discovery cluster hostname now = record {
  series = instance_durations cluster hostname;
  started = now;
}

unfoldable pub start_cluster_discovery : String → ℕ → Transaction
start_cluster_discovery cluster now = record { series = cluster_durations cluster; started = now }

-- `End`: the timer observes the time since its start.
unfoldable pub end_transaction : Transaction → ℕ → Registry → Registry
end_transaction txn now r = record r {
  discovery_durations = λ series.
      if same_series txn.series series
      then r.discovery_durations series ++ (now - txn.started) ∷ []
      else r.discovery_durations series;
}
