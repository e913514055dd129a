-- ===== src/Orchestrator/Tests.antt =====
-- Analyses and hooks on the small cluster.
use qumomf.Prelude.{String, ◌≡◌, refl, ◌↔◌, true, false, some, List, [], ◌∷◌, ◌++◌, Memᴰ, arith}
use qumomf.Prelude.Int.{pos}
use qumomf.Prelude.Result.{Result, ok}
use qumomf.Vshard.Snapshot.{Snapshot}
use qumomf.Vshard.ReplicaSet.{followers}
use qumomf.Vshard.Fixtures.{old_master, broken_set, broken_snapshot}
use qumomf.Orchestrator.Analysis.{dead_master, analysis_of, analyze}
use qumomf.Orchestrator.Analysis.States.{Means, analysis-Means}
use qumomf.Orchestrator.Monitor.{new_monitor, check_cluster, analyze_all, IsAnalysis}
use qumomf.Orchestrator.Monitor.Loop.{
  Tick, stop_signal, discovery_tick, recovery_tick, continuous_discovery, IsShown,
  continuous_discovery-sends, continuous_discovery-IsShown,
}
use qumomf.Vshard.Discovery.Report.{debug_level}
use qumomf.Orchestrator.Sampler.{new_sampler, get_hash, sample}
use qumomf.Orchestrator.Sampler.History.{last_hash, samples, sample_iff}
use qumomf.Orchestrator.Hooker.{pre_failover, execute_processes}
use qumomf.Orchestrator.Hooker.Run.{any_fails, after, until_failure, execute_processes_lem}
use qumomf.Orchestrator.Fixtures.{env, found, hooker, hooks, registered, start}

analysis-Means_example :
    (found.state ≡ dead_master) ↔ Means dead_master old_master (followers broken_set)
analysis-Means_example = analysis-Means broken_set old_master dead_master

execute_processes_lem_example :
    (execute_processes hooker pre_failover registered false env start
      ≡ some (
        any_fails env registered 0 (hooks pre_failover),
        after env registered start (hooks pre_failover),
      ))
    × (execute_processes hooker pre_failover registered true env start
        ≡ some (
          any_fails env registered 0 (hooks pre_failover),
          after env registered start (until_failure env registered 0 (hooks pre_failover)),
        ))
execute_processes_lem_example = execute_processes_lem hooker pre_failover registered env start

abbrev digest : String → Result String String
digest text = ok text

sample_iff_example :
    ((sample digest found (samples digest (found ∷ []) new_sampler)).0 ≡ debug_level) ↔ (
      (h : String) × (get_hash digest found ≡ ok h)
      × (last_hash digest (found ∷ []) found.set.uuid ≡ some h))
sample_iff_example = sample_iff digest (found ∷ []) found

abbrev ticks : List Tick
ticks =
    discovery_tick
    ∷ recovery_tick 2 broken_snapshot broken_snapshot
    ∷ recovery_tick 16 broken_snapshot broken_snapshot
    ∷ stop_signal
    ∷ []

abbrev earlier : Snapshot
earlier = record broken_snapshot { created = pos 4; replica_sets = [] }

found_in_set : IsAnalysis broken_snapshot.replica_sets found
unfolding analyze analysis_of qumomf.Vshard.ReplicaSet.master qumomf.Prelude.find
found_in_set = (broken_set, Memᴰ.head refl, refl)

continuous_discovery-sends_example :
    Memᴰ found
      (continuous_discovery 5
        ((discovery_tick ∷ recovery_tick 15 earlier earlier ∷ [])
          ++ recovery_tick 16 broken_snapshot broken_snapshot ∷ stop_signal ∷ [])
        new_monitor).sent
continuous_discovery-sends_example =
    continuous_discovery-sends 5 (discovery_tick ∷ recovery_tick 15 earlier earlier ∷ [])
      (stop_signal ∷ []) 16 broken_snapshot broken_snapshot new_monitor found
      (tt, (omega arith, tt)) (omega arith) (omega arith) found_in_set

found_sent : Memᴰ found (continuous_discovery 5 ticks new_monitor).sent
unfolding continuous_discovery check_cluster analyze_all analyze qumomf.Vshard.ReplicaSet.master
    qumomf.Prelude.find
found_sent = Memᴰ.head refl

continuous_discovery-IsShown_example : IsShown 5 ticks found
continuous_discovery-IsShown_example =
    continuous_discovery-IsShown 5 ticks new_monitor found found_sent
