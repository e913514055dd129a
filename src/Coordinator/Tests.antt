-- ===== src/Coordinator/Tests.antt =====
-- The registration of a cluster.
use qumomf.Prelude.{ℕ, arith, ◌≡◌, refl, true, Option, none, some, [], ◌∷◌}
use qumomf.Prelude.Int.{pos}
use qumomf.Prelude.Float.{Float64, float_of_int}
use qumomf.Prelude.Result.{Result, ok, err}
use qumomf.Vshard.Snapshot.{Snapshot}
use qumomf.Vshard.Fixtures.{broken_snapshot, broken_cluster}
use qumomf.Storage.{no_tables, get_cluster_snapshot}
use qumomf.Storage.Refinement.{saves_snapshot, exported, effects}
use qumomf.Storage.Fixtures.{
  of_snapshot, backend, backend-ReadsSnapshots, backend-ReadsRecoveries, backend-Scans,
}
use qumomf.Coordinator.Stored.{Writes, commits, saves, saves-shown}
use qumomf.Config.{ClusterConfig}
use qumomf.Config.Setup.{Qumomf, with_defaults}
use qumomf.Config.Setup.Fixtures.{bare_cluster}
use qumomf.Coordinator.{
  Error, cluster_already_exist, Coordinator, new_coordinator, register_cluster, shutdown,
  failover_shutdown, monitor_shutdown, cluster_shutdown,
}
use qumomf.Coordinator.Registration.{IsConsistent, Registers, register_cluster-IsConsistent}

abbrev in_seconds : ℕ → Float64
in_seconds ns = float_of_int (pos ns)

abbrev filled : ClusterConfig
unfolding with_defaults
filled = record bare_cluster { connection = with_defaults.config.connection; read_only = some true }

abbrev qumomf_options : Qumomf
unfolding with_defaults
qumomf_options = with_defaults.qumomf

abbrev result_of : Option (Result Error Unit × Coordinator) → Result Error Unit × Coordinator
result_of none = (err cluster_already_exist, new_coordinator)
result_of (some p) = p

abbrev first : Result Error Unit × Coordinator
unfolding register_cluster
first = result_of (register_cluster in_seconds (pos 1) "a" filled qumomf_options new_coordinator)

is_first :
    register_cluster in_seconds (pos 1) "a" filled qumomf_options new_coordinator
    ≡ some (first.0, first.1)
unfolding register_cluster first filled qumomf_options qumomf.Prelude.Dict.lookup
    qumomf.Coordinator.registered qumomf.Coordinator.with_cluster qumomf.Coordinator.with_mode
    qumomf.Coordinator.with_elector
is_first = refl

register_cluster-IsConsistent_example :
    IsConsistent first.1 × Registers "a" new_coordinator first.0 first.1
register_cluster-IsConsistent_example =
    register_cluster-IsConsistent in_seconds (pos 1) "a" filled qumomf_options new_coordinator
      first.1 first.0 (tt, refl) is_first

is_refused :
    register_cluster in_seconds (pos 1) "a" filled qumomf_options first.1
    ≡ some (err cluster_already_exist, first.1)
unfolding register_cluster first filled qumomf_options qumomf.Prelude.Dict.lookup
    qumomf.Coordinator.registered qumomf.Coordinator.with_cluster qumomf.Coordinator.with_mode
    qumomf.Coordinator.with_elector qumomf.Prelude.Dict.insert
is_refused = refl

stops_backwards :
    shutdown first.1 ≡ failover_shutdown "a" ∷ monitor_shutdown "a" ∷ cluster_shutdown "a" ∷ []
unfolding shutdown register_cluster first filled qumomf_options qumomf.Prelude.Dict.lookup
    qumomf.Coordinator.registered qumomf.Coordinator.with_cluster qumomf.Coordinator.with_mode
    qumomf.Coordinator.with_elector qumomf.Prelude.Dict.insert
stops_backwards = refl

backend-Writes : (s : Snapshot) → Writes backend s
backend-Writes s = (of_snapshot (exported s), refl)

abbrev newer : Snapshot
newer = record broken_snapshot { created = pos 6 }

abbrev older : Snapshot
older = record broken_snapshot { created = pos 4 }

saves-shown_example :
    get_cluster_snapshot backend none
      (commits (newer ∷ older ∷ newer ∷ []) broken_cluster).name
      (effects backend (saves (newer ∷ older ∷ newer ∷ []) broken_cluster) no_tables)
    ≡ ok (exported (commits (newer ∷ older ∷ newer ∷ []) broken_cluster).snapshot)
saves-shown_example =
    saves-shown backend backend-ReadsSnapshots backend-ReadsRecoveries backend-Scans broken_cluster
      newer (older ∷ newer ∷ []) (λ name s m. backend-Writes s) (omega arith)

-- Saves that overtake each other leave the older snapshot.
overtaken :
    get_cluster_snapshot backend none "sandbox" (
      effects backend
        (saves_snapshot none "sandbox" newer ∷ saves_snapshot none "sandbox" older ∷ [])
        no_tables)
    ≡ ok older
unfolding effects get_cluster_snapshot
overtaken = refl
