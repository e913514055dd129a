-- ===== src/Orchestrator/Sampler.antt =====
-- internal/vshard/orchestrator/sampler.go, and `GetHash` of analysis.go: an analysis that says the same
-- as the last one of its replica set is logged for debugging only. The digest is a parameter.
-- A call has two critical sections in the source; its one caller makes no two calls at once.
pub mod History
use qumomf.Prelude.{
  ℕ, String, ◌==◌, Bool, true, false, Option, none, some, List, [], ◌∷◌, if◌then◌else◌,
}
use qumomf.Prelude.Dict.{Dict, lookup, insert}
use qumomf.Prelude.Result.{Result, ok, err}
use qumomf.Prelude.Text.{concat, itoa}
use qumomf.Vshard.ReplicaSet.{ReplicaSet}
use qumomf.Vshard.Text.{set_string}
use qumomf.Vshard.Discovery.Report.{Level, info_level, debug_level}
use qumomf.Orchestrator.Analysis.{ReplicationAnalysis, state_name}

-- `String` of an analysis.
unfoldable pub analysis_string : ReplicationAnalysis → String
unfolding concat itoa state_name
analysis_string a = concat (
    "[State: "
    ∷ state_name a.state
    ∷ "; CountReplicas: "
    ∷ itoa a.count_replicas
    ∷ "; CountWorkingReplicas: "
    ∷ itoa a.count_working_replicas
    ∷ "; CountReplicatingReplicas: "
    ∷ itoa a.count_replicating_replicas
    ∷ "]"
    ∷ [])

-- The text that is hashed, written piece by piece.
unfoldable pub hashed_text : ReplicationAnalysis → String
unfolding concat itoa state_name set_string
hashed_text a = concat (
    state_name a.state
    ∷ itoa a.count_replicas
    ∷ itoa a.count_working_replicas
    ∷ itoa a.count_replicating_replicas
    ∷ itoa a.count_inconsistent_vshard_conf
    ∷ set_string a.set
    ∷ [])

pub record Sampler : Type 0 where
  pub enabled : Bool
  pub fingerprints : Dict String

-- The sampler of a new failover.
abbrev pub new_sampler : Sampler
new_sampler = record { enabled = true; fingerprints = [] }

module _ (sha : String → Result String String) where
  unfoldable pub get_hash : ReplicationAnalysis → Result String String
  unfolding hashed_text
  get_hash a = sha (hashed_text a)

  abbrev pub same_fingerprint : Option String → String → Bool
  same_fingerprint none got = false
  same_fingerprint (some found) got = found == got

  abbrev pub sampled : Sampler → String → Result String String → Level × Sampler
  sampled s uuid (err m) = (info_level, s)
  sampled s uuid (ok got) =
      if same_fingerprint (lookup uuid s.fingerprints) got
      then (debug_level, s)
      else (info_level, record s { fingerprints = insert uuid got s.fingerprints })

  unfoldable pub sample : ReplicationAnalysis → Sampler → Level × Sampler
  unfolding get_hash
  sample a s = if s.enabled then sampled s a.set.uuid (get_hash a) else (info_level, s)
