-- ===== src/Quorum/Idle.antt =====
-- internal/quorum/idle.go: the elector that takes the follower with the smallest idle time.
pub mod Choice
use qumomf.Prelude.{String, ◌==◌, Bool, List, [], ◌∷◌, if◌then◌else◌}
use qumomf.Prelude.Float.{Float64, max_float64, flt}
use qumomf.Prelude.Result.{Result, ok, err}
use qumomf.Vshard.Instance.{InstanceUuid, Instance, idle}
use qumomf.Vshard.ReplicaSet.{ReplicaSet}
use qumomf.Quorum.Candidates.{Error, no_alive_followers, no_candidate_found, Options, candidates}

-- The loop over the followers, with `minIdle` and `minUUID`.
unfoldable pub min_uuid : List Instance → Float64 → InstanceUuid → InstanceUuid
min_uuid [] min_idle found = found
min_uuid (r ∷ rs) min_idle found =
    let better = flt (idle r) min_idle in
    min_uuid rs (if better then idle r else min_idle) (if better then r.uuid else found)

abbrev pub chosen : InstanceUuid → Result Error InstanceUuid
chosen uuid = if uuid == "" then err no_candidate_found else ok uuid

abbrev pub choose_among : List Instance → Result Error InstanceUuid
choose_among [] = err no_alive_followers
choose_among (r ∷ rs) = chosen (min_uuid (r ∷ rs) max_float64 "")

-- `ChooseMaster`
unfoldable pub choose_master : Options → ReplicaSet → Result Error InstanceUuid
choose_master opts set = choose_among (candidates opts set)
