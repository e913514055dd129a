-- ===== src/Orchestrator/Hooker/Command.antt =====
-- internal/vshard/orchestrator/hook.go: a hook's command and its environment for a recovery.
use Prim.Native.String.{◌++◌ as glue}
use text.Mathlib.Text.{starts_with}
use qumomf.Prelude.{String, Bool, List, [], ◌∷◌, if◌then◌else◌}
use qumomf.Prelude.Text.{replace_all, trim_space, trim_left, itoa, format_bool}
use qumomf.Orchestrator.Recovery.{Recovery}

-- The placeholders that a command may use, with what stands for them, in the order of replacement.
unfoldable pub placeholders : Recovery → List (String × String)
unfolding itoa format_bool
placeholders recv =
    let a = recv.analysis_entry in
    ("{failureType}", recv.type)
    ∷ ("{failedUUID}", recv.failed.uuid)
    ∷ ("{failedURI}", recv.failed.uri)
    ∷ ("{failureCluster}", recv.cluster_name)
    ∷ ("{failureReplicaSetUUID}", recv.set_uuid)
    ∷ ("{countFollowers}", itoa a.count_replicas)
    ∷ ("{countWorkingFollowers}", itoa a.count_working_replicas)
    ∷ ("{countReplicatingFollowers}", itoa a.count_replicating_replicas)
    ∷ ("{countInconsistentVShardConf}", itoa a.count_inconsistent_vshard_conf)
    ∷ ("{isSuccessful}", format_bool recv.is_successful)
    ∷ (if recv.is_successful
        then ("{successorUUID}", recv.successor.uuid) ∷ ("{successorURI}", recv.successor.uri) ∷ []
        else [])

unfoldable pub fill : String → List (String × String) → String
fill command [] = command
fill command ((name, value) ∷ rest) = fill (replace_all command name value) rest

-- `prepareCommand`: the command to run, and whether nobody waits for it.
unfoldable pub prepare_command : String → Recovery → String × Bool
unfolding placeholders fill replace_all trim_space trim_left
prepare_command command recv =
    let trimmed = trim_space command in
    let async = starts_with trimmed "&" in
    let bare = if async then trim_left b'&' trimmed else trimmed in
    (fill bare (placeholders recv), async)

abbrev setting : String → String → String
setting name value = glue name (glue "=" value)

-- `applyEnvironmentVariables`, behind what the process of qumomf itself has.
unfoldable pub apply_environment_variables : Recovery → List String
unfolding itoa format_bool
apply_environment_variables recv =
    let a = recv.analysis_entry in
    setting "QUM_FAILURE_TYPE" recv.type
    ∷ setting "QUM_FAILED_UUID" recv.failed.uuid
    ∷ setting "QUM_FAILED_URI" recv.failed.uri
    ∷ setting "QUM_FAILURE_CLUSTER" recv.cluster_name
    ∷ setting "QUM_FAILURE_REPLICA_SET_UUID" recv.set_uuid
    ∷ setting "QUM_COUNT_FOLLOWERS" (itoa a.count_replicas)
    ∷ setting "QUM_COUNT_WORKING_FOLLOWERS" (itoa a.count_working_replicas)
    ∷ setting "QUM_COUNT_REPLICATING_FOLLOWERS" (itoa a.count_replicating_replicas)
    ∷ setting "QUM_COUNT_INCONSISTENT_VSHARD_CONF" (itoa a.count_inconsistent_vshard_conf)
    ∷ setting "QUM_IS_SUCCESSFUL" (format_bool recv.is_successful)
    ∷ (if recv.is_successful
        then setting "QUM_SUCCESSOR_UUID" recv.successor.uuid
          ∷ setting "QUM_SUCCESSOR_URI" recv.successor.uri
          ∷ []
        else [])
