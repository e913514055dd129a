-- ===== src/Quorum/Elector.antt =====
-- internal/quorum/elector.go: an elector by its mode.
use qumomf.Prelude.{String, ◌==◌, Option, none, some, if◌then◌else◌}
use qumomf.Prelude.Sort.{Sorter}
use qumomf.Prelude.Result.{Result}
use qumomf.Vshard.Instance.{InstanceUuid, Instance}
use qumomf.Vshard.ReplicaSet.{ReplicaSet}
use qumomf.Quorum.Candidates.{Error, Options}
use qumomf.Quorum.Idle
use qumomf.Quorum.Smart

abbrev pub mode_idle : String
mode_idle = "idle"

abbrev pub mode_smart : String
mode_smart = "smart"

pub data Elector : Type 0 where
  idle_elector smart_elector : Options → Elector

-- `New`; an unknown mode panics.
unfoldable pub new : String → Options → Option Elector
new m opts =
    if m == mode_idle
    then some (idle_elector opts)
    else if m == mode_smart
    then some (smart_elector opts)
    else none

unfoldable pub mode : Elector → String
mode (idle_elector opts) = mode_idle
mode (smart_elector opts) = mode_smart

module _ (sorter : Sorter Instance) where
  unfoldable pub choose_master : Elector → ReplicaSet → Option (Result Error InstanceUuid)
  choose_master (idle_elector opts) set = some (Idle.choose_master opts set)
  choose_master (smart_elector opts) set = Smart.choose_master sorter opts set
