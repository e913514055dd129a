-- ===== src/Vshard/Instance.antt =====
-- internal/vshard/instance.go, alert.go and router.go: what is known of one instance, of one router
-- and of the alerts that they raise. The named string types are texts, as in the source, since a
-- reply of Tarantool may hold any text.
use qumomf.Prelude.{
  ℕ, String, ◌==◌, Bool, true, false, ◌&&◌, not, Option, none, some, List, [], exists, eqb,
  if◌then◌else◌,
}
use qumomf.Prelude.Int.{ℤ, pos, negsuc, eqb_ℤ}
use qumomf.Prelude.Float.{Float64, float_zero}

abbrev pub InstanceUuid : Type 0
InstanceUuid = String

abbrev pub ReplicaSetUuid : Type 0
ReplicaSetUuid = String

abbrev pub AlertType : Type 0
AlertType = String

-- replication statuses of a storage
abbrev pub status_follow : String
status_follow = "follow"

abbrev pub status_master : String
status_master = "master"

abbrev pub status_disconnected : String
status_disconnected = "disconnected"

-- upstream statuses
abbrev pub upstream_auth : String
upstream_auth = "auth"

abbrev pub upstream_connecting : String
upstream_connecting = "connecting"

abbrev pub upstream_disconnected : String
upstream_disconnected = "disconnected"

abbrev pub upstream_follow : String
upstream_follow = "follow"

abbrev pub upstream_running : String
upstream_running = "running"

abbrev pub upstream_stopped : String
upstream_stopped = "stopped"

abbrev pub upstream_orphan : String
upstream_orphan = "orphan"

abbrev pub upstream_sync : String
upstream_sync = "sync"

-- downstream statuses
abbrev pub downstream_follow : String
downstream_follow = "follow"

abbrev pub downstream_stopped : String
downstream_stopped = "stopped"

-- statuses of an instance as a router sees it
abbrev pub instance_available : String
instance_available = "available"

abbrev pub instance_unreachable : String
instance_unreachable = "unreachable"

abbrev pub instance_missing : String
instance_missing = "missing"

abbrev pub alert_unreachable_master : AlertType
alert_unreachable_master = "UNREACHABLE_MASTER"

abbrev pub alert_unreachable_replica : AlertType
alert_unreachable_replica = "UNREACHABLE_REPLICA"

-- health codes are integers, and Tarantool may report any
abbrev pub health_code_green : ℤ
health_code_green = pos 0

abbrev pub health_code_yellow : ℤ
health_code_yellow = pos 1

abbrev pub health_code_orange : ℤ
health_code_orange = pos 2

abbrev pub health_code_red : ℤ
health_code_red = pos 3

abbrev pub health_code_unknown : ℤ
health_code_unknown = pos 4

pub data HealthLevel : Type 0 where
  green yellow orange red unknown : HealthLevel

pub record Alert : Type 0 where
  pub type : AlertType
  pub description : String

pub record Upstream : Type 0 where
  pub peer : String
  pub status : String
  pub idle : Float64
  pub lag : Float64
  pub message : String

pub record Downstream : Type 0 where
  pub status : String

pub record InstanceBucket : Type 0 where
  pub active : ℤ
  pub garbage : ℤ
  pub pinned : ℤ
  pub receiving : ℤ
  pub sending : ℤ
  pub total : ℤ

-- `replication` is the status in the source's one-field struct.
pub record StorageInfo : Type 0 where
  pub status : ℤ
  pub replication : String
  pub bucket : InstanceBucket
  pub alerts : List Alert

pub record Instance : Type 0 where
  pub id : ℕ
  pub uuid : InstanceUuid
  pub uri : String
  pub readonly : Bool
  pub last_check_valid : Bool
  pub lsn : ℤ
  pub lsn_behind_master : ℤ
  pub upstream : Option Upstream
  pub downstream : Option Downstream
  pub storage_info : StorageInfo
  pub vshard_fingerprint : ℕ
  pub priority : ℤ

pub record InstanceIdent : Type 0 where
  pub uuid : InstanceUuid
  pub uri : String

pub record InstanceInfo : Type 0 where
  pub readonly : Bool
  pub vshard_fingerprint : ℕ
  pub storage_info : StorageInfo

-- Go's zero values.
abbrev pub zero_bucket : InstanceBucket
zero_bucket = record {
  active = pos 0;
  garbage = pos 0;
  pinned = pos 0;
  receiving = pos 0;
  sending = pos 0;
  total = pos 0;
}

abbrev pub zero_storage_info : StorageInfo
zero_storage_info = record { status = pos 0; replication = ""; bucket = zero_bucket; alerts = [] }

abbrev pub zero_instance : Instance
zero_instance = record {
  id = 0;
  uuid = "";
  uri = "";
  readonly = false;
  last_check_valid = false;
  lsn = pos 0;
  lsn_behind_master = pos 0;
  upstream = none;
  downstream = none;
  storage_info = zero_storage_info;
  vshard_fingerprint = 0;
  priority = pos 0;
}

unfoldable pub ident : Instance → InstanceIdent
ident i = record { uuid = i.uuid; uri = i.uri }

unfoldable pub has_alert : Instance → AlertType → Bool
unfolding exists
has_alert i t = exists (λ a. a.type == t) i.storage_info.alerts

unfoldable pub critical_code : Instance → ℤ
critical_code i = i.storage_info.status

-- The `switch` on a health code, of an instance and of a snapshot.
unfoldable pub level_of_code : ℤ → HealthLevel
level_of_code (pos n) =
    if eqb n 0
    then green
    else if eqb n 1
    then yellow
    else if eqb n 2
    then orange
    else if eqb n 3
    then red
    else unknown
level_of_code (negsuc n) = unknown

unfoldable pub critical_level : Instance → HealthLevel
unfolding level_of_code critical_code
critical_level i = level_of_code (critical_code i)

abbrev pub idle_of : Option Upstream → Float64
idle_of none = float_zero
idle_of (some u) = u.idle

unfoldable pub idle : Instance → Float64
idle i = idle_of i.upstream

abbrev pub same_bool : Bool → Bool → Bool
same_bool true b = b
same_bool false b = not b

-- `SameAs` of an instance
unfoldable pub same_instance : Instance → Instance → Bool
same_instance i another =
    i.uuid == another.uuid
    && (i.uri == another.uri
        && (eqb i.vshard_fingerprint another.vshard_fingerprint
            && (eqb i.id another.id
                && (same_bool i.readonly another.readonly
                    && (i.storage_info.replication == another.storage_info.replication
                        && eqb_ℤ i.storage_info.status another.storage_info.status)))))
