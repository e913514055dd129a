-- ===== src/Config/Setup.antt =====
-- internal/config/config.go: the reading of the configuration file. The file and the YAML reader are
-- parameters; the reader gets the defaults and changes what the file names. A duration is a number of
-- nanoseconds that is not negative.
pub mod Ready
pub mod Fixtures
use qumomf.Prelude.{
  ℕ, ◌*◌, ◌^◌, String, Bool, true, false, Option, none, some, List, [], if◌then◌else◌,
}
use qumomf.Prelude.Int.{ℤ, pos}
use qumomf.Prelude.Dict.{Dict}
use qumomf.Prelude.Result.{Result, ok, err}
use qumomf.Config.{Config, ConnectConfig, ClusterConfig, fill_clusters, validate}

pub record Logging : Type 0 where
  pub level : String
  pub sys_log_enabled : Bool
  pub file_logging_enabled : Bool
  pub filename : String
  pub max_size : ℕ
  pub max_backups : ℕ
  pub max_age : ℕ

pub record Hooks : Type 0 where
  pub shell : String
  pub pre_failover : List String
  pub post_successful_failover : List String
  pub post_unsuccessful_failover : List String
  pub timeout : ℕ
  pub timeout_async : ℕ

pub record StorageOptions : Type 0 where
  pub filename : String
  pub query_timeout : ℕ
  pub connect_timeout : ℕ

-- The global options other than those that the clusters fall back to.
pub record Qumomf : Type 0 where
  pub port : String
  pub logging : Logging
  pub cluster_discovery_time : ℕ
  pub cluster_recovery_time : ℕ
  pub shard_recovery_block_time : ℕ
  pub instance_recovery_block_time : ℕ
  pub reasonable_follower_lsn_lag : ℤ
  pub reasonable_follower_idle : ℕ
  pub hooks : Hooks
  pub storage : StorageOptions

-- Both halves of the source's `Config`.
pub record Settings : Type 0 where
  pub qumomf : Qumomf
  pub config : Config

abbrev millisecond : ℕ
millisecond = 10 ^ 6

abbrev second : ℕ
second = 10 ^ 9

abbrev minute : ℕ
minute = 60 * 10 ^ 9

unfoldable pub with_defaults : Settings
with_defaults = record {
  qumomf = record {
    port = "";
    logging = record {
      level = "debug";
      sys_log_enabled = false;
      file_logging_enabled = false;
      filename = "/var/log/qumomf.log";
      max_size = 256;
      max_backups = 3;
      max_age = 5;
    };
    cluster_discovery_time = 5 * second;
    cluster_recovery_time = 1 * second;
    shard_recovery_block_time = 30 * minute;
    instance_recovery_block_time = 10 * minute;
    reasonable_follower_lsn_lag = pos 1000;
    reasonable_follower_idle = 5 * minute;
    hooks = record {
      shell = "bash";
      pre_failover = [];
      post_successful_failover = [];
      post_unsuccessful_failover = [];
      timeout = 5 * second;
      timeout_async = 10 * minute;
    };
    storage = record { filename = "qumomf.db"; query_timeout = second; connect_timeout = second };
  };
  config = record {
    read_only = true;
    election_mode = "smart";
    connection = some record {
      user = some "guest";
      password = some "guest";
      connect_timeout = some (pos (500 * millisecond));
      request_timeout = some (pos (1 * second));
    };
    clusters = [];
  };
}

-- The message stands for that of the first option that is refused.
abbrev pub validated : Settings → Option (Dict ClusterConfig) → Option (Result String Settings)
validated s none = none
validated s (some filled) =
    let full = record s { config = record s.config { clusters = filled } } in
    if validate full.config then some (ok full) else some (err "invalid elector option")

unfoldable pub unmarshalled : Result String Settings → Option (Result String Settings)
unfolding fill_clusters
unmarshalled (err m) = some (err m)
unmarshalled (ok s) = validated s (fill_clusters s.config s.config.clusters)

unfoldable pub after_read :
    (String → Settings → Result String Settings)
    → Result String String
    → Option (Result String Settings)
unfolding with_defaults
after_read unmarshal (err m) = some (err m)
after_read unmarshal (ok text) = unmarshalled (unmarshal text with_defaults)

-- `Setup`; `none` is a panic.
unfoldable pub setup :
    (String → Settings → Result String Settings)
    → (String → Result String String)
    → String
    → Option (Result String Settings)
setup unmarshal read_file path = after_read unmarshal (read_file path)
