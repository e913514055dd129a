-- ===== src/Coordinator.antt =====
-- internal/coordinator/coordinator.go: the registration of clusters, the callbacks that store what
-- happens to them, and the shutdown. The parts of a cluster run on their own once they are registered.
pub mod Registration
pub mod Startup
pub mod Stored
mod Tests
use qumomf.Prelude.{
  ℕ, String, Bool, false, Option, none, some, List, [], ◌∷◌, ◌++◌, map, if◌then◌else◌, is_some,
}
use qumomf.Prelude.Int.{ℤ}
use qumomf.Prelude.Float.{Float64}
use qumomf.Prelude.Dict.{Dict, lookup, insert}
use qumomf.Prelude.Result.{Result, ok, err}
use qumomf.Vshard.Cluster.{Cluster, new_cluster}
use qumomf.Vshard.Snapshot.{Snapshot}
use qumomf.Quorum.Candidates.{Options}
use qumomf.Quorum.Elector.{Elector, new}
use qumomf.Orchestrator.Monitor.{Monitor, new_monitor}
use qumomf.Orchestrator.Recovery.{Recovery}
use qumomf.Orchestrator.Hooker.{
  Hooker, new_hooker, add_hook, pre_failover, post_successful_failover, post_unsuccessful_failover,
}
use qumomf.Orchestrator.Failover.State.{Failover, new_failover, set_on_cluster_recovered}
use qumomf.Config.{ConnectConfig, RouterConfig, ClusterConfig}
use qumomf.Config.Setup.{Qumomf, Hooks}
use qumomf.Storage.{Backend, Tables, save_snapshot, save_recovery}
use qumomf.Api.{StorageError}

pub data Error : Type 0 where
  cluster_already_exist : Error

-- The method values that the queue holds, with the name of the cluster whose part they stop.
pub data ShutdownTask : Type 0 where
  cluster_shutdown monitor_shutdown failover_shutdown : String → ShutdownTask

-- `ConnOptions` of internal/vshard/tarantool.go.
pub record ConnOptions : Type 0 where
  pub user : String
  pub password : String
  pub connect_timeout : ℤ
  pub query_timeout : ℤ

-- `Config` of internal/vshard/orchestrator/config.go.
pub record MonitorConfig : Type 0 where
  pub recovery_poll_time : ℕ
  pub discovery_poll_time : ℕ

-- What a hooker has beside its processes.
pub record HookerOptions : Type 0 where
  pub shell : String
  pub timeout : ℕ
  pub timeout_async : ℕ

-- The parts that serve a cluster.
pub record Parts : Type 0 where
  pub cluster : Cluster
  pub conn_template : ConnOptions
  pub rules : Dict String
  pub monitor : Monitor
  pub monitor_config : MonitorConfig
  pub hooker_options : HookerOptions
  pub failover : Failover

-- `clusters` holds the parts that run beside each cluster, too.
pub record Coordinator : Type 0 where
  pub clusters : Dict Parts
  pub shutdown_queue : List ShutdownTask

-- `New`
abbrev pub new_coordinator : Coordinator
new_coordinator = record { clusters = []; shutdown_queue = [] }

unfoldable pub add_shutdown_task : ShutdownTask → Coordinator → Coordinator
add_shutdown_task task c = record c { shutdown_queue = c.shutdown_queue ++ task ∷ [] }

-- The processes of `initHooker`.
unfoldable pub init_hooker : Hooks → Hooker
unfolding add_hook
init_hooker hooks =
    let h1 = add_hook new_hooker pre_failover hooks.pre_failover in
    let h2 = add_hook h1 post_successful_failover hooks.post_successful_failover in
    add_hook h2 post_unsuccessful_failover hooks.post_unsuccessful_failover

-- The rest of `initHooker`.
abbrev pub hooker_options_of : Hooks → HookerOptions
hooker_options_of hooks = record {
  shell = hooks.shell;
  timeout = hooks.timeout;
  timeout_async = hooks.timeout_async;
}

-- The options that `NewCluster` reads through pointers; one that is not set panics.
abbrev pub conn_options : Option String → Option String → Option ℤ → Option ℤ → Option ConnOptions
conn_options (some u) (some p) (some c) (some q) =
    some record { user = u; password = p; connect_timeout = c; query_timeout = q }
conn_options _ _ _ _ = none

abbrev pub conn_template_of : Option ConnectConfig → Option ConnOptions
conn_template_of none = none
conn_template_of (some c) = conn_options c.user c.password c.connect_timeout c.request_timeout

module _ (seconds : ℕ → Float64) (now : ℤ) where
  abbrev pub options_of : Qumomf → Options
  options_of q = record {
    reasonable_follower_lsn_lag = q.reasonable_follower_lsn_lag;
    reasonable_follower_idle = seconds q.reasonable_follower_idle;
  }

  -- From the mode of the elector on.
  abbrev pub with_elector :
      String → ClusterConfig → ConnOptions → Cluster → Qumomf → Option Elector → Option Parts
  unfolding init_hooker set_on_cluster_recovered
  with_elector name cfg template cluster q none = none
  with_elector name cfg template cluster q (some elector) = some record {
    cluster = cluster;
    conn_template = template;
    rules = cfg.override_uri_rules;
    monitor = new_monitor;
    monitor_config = record {
      recovery_poll_time = q.cluster_recovery_time;
      discovery_poll_time = q.cluster_discovery_time;
    };
    hooker_options = hooker_options_of q.hooks;
    failover = set_on_cluster_recovered (
        new_failover name elector (init_hooker q.hooks) q.shard_recovery_block_time
          q.instance_recovery_block_time);
  }

  abbrev pub with_mode :
      String → ClusterConfig → ConnOptions → Cluster → Qumomf → Option String → Option Parts
  unfolding new
  with_mode name cfg template cluster q none = none
  with_mode name cfg template cluster q (some mode) =
      with_elector name cfg template cluster q (new mode (options_of q))

  -- `NewCluster`, and what follows it.
  abbrev pub with_cluster :
      String → ClusterConfig → Qumomf → Option ConnOptions → Option Bool → Option Parts
  unfolding new_cluster
  with_cluster name cfg q none read_only = none
  with_cluster name cfg q (some template) none = none
  with_cluster name cfg q (some template) (some read_only) =
      with_mode name cfg template
        (new_cluster name read_only cfg.priorities (map (λ (r : RouterConfig). r.addr) cfg.routers)
          now)
        q cfg.election_mode

  -- The parts of a cluster; `none` is a panic, by an option that is not set or an unknown mode.
  unfoldable pub new_parts : String → ClusterConfig → Qumomf → Option Parts
  new_parts name cfg q = with_cluster name cfg q (conn_template_of cfg.connection) cfg.read_only

  abbrev pub registered :
      String → Coordinator → Option Parts → Option (Result Error Unit × Coordinator)
  unfolding add_shutdown_task
  registered name c none = none
  registered name c (some parts) =
      let c1 = record c { clusters = insert name parts c.clusters } in
      let c2 = add_shutdown_task (cluster_shutdown name) c1 in
      let c3 = add_shutdown_task (monitor_shutdown name) c2 in
      some (ok tt, add_shutdown_task (failover_shutdown name) c3)

  unfoldable pub register_cluster :
      String → ClusterConfig → Qumomf → Coordinator → Option (Result Error Unit × Coordinator)
  unfolding new_parts
  register_cluster name cfg q c =
      if is_some (lookup name c.clusters)
      then some (err cluster_already_exist, c)
      else registered name c (new_parts name cfg q)

-- The tasks in the order in which `Shutdown` runs them: the loop counts down.
unfoldable pub shutdown_from : List ShutdownTask → List ShutdownTask
shutdown_from [] = []
shutdown_from (task ∷ tasks) = shutdown_from tasks ++ task ∷ []

unfoldable pub shutdown : Coordinator → List ShutdownTask
unfolding shutdown_from
shutdown c = shutdown_from c.shutdown_queue

-- The callbacks, which only log an error of the storage.
module _ {Bytes : Type 0} (json : Backend Bytes) where
  unfoldable pub on_cluster_discovered :
      Option String → String → Snapshot → Tables Bytes → Tables Bytes
  unfolding save_snapshot
  on_cluster_discovered refused name s t = (save_snapshot json refused name s t).1

  unfoldable pub on_cluster_recovered : Option String → Recovery → Tables Bytes → Tables Bytes
  unfolding save_recovery
  on_cluster_recovered refused r t = (save_recovery json refused r t).1
