-- ===== src/Config.antt =====
-- internal/config: the options of the clusters, filled from the global ones, and their validation.
-- Of the global options this module keeps those that the clusters fall back to; Setup has the others.
pub mod Filled
pub mod Setup
mod Tests
use qumomf.Prelude.{
  String, ◌==◌, Bool, true, false, ◌||◌, Option, none, some, List, [], ◌∷◌, if◌then◌else◌,
}
use qumomf.Prelude.Int.{ℤ}
use qumomf.Prelude.Dict.{Dict}

pub record ConnectConfig : Type 0 where
  pub user : Option String
  pub password : Option String
  pub connect_timeout : Option ℤ
  pub request_timeout : Option ℤ

pub record RouterConfig : Type 0 where
  pub name : String
  pub addr : String

pub record ClusterConfig : Type 0 where
  pub connection : Option ConnectConfig
  pub read_only : Option Bool
  pub election_mode : Option String
  pub override_uri_rules : Dict String
  pub priorities : Dict ℤ
  pub routers : List RouterConfig

pub record Config : Type 0 where
  pub read_only : Bool
  pub election_mode : String
  pub connection : Option ConnectConfig
  pub clusters : Dict ClusterConfig

abbrev pub or_else : {A : Type 0} → Option A → Option A → Option A
or_else none b = b
or_else (some a) b = some a

abbrev pub is_unset : {A : Type 0} → Option A → Bool
is_unset none = true
is_unset (some a) = false

abbrev pub has_unset : ConnectConfig → Bool
has_unset c =
    is_unset c.connect_timeout
    || (is_unset c.request_timeout || (is_unset c.user || is_unset c.password))

-- The connection of one cluster. An unset option reads the global connection, which panics (`none`)
-- if there is none.
unfoldable pub fill_connection :
    Option ConnectConfig → Option ConnectConfig → Option (Option ConnectConfig)
fill_connection global none = some global
fill_connection none (some opts) = if has_unset opts then none else some (some opts)
fill_connection (some g) (some opts) = some (
    some record {
      user = or_else opts.user g.user;
      password = or_else opts.password g.password;
      connect_timeout = or_else opts.connect_timeout g.connect_timeout;
      request_timeout = or_else opts.request_timeout g.request_timeout;
    })

abbrev pub with_connection :
    Config → ClusterConfig → Option (Option ConnectConfig) → Option ClusterConfig
with_connection c cluster none = none
with_connection c cluster (some connection) = some (record cluster {
  read_only = or_else cluster.read_only (some c.read_only);
  election_mode = or_else cluster.election_mode (some c.election_mode);
  connection = connection;
})

unfoldable pub fill_cluster : Config → ClusterConfig → Option ClusterConfig
unfolding fill_connection
fill_cluster c cluster = with_connection c cluster (fill_connection c.connection cluster.connection)

abbrev pub cons_cluster :
    String → Option ClusterConfig → Option (Dict ClusterConfig) → Option (Dict ClusterConfig)
cons_cluster name none rest = none
cons_cluster name (some cluster) none = none
cons_cluster name (some cluster) (some rest) = some ((name, cluster) ∷ rest)

-- The loop of `overrideEmptyByGlobalConfigs`.
unfoldable pub fill_clusters : Config → Dict ClusterConfig → Option (Dict ClusterConfig)
unfolding fill_cluster
fill_clusters c [] = some []
fill_clusters c ((name, cluster) ∷ rest) =
    cons_cluster name (fill_cluster c cluster) (fill_clusters c rest)

-- `validateElector`: is the option accepted?
unfoldable pub validate_elector : Option String → Bool
validate_elector none = false
validate_elector (some v) = v == "idle" || v == "smart"

unfoldable pub validate_clusters : Dict ClusterConfig → Bool
unfolding validate_elector
validate_clusters [] = true
validate_clusters ((name, cluster) ∷ rest) =
    let later = validate_clusters rest in
    if validate_elector cluster.election_mode then later else false

unfoldable pub validate : Config → Bool
unfolding validate_elector validate_clusters
validate c = if validate_elector (some c.election_mode) then validate_clusters c.clusters else false
