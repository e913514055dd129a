-- ===== src/Config/Tests.antt =====
-- A configuration of two clusters, one of which sets nothing.
use qumomf.Prelude.{◌≡◌, refl, true, none, some, [], ◌∷◌}
use qumomf.Prelude.Int.{pos}
use qumomf.Prelude.Float.{float_of_int}
use qumomf.Quorum.Candidates.{Options}
use qumomf.Config.{ConnectConfig, ClusterConfig, Config, validate}

abbrev global : ConnectConfig
global = record {
  user = some "guest";
  password = some "guest";
  connect_timeout = some (pos 500);
  request_timeout = some (pos 1000);
}

abbrev bare : ClusterConfig
bare = record {
  connection = none;
  read_only = none;
  election_mode = none;
  override_uri_rules = [];
  priorities = [];
  routers = [];
}

abbrev custom : ClusterConfig
custom = record bare {
  connection = some (record global { user = some "qumomf"; password = none });
  election_mode = some "idle";
}

abbrev config : Config
config = record {
  read_only = true;
  election_mode = "smart";
  connection = some global;
  clusters = ("a", custom) ∷ [];
}

abbrev opts : Options
opts = record {
  reasonable_follower_lsn_lag = pos 500;
  reasonable_follower_idle = float_of_int (pos 60);
}

is_valid : validate config ≡ true
unfolding validate
is_valid = refl
