-- ===== src/Config/Setup/Fixtures.antt =====
-- Two clusters, as a file configures them, and a reader that finds them in every file.
use qumomf.Prelude.{String, ◌≡◌, none, some, [], ◌∷◌}
use mathlib.Core.Path.{subst}
use qumomf.Prelude.Int.{pos}
use qumomf.Prelude.Dict.{Dict}
use qumomf.Prelude.Result.{Result, ok, ok_eq}
use qumomf.Config.{ClusterConfig}
use qumomf.Config.Filled.{AllGiven}
use qumomf.Config.Setup.{Settings, with_defaults}

abbrev pub bare_cluster : ClusterConfig
bare_cluster = record {
  connection = none;
  read_only = none;
  election_mode = some "idle";
  override_uri_rules = [];
  priorities = ("f", pos 1) ∷ [];
  routers = record { name = "r"; addr = "r:3301" } ∷ [];
}

abbrev pub two_clusters : Dict ClusterConfig
two_clusters = ("a", bare_cluster) ∷ ("b", record bare_cluster { election_mode = none }) ∷ []

abbrev pub with_two_clusters : Settings → Settings
with_two_clusters s = record s { config = record s.config { clusters = two_clusters } }

abbrev pub unmarshal : String → Settings → Result String Settings
unmarshal text s = ok (with_two_clusters s)

pub unmarshal-AllGiven :
    (text : String) (s : Settings)
    → unmarshal text with_defaults ≡ ok s
    → AllGiven s.config.connection
unfolding with_defaults
unmarshal-AllGiven text s e =
    subst (λ (s : Settings). AllGiven s.config.connection) (ok_eq e)
      ((λ k. cc), (λ k. cc), (λ k. cc), (λ k. cc))
