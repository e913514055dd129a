-- ===== src/Http/Tests.antt =====
-- Requests to a storage that holds the small cluster.
use qumomf.Prelude.{String, refl, none, [], ◌∷◌, Memᴰ}
use qumomf.Prelude.Dict.{Dict, lookup}
use qumomf.Prelude.Result.{ok, err}
use qumomf.Api.{Storage}
use qumomf.Storage.{no_tables}
use qumomf.Storage.Service.{as_storage, as_storage-ListsAll}
use qumomf.Storage.Refinement.{no_model, effects, updates}
use qumomf.Storage.Fixtures.{
  backend, backend-ReadsSnapshots, backend-ReadsRecoveries, backend-Scans, calls,
}
use qumomf.Http.{Marshal, Params}
use qumomf.Http.Replies.{handle, to_shard_snapshot, to_shard_recoveries, IsSound, handle-IsSound}
use qumomf.Http.Routes.{
  Segment, literal, variable, Route, api, routes, Binds, Serves, routes-Serves,
}
use qumomf.Http.Stored.{Answers, effects-Answers}

abbrev marshal : Marshal
marshal = record {
  clusters = λ x. ok "[]";
  snapshot = λ x. ok "{}";
  replica_set = λ x. ok "{}";
  instance = λ x. ok "{}";
  recoveries = λ x. err "unsupported value";
  alerts = λ x. ok "{}";
}

abbrev db : Storage
db = as_storage backend none (effects backend calls no_tables)

abbrev vars : Dict String
vars = ("cluster_name", "sandbox") ∷ ("shard_uuid", "set") ∷ []

handle-IsSound_example : IsSound (handle marshal db to_shard_snapshot vars)
handle-IsSound_example =
    handle-IsSound marshal db to_shard_snapshot vars
      (as_storage-ListsAll backend none (effects backend calls no_tables))

abbrev recoveries_route : Route
recoveries_route = record {
  path =
      literal "api"
      ∷ literal "v0"
      ∷ literal "recoveries"
      ∷ variable "cluster_name"
      ∷ variable "shard_uuid"
      ∷ [];
  endpoint = api to_shard_recoveries;
}

is_route : Memᴰ recoveries_route routes
unfolding routes qumomf.Http.Routes.register_debug_handlers qumomf.Http.Routes.register_api_handlers
is_route =
    Memᴰ.tail
      (Memᴰ.tail (Memᴰ.tail (Memᴰ.tail (Memᴰ.tail (Memᴰ.tail (Memᴰ.tail (Memᴰ.head refl)))))))

bound : Binds vars recoveries_route.path
unfolding lookup
bound = (("sandbox", refl, λ e. cc), (("set", refl, λ e. cc), tt))

routes-Serves_example : Serves marshal db vars (api to_shard_recoveries)
routes-Serves_example = routes-Serves marshal db vars recoveries_route is_route bound

abbrev asked : Params
asked = record { cluster_name = "sandbox"; shard_uuid = "set"; instance_uuid = "" }

effects-Answers_example :
    Answers backend marshal (effects backend calls no_tables) (updates backend calls no_model) asked
effects-Answers_example =
    effects-Answers backend marshal backend-ReadsSnapshots backend-ReadsRecoveries backend-Scans
      calls asked (λ e. cc) (λ e. cc)
