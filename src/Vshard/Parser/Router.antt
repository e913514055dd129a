-- ===== src/Vshard/Parser/Router.antt =====
-- The reply of a router's `vshard.router.info` (internal/vshard/parser.go).
use qumomf.Prelude.{List, [], ◌∷◌}
use qumomf.Prelude.Int.{pos}
use qumomf.Prelude.Result.{ok, err, ◌>>=◌}
use qumomf.Prelude.Dict.{Dict, insert}
use qumomf.Vshard.Error.{empty_response, no_router_info}
use qumomf.Vshard.Router.{RouterInstanceParameters, RouterBucket, RouterInfo}
use qumomf.Vshard.Tarantool.{remove_user_info}
use qumomf.Vshard.Parser.Value.{
  Values, done, item, Fields, no_fields, field, Read, cast_to_container, get_int64, get_float64,
  get_container, get_string, parse_alerts,
}

unfoldable pub parse_router_bucket : Fields → Read RouterBucket
unfolding get_container get_int64
parse_router_bucket dt = do
  mp ← get_container dt "bucket"
  available_ro ← get_int64 mp "available_ro"
  available_rw ← get_int64 mp "available_rw"
  unknown ← get_int64 mp "unknown"
  unreachable ← get_int64 mp "unreachable"
  ok record {
    available_ro = available_ro;
    available_rw = available_rw;
    unknown = unknown;
    unreachable = unreachable;
  }

unfoldable pub parse_router_instance : Fields → Read RouterInstanceParameters
unfolding get_container get_string get_float64 remove_user_info
parse_router_instance dt = do
  mp ← get_container dt "master"
  uuid ← get_string mp "uuid"
  uri ← get_string mp "uri"
  status ← get_string mp "status"
  timeout ← get_float64 mp "network_timeout"
  ok record { uuid = uuid; status = status; uri = remove_user_info uri; network_timeout = timeout }

-- The loop of `parseRouterReplicaSets`, over the map's entries in the order in which Go visits
-- them, into the map that it has so far.
unfoldable pub read_replica_sets :
    Fields → Dict RouterInstanceParameters → Read (Dict RouterInstanceParameters)
unfolding cast_to_container parse_router_instance
read_replica_sets no_fields result = ok result
read_replica_sets (field uuid v mp) result = do
  vc ← cast_to_container v
  params ← parse_router_instance vc
  read_replica_sets mp (insert uuid params result)

unfoldable pub parse_router_replica_sets : Fields → Read (Dict RouterInstanceParameters)
unfolding get_container read_replica_sets
parse_router_replica_sets dt = do mp ← get_container dt "replicasets"; read_replica_sets mp []

-- `ParseRouterInfo`; the time of the last sight is set by its caller.
unfoldable pub parse_router_info : List Values → Read RouterInfo
unfolding cast_to_container parse_alerts get_int64 parse_router_bucket parse_router_replica_sets
parse_router_info [] = err empty_response
parse_router_info (done ∷ ts) = err no_router_info
parse_router_info (item v vs ∷ ts) = do
  dt ← cast_to_container v
  alerts ← parse_alerts dt
  status ← get_int64 dt "status"
  bucket ← parse_router_bucket dt
  sets ← parse_router_replica_sets dt
  ok record {
    last_seen = pos 0;
    replica_sets = sets;
    bucket = bucket;
    status = status;
    alerts = alerts;
  }
