-- ===== src/Vshard/Parser/Replication.antt =====
-- The reply about a replica set's topology, `box.info.replication` (internal/vshard/parser.go).
use qumomf.Prelude.{String, Option, none, some, List, [], ◌∷◌}
use qumomf.Prelude.Int.{ℤ, pos}
use qumomf.Prelude.Result.{ok, err, ◌>>=◌}
use qumomf.Vshard.Error.{empty_response, no_replication_info}
use qumomf.Vshard.Instance.{Instance, Upstream, Downstream, zero_instance}
use qumomf.Vshard.Tarantool.{remove_user_info}
use qumomf.Vshard.Parser.Value.{
  Value, nil, Values, done, item, Fields, Read, find_field, cast_to_container, get_int64,
  get_uint64, get_float64, get_container, get_string,
}

abbrev pub int64_if : Option Value → Fields → String → Read ℤ
int64_if none c key = ok (pos 0)
int64_if (some v) c key = get_int64 c key

abbrev string_if : Option Value → Fields → String → Read String
string_if none c key = ok ""
string_if (some v) c key = get_string c key

unfoldable pub read_upstream : Fields → Read Upstream
unfolding get_container get_string get_float64 find_field
read_upstream dt = do
  u ← get_container dt "upstream"
  peer ← get_string u "peer"
  status ← get_string u "status"
  idle ← get_float64 u "idle"
  lag ← get_float64 u "lag"
  message ← string_if (find_field u "message") u "message"
  ok record { peer = peer; status = status; idle = idle; lag = lag; message = message }

abbrev upstream_if : Option Value → Fields → Read (Option Upstream)
upstream_if none dt = ok none
upstream_if (some v) dt = read_upstream dt >>= λ u. ok (some u)

unfoldable pub parse_upstream : Fields → Read (Option Upstream)
unfolding find_field read_upstream
parse_upstream dt = upstream_if (find_field dt "upstream") dt

unfoldable pub read_downstream : Fields → Read Downstream
unfolding get_container get_string
read_downstream dt = do
  u ← get_container dt "downstream"
  status ← get_string u "status"
  ok record { status = status }

abbrev downstream_if : Option Value → Fields → Read (Option Downstream)
downstream_if none dt = ok none
downstream_if (some v) dt = read_downstream dt >>= λ d. ok (some d)

unfoldable pub parse_downstream : Fields → Read (Option Downstream)
unfolding find_field read_downstream
parse_downstream dt = downstream_if (find_field dt "downstream") dt

abbrev pub uri_of : Option Upstream → String
uri_of none = ""
uri_of (some u) = remove_user_info u.peer

-- The body of the loop, for a value that is no gap.
unfoldable pub read_instance : Value → Read Instance
unfolding cast_to_container get_uint64 get_string get_int64 find_field parse_upstream
    parse_downstream
read_instance t = do
  mp ← cast_to_container t
  id ← get_uint64 mp "id"
  uuid ← get_string mp "uuid"
  lsn ← get_int64 mp "lsn"
  lsn_behind_master ← int64_if (find_field mp "lsn_behind_master") mp "lsn_behind_master"
  upstream ← parse_upstream mp
  downstream ← parse_downstream mp
  ok (record zero_instance {
    id = id;
    uuid = uuid;
    uri = uri_of upstream;
    lsn = lsn;
    lsn_behind_master = lsn_behind_master;
    upstream = upstream;
    downstream = downstream;
  })

-- The loop of `ParseReplication`: Lua tables may have gaps, which are skipped.
unfoldable pub read_instances : Values → Read (List Instance)
unfolding read_instance
read_instances done = ok []
read_instances (item nil ts) = read_instances ts
read_instances (item t ts) = do
  inst ← read_instance t
  instances ← read_instances ts
  ok (inst ∷ instances)

unfoldable pub parse_replication : List Values → Read (List Instance)
unfolding read_instances
parse_replication [] = err empty_response
parse_replication (done ∷ ts) = err no_replication_info
parse_replication (item t ts ∷ us) = read_instances (item t ts)
