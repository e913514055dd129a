-- ===== src/Vshard/Parser/Storage.antt =====
-- The reply of a storage about itself (internal/vshard/parser.go).
use qumomf.Prelude.{Option, none, some, List, [], ◌∷◌}
use qumomf.Prelude.Result.{ok, err, ◌>>=◌}
use qumomf.Vshard.Error.{empty_response, no_instance_info}
use qumomf.Vshard.Instance.{InstanceBucket, StorageInfo, InstanceInfo, zero_storage_info}
use qumomf.Vshard.Parser.Value.{
  Value, Values, done, item, Fields, Read, find_field, cast_to_container, get_int64, get_uint64,
  get_container, get_string, get_bool, parse_alerts,
}

unfoldable pub parse_instance_bucket : Fields → Read InstanceBucket
unfolding get_container get_int64
parse_instance_bucket dt = do
  mp ← get_container dt "bucket"
  active ← get_int64 mp "active"
  garbage ← get_int64 mp "garbage"
  pinned ← get_int64 mp "pinned"
  receiving ← get_int64 mp "receiving"
  sending ← get_int64 mp "sending"
  total ← get_int64 mp "total"
  ok record {
    active = active;
    garbage = garbage;
    pinned = pinned;
    receiving = receiving;
    sending = sending;
    total = total;
  }

unfoldable pub read_storage_info : Fields → Read StorageInfo
unfolding get_container get_int64 get_string parse_alerts parse_instance_bucket
read_storage_info dt = do
  s ← get_container dt "storage"
  status ← get_int64 s "status"
  alerts ← parse_alerts s
  replication ← get_container s "replication"
  repl_status ← get_string replication "status"
  bucket ← parse_instance_bucket s
  ok record { status = status; replication = repl_status; bucket = bucket; alerts = alerts }

abbrev storage_if : Option Value → Fields → Read StorageInfo
storage_if none dt = ok zero_storage_info
storage_if (some v) dt = read_storage_info dt

-- `parseStorageInfo`: an instance that is no storage has the zero information.
unfoldable pub parse_storage_info : Fields → Read StorageInfo
unfolding find_field read_storage_info
parse_storage_info dt = storage_if (find_field dt "storage") dt

unfoldable pub parse_instance_info : List Values → Read InstanceInfo
unfolding cast_to_container get_bool get_uint64 parse_storage_info
parse_instance_info [] = err empty_response
parse_instance_info (done ∷ ts) = err no_instance_info
parse_instance_info (item v vs ∷ ts) = do
  dt ← cast_to_container v
  readonly ← get_bool dt "read_only"
  fingerprint ← get_uint64 dt "vshard_fingerprint"
  storage_info ← parse_storage_info dt
  ok record { readonly = readonly; vshard_fingerprint = fingerprint; storage_info = storage_info }
