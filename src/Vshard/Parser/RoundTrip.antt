-- ===== src/Vshard/Parser/RoundTrip.antt =====
-- Replies that spell out a topology or a storage, and that the parser reads them back.
use qumomf.Prelude.{◌≡◌, refl, Option, none, some, List, [], ◌∷◌}
use qumomf.Prelude.Result.{ok}
use qumomf.Vshard.Instance.{
  Alert, Upstream, Downstream, InstanceBucket, StorageInfo, Instance, InstanceInfo, zero_instance,
}
use qumomf.Vshard.Tarantool.{remove_user_info}
use qumomf.Vshard.Parser.Value.{
  Value, nil, int64, uint64, float64, string, bool, array, container, Values, done, item, Fields,
  no_fields, field, find_field, cast_to_container, get_int64, get_uint64, get_float64, get_array,
  get_container, get_string, get_bool, read_alerts, parse_alerts,
}
use qumomf.Vshard.Parser.Storage.{
  parse_instance_bucket, read_storage_info, parse_storage_info, parse_instance_info,
}
use qumomf.Vshard.Parser.Replication.{
  uri_of, read_upstream, read_downstream, parse_upstream, parse_downstream, read_instance,
  read_instances, parse_replication,
}

-- What Tarantool sends of an upstream, a downstream and an instance.
abbrev pub upstream_fields : Upstream → Fields
upstream_fields u = field "peer" (string u.peer) (
    field "status" (string u.status) (
      field "idle" (float64 u.idle)
        (field "lag" (float64 u.lag) (field "message" (string u.message) no_fields))))

abbrev pub with_upstream : Option Upstream → Fields → Fields
with_upstream none c = c
with_upstream (some u) c = field "upstream" (container (upstream_fields u)) c

abbrev pub with_downstream : Option Downstream → Fields → Fields
with_downstream none c = c
with_downstream (some d) c =
    field "downstream" (container (field "status" (string d.status) no_fields)) c

abbrev pub instance_value : Instance → Value
instance_value i = container (
    field "id" (uint64 i.id) (
      field "uuid" (string i.uuid) (
        field "lsn" (int64 i.lsn) (
          field "lsn_behind_master" (int64 i.lsn_behind_master)
            (with_upstream i.upstream (with_downstream i.downstream no_fields))))))

-- A table of instances, in which an absent one is a gap.
abbrev pub table : List (Option Instance) → Values
table [] = done
table (none ∷ is) = item nil (table is)
table (some i ∷ is) = item (instance_value i) (table is)

-- What the reply says of an instance: the rest is not sent, and the URI is that of the upstream's
-- peer.
abbrev pub as_sent : Instance → Instance
as_sent i = record zero_instance {
  id = i.id;
  uuid = i.uuid;
  uri = uri_of i.upstream;
  lsn = i.lsn;
  lsn_behind_master = i.lsn_behind_master;
  upstream = i.upstream;
  downstream = i.downstream;
}

abbrev pub sent : List (Option Instance) → List Instance
sent [] = []
sent (none ∷ is) = sent is
sent (some i ∷ is) = as_sent i ∷ sent is

read_instance-value : (i : Instance) → read_instance (instance_value i) ≡ ok (as_sent i)
unfolding read_instance cast_to_container get_uint64 get_string get_int64 get_float64 get_container
    find_field read_upstream read_downstream parse_upstream parse_downstream remove_user_info
read_instance-value i = at i.upstream i.downstream
  where
    at :
        (u : Option Upstream) (d : Option Downstream)
        → read_instance (instance_value (record i { upstream = u; downstream = d }))
          ≡ ok (as_sent (record i { upstream = u; downstream = d }))
    at none none = refl
    at none (some d) = refl
    at (some u) none = refl
    at (some u) (some d) = refl

read_instances-table : (is : List (Option Instance)) → read_instances (table is) ≡ ok (sent is)
unfolding read_instances
read_instances-table [] = refl
read_instances-table (none ∷ is) = read_instances-table is
read_instances-table (some i ∷ is) = rw (read_instance-value i) (rw (read_instances-table is) refl)

-- A reply that spells out instances, with gaps anywhere, is read as these instances in order,
-- with the URIs of their upstreams' peers.
pub parse_replication-table :
    (i : Option Instance) (is : List (Option Instance)) (rest : List Values)
    → parse_replication (table (i ∷ is) ∷ rest) ≡ ok (sent (i ∷ is))
unfolding parse_replication
parse_replication-table none is rest = read_instances-table (none ∷ is)
parse_replication-table (some i) is rest = read_instances-table (some i ∷ is)

abbrev pub alert_values : List Alert → Values
alert_values [] = done
alert_values (a ∷ as') =
    item (array (item (string a.type) (item (string a.description) done))) (alert_values as')

abbrev pub bucket_fields : InstanceBucket → Fields
bucket_fields b = field "active" (int64 b.active) (
    field "garbage" (int64 b.garbage) (
      field "pinned" (int64 b.pinned) (
        field "receiving" (int64 b.receiving)
          (field "sending" (int64 b.sending) (field "total" (int64 b.total) no_fields)))))

abbrev pub storage_fields : StorageInfo → Fields
storage_fields s = field "status" (int64 s.status) (
    field "alerts" (array (alert_values s.alerts)) (
      field "replication" (container (field "status" (string s.replication) no_fields))
        (field "bucket" (container (bucket_fields s.bucket)) no_fields)))

abbrev pub info_value : InstanceInfo → Value
info_value i = container (
    field "read_only" (bool i.readonly) (
      field "vshard_fingerprint" (uint64 i.vshard_fingerprint)
        (field "storage" (container (storage_fields i.storage_info)) no_fields)))

read_alerts-values : (as' : List Alert) → read_alerts (alert_values as') ≡ ok as'
unfolding read_alerts
read_alerts-values [] = refl
read_alerts-values (a ∷ as') = rw (read_alerts-values as') refl

-- A reply that spells out the information of a storage is read as that information.
pub parse_instance_info-value :
    (i : InstanceInfo) (vs : Values) (rest : List Values)
    → parse_instance_info (item (info_value i) vs ∷ rest) ≡ ok i
unfolding parse_instance_info cast_to_container get_bool get_uint64 get_int64 get_string get_array
    get_container find_field parse_alerts parse_storage_info read_storage_info parse_instance_bucket
parse_instance_info-value i vs rest = rw (read_alerts-values i.storage_info.alerts) refl
