-- ===== src/Vshard/Fixtures.antt =====
-- A small cluster that the modules' tests share: a replica set of a master that is down and two
-- followers that were reached, and a router.
use qumomf.Prelude.{true, false, some, [], ◌∷◌}
use qumomf.Prelude.Int.{pos}
use qumomf.Prelude.Float.{float_of_int}
use qumomf.Vshard.Instance.{
  Upstream, StorageInfo, Instance, upstream_follow, status_disconnected, zero_storage_info,
  zero_instance,
}
use qumomf.Vshard.Router.{Router, new_router}
use qumomf.Vshard.ReplicaSet.{ReplicaSet}
use qumomf.Vshard.Snapshot.{Snapshot}
use qumomf.Vshard.Cluster.{Cluster}

abbrev pub upstream_to_master : Upstream
upstream_to_master = record {
  peer = "guest@m:3301";
  status = upstream_follow;
  idle = float_of_int (pos 1);
  lag = float_of_int (pos 0);
  message = "";
}

abbrev pub cut_off : StorageInfo
cut_off = record zero_storage_info { replication = status_disconnected; status = pos 1 }

abbrev pub old_master : Instance
old_master = record zero_instance { id = 1; uuid = "m"; uri = "m:3301" }

abbrev pub follower : Instance
follower = record zero_instance {
  id = 2;
  uuid = "f";
  uri = "f:3301";
  last_check_valid = true;
  upstream = some upstream_to_master;
  storage_info = cut_off;
}

abbrev pub late_follower : Instance
late_follower = record follower { id = 3; uuid = "l"; uri = "l:3301"; lsn_behind_master = pos 7 }

abbrev pub broken_set : ReplicaSet
broken_set = record {
  uuid = "set";
  master_uuid = "m";
  master_uri = "m:3301";
  instances = old_master ∷ late_follower ∷ follower ∷ [];
}

abbrev pub only_router : Router
only_router = new_router "r:3301"

abbrev pub broken_snapshot : Snapshot
broken_snapshot = record {
  created = pos 5;
  routers = only_router ∷ [];
  replica_sets = broken_set ∷ [];
  priorities = [];
}

abbrev pub broken_cluster : Cluster
broken_cluster = record {
  name = "sandbox";
  snapshot = broken_snapshot;
  read_only = true;
  has_active_recovery = false;
}
