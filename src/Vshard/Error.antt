-- ===== src/Vshard/Error.antt =====
-- The errors that internal/vshard returns. The text of a formatted message is not kept, but the
-- field or the identifiers that it names are.
use qumomf.Prelude.{String}

pub data Error : Type 0 where
  -- parser.go
  empty_response no_router_info no_instance_info no_replication_info : Error
  bad_cast : Error
  bad_field : String → Error
  bad_alerts : Error
  bad_alert_text : Error
  -- replicaset.go: the set and the master that it lacks
  master_not_found : String → String → Error
  -- cluster.go
  master_not_available replica_set_not_found instance_not_found : Error
  -- a query that failed, by its error code
  exec_failed : String → Error
