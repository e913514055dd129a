-- ===== src/Orchestrator/Query.antt =====
-- internal/vshard/orchestrator/failover.go: the Lua script that moves the master of a replica set.
use qumomf.Prelude.{String, [], ◌∷◌}
use qumomf.Prelude.Text.{concat, replace_all}
use qumomf.Vshard.Instance.{InstanceUuid, ReplicaSetUuid}

-- `recoveryLua`, by its lines
recovery_lua : String
unfolding concat
recovery_lua = concat (
    "\n" ∷ "\t\tlog = require('log')\n" ∷ "\n" ∷ "\t\tlog.warn(\"qumomf: start recovery\")\n" ∷ "\n"
    ∷ "\t\tlocal cfg = {}\n"
    ∷ "\t\tlocal is_storage = vshard.router.internal.static_router == nil \n"
    ∷ "\t\tif is_storage then\n"
    ∷ "\t\t\tcfg = table.deepcopy(vshard.storage.internal.current_cfg)\n" ∷ "\t\telse\n"
    ∷ "\t\t\tcfg = table.deepcopy(vshard.router.internal.static_router.current_cfg)\n" ∷ "\t\tend\n"
    ∷ "\n" ∷ "\t\tfor replica_uuid in pairs(cfg.sharding[\"{set_uuid}\"].replicas) do\n"
    ∷ "\t\t\tis_master = replica_uuid == \"{new_master_uuid}\"\n"
    ∷ "\t\t\tcfg.sharding[\"{set_uuid}\"].replicas[replica_uuid].master = is_master \n"
    ∷ "\t\tend\n" ∷ "\n" ∷ "\t\tif is_storage then\n"
    ∷ "\t\t\tlog.warn(\"qumomf: apply new vshard configuration to storage\")\n"
    ∷ "\t\t\tlocal this_uuid = box.info.uuid\n" ∷ "\t\t\tvshard.storage.cfg(cfg, this_uuid)\n"
    ∷ "\n" ∷ "\t\t\tif box.info.cluster.uuid == \"{set_uuid}\" then \n" ∷ "\t\t\t\tbox.cfg({\n"
    ∷ "\t\t\t\t\tread_only = this_uuid ~= \"{new_master_uuid}\",\n" ∷ "\t\t\t\t})\n" ∷ "\t\t\tend\n"
    ∷ "\t\telse\n" ∷ "\t\t\tlog.warn(\"qumomf: apply new vshard configuration to router\")\n"
    ∷ "\t\t\tvshard.router.cfg(cfg)\n" ∷ "\t\tend\n" ∷ "\t\tlog.warn(\"qumomf: end recovery\")\n"
    ∷ "\t" ∷ [])

unfoldable pub generate_recovery_lua : ReplicaSetUuid → InstanceUuid → String
unfolding recovery_lua replace_all
generate_recovery_lua set candidate =
    replace_all (replace_all recovery_lua "{set_uuid}" set) "{new_master_uuid}" candidate

-- `buildRecoveryQuery`: the query evaluates the script.
pub record Query : Type 0 where
  pub expression : String

unfoldable pub build_recovery_query : ReplicaSetUuid → InstanceUuid → Query
build_recovery_query set candidate = record { expression = generate_recovery_lua set candidate }
