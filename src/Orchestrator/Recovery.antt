-- ===== src/Orchestrator/Recovery.antt =====
-- internal/vshard/orchestrator/recovery.go: a recovery that was applied, and how long it blocks the
-- next one. Clock readings and block times are numbers of nanoseconds that are not negative, time
-- stamps are seconds.
pub mod Text
use qumomf.Prelude.{ℕ, ◌+◌, ◌/◌, ◌^◌, String, Bool, false, ltb}
use qumomf.Vshard.Instance.{InstanceIdent, ReplicaSetUuid}
use qumomf.Orchestrator.Analysis.{ReplicationAnalysis, state_name}

-- The values of `RecoveryScope` that the program makes.
pub data RecoveryScope : Type 0 where
  scope_instance scope_set : RecoveryScope

pub record Recovery : Type 0 where
  pub type : String
  pub scope : RecoveryScope
  pub analysis_entry : ReplicationAnalysis
  pub cluster_name : String
  pub set_uuid : ReplicaSetUuid
  pub failed : InstanceIdent
  pub successor : InstanceIdent
  pub is_successful : Bool
  pub start_timestamp : ℕ
  pub end_timestamp : ℕ
  pub expiration : ℕ

abbrev pub seconds : ℕ → ℕ
seconds ns = ns / 10 ^ 9

abbrev pub zero_ident : InstanceIdent
zero_ident = record { uuid = ""; uri = "" }

-- `NewRecovery`, at a reading of the clock.
unfoldable pub new_recovery : RecoveryScope → InstanceIdent → ReplicationAnalysis → ℕ → Recovery
new_recovery scope failed analysis now = record {
  type = state_name analysis.state;
  scope = scope;
  analysis_entry = analysis;
  cluster_name = "";
  set_uuid = analysis.set.uuid;
  failed = failed;
  successor = zero_ident;
  is_successful = false;
  start_timestamp = seconds now;
  end_timestamp = 0;
  expiration = 0;
}

unfoldable pub expire_after : ℕ → ℕ → Recovery → Recovery
expire_after ttl now r = record r { expiration = seconds (now + ttl) }

abbrev key_of : RecoveryScope → Recovery → String
key_of scope_instance r = r.failed.uuid
key_of scope_set r = r.set_uuid

unfoldable pub scope_key : Recovery → String
scope_key r = key_of r.scope r

unfoldable pub expired : ℕ → Recovery → Bool
expired now r = ltb r.expiration (seconds now)
