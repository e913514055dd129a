-- ===== src/Orchestrator/Fixtures.antt =====
-- The data of the tests: an environment, a failover, and what it finds of the small cluster.
use qumomf.Prelude.{◌+◌, ◌*◌, ◌^◌, true, false, Option, none, some, List, [], ◌∷◌, String}
use qumomf.Prelude.Int.{pos}
use qumomf.Prelude.Float.{float_of_int}
use qumomf.Vshard.Fixtures.{old_master, broken_set, broken_snapshot}
use qumomf.Quorum.Candidates.{Options}
use qumomf.Quorum.Elector.{smart_elector}
use qumomf.Orchestrator.Analysis.{ReplicationAnalysis, analysis_of}
use qumomf.Orchestrator.Recovery.{Recovery, scope_set, zero_ident}
use qumomf.Orchestrator.World.{Env, World}
use qumomf.Orchestrator.Hooker.{Hooker, pre_failover, HookType}
use qumomf.Orchestrator.Failover.State.{Failover, new_failover}

abbrev pub opts : Options
opts = record {
  reasonable_follower_lsn_lag = pos 500;
  reasonable_follower_idle = float_of_int (pos 60);
}

-- The clock shows one second more at each reading.
abbrev pub env : Env
env = record {
  now = λ n. (1000 + n) * 10 ^ 9;
  process_fails = λ n. false;
  query_fails = λ n. false;
  snapshot = λ n. broken_snapshot;
  environ = "HOME=/root" ∷ [];
}

abbrev pub start : World
start = record { step = 0; trace = [] }

abbrev pub hooks : HookType → List String
hooks pre_failover = "echo {failureType}" ∷ "& echo {failedUUID}" ∷ []
hooks _ = []

abbrev pub failover : Failover
failover =
    new_failover "sandbox" (smart_elector opts) (record { processes = hooks }) (60 * 10 ^ 9)
      (60 * 10 ^ 9)

abbrev pub found : ReplicationAnalysis
found = analysis_of broken_set old_master

abbrev pub result_of : Option (List Recovery × World) → List Recovery × World
result_of none = ([], start)
result_of (some r) = r

abbrev pub registered : Recovery
registered = record {
  type = "DeadMaster";
  scope = scope_set;
  analysis_entry = found;
  cluster_name = "sandbox";
  set_uuid = "set";
  failed = zero_ident;
  successor = zero_ident;
  is_successful = true;
  start_timestamp = 900;
  end_timestamp = 910;
  expiration = 2000;
}

abbrev pub blocked : Failover
blocked = record failover { recoveries = registered ∷ [] }

abbrev pub hooker : Hooker
hooker = record { processes = hooks }
