-- ===== src/Vshard/Router.antt =====
-- internal/vshard/router.go: a router, and what it reports of the cluster.
use qumomf.Prelude.{String, List, []}
use qumomf.Prelude.Int.{ℤ, pos, negsuc}
use qumomf.Prelude.Float.{Float64}
use qumomf.Prelude.Dict.{Dict}
use qumomf.Vshard.Instance.{InstanceUuid, Alert}

pub record RouterInstanceParameters : Type 0 where
  pub uuid : InstanceUuid
  pub status : String
  pub uri : String
  pub network_timeout : Float64

pub record RouterBucket : Type 0 where
  pub available_ro : ℤ
  pub available_rw : ℤ
  pub unknown : ℤ
  pub unreachable : ℤ

-- The keys of `replica_sets` are UUIDs of replica sets.
pub record RouterInfo : Type 0 where
  pub last_seen : ℤ
  pub replica_sets : Dict RouterInstanceParameters
  pub bucket : RouterBucket
  pub status : ℤ
  pub alerts : List Alert

pub record Router : Type 0 where
  pub uri : String
  pub info : RouterInfo

-- A router that was never polled has the status -1.
unfoldable pub new_router : String → Router
new_router uri = record {
  uri = uri;
  info = record {
    last_seen = pos 0;
    replica_sets = [];
    bucket = record {
      available_ro = pos 0;
      available_rw = pos 0;
      unknown = pos 0;
      unreachable = pos 0;
    };
    status = negsuc 0;
    alerts = [];
  };
}
