-- ===== src/Http.antt =====
-- internal/qumhttp: the handlers of the HTTP interface, their responses and their routes. The router
-- of gorilla/mux gives a handler the variables of its path; the texts that encoding/json makes are a
-- parameter, and so is what the connection answers when a response is written.
pub mod Replies
pub mod Routes
pub mod Stored
pub mod Recovered
mod Tests
use qumomf.Prelude.{
  ℕ, String, ◌==◌, Bool, true, false, ◌||◌, Option, none, some, List, [], ◌∷◌, ◌++◌, if◌then◌else◌,
}
use qumomf.Prelude.Dict.{Dict, lookup}
use qumomf.Prelude.Result.{Result, ok, err}
use qumomf.Vshard.Instance.{InstanceUuid, ReplicaSetUuid, Instance}
use qumomf.Vshard.ReplicaSet.{ReplicaSet}
use qumomf.Vshard.Snapshot.{Snapshot}
use qumomf.Orchestrator.Recovery.{Recovery}
use qumomf.Api.{
  Storage, Error, cluster_not_found, replica_set_not_found, instance_not_found, storage,
  ClusterInfo, AlertsResponse,
}
use qumomf.Api

abbrev pub status_ok : ℕ
status_ok = 200

abbrev pub status_bad_request : ℕ
status_bad_request = 400

abbrev pub status_internal_error : ℕ
status_internal_error = 500

abbrev pub msg_invalid_params : String
msg_invalid_params = "one or more parameters are invalid"

abbrev pub msg_marshalling_error : String
msg_marshalling_error = "failed to marshal data"

-- An error that a response carries: one of the service, or one of encoding/json.
pub data Cause : Type 0 where
  of_service : Error → Cause
  of_json : String → Cause

pub record Response : Type 0 where
  pub status_code : ℕ
  pub body : String
  pub cause : Option Cause

unfoldable pub new_ok_response : String → Response
new_ok_response body = record { status_code = status_ok; body = body; cause = none }

unfoldable pub new_bad_request_response : String → Response
new_bad_request_response msg = record { status_code = status_bad_request; body = msg; cause = none }

unfoldable pub new_internal_err_response : String → Cause → Response
new_internal_err_response msg cause = record {
  status_code = status_internal_error;
  body = msg;
  cause = some cause;
}

pub record Params : Type 0 where
  pub cluster_name : String
  pub shard_uuid : ReplicaSetUuid
  pub instance_uuid : InstanceUuid

abbrev pub value_or : Option String → String
value_or none = ""
value_or (some v) = v

-- A variable that is missing reads as the empty text.
unfoldable pub parse_params : Dict String → Params
parse_params vars = record {
  cluster_name = value_or (lookup "cluster_name" vars);
  shard_uuid = value_or (lookup "shard_uuid" vars);
  instance_uuid = value_or (lookup "instance_uuid" vars);
}

unfoldable pub is_not_found_type_err : Error → Bool
is_not_found_type_err cluster_not_found = true
is_not_found_type_err replica_set_not_found = true
is_not_found_type_err instance_not_found = true
is_not_found_type_err (storage e) = false

unfoldable pub parse_not_found_type_err : Error → String
parse_not_found_type_err cluster_not_found = "cluster snapshot not found"
parse_not_found_type_err replica_set_not_found = "shard snapshot not found"
parse_not_found_type_err instance_not_found = "instance snapshot not found"
parse_not_found_type_err (storage e) = "cluster not found"

-- `json.Marshal` for each type that a handler sends.
pub record Marshal : Type 0 where
  pub clusters : List ClusterInfo → Result String String
  pub snapshot : Snapshot → Result String String
  pub replica_set : ReplicaSet → Result String String
  pub instance : Instance → Result String String
  pub recoveries : List Recovery → Result String String
  pub alerts : AlertsResponse → Result String String

-- The end of every handler.
abbrev pub marshalled : Result String String → Response
unfolding new_ok_response new_internal_err_response
marshalled (ok body) = new_ok_response body
marshalled (err m) = new_internal_err_response msg_marshalling_error (of_json m)

-- The rest of a handler that reports every error of the service as internal.
abbrev pub reply : {A : Type 0} → String → (A → Result String String) → Result Error A → Response
unfolding new_internal_err_response
reply msg marshal (ok a) = marshalled (marshal a)
reply msg marshal (err e) = new_internal_err_response msg (of_service e)

-- The rest of a handler that looks whether something was not found.
abbrev pub reply_found :
    {A : Type 0} → String → (A → Result String String) → Result Error A → Response
unfolding is_not_found_type_err parse_not_found_type_err new_bad_request_response
    new_internal_err_response
reply_found msg marshal (ok a) = marshalled (marshal a)
reply_found msg marshal (err e) =
    if is_not_found_type_err e
    then new_bad_request_response (parse_not_found_type_err e)
    else new_internal_err_response msg (of_service e)

abbrev pub invalid_params : Response
unfolding new_bad_request_response
invalid_params = new_bad_request_response msg_invalid_params

module _ (marshal : Marshal) (db : Storage) where
  unfoldable pub cluster_list : Response
  cluster_list = reply "failed to get cluster list" marshal.clusters (Api.clusters_list db)

  unfoldable pub cluster_snapshot : Params → Response
  cluster_snapshot p =
      if p.cluster_name == ""
      then invalid_params
      else reply_found "failed get cluster snapshot" marshal.snapshot
          (Api.cluster_snapshot db p.cluster_name)

  unfoldable pub shard_snapshot : Params → Response
  shard_snapshot p =
      if p.cluster_name == "" || p.shard_uuid == ""
      then invalid_params
      else reply_found "failed get shard snapshot" marshal.replica_set
          (Api.replica_set db p.cluster_name p.shard_uuid)

  unfoldable pub instance_snapshot : Params → Response
  instance_snapshot p =
      if p.cluster_name == "" || (p.shard_uuid == "" || p.instance_uuid == "")
      then invalid_params
      else reply_found "failed get instance snapshot" marshal.instance
          (Api.instance db p.cluster_name p.shard_uuid p.instance_uuid)

  unfoldable pub shard_recoveries : Params → Response
  shard_recoveries p =
      if p.cluster_name == "" || p.shard_uuid == ""
      then invalid_params
      else reply "failed get shard recovery" marshal.recoveries
          (Api.recoveries db p.cluster_name p.shard_uuid)

  unfoldable pub alerts : Response
  alerts = reply "failed get alerts list" marshal.alerts (Api.alerts db)

  unfoldable pub cluster_alerts : Params → Response
  cluster_alerts p =
      if p.cluster_name == ""
      then invalid_params
      else reply_found "failed get cluster alerts" marshal.alerts
          (Api.cluster_alerts db p.cluster_name)

-- What a client gets, and the messages of the log.
pub record Written : Type 0 where
  pub headers : List (String × String)
  pub status_code : ℕ
  pub body : String
  pub logged : List String

abbrev pub content_type : String × String
content_type = ("Content-Type", "application/json; charset=utf-8")

abbrev pub logged_if : {A : Type 0} → Option A → String → List String
logged_if none msg = []
logged_if (some a) msg = msg ∷ []

-- With the error of the connection, if it has one.
unfoldable pub write_response : Option String → Response → Written
write_response broken resp = record {
  headers = content_type ∷ [];
  status_code = resp.status_code;
  body = resp.body;
  logged = logged_if resp.cause resp.body ++ logged_if broken "failed to write response";
}

unfoldable pub health_handler : Written
health_handler = record {
  headers = content_type ∷ [];
  status_code = status_ok;
  body = "";
  logged = [];
}

-- The error of the marshalling is ignored, and its text is then empty.
abbrev pub text_or_empty : Result String String → String
text_or_empty (ok s) = s
text_or_empty (err m) = ""

unfoldable pub about_handler :
    (String → String → String → Result String String) → String → String → String → Written
about_handler marshal_about version commit build_date = record {
  headers = content_type ∷ [];
  status_code = status_ok;
  body = text_or_empty (marshal_about version commit build_date);
  logged = [];
}
