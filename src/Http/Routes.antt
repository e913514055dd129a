-- ===== src/Http/Routes.antt =====
-- internal/qumhttp/routing.go: the paths of the interface. The router tells a handler the value of
-- each variable of its path, which is not empty.
use qumomf.Prelude.{
  String, ◌==◌, eq_iff, ◌≡◌, refl, ap, arith, ◌≢◌, false, some, List, [], ◌∷◌, ◌++◌, Bool-cases,
  inl, inr, Memᴰ, All-of_mem,
}
use qumomf.Prelude.Dict.{Dict, lookup}
use qumomf.Prelude.Result.{Result, ok, err}
use qumomf.Api.{
  Storage, Error, storage, cluster_not_found, replica_set_not_found, instance_not_found,
}
use qumomf.Storage.Rows.{both}
use qumomf.Http.{
  Marshal, Response, new_ok_response, new_bad_request_response, new_internal_err_response,
  is_not_found_type_err, parse_not_found_type_err, parse_params, value_or, marshalled, reply,
  reply_found, invalid_params, cluster_list, cluster_snapshot, shard_snapshot, instance_snapshot,
  shard_recoveries, alerts, cluster_alerts,
}
use qumomf.Http.Replies.{
  Handler, to_cluster_list, to_cluster_snapshot, to_shard_snapshot, to_instance_snapshot,
  to_shard_recoveries, to_alerts, to_cluster_alerts, handle,
}

-- A part of a path between slashes: a text, or a variable in braces.
pub data Segment : Type 0 where
  literal variable : String → Segment

pub data Endpoint : Type 0 where
  metrics health about : Endpoint
  api : Handler → Endpoint

-- All routes are for GET.
pub record Route : Type 0 where
  pub path : List Segment
  pub endpoint : Endpoint

abbrev route_to : List Segment → Endpoint → Route
route_to path endpoint = record { path = path; endpoint = endpoint }

-- `RegisterDebugHandlers`
unfoldable pub register_debug_handlers : List Route → List Route
register_debug_handlers r =
    r
    ++ route_to (literal "debug" ∷ literal "metrics" ∷ []) metrics
      ∷ route_to (literal "debug" ∷ literal "health" ∷ []) health
      ∷ route_to (literal "debug" ∷ literal "about" ∷ []) about
      ∷ []

abbrev under : String → List Segment → List Segment
under name rest = literal "api" ∷ literal "v0" ∷ literal name ∷ rest

-- `RegisterAPIHandlers`
unfoldable pub register_api_handlers : List Route → List Route
register_api_handlers r =
    let cluster = variable "cluster_name" in
    let shard = variable "shard_uuid" in
    r
    ++ route_to (under "snapshots" []) (api to_cluster_list)
      ∷ route_to (under "snapshots" (cluster ∷ [])) (api to_cluster_snapshot)
      ∷ route_to (under "snapshots" (cluster ∷ shard ∷ [])) (api to_shard_snapshot)
      ∷ route_to (under "snapshots" (cluster ∷ shard ∷ variable "instance_uuid" ∷ []))
          (api to_instance_snapshot)
      ∷ route_to (under "recoveries" (cluster ∷ shard ∷ [])) (api to_shard_recoveries)
      ∷ route_to (under "alerts" []) (api to_alerts)
      ∷ route_to (under "alerts" (cluster ∷ [])) (api to_cluster_alerts)
      ∷ []

-- The routes of `initHTTPServer`.
unfoldable pub routes : List Route
unfolding register_debug_handlers register_api_handlers
routes = register_api_handlers (register_debug_handlers [])

-- The router gives each variable of the path a value that is not empty.
abbrev pub Binds : Dict String → List Segment → Type 0
Binds vars [] = Unit
Binds vars (literal s ∷ path) = Binds vars path
Binds vars (variable v ∷ path) =
    ((value : String) × (lookup v vars ≡ some value) × (value ≢ "")) × Binds vars path

-- What it means for a route of the interface that its handler has what it needs.
abbrev pub Serves : Marshal → Storage → Dict String → Endpoint → Type 0
Serves marshal db vars metrics = Unit
Serves marshal db vars health = Unit
Serves marshal db vars about = Unit
Serves marshal db vars (api h) = handle marshal db h vars ≢ invalid_params

other_status : (r : Response) → r.status_code ≢ 400 → r ≢ invalid_params
unfolding new_bad_request_response
other_status r d e = d (ap (λ (x : Response). x.status_code) e)

other_body :
    (msg : String)
    → (msg == "one or more parameters are invalid") ≡ false
    → new_bad_request_response msg ≢ invalid_params
unfolding new_bad_request_response
other_body msg d e =
    both ((eq_iff msg "one or more parameters are invalid").1 (ap (λ (x : Response). x.body) e)) d

marshalled-valid : (r : Result String String) → marshalled r ≢ invalid_params
unfolding new_ok_response new_internal_err_response
marshalled-valid (ok body) = other_status (new_ok_response body) (λ e. omega arith)
marshalled-valid (err m) = other_status (marshalled (err m)) (λ e. omega arith)

reply-valid :
    {A : Type 0} (msg : String) (marshal : A → Result String String) (r : Result Error A)
    → reply msg marshal r ≢ invalid_params
unfolding new_internal_err_response
reply-valid msg marshal (ok a) = marshalled-valid (marshal a)
reply-valid msg marshal (err x) = other_status (reply msg marshal (err x)) (λ e. omega arith)

reply_found-valid :
    {A : Type 0} (msg : String) (marshal : A → Result String String) (r : Result Error A)
    → reply_found msg marshal r ≢ invalid_params
unfolding is_not_found_type_err parse_not_found_type_err new_bad_request_response
    new_internal_err_response
reply_found-valid msg marshal (ok a) = marshalled-valid (marshal a)
reply_found-valid msg marshal (err (storage x)) =
    other_status (reply_found msg marshal (err (storage x))) (λ e. omega arith)
reply_found-valid msg marshal (err cluster_not_found) = other_body _ refl
reply_found-valid msg marshal (err replica_set_not_found) = other_body _ refl
reply_found-valid msg marshal (err instance_not_found) = other_body _ refl

unset :
    (key : String) (vars : Dict String)
    → ((value : String) × (lookup key vars ≡ some value) × (value ≢ ""))
    → (value_or (lookup key vars) == "") ≡ false
unset key vars (value, e, d) = elim (Bool-cases (value == "")) [
  | inl t ↦ elim (d ((eq_iff value "").0 t)) [ ]
  | inr f ↦ rw e f
]

-- Each route of the interface names the variables that its handler reads, so a handler that the router
-- calls never finds its parameters invalid.
pub routes-Serves :
    (marshal : Marshal) (db : Storage) (vars : Dict String) (r : Route)
    → Memᴰ r routes
    → Binds vars r.path
    → Serves marshal db vars r.endpoint
unfolding routes register_debug_handlers register_api_handlers handle cluster_list cluster_snapshot
    shard_snapshot instance_snapshot shard_recoveries alerts cluster_alerts parse_params
routes-Serves marshal db vars r m =
    All-of_mem (λ (r : Route). Binds vars r.path → Serves marshal db vars r.endpoint) routes
      (
        (λ b. tt),
        (
          (λ b. tt),
          (
            (λ b. tt),
            (
              (λ b. reply-valid _ _ _),
              (
                (λ b. rw (unset "cluster_name" vars b.0) (reply_found-valid _ _ _)),
                (
                  (λ b.
                      rw (unset "cluster_name" vars b.0, unset "shard_uuid" vars b.1.0)
                        (reply_found-valid _ _ _)),
                  (
                    (λ b.
                        rw
                          (
                            unset "cluster_name" vars b.0,
                            unset "shard_uuid" vars b.1.0,
                            unset "instance_uuid" vars b.1.1.0,
                          )
                          (reply_found-valid _ _ _)),
                    (
                      (λ b.
                          rw (unset "cluster_name" vars b.0, unset "shard_uuid" vars b.1.0)
                            (reply-valid _ _ _)),
                      (
                        (λ b. reply-valid _ _ _),
                        ((λ b. rw (unset "cluster_name" vars b.0) (reply_found-valid _ _ _)), tt),
                      ),
                    ),
                  ),
                ),
              ),
            ),
          ),
        ),
      )
      m
