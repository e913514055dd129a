-- ===== src/Vshard/Tests.antt =====
-- Replies, snapshots and discoveries of the small cluster.
use qumomf.Prelude.{
  ◌==◌, eq_iff, ◌≢◌, ℕ, zero, suc, ◌≤◌, ◌<◌, count, String, ◌≡◌, refl, ◌↔◌, ◌⊎◌, Bool, true, false,
  Option, none, some, List, [], ◌∷◌, Memᴰ, Permᴰ, All, map, arith,
}
use mathlib.Core.List.Permᴰ
use qumomf.Prelude.Int.{ℤ, pos, ◌≤ℤ◌}
use qumomf.Prelude.Float.{float_of_int}
use qumomf.Prelude.Dict.{Dict}
use qumomf.Prelude.Sort.Insertion.{insertion}
use qumomf.Prelude.Result.{ok, err}
use qumomf.Vshard.Error.{master_not_found}
use qumomf.Vshard.Instance.{Instance, InstanceInfo, HealthLevel, unknown, level_of_code}
use qumomf.Vshard.ReplicaSet.{ReplicaSet, master, same_as}
use qumomf.Vshard.ReplicaSet.Same.{HasDistinctUuids, IsSameSet, same_as_iff}
use qumomf.Vshard.Snapshot.{Snapshot, cluster_health_level}
use qumomf.Vshard.Snapshot.Health.{code_of, Below, cluster_health_level-worst}
use qumomf.Vshard.Cluster.{set_priorities, Cluster, new_cluster}
use qumomf.Vshard.Fixtures.{
  follower, late_follower, old_master, broken_set, broken_snapshot, broken_cluster, cut_off,
}
use qumomf.Vshard.Parser.Value.{
  nil, int64, string, float64, container, array, done, item, Fields, no_fields, field,
}
use qumomf.Vshard.Parser.Storage.{parse_instance_info}
use qumomf.Vshard.Parser.Replication.{parse_replication}
use qumomf.Vshard.Parser.RoundTrip.{
  table, as_sent, info_value, instance_value, parse_replication-table, parse_instance_info-value,
}
use qumomf.Vshard.Parser.Bounds.{FitsWords, parse_replication-FitsWords}
use qumomf.Vshard.Connector.{Codes, Round, sent, closed, exec}
use qumomf.Vshard.Pool.{Pool, find_connector, add_connector, get, close}
use qumomf.Vshard.Pool.Lock.{get_twice_locks}
use qumomf.Vshard.Discovery.{Answers, probe, discover}
use qumomf.Vshard.Discovery.Outcome.{HasReport, probe-IsDiscovered}
use qumomf.Vshard.Discovery.Priorities.{
  IsPrioritised, Step, Reaches, new_cluster-IsPrioritised, reaches-created,
}

-- Another set, whose master is not among its instances.
abbrev lost_set : ReplicaSet
lost_set = record broken_set { uuid = "lost"; master_uuid = "gone" }

abbrev mixed_snapshot : Snapshot
mixed_snapshot = record broken_snapshot { replica_sets = broken_set ∷ lost_set ∷ [] }

cluster_health_level-worst_example :
    (w : ℤ) × (cluster_health_level mixed_snapshot ≡ level_of_code w)
    × All (Below w) mixed_snapshot.replica_sets
    × ((w ≡ pos 0)
        ⊎ ((set : ReplicaSet) × Memᴰ set mixed_snapshot.replica_sets × (code_of set ≡ w)))
cluster_health_level-worst_example = cluster_health_level-worst mixed_snapshot

has_no_master : master lost_set ≡ err (master_not_found "lost" "gone")
unfolding master qumomf.Prelude.find
has_no_master = refl

low_codes : All (Below (pos 4)) mixed_snapshot.replica_sets
unfolding qumomf.Vshard.ReplicaSet.health_status qumomf.Prelude.find
low_codes = (omega arith, (omega arith, tt))

abbrev weights : Dict ℤ
weights = ("f", pos 10) ∷ []

abbrev shuffled_set : ReplicaSet
shuffled_set = record broken_set { instances = follower ∷ old_master ∷ late_follower ∷ [] }

abbrev sorted_set : ReplicaSet
sorted_set = record broken_set { instances = follower ∷ late_follower ∷ old_master ∷ [] }

same_sets : same_as insertion broken_set shuffled_set ≡ some (true, sorted_set, sorted_set)
unfolding same_as insertion qumomf.Vshard.Instance.same_instance
same_sets = refl

apart : (a b : String) → (a == b) ≡ false → a ≢ b
apart a b e k = let k' = (eq_iff a b).1 k in cc

distinct : HasDistinctUuids shuffled_set.instances
distinct = ((apart "f" "m" refl, (apart "f" "l" refl, tt)), ((apart "m" "l" refl, tt), (tt, tt)))

same_as_iff_example :
    ((set' : ReplicaSet) × (another' : ReplicaSet) × (same_as insertion broken_set shuffled_set
        ≡ some (true, set', another')))
    ↔ IsSameSet broken_set shuffled_set
same_as_iff_example = same_as_iff insertion broken_set shuffled_set distinct

parse_replication-table_example :
    parse_replication (table (none ∷ some follower ∷ none ∷ some old_master ∷ []) ∷ [])
    ≡ ok (as_sent follower ∷ as_sent old_master ∷ [])
parse_replication-table_example =
    parse_replication-table none (some follower ∷ none ∷ some old_master ∷ []) []

abbrev info : InstanceInfo
info = record { readonly = true; vshard_fingerprint = 17; storage_info = cut_off }

parse_instance_info-value_example : parse_instance_info (item (info_value info) done ∷ []) ≡ ok info
parse_instance_info-value_example = parse_instance_info-value info done []

parse_replication-FitsWords_example : All FitsWords (as_sent follower ∷ [])
parse_replication-FitsWords_example =
    parse_replication-FitsWords nil (item (instance_value follower) done) []
      (
        tt,
        (
          (
            omega arith,
            (
              tt,
              (
                (omega arith, omega arith),
                ((omega arith, omega arith), ((tt, (tt, (tt, (tt, (tt, tt))))), tt)),
              ),
            ),
          ),
          tt,
        ),
      )
      (parse_replication-table none (some follower ∷ []) [])

-- A node for each reply of a discovery; the storages cannot be asked.
abbrev router_reply : Fields
router_reply = field "alerts" (array done) (
    field "status" (int64 (pos 0))
      (field "bucket" (container bucket) (field "replicasets" (container sets) no_fields)))
  where
    bucket : Fields
    bucket = field "available_ro" (int64 (pos 0)) (
        field "available_rw" (int64 (pos 3000))
          (field "unknown" (int64 (pos 0)) (field "unreachable" (int64 (pos 0)) no_fields)))

    named : Fields
    named = field "uuid" (string "f") (
        field "uri" (string "guest@f:3301") (
          field "status" (string "available")
            (field "network_timeout" (float64 (float_of_int (pos 1))) no_fields)))

    sets : Fields
    sets = field "set" (container (field "master" (container named) no_fields)) no_fields

abbrev answers : Answers
answers = record {
  intn = λ n. 0;
  router_info = λ uri. ok (item (container router_reply) done ∷ []);
  box_info = λ uuid uri. ok (table (none ∷ some follower ∷ some late_follower ∷ []) ∷ []);
  instance_info = λ uuid uri. ok (item (info_value info) done ∷ []);
  seen = pos 8;
  created = pos 9;
}

abbrev as_they_come : List ReplicaSet → List ReplicaSet
as_they_come sets = sets

abbrev snapshot_or : Option Snapshot → Snapshot
snapshot_or none = broken_snapshot
snapshot_or (some s) = s

abbrev seen_now : Snapshot
seen_now = snapshot_or (probe answers as_they_come broken_cluster)

is_seen : probe answers as_they_come broken_cluster ≡ some seen_now
unfolding probe qumomf.Vshard.Parser.Router.parse_router_info
is_seen = refl

probe-IsDiscovered_example : HasReport answers as_they_come broken_cluster seen_now
probe-IsDiscovered_example =
    probe-IsDiscovered answers as_they_come broken_cluster seen_now (λ sets. Permᴰ.refl sets)
      is_seen

abbrev made : Cluster
made = new_cluster "sandbox" true weights ("r:3301" ∷ []) (pos 5)

-- A discovery, then a new table of priorities that is overtaken by a second discovery.
abbrev later : Cluster
later = set_priorities [] (discover answers as_they_come made made)

abbrev history : Reaches made (discover answers as_they_come made later)
history =
    Reaches.there
      (Reaches.there
        (Reaches.there (Reaches.here made) (Step.discovered answers as_they_come made made))
        (Step.prioritised [] (discover answers as_they_come made made)))
      (Step.discovered answers as_they_come made later)

new_cluster-IsPrioritised_example :
    IsPrioritised [] (discover answers as_they_come made later).snapshot
new_cluster-IsPrioritised_example =
    new_cluster-IsPrioritised "sandbox" true weights ("r:3301" ∷ []) (pos 5) history

reaches-created_example :
    made.snapshot.created ≤ℤ (discover answers as_they_come made later).snapshot.created
reaches-created_example = reaches-created history

abbrev number_of : String → ℕ
number_of uri = 7

abbrev empty_pool : Pool ℕ
empty_pool = record { rules = ("m:3301", "127.0.0.1:3301") ∷ []; connectors = []; locked = false }

is_missed : find_connector number_of empty_pool "guest@m:3301" ≡ some none
unfolding find_connector qumomf.Prelude.Dict.lookup
is_missed = refl

get_twice_locks_example :
    (conn : ℕ) × (p1 : Pool ℕ) × (p2 : Pool ℕ) × (add_connector number_of empty_pool "guest@m:3301"
      ≡ some (conn, p1))
    × (add_connector number_of p1 "guest@m:3301" ≡ some (conn, p2))
    × ((later : String) → get number_of p2 later ≡ none)
    × (close p2 ≡ none)
get_twice_locks_example = get_twice_locks number_of empty_pool "guest@m:3301" is_missed

abbrev codes : Codes
codes = record { no_connection = 77; timeout = 78 }

-- The first round loses the connection, and the second one answers.
abbrev rounds : ℕ → Round ℕ
rounds zero = record {
  connect_error = none;
  done = false;
  answer = record { error = some "lost"; error_code = 77; values = [] };
}
rounds (suc i) = record {
  connect_error = none;
  done = false;
  answer = record { error = none; error_code = 0; values = i ∷ [] };
}

exec_twice : (exec codes rounds).1 ≡ sent ∷ closed ∷ sent ∷ []
unfolding exec
exec_twice = refl
