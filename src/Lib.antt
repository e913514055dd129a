-- ===== src/Lib.antt =====
-- Qumomf discovers the topology of Tarantool vshard clusters, analyzes each replica set, and fails
-- over to a follower when a master is lost. This library models its core and proves what it does.
--
-- The parts, and how they meet:
--
--   * Prelude: what the modules share. Lists, dictionaries and results; Int (Go's int64 and its
--     conversion from uint64), Float (float64 as NaN, infinities or a multiple of 2^-1074, with Go's
--     comparisons and a rounded difference), Text (strings.Replace, IndexByte, Trim and strconv.Itoa),
--     and Sort, an interface with the documented laws of Go's sort package, which the elections and the
--     failover take as a parameter and which Sort.Insertion fills, and Sort.Texts, an order of texts.
--   * Vshard: internal/vshard. Instance (instance.go, alert.go), Router (router.go), ReplicaSet
--     (replicaset.go), Snapshot (snapshot.go), Cluster (the state in cluster.go), Tarantool, Pool and
--     Connector (the cutting of URIs, the connection pool and the retries of tarantool.go), Fingerprint
--     (the Lua script in cluster.go that digests a shard's configuration), Text (the
--     String methods), Parser (parser.go: Value has the
--     container look-ups, and Router, Storage and Replication have the three replies), and Discovery
--     (Discover of cluster.go, and in Discovery.Report what it tells).
--   * Quorum: internal/quorum. Candidates and Elector (elector.go), Idle (idle.go), Smart (smart.go).
--   * Orchestrator: internal/vshard/orchestrator. Analysis (analysis.go and analyze of monitor.go),
--     Monitor (checkCluster and the loop of monitor.go), Sampler (sampler.go), Query (the recovery
--     script of failover.go), Recovery
--     (recovery.go), Hooker (hook.go), Failover (failover.go and instance_utils.go), and World, the
--     state passing in which a recovery runs.
--   * Api: internal/api (api.go, data.go), over a storage that is a parameter.
--   * Config: internal/config (config.go, validator.go), with what a cluster's registration relies on;
--     Config.Setup has the defaults and the reading of the file.
--   * Storage: internal/storage (sqlite/sqlite.go), two tables and the statements on them, and in
--     Storage.Refinement the two maps that they implement. Storage.Service is the interface of
--     storage.go that Api reads.
--   * Http: internal/qumhttp. The handlers and responses (api.go, data.go, http.go), Http.Routes
--     (routing.go), Http.Stored, which puts Http, Api and Storage together, and Http.Recovered, which
--     puts a failover before them.
--   * Coordinator: internal/coordinator (coordinator.go); Coordinator.Startup, the loop of
--     cmd/qumomf/main.go over the clusters; and Coordinator.Stored, what the storage shows of a cluster
--     whose discoveries are saved.
--   * Metrics: internal/metrics (metrics.go), the gauges, counters and durations.
--   * Program: cmd/qumomf/main.go, the start of the program, its logger and its end.
--
-- A discovery asks the nodes and installs a snapshot; an analysis of each of its replica sets reaches
-- the failover's loop (Failover.Serve), which runs a recovery (Failover.Promote, Failover.CoMasters)
-- with an election in the middle, registers it, and runs the hooks. The coordinator makes these parts
-- for each cluster of the configuration, and stores snapshots and recoveries, which the HTTP interface
-- shows through the service.
--
-- Correspondence. A Go method is the function of the same name in snake case; a helper beside it is a
-- loop or a branch of it. A nil pointer is none, a pair of a value and an error is a Result, and a
-- panic is none in the Option of World.M and of the elections. Numbers that only count are natural
-- numbers, int and int64 fields are integers, and uint64 fields are natural numbers. The named string
-- types of the source are texts.
--
-- The outside. World.Env says what each step of a recovery meets: the clock, whether a process or a
-- query fails, and the snapshot, which a discovery may replace at any step. The trace of World keeps
-- all processes and queries in order. Discovery.Answers says what each node replies; the order in
-- which goroutines deliver replica sets is a parameter, and the snapshot at the end of a discovery
-- need not be the one at its start. An operation under a mutex is one step. A query of World always
-- returns, and does not wait for the lock of the connection pool, which Pool.Lock shows can be left held.
--
-- Bounds. Every loop recurs on a list, so no fuel is needed there. Text.itoa recurs on the number and
-- one more, which is at least the number of its digits, and Float's rounding looks at 2100 bits, more
-- than a float64 has in units of 2^-1074. Clock readings and block times are not negative. The
-- counters of an analysis are at most the number of followers, so they cannot overflow.
--
-- The libraries. encoding/json and the YAML reader are parameters with the law that what is written is
-- read back, up to fields that are not exported; SQLite is a parameter in the order of the rows that a
-- query does not sort and in the statements that it refuses; the Tarantool client answers each round of
-- Connector.exec; gorilla/mux gives a handler the variables of its path; the digests of the sampler and of
-- the script and the conversion of durations to seconds are functions.
--
-- Not modelled: the text of log lines, the client library, timeouts, the buckets of histograms, the loop
-- of the HTTP server, and the texts of error messages. The goroutine of the server and main share one
-- variable for their errors, which the model keeps apart. That a goroutine panics is an event of
-- Program.finish; where it comes from is shown for the failover alone, and a ticker with a time that is
-- not positive, which panics too, is not modelled.
pub mod Prelude
pub mod Vshard
pub mod Quorum
pub mod Orchestrator
pub mod Api
pub mod Config
pub mod Storage
pub mod Http
pub mod Coordinator
pub mod Metrics
pub mod Program
