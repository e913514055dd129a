-- ===== src/Program.antt =====
-- cmd/qumomf/main.go: the start of the program, its logger, and its end. The operating system, the
-- logging library and the loop of the HTTP server are parameters.
pub mod Start
mod Tests
use qumomf.Prelude.{
  ℕ, ◌*◌, ◌^◌, String, Bool, true, false, not, Option, none, some, List, [], ◌∷◌, ◌++◌,
  if◌then◌else◌,
}
use qumomf.Prelude.Int.{ℤ}
use qumomf.Prelude.Float.{Float64}
use qumomf.Prelude.Result.{Result, ok, err}
use qumomf.Config.Setup.{Logging, Settings, StorageOptions, setup}
use qumomf.Http.Routes.{Route, routes}
use qumomf.Storage.{Tables, new_storage}
use qumomf.Coordinator.{Coordinator, ShutdownTask, new_coordinator, shutdown}
use qumomf.Coordinator.Startup.{register_clusters}

pub record RollingFile : Type 0 where
  pub filename : String
  pub max_backups : ℕ
  pub max_size : ℕ
  pub max_age : ℕ

pub data Writer : Type 0 where
  stdout sys_log : Writer
  rolling_file : RollingFile → Writer

-- A level of its own, beside the global one.
pub record Logger (Level : Type 0) : Type 0 where
  pub writers : List Writer
  pub level : Option Level
  pub timestamps : Bool

-- What the start asks of the system: can the directory of a file be written, is there a system log, and
-- what is the level of that name.
pub record System (Level : Type 0) : Type 0 where
  pub dir : String → String
  pub is_writable : String → Bool
  pub has_sys_log : Bool
  pub parse_level : String → Option Level
  pub debug : Level

module _ {Level : Type 0} (system : System Level) where
  unfoldable pub new_rolling_log_file : Logging → Result String RollingFile
  new_rolling_log_file cfg =
      if not (system.is_writable (system.dir cfg.filename))
      then err "no permissions to write logs to dir"
      else ok record {
        filename = cfg.filename;
        max_backups = cfg.max_backups;
        max_size = cfg.max_size;
        max_age = cfg.max_age;
      }

  abbrev pub sys_log_writer : Logging → List Writer
  sys_log_writer cfg =
      if cfg.sys_log_enabled then (if system.has_sys_log then sys_log ∷ [] else []) else []

  abbrev pub opened_file : Result String RollingFile → List Writer
  opened_file (ok file) = rolling_file file ∷ []
  opened_file (err m) = []

  abbrev pub file_writer : Logging → List Writer
  unfolding new_rolling_log_file
  file_writer cfg = if cfg.file_logging_enabled then opened_file (new_rolling_log_file cfg) else []

  abbrev pub level_or_debug : Option Level → Level
  level_or_debug none = system.debug
  level_or_debug (some level) = level

  -- A logger that writes to several places gets no level of its own, and no time stamps.
  abbrev pub logger_of : Level → List Writer → Logger Level
  logger_of level [] = record { writers = stdout ∷ []; level = some level; timestamps = true }
  logger_of level (w ∷ more) = record {
    writers = stdout ∷ w ∷ more;
    level = none;
    timestamps = false;
  }

  -- The global level, and the logger.
  unfoldable pub init_logger : Logging → Level × Logger Level
  unfolding file_writer
  init_logger cfg =
      let level = level_or_debug (system.parse_level cfg.level) in
      (level, logger_of level (sys_log_writer cfg ++ file_writer cfg))

-- The fields of the `http.Server` that are set, with the routes of its handler.
pub record HttpServer : Type 0 where
  pub addr : String
  pub handler : List Route
  pub read_timeout : ℕ
  pub write_timeout : ℕ

unfoldable pub init_http_server : String → HttpServer
unfolding routes
init_http_server port = record {
  addr = port;
  handler = routes;
  read_timeout = 5 * 10 ^ 9;
  write_timeout = 5 * 10 ^ 9;
}

-- How the start ends: two fatal errors, a panic, or the clusters that are served.
pub data Started (Bytes : Type 0) : Type 0 where
  no_configuration no_storage : String → Started Bytes
  panicked : Started Bytes
  serving : Settings → Tables Bytes → HttpServer → Coordinator → Started Bytes

module _ {Bytes : Type 0} (seconds : ℕ → Float64) (now : ℤ) where
  abbrev pub with_clusters : Settings → Tables Bytes → Option Coordinator → Started Bytes
  unfolding init_http_server
  with_clusters s t none = panicked
  with_clusters s t (some c) = serving s t (init_http_server s.qumomf.port) c

  abbrev pub with_storage : Settings → Result String (Tables Bytes) → Started Bytes
  unfolding register_clusters
  with_storage s (err m) = no_storage m
  with_storage s (ok t) =
      with_clusters s t (register_clusters seconds now s.config.clusters s.qumomf new_coordinator)

  abbrev pub with_settings :
      (StorageOptions → Result String (Tables Bytes))
      → Option (Result String Settings)
      → Started Bytes
  unfolding with_storage
  with_settings open_storage none = panicked
  with_settings open_storage (some (err m)) = no_configuration m
  with_settings open_storage (some (ok s)) = with_storage s (open_storage s.qumomf.storage)

  -- `main` up to the signal that it waits for, with `sqlite.New`.
  unfoldable pub start :
      (String → Settings → Result String Settings)
      → (String → Result String String)
      → String
      → (StorageOptions → Result String (Tables Bytes))
      → Started Bytes
  unfolding setup with_settings
  start unmarshal read_file path open_storage =
      with_settings open_storage (setup unmarshal read_file path)

-- What `ListenAndServe` returns with, and what `main` waits for.
pub data ServerError : Type 0 where
  server_closed : ServerError
  listen_error : String → ServerError

pub data Happening : Type 0 where
  server_returned : ServerError → Happening
  -- One of the goroutines, of a cluster's parts or of the server, panics.
  part_panicked : Happening
  system_signal : Happening

-- How the program ends: it still serves, or the server has failed, or a goroutine has panicked, or the
-- coordinator's tasks have been run and then the server was shut down.
pub data Ended : Type 0 where
  still_serving : Ended
  listen_failed : String → Ended
  crashed : Ended
  shut_down : List ShutdownTask → Ended

-- The rest of `main`, with the goroutine of the server beside it, each with an `err` of its own: the
-- source has one variable for both.
unfoldable pub finish : List Happening → Coordinator → Ended
unfolding shutdown
finish [] c = still_serving
finish (server_returned server_closed ∷ hs) c = finish hs c
finish (server_returned (listen_error m) ∷ hs) c = listen_failed m
finish (part_panicked ∷ hs) c = crashed
finish (system_signal ∷ hs) c = shut_down (shutdown c)
