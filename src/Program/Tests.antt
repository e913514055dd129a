-- ===== src/Program/Tests.antt =====
-- A start with two clusters.
use qumomf.Prelude.{ℕ, String, eq_iff, ◌≢◌, ◌≡◌, refl, true, false, none, some, some_eq, [], ◌∷◌}
use mathlib.Core.Path.{subst}
use qumomf.Prelude.Int.{pos}
use qumomf.Prelude.Float.{Float64, float_of_int}
use qumomf.Prelude.Result.{Result, ok, ok_eq}
use qumomf.Config.{fill_clusters, validate}
use qumomf.Config.Setup.{Settings, StorageOptions, with_defaults, unmarshalled, after_read, setup}
use qumomf.Config.Setup.Fixtures.{unmarshal, unmarshal-AllGiven}
use qumomf.Storage.Rows.{both}
use qumomf.Storage.{Tables, no_tables}
use qumomf.Storage.Fixtures.{Column}
use qumomf.Coordinator.Registration.{HasUniqueNames}
use qumomf.Program.{start, stdout, sys_log, init_logger}
use qumomf.Program.Start.{EndsWell, start-EndsWell}

abbrev in_seconds : ℕ → Float64
in_seconds ns = float_of_int (pos ns)

abbrev read_file : String → Result String String
read_file path = ok "clusters: {a: {}, b: {}}"

abbrev open_storage : StorageOptions → Result String (Tables Column)
open_storage s = ok no_tables

other : ◌≢◌ {A = String} "b" "a"
other k = both ((eq_iff "b" "a").1 k) refl

two_names :
    (s : Settings)
    → setup unmarshal read_file "qumomf.yml" ≡ some (ok s)
    → HasUniqueNames s.config.clusters
unfolding setup after_read unmarshalled fill_clusters validate with_defaults
two_names s e =
    subst (λ (s : Settings). HasUniqueNames s.config.clusters) (ok_eq (some_eq e))
      ((other, tt), (tt, tt))

start-EndsWell_example :
    EndsWell in_seconds
      (pos 1)
      (start in_seconds (pos 1) unmarshal read_file "qumomf.yml" open_storage)
start-EndsWell_example =
    start-EndsWell in_seconds (pos 1) unmarshal read_file "qumomf.yml" open_storage
      (λ text s r e. unmarshal-AllGiven text s e) two_names

-- With a system log, the logger has no time stamps.
two_writers :
    init_logger
      (record {
        dir = λ f. f;
        is_writable = λ d. false;
        has_sys_log = true;
        parse_level = λ s. some s;
        debug = "debug";
      })
      (record {
        level = "info";
        sys_log_enabled = true;
        file_logging_enabled = true;
        filename = "/root/log";
        max_size = 1;
        max_backups = 1;
        max_age = 1;
      })
    ≡ ("info", record { writers = stdout ∷ sys_log ∷ []; level = none; timestamps = false })
unfolding init_logger
two_writers = refl
