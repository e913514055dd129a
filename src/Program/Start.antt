-- ===== src/Program/Start.antt =====
-- What a start of the program ends with.
use qumomf.Prelude.{ℕ, String, ◌≡◌, refl, sym, Option, none, some, List, [], ◌∷◌, Memᴰ}
use mathlib.Core.Path.{subst}
use qumomf.Prelude.Int.{ℤ}
use qumomf.Prelude.Float.{Float64}
use qumomf.Prelude.Result.{Result, ok, err}
use qumomf.Config.Filled.{AllGiven}
use qumomf.Config.Setup.{Settings, StorageOptions, with_defaults, setup}
use qumomf.Config.Setup.Ready.{IsReady, IsSetUp, setup-IsSetUp}
use qumomf.Storage.{Tables}
use qumomf.Coordinator.{Coordinator, shutdown}
use qumomf.Coordinator.Registration.{HasUniqueNames, IsConsistent, stops}
use qumomf.Coordinator.Startup.{names, register_clusters-Serves}
use qumomf.Program.{
  Started, no_configuration, no_storage, panicked, serving, with_clusters, with_storage, Happening,
  server_returned, listen_error, server_closed, system_signal, Ended, still_serving, listen_failed,
  crashed, part_panicked, shut_down, finish, with_settings, start,
}

-- The program ends only by an error of the server, by a goroutine that panics, or by a signal that
-- stops the parts of each cluster in the reverse of the order of registration.
abbrev pub Stops : Coordinator → List Happening → Ended → Type 0
Stops c hs still_serving = Unit
Stops c hs (listen_failed m) = Memᴰ (server_returned (listen_error m)) hs
Stops c hs crashed = Memᴰ part_panicked hs
Stops c hs (shut_down tasks) = Memᴰ system_signal hs × (tasks ≡ stops c.clusters)

later :
    (c : Coordinator) (h : Happening) (hs : List Happening) (e : Ended)
    → Stops c hs e
    → Stops c (h ∷ hs) e
later c h hs still_serving k = tt
later c h hs (listen_failed m) k = Memᴰ.tail k
later c h hs crashed k = Memᴰ.tail k
later c h hs (shut_down tasks) (k, e) = (Memᴰ.tail k, e)

finish-Stops :
    (c : Coordinator) (hs : List Happening)
    → shutdown c ≡ stops c.clusters
    → Stops c hs (finish hs c)
unfolding finish
finish-Stops c [] d = tt
finish-Stops c (server_returned server_closed ∷ hs) d =
    later c (server_returned server_closed) hs (finish hs c) (finish-Stops c hs d)
finish-Stops c (server_returned (listen_error m) ∷ hs) d = Memᴰ.head refl
finish-Stops c (part_panicked ∷ hs) d = Memᴰ.head refl
finish-Stops c (system_signal ∷ hs) d = (Memᴰ.head refl, d)

module _ {Bytes : Type 0} (seconds : ℕ → Float64) (now : ℤ) where
  -- A fatal error, or a server at the port of the settings and all their clusters in order.
  abbrev pub EndsWell : Started Bytes → Type 0
  EndsWell (no_configuration m) = Unit
  EndsWell (no_storage m) = Unit
  EndsWell panicked = ⊥
  EndsWell (serving s t server c) =
      (server.addr ≡ s.qumomf.port)
      × (names c.clusters ≡ names s.config.clusters)
      × IsConsistent c
      × ((hs : List Happening) → Stops c hs (finish hs c))

  storage-EndsWell :
      (s : Settings) (r : Result String (Tables Bytes))
      → IsReady s
      → HasUniqueNames s.config.clusters
      → EndsWell (with_storage seconds now s r)
  unfolding with_storage with_clusters
  storage-EndsWell s (err m) h u = tt
  storage-EndsWell s (ok t) h u =
      let (c, e, n, k, d) = register_clusters-Serves seconds now s h u in
      subst (λ o. EndsWell (with_clusters seconds now s t o)) (sym e)
        (refl, n, k, λ hs. finish-Stops c hs d)

  settings-EndsWell :
      (open_storage : StorageOptions → Result String (Tables Bytes))
      (o : Option (Result String Settings))
      → IsSetUp o
      → ((s : Settings) → o ≡ some (ok s) → HasUniqueNames s.config.clusters)
      → EndsWell (with_settings seconds now open_storage o)
  unfolding with_settings
  settings-EndsWell open_storage none h u = elim h [ ]
  settings-EndsWell open_storage (some (err m)) h u = tt
  settings-EndsWell open_storage (some (ok s)) h u =
      storage-EndsWell s (open_storage s.qumomf.storage) h (u s refl)

  -- If the configuration file unsets no option of the global connection, and the map of clusters has
  -- every name once, the program does not panic at its start. It ends with a fatal error of the
  -- configuration or of the storage, or it listens at the configured port and has registered all
  -- clusters, in the order in which the map gives them. After that it ends only if the server fails to
  -- listen, if a goroutine panics, or by a signal; then the tasks that it runs stop the clusters in the
  -- reverse order, of each one the failover, the monitor and the connections.
  pub start-EndsWell :
      (unmarshal : String → Settings → Result String Settings)
      (read_file : String → Result String String) (path : String)
      (open_storage : StorageOptions → Result String (Tables Bytes))
      → ((text : String) (s : Settings)
          → read_file path ≡ ok text
          → unmarshal text with_defaults ≡ ok s
          → AllGiven s.config.connection)
      → ((s : Settings)
          → setup unmarshal read_file path ≡ some (ok s)
          → HasUniqueNames s.config.clusters)
      → EndsWell (start seconds now unmarshal read_file path open_storage)
  unfolding start
  start-EndsWell unmarshal read_file path open_storage h u =
      settings-EndsWell open_storage (setup unmarshal read_file path)
        (setup-IsSetUp unmarshal read_file path h) u
