-- ===== src/Coordinator/Startup.antt =====
-- cmd/qumomf/main.go: the program registers every cluster of its configuration.
use qumomf.Prelude.{
  ℕ, String, ◌≡◌, refl, sym, ap, ◌∙◌, ◌≢◌, true, Option, none, some, List, [], ◌∷◌, ◌++◌, map, All,
  is_some,
}
use mathlib.Core.Path.{subst}
use qumomf.Prelude.Int.{ℤ}
use qumomf.Prelude.Float.{Float64}
use qumomf.Prelude.Dict.{Dict}
use qumomf.Prelude.Result.{Result, ok}
use qumomf.Config.{ConnectConfig, ClusterConfig}
use qumomf.Config.Filled.{IsGiven, AllGiven, IsFilled, HasElector}
use qumomf.Config.Setup.{Qumomf, Settings}
use qumomf.Config.Setup.Ready.{IsReady}
use qumomf.Coordinator.{
  Error, Parts, Coordinator, new_coordinator, options_of, ConnOptions, conn_template_of,
  with_elector, with_mode, with_cluster, new_parts, registered, register_cluster, shutdown,
}
use qumomf.Coordinator.Registration.{
  append_assoc, append_nil, HasUniqueNames, Missing, lookup-Missing, IsConsistent, Registers,
  register_cluster-IsConsistent, stops, shutdown_lem,
}

abbrev pub names : {Value : Type 0} → Dict Value → List String
names {Value} entries = map (λ (e : String × Value). e.0) entries

module _ (seconds : ℕ → Float64) (now : ℤ) where
  abbrev with_rest :
      (Coordinator → Option Coordinator)
      → Option (Result Error Unit × Coordinator)
      → Option Coordinator
  with_rest later none = none
  with_rest later (some (r, c)) = later c

  -- The loop of `main` over the clusters, in the order in which the map gives them; an error of the
  -- registration is logged.
  unfoldable pub register_clusters : Dict ClusterConfig → Qumomf → Coordinator → Option Coordinator
  unfolding register_cluster
  register_clusters [] q c = some c
  register_clusters ((name, cfg) ∷ rest) q c =
      with_rest (register_clusters rest q) (register_cluster seconds now name cfg q c)

  given : {A : Type 0} (o : Option A) → IsGiven o → (a : A) × (o ≡ some a)
  given none h = elim (h refl) [ ]
  given (some a) h = (a, refl)

  is_some-given : {A : Type 0} (o : Option A) → is_some o ≡ true → (a : A) × (o ≡ some a)
  is_some-given none h = cc
  is_some-given (some a) h = (a, refl)

  AllGiven-conn_template :
      (o : Option ConnectConfig) → AllGiven o → (t : ConnOptions) × (conn_template_of o ≡ some t)
  AllGiven-conn_template none h = elim h [ ]
  AllGiven-conn_template (some c) h =
      let (u, e) = given c.user h.0 in
      let (p, k) = given c.password h.1 in
      let (t, l) = given c.connect_timeout h.2 in
      let (q, m) = given c.request_timeout h.3 in
      (
        record { user = u; password = p; connect_timeout = t; query_timeout = q },
        rw (e, k, l, m) refl,
      )

  -- What the configuration promises is what the parts of a cluster are made of.
  new_parts_made :
      (name : String) (cfg : ClusterConfig) (q : Qumomf)
      → IsFilled (name, cfg)
      → HasElector (options_of seconds now q) (name, cfg)
      → (parts : Parts) × (new_parts seconds now name cfg q ≡ some parts)
  unfolding new_parts with_cluster with_mode with_elector
  new_parts_made name cfg q h (mode, e, m, k) =
      let (read_only, r) = given cfg.read_only h.1 in
      let (template, t) = AllGiven-conn_template cfg.connection h.0 in
      is_some-given (new_parts seconds now name cfg q) (rw (t, r, m, k) refl)

  -- A coordinator with all the clusters, whose shutdown stops them.
  abbrev pub Serves : Dict ClusterConfig → Qumomf → Coordinator → Type 0
  Serves clusters q c =
      (c' : Coordinator) × (register_clusters clusters q c ≡ some c')
      × (names c'.clusters ≡ names c.clusters ++ names clusters)
      × IsConsistent c'
      × (shutdown c' ≡ stops c'.clusters)

  names-append :
      (entries : Dict Parts) (name : String) (parts : Parts)
      → names (entries ++ (name, parts) ∷ []) ≡ names entries ++ name ∷ []
  names-append [] name parts = refl
  names-append (e ∷ es) name parts = ap (λ rest. e.0 ∷ rest) (names-append es name parts)

  Missing-append :
      (name other : String) (parts : Parts) (entries : Dict Parts)
      → other ≢ name
      → Missing name entries
      → Missing name (entries ++ (other, parts) ∷ [])
  Missing-append name other parts [] d h = (d, tt)
  Missing-append name other parts (e ∷ es) d h = (h.0, Missing-append name other parts es d h.1)

  -- No cluster is registered yet.
  abbrev AreNew : Dict ClusterConfig → Coordinator → Type 0
  AreNew [] c = Unit
  AreNew ((name, cfg) ∷ rest) c = Missing name c.clusters × AreNew rest c

  AreNew-append :
      (name : String) (parts : Parts) (clusters : Dict ClusterConfig) (c c' : Coordinator)
      → All (λ (e : String × ClusterConfig). e.0 ≢ name) clusters
      → c'.clusters ≡ c.clusters ++ (name, parts) ∷ []
      → AreNew clusters c
      → AreNew clusters c'
  AreNew-append name parts [] c c' d e h = tt
  AreNew-append name parts ((other, cfg) ∷ rest) c c' d e h = (
    subst (λ (es : Dict Parts). Missing other es) (sym e)
        (Missing-append other name parts c.clusters (λ q. d.0 (sym q)) h.0),
    AreNew-append name parts rest c c' d.1 e h.1,
  )

  AreNew-none : (clusters : Dict ClusterConfig) → AreNew clusters new_coordinator
  AreNew-none [] = tt
  AreNew-none ((name, cfg) ∷ rest) = (tt, AreNew-none rest)

  -- A new name with a configuration that is complete is registered.
  register_new :
      (name : String) (cfg : ClusterConfig) (q : Qumomf) (c : Coordinator)
      → Missing name c.clusters
      → IsFilled (name, cfg)
      → HasElector (options_of seconds now q) (name, cfg)
      → IsConsistent c
      → (c' : Coordinator) × (register_cluster seconds now name cfg q c ≡ some (ok tt, c'))
        × IsConsistent c'
        × Registers name c (ok tt) c'
  unfolding register_cluster registered
  register_new name cfg q c m f e h =
      let (parts, p) = new_parts_made name cfg q f e in
      let (c', k) = at parts p in
      let (h', r) = register_cluster-IsConsistent seconds now name cfg q c c' (ok tt) h k in
      (c', k, h', r)
    where
      at :
          (parts : Parts)
          → new_parts seconds now name cfg q ≡ some parts
          → (c' : Coordinator) × (register_cluster seconds now name cfg q c ≡ some (ok tt, c'))
      at parts p = made (rw (lookup-Missing name c.clusters m, p) refl)
        where
          made :
              register_cluster seconds now name cfg q c ≡ registered seconds now name c (some parts)
              → (c' : Coordinator) × (register_cluster seconds now name cfg q c ≡ some (ok tt, c'))
          made k = (_, k)

  register_clusters_from :
      (clusters : Dict ClusterConfig) (q : Qumomf) (c : Coordinator)
      → HasUniqueNames clusters
      → All IsFilled clusters
      → All (HasElector (options_of seconds now q)) clusters
      → AreNew clusters c
      → IsConsistent c
      → Serves clusters q c
  unfolding register_clusters
  register_clusters_from [] q c u f e n h =
      (c, refl, sym (append_nil (names c.clusters)), h, shutdown_lem c h)
  register_clusters_from ((name, cfg) ∷ rest) q c u f e n h =
      let (c1, k, h1, (m, (parts, added))) = register_new name cfg q c n.0 f.0 e.0 h in
      let (c2, k2, ns, h2, s) =
        register_clusters_from rest q c1 u.1 f.1 e.1
          (AreNew-append name parts rest c c1 u.0 added n.1) h1 in
      (
        c2,
        ap (with_rest (register_clusters rest q)) k ∙ k2,
        ns
            ∙ (ap (λ (es : Dict Parts). names es ++ names rest) added
                ∙ (ap (λ xs. xs ++ names rest) (names-append c.clusters name parts)
                    ∙ append_assoc (names c.clusters) (name ∷ []) (names rest))),
        h2,
        s,
      )

  -- Settings that are ready let `main` register every cluster, without a panic or an error.
  pub register_clusters-Serves :
      (s : Settings)
      → IsReady s
      → HasUniqueNames s.config.clusters
      → Serves s.config.clusters s.qumomf new_coordinator
  register_clusters-Serves s ready u =
      register_clusters_from s.config.clusters s.qumomf new_coordinator u ready.0
        (ready.1 (options_of seconds now s.qumomf)) (AreNew-none s.config.clusters) (tt, refl)
