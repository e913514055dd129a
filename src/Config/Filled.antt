-- ===== src/Config/Filled.antt =====
-- What the filling of the options is for: no option that a cluster's registration reads is unset.
use qumomf.Prelude.{
  String, ◌==◌, ◌≡◌, refl, ◌≢◌, Bool, true, false, Bool-cases, inl, inr, Option, none, some, [],
  ◌∷◌, All, arith, if◌then◌else◌,
}
use qumomf.Prelude.Dict.{Dict}
use qumomf.Quorum.Candidates.{Options}
use qumomf.Quorum.Elector.{Elector, idle_elector, smart_elector, new}
use qumomf.Config.{
  ConnectConfig, ClusterConfig, Config, or_else, fill_connection, fill_cluster, fill_clusters,
  validate_elector, validate_clusters, validate,
}

abbrev pub IsGiven : {A : Type 0} → Option A → Type 0
IsGiven o = o ≢ none

abbrev pub AllGiven : Option ConnectConfig → Type 0
AllGiven none = ⊥
AllGiven (some c) =
    IsGiven c.user × IsGiven c.password × IsGiven c.connect_timeout × IsGiven c.request_timeout

abbrev pub IsFilled : String × ClusterConfig → Type 0
IsFilled (name, cluster) =
    AllGiven cluster.connection × IsGiven cluster.read_only × IsGiven cluster.election_mode

or_else-IsGiven : {A : Type 0} (a b : Option A) → IsGiven b → IsGiven (or_else a b)
or_else-IsGiven none b h = h
or_else-IsGiven (some a) b h = λ e. cc

filled_cluster :
    (g : ConnectConfig) (cluster : ClusterConfig)
    → AllGiven (some g)
    → (o : Option ConnectConfig) × (fill_connection (some g) cluster.connection ≡ some o)
      × AllGiven o
unfolding fill_connection
filled_cluster g cluster h = at cluster.connection
  where
    at :
        (k : Option ConnectConfig)
        → (o : Option ConnectConfig) × (fill_connection (some g) k ≡ some o) × AllGiven o
    at none = (some g, refl, h)
    at (some opts) = (
      some record {
        user = or_else opts.user g.user;
        password = or_else opts.password g.password;
        connect_timeout = or_else opts.connect_timeout g.connect_timeout;
        request_timeout = or_else opts.request_timeout g.request_timeout;
      },
      refl,
      (
        or_else-IsGiven opts.user g.user h.0,
        or_else-IsGiven opts.password g.password h.1,
        or_else-IsGiven opts.connect_timeout g.connect_timeout h.2,
        or_else-IsGiven opts.request_timeout g.request_timeout h.3,
      ),
    )

-- With a global connection whose options are all set, the filling does not panic and leaves no
-- option of a cluster unset that its registration reads.
pub fill_clusters-IsFilled :
    (c : Config) (g : ConnectConfig) (clusters : Dict ClusterConfig)
    → c.connection ≡ some g
    → AllGiven (some g)
    → (filled : Dict ClusterConfig) × (fill_clusters c clusters ≡ some filled) × All IsFilled filled
unfolding fill_clusters fill_cluster
fill_clusters-IsFilled c g [] e h = ([], refl, tt)
fill_clusters-IsFilled c g ((name, cluster) ∷ rest) e h =
    let (more, p, q) = fill_clusters-IsFilled c g rest e h in
    let (o, k, s) = filled_cluster g cluster h in
    (
      (
        name,
        record cluster {
          read_only = or_else cluster.read_only (some c.read_only);
          election_mode = or_else cluster.election_mode (some c.election_mode);
          connection = o;
        },
      )
          ∷ more,
      rw (e, k, p) refl,
      (
        (
          s,
          or_else-IsGiven cluster.read_only (some c.read_only) (λ z. cc),
          or_else-IsGiven cluster.election_mode (some c.election_mode) (λ z. cc),
        ),
        q,
      ),
    )

-- The mode of the cluster names an elector.
abbrev pub HasElector : Options → String × ClusterConfig → Type 0
HasElector opts (name, cluster) =
    (mode : String) × (e : Elector) × (cluster.election_mode ≡ some mode) × (new mode opts ≡ some e)

accepted :
    (opts : Options) (o : Option String)
    → validate_elector o ≡ true
    → (mode : String) × (e : Elector) × (o ≡ some mode) × (new mode opts ≡ some e)
unfolding validate_elector new
accepted opts none h = cc
accepted opts (some v) h = elim (Bool-cases (v == "idle")) [
  | inl e ↦ (v, idle_elector opts, refl, rw e refl)
  | inr e ↦
      let s : (v == "smart") ≡ true = ground arith in (v, smart_elector opts, refl, rw (e, s) refl)
]

both_true : (a b : Bool) → (if a then b else false) ≡ true → (a ≡ true) × (b ≡ true)
both_true true b h = (refl, h)
both_true false b h = cc

validate_clusters-HasElector :
    (opts : Options) (clusters : Dict ClusterConfig)
    → validate_clusters clusters ≡ true
    → All (HasElector opts) clusters
unfolding validate_clusters
validate_clusters-HasElector opts [] h = tt
validate_clusters-HasElector opts ((name, cluster) ∷ rest) h =
    let (a, b) = both_true (validate_elector cluster.election_mode) (validate_clusters rest) h in
    (accepted opts cluster.election_mode a, validate_clusters-HasElector opts rest b)

-- No cluster of a configuration that is accepted makes the choice of its elector panic.
pub validate-HasElector :
    (c : Config) (opts : Options) → validate c ≡ true → All (HasElector opts) c.clusters
unfolding validate
validate-HasElector c opts h =
    let (a, b) =
      both_true (validate_elector (some c.election_mode)) (validate_clusters c.clusters) h in
    validate_clusters-HasElector opts c.clusters b
