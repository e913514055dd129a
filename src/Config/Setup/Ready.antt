-- ===== src/Config/Setup/Ready.antt =====
-- What the registration of the clusters may rely on once the configuration has been read.
use qumomf.Prelude.{String, ◌≡◌, refl, sym, Option, none, some, All, Bool-cases, inl, inr}
use mathlib.Core.Path.{subst}
use qumomf.Prelude.Dict.{Dict}
use qumomf.Prelude.Result.{Result, ok, err}
use qumomf.Quorum.Candidates.{Options}
use qumomf.Config.{ConnectConfig, ClusterConfig, fill_clusters, validate}
use qumomf.Config.Filled.{
  AllGiven, IsFilled, HasElector, fill_clusters-IsFilled, validate-HasElector,
}
use qumomf.Config.Setup.{Settings, with_defaults, validated, unmarshalled, after_read, setup}

-- Every cluster has all that its registration reads, and a mode that names an elector.
abbrev pub IsReady : Settings → Type 0
IsReady s =
    All IsFilled s.config.clusters × ((opts : Options) → All (HasElector opts) s.config.clusters)

-- Without a panic, an error or settings that are ready.
abbrev pub IsSetUp : Option (Result String Settings) → Type 0
IsSetUp none = ⊥
IsSetUp (some (err m)) = Unit
IsSetUp (some (ok s)) = IsReady s

filled-IsSetUp :
    (s : Settings) (filled : Dict ClusterConfig)
    → All IsFilled filled
    → IsSetUp (validated s (some filled))
unfolding validate
filled-IsSetUp s filled h =
    let full = record s { config = record s.config { clusters = filled } } in
    elim (Bool-cases (validate full.config)) [
      | inl e ↦ rw e (h, λ opts. validate-HasElector full.config opts e)
      | inr e ↦ rw e tt
    ]

unmarshalled-IsSetUp :
    (r : Result String Settings)
    → ((s : Settings) → r ≡ ok s → AllGiven s.config.connection)
    → IsSetUp (unmarshalled r)
unfolding unmarshalled fill_clusters
unmarshalled-IsSetUp (err m) h = tt
unmarshalled-IsSetUp (ok s) h = at s.config.connection refl (h s refl)
  where
    at :
        (o : Option ConnectConfig)
        → s.config.connection ≡ o
        → AllGiven s.config.connection
        → IsSetUp (validated s (fill_clusters s.config s.config.clusters))
    at none e g = elim (subst AllGiven e g) [ ]
    at (some c) e g =
        let (filled, f, k) =
          fill_clusters-IsFilled s.config c s.config.clusters e (subst AllGiven e g) in
        subst (λ o. IsSetUp (validated s o)) (sym f) (filled-IsSetUp s filled k)

-- If the file leaves no option of the global connection unset, which the defaults set, then
-- the reading of the configuration does not panic; and if it succeeds, every cluster has all that its
-- registration reads, and a mode that names an elector.
pub setup-IsSetUp :
    (unmarshal : String → Settings → Result String Settings)
    (read_file : String → Result String String) (path : String)
    → ((text : String) (s : Settings)
        → read_file path ≡ ok text
        → unmarshal text with_defaults ≡ ok s
        → AllGiven s.config.connection)
    → IsSetUp (setup unmarshal read_file path)
unfolding setup after_read unmarshalled
setup-IsSetUp unmarshal read_file path h = at (read_file path) refl
  where
    at : (r : Result String String) → read_file path ≡ r → IsSetUp (after_read unmarshal r)
    at (err m) k = tt
    at (ok text) k = unmarshalled-IsSetUp (unmarshal text with_defaults) (λ s e. h text s k e)
