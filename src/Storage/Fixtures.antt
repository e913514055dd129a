-- ===== src/Storage/Fixtures.antt =====
-- A backend that keeps values as they are, for the tests of the modules over the storage.
use mathlib.Core.List.Permᴰ
use qumomf.Prelude.{String, ◌≡◌, refl, none, some, List, [], ◌∷◌}
use mathlib.Core.Path.{subst}
use qumomf.Prelude.Result.{Result, ok, err, ok_eq}
use qumomf.Prelude.Int.{pos}
use qumomf.Vshard.Snapshot.{Snapshot}
use qumomf.Vshard.Fixtures.{broken_snapshot}
use qumomf.Orchestrator.Recovery.{Recovery}
use qumomf.Orchestrator.Fixtures.{registered}
use qumomf.Storage.{Backend}
use qumomf.Storage.Refinement.{
  exported, ReadsSnapshots, ReadsRecoveries, Scans, Call, saves_snapshot, saves_recovery,
}

-- What a column holds.
pub data Column : Type 0 where
  empty : Column
  of_snapshot : Snapshot → Column
  of_recovery : Recovery → Column

abbrev read_snapshot : Column → Result String Snapshot
read_snapshot empty = err "unexpected end of JSON input"
read_snapshot (of_snapshot s) = ok s
read_snapshot (of_recovery r) = err "no snapshot"

abbrev read_recovery : Column → Result String Recovery
read_recovery empty = err "unexpected end of JSON input"
read_recovery (of_snapshot s) = err "no recovery"
read_recovery (of_recovery r) = ok r

abbrev pub backend : Backend Column
backend = record {
  no_bytes = empty;
  marshal_snapshot = λ s. ok (of_snapshot (exported s));
  unmarshal_snapshot = read_snapshot;
  marshal_recovery = λ r. ok (of_recovery r);
  unmarshal_recovery = read_recovery;
  scan = λ rows. rows;
}

pub backend-ReadsSnapshots : ReadsSnapshots backend
backend-ReadsSnapshots s b e = subst (λ c. read_snapshot c ≡ ok (exported s)) (ok_eq e) refl

pub backend-ReadsRecoveries : ReadsRecoveries backend
backend-ReadsRecoveries r b e = subst (λ c. read_recovery c ≡ ok r) (ok_eq e) refl

pub backend-Scans : Scans backend
backend-Scans rows = Permᴰ.refl rows

-- A snapshot that is stored twice, an older one that the database refuses, and a recovery.
abbrev pub calls : List Call
calls =
    saves_snapshot none "sandbox" (record broken_snapshot { created = pos 4 })
    ∷ saves_snapshot none "sandbox" broken_snapshot
    ∷ saves_snapshot (some "locked") "sandbox" (record broken_snapshot { created = pos 3 })
    ∷ saves_recovery none (record registered { cluster_name = "sandbox" })
    ∷ []
