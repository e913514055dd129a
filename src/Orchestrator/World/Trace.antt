-- ===== src/Orchestrator/World/Trace.antt =====
-- Reading a run backwards: what a part of it did, and which nodes it sent queries to.
use qumomf.Prelude.{
  ℕ, suc, String, ◌≡◌, refl, sym, ap, ◌∙◌, Bool, true, false, Option, none, some, some_eq, List, [],
  ◌∷◌, ◌++◌,
}
use mathlib.Core.List.{append-nil}
use qumomf.Vshard.Snapshot.{Snapshot}
use qumomf.Orchestrator.Query.{Query}
use qumomf.Orchestrator.World.{
  Env, World, Event, process, query, recovered, discovery, bind_result, read_clock, read_snapshot,
  run_process, start_process, exec,
}

-- The nodes that got a query, with it, in order.
unfoldable pub queries_of : List Event → List (String × Query)
queries_of [] = []
queries_of (process c vs async ∷ es) = queries_of es
queries_of (query uri q ∷ es) = (uri, q) ∷ queries_of es
queries_of (recovered r ∷ es) = queries_of es
queries_of (discovery ∷ es) = queries_of es

abbrev pub queried : World → List (String × Query)
queried w = queries_of w.trace

pub queries_of-append :
    (es fs : List Event) → queries_of (es ++ fs) ≡ queries_of es ++ queries_of fs
unfolding queries_of
queries_of-append [] fs = refl
queries_of-append (process c vs async ∷ es) fs = queries_of-append es fs
queries_of-append (query uri q ∷ es) fs = ap (λ l. (uri, q) ∷ l) (queries_of-append es fs)
queries_of-append (recovered r ∷ es) fs = queries_of-append es fs
queries_of-append (discovery ∷ es) fs = queries_of-append es fs

-- A bind that returns has run both of its parts.
pub bind-eq_some :
    {A B : Type 0} (m : Option (A × World)) (f : A → World → Option (B × World)) {r : B × World}
    → bind_result m f ≡ some r
    → (a : A) × (w : World) × (m ≡ some (a, w)) × (f a w ≡ some r)
bind-eq_some none f h = cc
bind-eq_some (some (a, w)) f h = (a, w, refl, h)

pub exec-step :
    (env : Env) (w : World) (uri : String) (q : Query) {b : Bool} {w' : World}
    → exec uri q env w ≡ some (b, w')
    → w'.step ≡ suc w.step
unfolding exec
exec-step env w uri q h = ap (λ r. r.1.step) (sym (some_eq h))

module _ (env : Env) (w : World) where
  pub read_clock-queried :
      {t : ℕ} {w' : World} → read_clock env w ≡ some (t, w') → queried w' ≡ queried w
  unfolding read_clock
  read_clock-queried h = ap (λ r. queried r.1) (sym (some_eq h))

  pub read_snapshot-queried :
      {s : Snapshot} {w' : World} → read_snapshot env w ≡ some (s, w') → queried w' ≡ queried w
  unfolding read_snapshot
  read_snapshot-queried h = ap (λ r. queried r.1) (sym (some_eq h))

  pub exec-queried :
      (uri : String) (q : Query) {b : Bool} {w' : World}
      → exec uri q env w ≡ some (b, w')
      → queried w' ≡ queried w ++ (uri, q) ∷ []
  unfolding exec queries_of
  exec-queried uri q h =
      ap (λ r. queried r.1) (sym (some_eq h)) ∙ queries_of-append w.trace (query uri q ∷ [])

  pub run_process-queried :
      (c : String) (vs : List String) {b : Bool} {w' : World}
      → run_process c vs env w ≡ some (b, w')
      → queried w' ≡ queried w
  unfolding run_process queries_of
  run_process-queried c vs h =
      ap (λ r. queried r.1) (sym (some_eq h))
      ∙ queries_of-append w.trace (process c vs false ∷ [])
      ∙ append-nil (queried w)

  pub start_process-queried :
      (c : String) (vs : List String) {u : Unit {0}} {w' : World}
      → start_process c vs env w ≡ some (u, w')
      → queried w' ≡ queried w
  unfolding start_process queries_of
  start_process-queried c vs h =
      ap (λ r. queried r.1) (sym (some_eq h))
      ∙ queries_of-append w.trace (process c vs true ∷ [])
      ∙ append-nil (queried w)
