-- ===== src/Orchestrator/World.antt =====
-- What a recovery meets outside of itself: the clock, the processes that hooks run, the nodes that
-- execute queries, and the cluster's snapshot, which a discovery may replace at any moment. Each
-- meeting takes a step, and an `Env` says how it turns out at every step. The trace keeps what was
-- run, in order. A panic is `none`.
pub mod Trace
pub mod Steps
use qumomf.Prelude.{ℕ, suc, String, Bool, true, false, Option, none, some, List, [], ◌∷◌, ◌++◌}
use qumomf.Vshard.Snapshot.{Snapshot}
use qumomf.Orchestrator.Query.{Query}
use qumomf.Orchestrator.Recovery.{Recovery}

pub record Env : Type 0 where
  -- the clock, in nanoseconds
  pub now : ℕ → ℕ
  pub process_fails : ℕ → Bool
  pub query_fails : ℕ → Bool
  pub snapshot : ℕ → Snapshot
  -- `os.Environ()`
  pub environ : List String

pub data Event : Type 0 where
  -- a process with its environment; the flag says that nobody waits for it
  process : String → List String → Bool → Event
  -- a query, by the URI of the node that it was sent to
  query : String → Query → Event
  -- the callback on a recovery, which nobody waits for
  recovered : Recovery → Event
  -- a discovery of the cluster
  discovery : Event

pub record World : Type 0 where
  pub step : ℕ
  pub trace : List Event

abbrev pub M : Type 0 → Type 0
M A = Env → World → Option (A × World)

abbrev pub bind_result :
    {A B : Type 0} → Option (A × World) → (A → World → Option (B × World)) → Option (B × World)
bind_result none f = none
bind_result (some (a, w)) f = f a w

infixl 5 ◌>>=◌ ◌>>◌
abbrev pub ◌>>=◌ : {A B : Type 0} → M A → (A → M B) → M B
◌>>=◌ m f env w = bind_result (m env w) (λ a w'. f a env w')

abbrev pub ◌>>◌ : {A B : Type 0} → M A → M B → M B
m >> k = m >>= λ _. k

abbrev pub pure : {A : Type 0} → A → M A
pure a env w = some (a, w)

abbrev pub panic : {A : Type 0} → M A
panic env w = none

abbrev pub tick : World → World
tick w = record w { step = suc w.step }

-- A reading of the clock.
unfoldable pub read_clock : M ℕ
read_clock env w = some (env.now w.step, tick w)

unfoldable pub read_snapshot : M Snapshot
read_snapshot env w = some (env.snapshot w.step, tick w)

-- Runs a process to its end; does it fail?
unfoldable pub run_process : String → List String → M Bool
run_process command vars env w = some (
  env.process_fails w.step,
  record { step = suc w.step; trace = w.trace ++ process command vars false ∷ [] },
)

-- Starts a process and does not wait for it.
unfoldable pub start_process : String → List String → M Unit
start_process command vars env w =
    some (tt, record { step = suc w.step; trace = w.trace ++ process command vars true ∷ [] })

-- `Connector(uri).Exec(ctx, q)`; does it fail?
unfoldable pub exec : String → Query → M Bool
exec uri q env w =
    some (env.query_fails w.step, record { step = suc w.step; trace = w.trace ++ query uri q ∷ [] })

-- Something that only the trace shows.
unfoldable pub note : Event → M Unit
note e env w = some (tt, record { step = suc w.step; trace = w.trace ++ e ∷ [] })
