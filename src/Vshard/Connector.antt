-- ===== src/Vshard/Connector.antt =====
-- `Exec` of internal/vshard/tarantool.go: a query is sent again after some errors. The client library
-- connects, sends and closes, and numbers the errors; what it answers in each round of the loop is a
-- parameter.
pub mod Attempts
use qumomf.Prelude.{
  ℕ, zero, suc, ◌+◌, String, Bool, true, false, ◌&&◌, Option, none, some, List, [], ◌∷◌, eqb,
  exists, is_some, if◌then◌else◌,
}

pub record Reply (Value : Type 0) : Type 0 where
  pub error : Option String
  pub error_code : ℕ
  pub values : List Value

-- What happens in one round: the error of the connection, whether the context is done after it, and
-- the answer to the query.
pub record Round (Value : Type 0) : Type 0 where
  pub connect_error : Option String
  pub done : Bool
  pub answer : Reply Value

-- The codes of the client library.
pub record Codes : Type 0 where
  pub no_connection : ℕ
  pub timeout : ℕ

pub data Event : Type 0 where
  sent closed : Event

abbrev pub max_retries : ℕ
max_retries = 2

abbrev pub tnt_retryable_errors : Codes → List ℕ
tnt_retryable_errors codes = codes.no_connection ∷ codes.timeout ∷ []

unfoldable pub is_retryable : Codes → ℕ → Bool
unfolding exists
is_retryable codes code = exists (λ rc. eqb rc code) (tnt_retryable_errors codes)

module _ {Value : Type 0} (codes : Codes) (rounds : ℕ → Round Value) where
  abbrev pub refused : Option String → Reply Value
  refused e = record { error = e; error_code = 0; values = [] }

  abbrev pub context_error : Reply Value
  context_error = record { error = some "Exec error"; error_code = codes.timeout; values = [] }

  abbrev pub then_events :
      List Event → Option (Reply Value) × List Event → Option (Reply Value) × List Event
  then_events [] p = p
  then_events (e ∷ es) p = let q = then_events es p in (q.0, e ∷ q.1)

  -- Is the answer an error after which the query is sent again?
  abbrev pub again : Reply Value → Bool
  again resp = is_some resp.error && is_retryable codes resp.error_code

  -- The loop, with the rounds that are left, the number of the round and the last answer.
  unfoldable pub exec_from : ℕ → ℕ → Option (Reply Value) → Option (Reply Value) × List Event
  unfolding is_retryable
  exec_from zero i resp = (resp, [])
  exec_from (suc left) i resp =
      let r = rounds i in
      let later = exec_from left (suc i) (some r.answer) in
      if is_some r.connect_error
      then (some (refused r.connect_error), [])
      else if r.done
      then (some context_error, [])
      else if again r.answer
      then then_events (sent ∷ closed ∷ []) later
      else (some r.answer, sent ∷ [])

  unfoldable pub exec : Option (Reply Value) × List Event
  unfolding exec_from
  exec = exec_from max_retries 0 none
