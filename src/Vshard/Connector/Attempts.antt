-- ===== src/Vshard/Connector/Attempts.antt =====
-- How often a query is sent.
use qumomf.Prelude.{
  ℕ, zero, suc, ◌≤◌, ◌<◌, arith, String, ◌≡◌, refl, Bool, true, false, Bool-cases, inl, inr, Option,
  none, some, Option-cases, List, [], ◌∷◌, count,
}
use qumomf.Vshard.Connector.{
  Reply, Round, Codes, Event, sent, closed, max_retries, refused, context_error, again, then_events,
  exec_from, exec,
}

abbrev is_sent : Event → Bool
is_sent sent = true
is_sent closed = false

module _ {Value : Type 0} (codes : Codes) (rounds : ℕ → Round Value) where
  -- The runs of the loop: with the rounds that are left, the number of the next one, the result and
  -- what the run does to the connection.
  pub data Runs : ℕ → ℕ → Reply Value → List Event → Type 0 where
    no_link :
        (left i : ℕ) (m : String)
        → (rounds i).connect_error ≡ some m
        → Runs (suc left) i (refused codes rounds (some m)) []
    timed_out :
        (left i : ℕ)
        → (rounds i).connect_error ≡ none
        → (rounds i).done ≡ true
        → Runs (suc left) i (context_error codes rounds) []
    answered :
        (left i : ℕ)
        → (rounds i).connect_error ≡ none
        → (rounds i).done ≡ false
        → again codes rounds (rounds i).answer ≡ false
        → Runs (suc left) i (rounds i).answer (sent ∷ [])
    spent :
        (i : ℕ)
        → (rounds i).connect_error ≡ none
        → (rounds i).done ≡ false
        → again codes rounds (rounds i).answer ≡ true
        → Runs 1 i (rounds i).answer (sent ∷ closed ∷ [])
    retried :
        (left i : ℕ) (r : Reply Value) (es : List Event)
        → (rounds i).connect_error ≡ none
        → (rounds i).done ≡ false
        → again codes rounds (rounds i).answer ≡ true
        → Runs (suc left) (suc i) r es
        → Runs (suc (suc left)) i r (sent ∷ closed ∷ es)

  -- The loop returns a result, as one of the runs does.
  abbrev Returns : ℕ → ℕ → Option (Reply Value) × List Event → Type 0
  Returns left i p = (r : Reply Value) × (p.0 ≡ some r) × Runs left i r p.1

  Returns-retry :
      (left i : ℕ)
      → (rounds i).connect_error ≡ none
      → (rounds i).done ≡ false
      → again codes rounds (rounds i).answer ≡ true
      → Returns
          (suc left)
          (suc i)
          (exec_from codes rounds (suc left) (suc i) (some (rounds i).answer))
      → Returns (suc (suc left)) i (
          then_events codes rounds
            (sent ∷ closed ∷ [])
            (exec_from codes rounds (suc left) (suc i) (some (rounds i).answer)))
  Returns-retry left i c d a (r, e, k) = (r, e, retried left i r _ c d a k)

  exec_from-Returns :
      (left i : ℕ) (resp : Option (Reply Value))
      → Returns (suc left) i (exec_from codes rounds (suc left) i resp)
  unfolding exec_from
  exec_from-Returns zero i resp = elim (Option-cases (rounds i).connect_error) [
    | inr (m, c) ↦ rw c (refused codes rounds (some m), refl, no_link zero i m c)
    | inl c ↦ elim (Bool-cases (rounds i).done) [
      | inl d ↦ rw (c, d) (context_error codes rounds, refl, timed_out zero i c d)
      | inr d ↦ elim (Bool-cases (again codes rounds (rounds i).answer)) [
        | inl a ↦ rw (c, d, a) ((rounds i).answer, refl, spent i c d a)
        | inr a ↦ rw (c, d, a) ((rounds i).answer, refl, answered zero i c d a)
      ]
    ]
  ]
  exec_from-Returns (suc left) i resp = elim (Option-cases (rounds i).connect_error) [
    | inr (m, c) ↦ rw c (refused codes rounds (some m), refl, no_link (suc left) i m c)
    | inl c ↦ elim (Bool-cases (rounds i).done) [
      | inl d ↦ rw (c, d) (context_error codes rounds, refl, timed_out (suc left) i c d)
      | inr d ↦ elim (Bool-cases (again codes rounds (rounds i).answer)) [
        | inl a ↦
            rw (c, d, a)
              (Returns-retry left i c d a (exec_from-Returns left (suc i) (some (rounds i).answer)))
        | inr a ↦ rw (c, d, a) ((rounds i).answer, refl, answered (suc left) i c d a)
      ]
    ]
  ]

  sent_at_most :
      {left i : ℕ} {r : Reply Value} {es : List Event} → Runs left i r es → count is_sent es ≤ left
  unfolding count
  sent_at_most (no_link left i m c) = omega arith
  sent_at_most (timed_out left i c d) = omega arith
  sent_at_most (answered left i c d a) = omega arith
  sent_at_most (spent i c d a) = omega arith
  sent_at_most (retried left i r es c d a k) = let h = sent_at_most k in omega arith

  sent_again :
      {left i : ℕ} {r : Reply Value} {es : List Event}
      → Runs left i r es
      → 1 < count is_sent es
      → again codes rounds (rounds i).answer ≡ true
  unfolding count
  sent_again (no_link left i m c) h = let f : ⊥ = omega arith in elim f [ ]
  sent_again (timed_out left i c d) h = let f : ⊥ = omega arith in elim f [ ]
  sent_again (answered left i c d a) h = let f : ⊥ = omega arith in elim f [ ]
  sent_again (spent i c d a) h = a
  sent_again (retried left i r es c d a k) h = a

  -- A call returns a result, as one of the runs with two rounds does; it sends its query at most twice,
  -- and twice only if the first answer was a lost connection or a timeout.
  exec-Returns :
      Returns max_retries 0 (exec codes rounds)
      × (count is_sent (exec codes rounds).1 ≤ max_retries)
      × (1 < count is_sent (exec codes rounds).1 → again codes rounds (rounds 0).answer ≡ true)
  unfolding exec
  exec-Returns =
      let (r, e, k) = exec_from-Returns 1 0 none in ((r, e, k), sent_at_most k, sent_again k)
