-- ===== src/Orchestrator/Recovery/Text.antt =====
-- `String` of internal/vshard/orchestrator/recovery.go; the format of a time is a parameter.
use qumomf.Prelude.{ℕ, ◌-◌, String, ◌==◌, List, [], ◌∷◌, ◌++◌, ltb, if◌then◌else◌}
use qumomf.Prelude.Text.{concat, itoa, format_bool}
use qumomf.Orchestrator.Recovery.{Recovery}

-- `strconv.FormatInt` of a difference.
abbrev difference : ℕ → ℕ → String
unfolding concat itoa
difference a b = if ltb a b then concat ("-" ∷ itoa (b - a) ∷ []) else itoa (a - b)

abbrev successor_part : Recovery → List String
successor_part r = if r.successor.uuid == "" then [] else ", successor: " ∷ r.successor.uuid ∷ []

unfoldable pub recovery_string : (ℕ → String) → Recovery → String
unfolding concat difference format_bool
recovery_string format_time r = concat (
    ("set: " ∷ r.set_uuid ∷ ", type: " ∷ r.type ∷ ", failed: " ∷ r.failed.uuid ∷ [])
    ++ (successor_part r
        ++ ", success: "
          ∷ format_bool r.is_successful
          ∷ ", period: "
          ∷ format_time r.start_timestamp
          ∷ " - "
          ∷ format_time r.end_timestamp
          ∷ ", duration: "
          ∷ difference r.end_timestamp r.start_timestamp
          ∷ "s"
          ∷ []))
