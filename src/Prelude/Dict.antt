-- ===== src/Prelude/Dict.antt =====
-- A Go map with string keys, as an association list in which the first entry of a key counts. A
-- missing key reads as absent, and so does every key of a nil map, which is the empty list.
use Prim.Native.String.{String}
use mathlib.Core.Option.{Option, none, some}
use mathlib.Core.List.{List, [], ◌∷◌}
use text.Mathlib.Text.{◌==◌}
use qumomf.Prelude.Tests.{if◌then◌else◌}

abbrev pub Dict : Type 0 → Type 0
Dict V = List (String × V)

-- `value, ok := entries[key]`
unfoldable pub lookup : {Value : Type 0} → String → Dict Value → Option Value
lookup key [] = none
lookup key (entry ∷ entries) =
    let later = lookup key entries in if entry.0 == key then some (entry.1) else later

-- `entries[key] = value`
unfoldable pub insert : {Value : Type 0} → String → Value → Dict Value → Dict Value
insert key value [] = (key, value) ∷ []
insert key value (entry ∷ entries) =
    let later = insert key value entries in
    if entry.0 == key then (key, value) ∷ entries else entry ∷ later
