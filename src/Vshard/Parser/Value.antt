-- ===== src/Vshard/Parser/Value.antt =====
-- The decoded MessagePack values that a reply holds, the typed look-ups of `container`, and the
-- reading of alerts, which routers and storages share (internal/vshard/parser.go).
use qumomf.Prelude.{ℕ, String, Bool, Option, none, some, List, [], ◌∷◌}
use qumomf.Prelude.Int.{ℤ, int64_of_uint64, uint64_of_int64, pos}
use qumomf.Prelude.Float.{Float64, float_of_int}
use qumomf.Prelude.Result.{Result, ok, err, ◌>>=◌}
use qumomf.Vshard.Error.{Error, bad_cast, bad_field, bad_alerts, bad_alert_text}
use qumomf.Vshard.Instance.{Alert}
use text.Mathlib.Text.{◌==◌}
use qumomf.Prelude.{if◌then◌else◌}

-- `interface{}`, with the dynamic types that the decoder makes.
mutual
  pub data Value : Type 0 where
    nil : Value
    int64 : ℤ → Value
    uint64 : ℕ → Value
    float64 : Float64 → Value
    string : String → Value
    bool : Bool → Value
    array : Values → Value
    container : Fields → Value

  -- `[]interface{}`
  pub data Values : Type 0 where
    done : Values
    item : Value → Values → Values

  -- `map[string]interface{}`
  pub data Fields : Type 0 where
    no_fields : Fields
    field : String → Value → Fields → Fields

abbrev pub Read : Type 0 → Type 0
Read A = Result Error A

-- `v, ok := c[key]`
unfoldable pub find_field : Fields → String → Option Value
find_field no_fields key = none
find_field (field k v c) key = let rest = find_field c key in if k == key then some v else rest

abbrev value_or_nil : Option Value → Value
value_or_nil none = nil
value_or_nil (some v) = v

-- `c[key]`
unfoldable pub get : Fields → String → Value
unfolding find_field
get c key = value_or_nil (find_field c key)

unfoldable pub cast_to_container : Value → Read Fields
cast_to_container (container c) = ok c
cast_to_container _ = err bad_cast

abbrev pub as_int64 : String → Value → Read ℤ
as_int64 key (int64 t) = ok t
as_int64 key (uint64 t) = ok (int64_of_uint64 t)
as_int64 key _ = err (bad_field key)

unfoldable pub get_int64 : Fields → String → Read ℤ
unfolding get
get_int64 c key = as_int64 key (get c key)

abbrev pub as_uint64 : String → Value → Read ℕ
as_uint64 key (int64 t) = ok (uint64_of_int64 t)
as_uint64 key (uint64 t) = ok t
as_uint64 key _ = err (bad_field key)

unfoldable pub get_uint64 : Fields → String → Read ℕ
unfolding get
get_uint64 c key = as_uint64 key (get c key)

abbrev pub as_float64 : String → Value → Read Float64
as_float64 key (float64 t) = ok t
as_float64 key (uint64 t) = ok (float_of_int (pos t))
as_float64 key (int64 t) = ok (float_of_int t)
as_float64 key _ = err (bad_field key)

unfoldable pub get_float64 : Fields → String → Read Float64
unfolding get
get_float64 c key = as_float64 key (get c key)

abbrev pub as_array : String → Value → Read Values
as_array key (array vs) = ok vs
as_array key _ = err (bad_field key)

unfoldable pub get_array : Fields → String → Read Values
unfolding get
get_array c key = as_array key (get c key)

abbrev or_bad_field : String → Read Fields → Read Fields
or_bad_field key (ok c) = ok c
or_bad_field key (err e) = err (bad_field key)

unfoldable pub get_container : Fields → String → Read Fields
unfolding get cast_to_container
get_container c key = or_bad_field key (cast_to_container (get c key))

abbrev pub as_string : String → Value → Read String
as_string key (string t) = ok t
as_string key _ = err (bad_field key)

unfoldable pub get_string : Fields → String → Read String
unfolding get
get_string c key = as_string key (get c key)

abbrev pub as_bool : String → Value → Read Bool
as_bool key (bool t) = ok t
as_bool key _ = err (bad_field key)

unfoldable pub get_bool : Fields → String → Read Bool
unfolding get
get_bool c key = as_bool key (get c key)

-- The two type assertions on an alert's first two items.
abbrev read_alert : Value → Value → Read Alert
read_alert (string t) (string d) = ok record { type = t; description = d }
read_alert (string t) _ = err bad_alert_text
read_alert _ _ = err bad_alert_text

-- The loop of `parseAlerts`: an array of fewer than two items is skipped.
unfoldable pub read_alerts : Values → Read (List Alert)
read_alerts done = ok []
read_alerts (item (array (item t (item d vs))) as') = do
  alert ← read_alert t d
  alerts ← read_alerts as'
  ok (alert ∷ alerts)
read_alerts (item (array _) as') = read_alerts as'
read_alerts (item _ as') = err bad_alerts

unfoldable pub parse_alerts : Fields → Read (List Alert)
unfolding get_array read_alerts
parse_alerts dt = do vs ← get_array dt "alerts"; read_alerts vs
