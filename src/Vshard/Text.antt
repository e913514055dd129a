-- ===== src/Vshard/Text.antt =====
-- The `String` methods of internal/vshard: alert.go, instance.go and replicaset.go.
use qumomf.Prelude.{String, Bool, true, false, List, [], ◌∷◌, length}
use qumomf.Prelude.Text.{concat, itoa}
use qumomf.Vshard.Instance.{
  Alert, Instance, InstanceIdent, HealthLevel, green, yellow, orange, red, unknown,
}
use qumomf.Vshard.ReplicaSet.{ReplicaSet, health_status}

unfoldable pub alert_string : Alert → String
unfolding concat
alert_string a = concat (a.type ∷ ": " ∷ "\"" ∷ a.description ∷ "\"" ∷ [])

unfoldable pub ident_string : InstanceIdent → String
unfolding concat
ident_string ident = concat (ident.uuid ∷ "/" ∷ ident.uri ∷ [])

-- The text of a health level.
unfoldable pub level_string : HealthLevel → String
level_string green = "green"
level_string yellow = "yellow"
level_string orange = "orange"
level_string red = "red"
level_string unknown = "unknown"

-- The inner loop over the alerts of an instance.
unfoldable pub alerts_string : List Alert → List String
unfolding alert_string
alerts_string [] = []
alerts_string (a ∷ []) = alert_string a ∷ []
alerts_string (a ∷ b ∷ rest) = alert_string a ∷ ", " ∷ alerts_string (b ∷ rest)

abbrev with_comma : Bool → List String → List String
with_comma true rest = ", " ∷ rest
with_comma false rest = rest

-- The outer loop, over the instances; the flag tells whether an instance was written before.
abbrev with_instance : Instance → Bool → List Alert → (Bool → List String) → List String
unfolding alerts_string
with_instance inst pretty [] later = later pretty
with_instance inst pretty (a ∷ as') later =
    let rest = inst.uri ∷ " -> " ∷ concat (alerts_string (a ∷ as')) ∷ later true in
    with_comma pretty rest

unfoldable pub instances_string : List Instance → Bool → List String
unfolding with_instance
instances_string [] pretty = []
instances_string (inst ∷ rest) pretty =
    with_instance inst pretty inst.storage_info.alerts (instances_string rest)

abbrev with_alerts : HealthLevel → List Instance → List String
unfolding instances_string
with_alerts green is = []
with_alerts yellow is = "; alerts: [" ∷ concat (instances_string is false) ∷ "]" ∷ []
with_alerts orange is = "; alerts: [" ∷ concat (instances_string is false) ∷ "]" ∷ []
with_alerts red is = "; alerts: [" ∷ concat (instances_string is false) ∷ "]" ∷ []
with_alerts unknown is = "; alerts: [" ∷ concat (instances_string is false) ∷ "]" ∷ []

unfoldable pub set_string : ReplicaSet → String
unfolding concat itoa level_string health_status with_alerts
set_string set =
    let level = (health_status set).1 in
    concat (
      "id: "
      ∷ set.uuid
      ∷ "; master_uuid: "
      ∷ set.master_uuid
      ∷ "; master_uri: "
      ∷ set.master_uri
      ∷ "; size: "
      ∷ itoa (length set.instances)
      ∷ "; health: "
      ∷ level_string level
      ∷ concat (with_alerts level set.instances)
      ∷ [])
