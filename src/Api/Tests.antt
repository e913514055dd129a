-- ===== src/Api/Tests.antt =====
-- The alerts of the service on the small cluster.
use qumomf.Prelude.{◌↔◌, [], ◌∷◌, Memᴰ}
use qumomf.Vshard.Instance.{Instance, alert_unreachable_master}
use qumomf.Vshard.ReplicaSet.{ReplicaSet}
use qumomf.Vshard.Fixtures.{follower, broken_set, cut_off}
use qumomf.Api.{instance_alerts}
use qumomf.Api.Alerting.{entry, IsRaised, instance_alerts_iff}

abbrev alarmed : Instance
alarmed = record follower {
  storage_info = record cut_off {
    alerts = record { type = alert_unreachable_master; description = "" } ∷ [];
  };
}

abbrev alarmed_set : ReplicaSet
alarmed_set = record broken_set { instances = alarmed ∷ follower ∷ [] }

instance_alerts_iff_example :
    Memᴰ (entry "sandbox" "set" alarmed) (instance_alerts "sandbox" (alarmed_set ∷ []))
    ↔ IsRaised "sandbox" (alarmed_set ∷ []) (entry "sandbox" "set" alarmed)
instance_alerts_iff_example =
    instance_alerts_iff "sandbox" (alarmed_set ∷ []) (entry "sandbox" "set" alarmed)
