-- ===== src/Orchestrator/Failover/Order.antt =====
-- internal/vshard/orchestrator/instance_utils.go: in which order the instances are updated.
use qumomf.Prelude.{◌≡◌, Bool, true, false, not, ◌&&◌, arith, if◌then◌else◌}
use qumomf.Prelude.Float.{flt}
use qumomf.Vshard.Instance.{Instance, has_alert, idle, alert_unreachable_master}

abbrev alerted : Instance → Bool
alerted i = has_alert i alert_unreachable_master

-- `Less` of `InstanceFailoverSorter`
unfoldable pub failover_less : Instance → Instance → Bool
failover_less left right =
    if left.last_check_valid && not right.last_check_valid
    then true
    else if alerted left && not (alerted right)
    then true
    else if alerted right && not (alerted left)
    then false
    else flt (idle left) (idle right)

-- An instance that was not polled but reports that its master is unreachable, and an instance that
-- was polled and does not, each rank before the other: the comparison lacks the test that an
-- unpolled instance does not rank before a polled one.
pub failover_less_both :
    (a b : Instance)
    → a.last_check_valid ≡ false
    → b.last_check_valid ≡ true
    → has_alert a alert_unreachable_master ≡ true
    → has_alert b alert_unreachable_master ≡ false
    → (failover_less a b ≡ true) × (failover_less b a ≡ true)
unfolding failover_less
failover_less_both a b h k p q = ground arith
