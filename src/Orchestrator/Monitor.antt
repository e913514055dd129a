-- ===== src/Orchestrator/Monitor.antt =====
-- `checkCluster` of internal/vshard/orchestrator/monitor.go. The time of the snapshot and its replica
-- sets are read under two locks, so a discovery may replace the snapshot in between. The analyses go
-- to a channel, from one goroutine per set: they are a list, in the order of the sets.
pub mod Loop
use qumomf.Prelude.{
  ◌≡◌, refl, sym, ◌↔◌, true, false, not, Option, none, some, List, [], ◌∷◌, Memᴰ, arith,
  if◌then◌else◌,
}
use mathlib.Core.Path.{subst}
use qumomf.Prelude.Int.{ℤ, pos, ltb_ℤ, ◌<ℤ◌}
use qumomf.Vshard.ReplicaSet.{ReplicaSet}
use qumomf.Vshard.Snapshot.{Snapshot}
use qumomf.Orchestrator.Analysis.{ReplicationAnalysis, analyze}

pub record Monitor : Type 0 where
  pub analyzed : ℤ

-- `NewMonitor`
abbrev pub new_monitor : Monitor
new_monitor = record { analyzed = pos 0 }

abbrev pub cons_analysis :
    Option ReplicationAnalysis → List ReplicationAnalysis → List ReplicationAnalysis
cons_analysis none rest = rest
cons_analysis (some a) rest = a ∷ rest

-- The loop over the replica sets.
unfoldable pub analyze_all : List ReplicaSet → List ReplicationAnalysis
analyze_all [] = []
analyze_all (set ∷ sets) = cons_analysis (analyze set) (analyze_all sets)

-- With the snapshot at the first lock and that at the second.
unfoldable pub check_cluster : Monitor → Snapshot → Snapshot → Monitor × List ReplicationAnalysis
unfolding analyze_all
check_cluster m first second =
    if not (ltb_ℤ m.analyzed first.created)
    then (m, [])
    else (record m { analyzed = first.created }, analyze_all second.replica_sets)

-- The analysis is that of one of the sets.
abbrev pub IsAnalysis : List ReplicaSet → ReplicationAnalysis → Type 0
IsAnalysis sets a = (set : ReplicaSet) × Memᴰ set sets × (analyze set ≡ some a)

from_later :
    (set : ReplicaSet) (sets : List ReplicaSet) (a : ReplicationAnalysis)
    → IsAnalysis sets a
    → IsAnalysis (set ∷ sets) a
from_later set sets a (t, m, e) = (t, Memᴰ.tail m, e)

analyzed_of :
    (set : ReplicaSet) (sets : List ReplicaSet) (o : Option ReplicationAnalysis)
    (rest : List ReplicationAnalysis) (a : ReplicationAnalysis)
    → analyze set ≡ o
    → (Memᴰ a rest → IsAnalysis sets a)
    → Memᴰ a (cons_analysis o rest)
    → IsAnalysis (set ∷ sets) a
analyzed_of set sets none rest a e f m = from_later set sets a (f m)
analyzed_of set sets (some b) rest a e f (Memᴰ.head q) =
    (set, Memᴰ.head refl, subst (λ x. analyze set ≡ some x) (sym q) e)
analyzed_of set sets (some b) rest a e f (Memᴰ.tail m) = from_later set sets a (f m)

pub is_analysis :
    (sets : List ReplicaSet) (a : ReplicationAnalysis)
    → Memᴰ a (analyze_all sets)
    → IsAnalysis sets a
unfolding analyze_all
is_analysis [] a m = elim m [ ]
is_analysis (set ∷ sets) a m =
    analyzed_of set sets (analyze set) (analyze_all sets) a refl (is_analysis sets a) m

kept_later :
    (o : Option ReplicationAnalysis) (rest : List ReplicationAnalysis) (a : ReplicationAnalysis)
    → Memᴰ a rest
    → Memᴰ a (cons_analysis o rest)
kept_later none rest a m = m
kept_later (some b) rest a m = Memᴰ.tail m

sent :
    (sets : List ReplicaSet) (set : ReplicaSet) (a : ReplicationAnalysis)
    → Memᴰ set sets
    → analyze set ≡ some a
    → Memᴰ a (analyze_all sets)
unfolding analyze_all
sent [] set a m e = elim m [ ]
sent (x ∷ sets) set a (Memᴰ.head q) e =
    rw (subst (λ (t : ReplicaSet). analyze t ≡ some a) q e) (Memᴰ.head refl)
sent (x ∷ sets) set a (Memᴰ.tail m) e =
    kept_later (analyze x) (analyze_all sets) a (sent sets set a m e)

-- A snapshot that is newer than the last analyzed one is analyzed, each set that holds its master,
-- and is then not analyzed again, whatever its replica sets have become.
pub check_cluster_once :
    (m : Monitor) (first second later : Snapshot)
    → m.analyzed <ℤ first.created
    → ((a : ReplicationAnalysis)
        → Memᴰ a (check_cluster m first second).1 ↔ IsAnalysis second.replica_sets a)
      × (check_cluster (check_cluster m first second).0 first later
          ≡ ((check_cluster m first second).0, []))
unfolding check_cluster
check_cluster_once m first second later h = rw newer (
  (λ a. (is_analysis second.replica_sets a, λ (set, k, e). sent second.replica_sets set a k e)),
  rw same refl,
)
  where
    newer : ltb_ℤ m.analyzed first.created ≡ true
    newer = ground arith

    same : ltb_ℤ first.created first.created ≡ false
    same = ground arith
