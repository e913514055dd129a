-- ===== src/Vshard/Snapshot/Health.antt =====
-- The health of a cluster is that of its worst replica set.
use qumomf.Prelude.{
  ◌≡◌, refl, sym, ◌⊎◌, inl, inr, true, false, Bool-cases, List, [], ◌∷◌, Memᴰ, All, All-of_mem,
  arith,
}
use mathlib.Core.Path.{subst}
use qumomf.Prelude.Int.{ℤ, pos, ltb_ℤ, ◌≤ℤ◌}
use qumomf.Prelude.Result.{err}
use qumomf.Vshard.Error.{Error}
use qumomf.Vshard.Instance.{unknown, level_of_code}
use qumomf.Vshard.ReplicaSet.{ReplicaSet, master, health_status}
use qumomf.Vshard.Snapshot.{Snapshot, worst_code, cluster_health_level}

abbrev pub code_of : ReplicaSet → ℤ
code_of set = (health_status set).0

abbrev pub Below : ℤ → ReplicaSet → Type 0
Below w set = code_of set ≤ℤ w

-- The greatest of the codes and of the one so far.
abbrev pub IsWorst : ℤ → List ReplicaSet → ℤ → Type 0
IsWorst hc sets w =
    (hc ≤ℤ w)
    × All (Below w) sets
    × ((w ≡ hc) ⊎ ((set : ReplicaSet) × Memᴰ set sets × (code_of set ≡ w)))

raised :
    (hc w : ℤ) (set : ReplicaSet) (sets : List ReplicaSet)
    → hc ≤ℤ code_of set
    → IsWorst (code_of set) sets w
    → IsWorst hc (set ∷ sets) w
raised hc w set sets l (a, b, inl k) = (omega arith, (a, b), inr (set, Memᴰ.head refl, sym k))
raised hc w set sets l (a, b, inr (t, m, k)) = (omega arith, (a, b), inr (t, Memᴰ.tail m, k))

kept :
    (hc w : ℤ) (set : ReplicaSet) (sets : List ReplicaSet)
    → code_of set ≤ℤ hc
    → IsWorst hc sets w
    → IsWorst hc (set ∷ sets) w
kept hc w set sets l (a, b, inl k) = (a, (omega arith, b), inl k)
kept hc w set sets l (a, b, inr (t, m, k)) = (a, (omega arith, b), inr (t, Memᴰ.tail m, k))

worst_code-IsWorst : (hc : ℤ) (sets : List ReplicaSet) → IsWorst hc sets (worst_code hc sets)
unfolding worst_code
worst_code-IsWorst hc [] = (omega arith, tt, inl refl)
worst_code-IsWorst hc (set ∷ sets) = elim (Bool-cases (ltb_ℤ hc (code_of set))) [
  | inl e ↦ subst (IsWorst hc (set ∷ sets)) (rw e refl) (
      raised hc (worst_code (code_of set) sets) set sets (below e)
        (worst_code-IsWorst (code_of set) sets))
  | inr e ↦
      subst (IsWorst hc (set ∷ sets)) (rw e refl)
        (kept hc (worst_code hc sets) set sets (above e) (worst_code-IsWorst hc sets))
]
  where
    below : ltb_ℤ hc (code_of set) ≡ true → hc ≤ℤ code_of set
    below e = ground arith

    above : ltb_ℤ hc (code_of set) ≡ false → code_of set ≤ℤ hc
    above e = ground arith

-- The level is that of a code which no replica set exceeds, and which is that of some replica set,
-- or that of a healthy one.
pub cluster_health_level-worst :
    (s : Snapshot)
    → (w : ℤ) × (cluster_health_level s ≡ level_of_code w)
      × All (Below w) s.replica_sets
      × ((w ≡ pos 0) ⊎ ((set : ReplicaSet) × Memᴰ set s.replica_sets × (code_of set ≡ w)))
unfolding cluster_health_level
cluster_health_level-worst s =
    let (a, b, c) = worst_code-IsWorst (pos 0) s.replica_sets in
    (worst_code (pos 0) s.replica_sets, refl, b, c)

-- A replica set whose master is not known makes the level of the whole cluster unknown, also where
-- another replica set is red, as long as no code is beyond the known ones.
pub cluster_health_level-masterless :
    (s : Snapshot) (set : ReplicaSet) {e : Error}
    → Memᴰ set s.replica_sets
    → master set ≡ err e
    → All (Below (pos 4)) s.replica_sets
    → cluster_health_level s ≡ unknown
unfolding cluster_health_level health_status level_of_code
cluster_health_level-masterless s set m k h =
    let w = worst_code (pos 0) s.replica_sets in
    let (a, b, c) = worst_code-IsWorst (pos 0) s.replica_sets in
    unknown_level w (subst (λ x. x ≤ℤ w) four (All-of_mem (Below w) s.replica_sets b m))
      (bounded w c)
  where
    four : code_of set ≡ pos 4
    four = rw (code_of, k) refl

    bounded :
        (w : ℤ)
        → ((w ≡ pos 0) ⊎ ((set : ReplicaSet) × Memᴰ set s.replica_sets × (code_of set ≡ w)))
        → w ≤ℤ pos 4
    bounded w (inl z) = subst (λ x. x ≤ℤ pos 4) (sym z) (omega arith)
    bounded w (inr (t, n, z)) =
        subst (λ x. x ≤ℤ pos 4) z (All-of_mem (Below (pos 4)) s.replica_sets h n)

    unknown_level : (w : ℤ) → pos 4 ≤ℤ w → w ≤ℤ pos 4 → level_of_code w ≡ unknown
    unknown_level w p q = ground arith
