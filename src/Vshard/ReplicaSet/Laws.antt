-- ===== src/Vshard/ReplicaSet/Laws.antt =====
-- When two replica sets count as the same.
use qumomf.Prelude.{
  suc, ◌==◌, eq_iff, ◌≡◌, refl, sym, ap, ◌∙◌, Bool, true, false, not, Bool-cases, inl, inr, Option,
  none, some, some_eq, List, [], ◌∷◌, Permᴰ, length, eqb, arith, if◌then◌else◌,
}
use mathlib.Core.Path.{subst}
use qumomf.Prelude.Sort.{Sorter}
use qumomf.Vshard.Instance.{Instance, same_instance}
use qumomf.Vshard.ReplicaSet.{ReplicaSet, uuid_less, all_same, same_as, compare_sorted}

-- Instance by instance, the same.
abbrev pub Alike : List Instance → List Instance → Type 0
Alike [] [] = Unit
Alike (a ∷ as') (b ∷ bs) = (same_instance a b ≡ true) × Alike as' bs
Alike _ _ = ⊥

pub length-perm : {xs ys : List Instance} → Permᴰ xs ys → length xs ≡ length ys
length-perm Permᴰ.nil = refl
length-perm (Permᴰ.cons e p) = ap suc (length-perm p)
length-perm (Permᴰ.swap e f) = refl
length-perm (Permᴰ.trans p q) = length-perm p ∙ length-perm q

all_same-Alike :
    (xs ys : List Instance) → length xs ≡ length ys → all_same xs ys ≡ true → Alike xs ys
unfolding all_same
all_same-Alike [] [] l h = tt
all_same-Alike [] (b ∷ bs) l h = omega arith
all_same-Alike (a ∷ as') [] l h = omega arith
all_same-Alike (a ∷ as') (b ∷ bs) l h = elim (Bool-cases (same_instance a b)) [
  | inl e ↦ (e, all_same-Alike as' bs (omega arith) (ground arith))
  | inr e ↦ ground arith
]

module _ (sorter : Sorter Instance) (set another : ReplicaSet) where
  -- Both sets after the comparison are the old ones with their instances rearranged, and alike.
  abbrev pub IsSame : ReplicaSet → ReplicaSet → Type 0
  IsSame set' another' =
      (set.uuid ≡ another.uuid)
      × (set.master_uuid ≡ another.master_uuid)
      × Permᴰ set.instances set'.instances
      × Permᴰ another.instances another'.instances
      × Alike set'.instances another'.instances

  compared :
      (a b : Option (List Instance)) {set' another' : ReplicaSet}
      → set.uuid ≡ another.uuid
      → set.master_uuid ≡ another.master_uuid
      → length set.instances ≡ length another.instances
      → sorter.sort uuid_less set.instances ≡ a
      → sorter.sort uuid_less another.instances ≡ b
      → compare_sorted sorter set another a b ≡ some (true, set', another')
      → IsSame set' another'
  compared (some xs) (some ys) {set'} {another'} u m l p q h =
      let px : Permᴰ set.instances xs = sorter.sort_perm uuid_less set.instances xs p in
      let py : Permᴰ another.instances ys = sorter.sort_perm uuid_less another.instances ys q in
      let same : all_same xs ys ≡ true = ap (λ r. r.0) (some_eq h) in
      let ex : xs ≡ set'.instances = ap (λ r. r.1.instances) (some_eq h) in
      let ey : ys ≡ another'.instances = ap (λ r. r.2.instances) (some_eq h) in
      let alike : Alike xs ys =
        all_same-Alike xs ys (sym (length-perm px) ∙ l ∙ length-perm py) same in
      (
        u,
        m,
        subst (λ zs. Permᴰ set.instances zs) ex px,
        subst (λ zs. Permᴰ another.instances zs) ey py,
        subst (λ zs. Alike set'.instances zs) ey (subst (λ zs. Alike zs ys) ex alike),
      )
  compared none b u m l p q h = cc
  compared (some xs) none u m l p q h = cc

  -- Sets that count as the same have the same UUID and the same master, and after the sorting,
  -- which only rearranges the instances of both, their instances are alike one by one.
  pub same_as-IsSame :
      {set' another' : ReplicaSet}
      → same_as sorter set another ≡ some (true, set', another')
      → IsSame set' another'
  unfolding same_as
  same_as-IsSame {set'} {another'} h = uuids (set.uuid == another.uuid) refl h
    where
      rest : Option (Bool × ReplicaSet × ReplicaSet)
      rest =
          compare_sorted sorter set another (sorter.sort uuid_less set.instances)
            (sorter.sort uuid_less another.instances)

      lengths :
          (b : Bool)
          → eqb (length set.instances) (length another.instances) ≡ b
          → set.uuid ≡ another.uuid
          → set.master_uuid ≡ another.master_uuid
          → (if not b then some (false, set, another) else rest) ≡ some (true, set', another')
          → IsSame set' another'
      lengths true e u m k =
          compared (sorter.sort uuid_less set.instances) (sorter.sort uuid_less another.instances) u
            m (ground arith) refl refl k
      lengths false e u m k = cc

      masters :
          (b : Bool)
          → (set.master_uuid == another.master_uuid) ≡ b
          → set.uuid ≡ another.uuid
          → (if not b
              then some (false, set, another)
              else if not (eqb (length set.instances) (length another.instances))
              then some (false, set, another)
              else rest)
            ≡ some (true, set', another')
          → IsSame set' another'
      masters true e u k =
          lengths (eqb (length set.instances) (length another.instances)) refl u
            ((eq_iff set.master_uuid another.master_uuid).0 e) k
      masters false e u k = cc

      uuids :
          (b : Bool)
          → (set.uuid == another.uuid) ≡ b
          → (if not b
              then some (false, set, another)
              else if not (set.master_uuid == another.master_uuid)
              then some (false, set, another)
              else if not (eqb (length set.instances) (length another.instances))
              then some (false, set, another)
              else rest)
            ≡ some (true, set', another')
          → IsSame set' another'
      uuids true e k =
          masters (set.master_uuid == another.master_uuid) refl ((eq_iff set.uuid another.uuid).0 e)
            k
      uuids false e k = cc
