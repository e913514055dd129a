-- ===== src/Vshard/ReplicaSet/Same.antt =====
-- `SameAs` against what it is to mean: the same instances, in whatever order, with the same fields.
use mathlib.Core.List.Perm
use mathlib.Core.List.Permᴰ
use mathlib.Core.List.{Perm}
use mathlib.Core.HLevel.{⊥_prop}
use mathlib.Core.Logic.{∥∥₁_elim}
use mathlib.Core.Path.{subst}
use qumomf.Prelude.{
  ◌==◌, eq_iff, ◌≡◌, refl, sym, ap, ◌∙◌, ◌↔◌, Bool, true, false, Bool-cases, inl, inr, some, List,
  [], ◌∷◌, Memᴰ, mem-perm, Permᴰ, All, All-of_mem, All-tabulate, Ordered, length, eqb,
}
use Prim.Native.String.{compare}
use text.Mathlib.Text.{is_lt}
use qumomf.Prelude.Sort.{Sorter, NotAbove, IsStrictWeak}
use qumomf.Prelude.Sort.Texts.{text_lt, text_lt-antisym, text_lt-IsStrictWeak, compare-text_lt}
use qumomf.Vshard.Instance.{Instance}
use qumomf.Vshard.ReplicaSet.{ReplicaSet, uuid_less, same_as}
use qumomf.Vshard.ReplicaSet.Laws.{length-perm, same_as-IsSame}
use qumomf.Prelude.{◌≢◌}
use qumomf.Vshard.ReplicaSet.Matched.{
  Matched, eqb_iff, Alike-Matched, Matched-all_same, length-Matched, Matched-perm,
}

-- The order of `sortInstances`.
abbrev before : Instance → Instance → Bool
before a b = text_lt a.uuid b.uuid

abbrev Any : Instance → Type 0
Any i = Unit

before-IsStrictWeak : IsStrictWeak Any before
before-IsStrictWeak = record {
  irrefl = λ a _. text_lt-IsStrictWeak.irrefl a.uuid tt;
  trans = λ a b c _ _ _. text_lt-IsStrictWeak.trans a.uuid b.uuid c.uuid tt tt tt;
  cotrans = λ a b c _ _ _. text_lt-IsStrictWeak.cotrans a.uuid b.uuid c.uuid tt tt tt;
}

abbrev IsAscending : List Instance → Type 0
IsAscending = Ordered (NotAbove before)

above-Matched :
    (a b : Instance) (xs ys : List Instance)
    → a.uuid ≡ b.uuid
    → Matched xs ys
    → All (NotAbove before a) xs
    → All (NotAbove before b) ys
above-Matched a b [] [] e h k = tt
above-Matched a b [] (y ∷ ys) e h k = elim h [ ]
above-Matched a b (x ∷ xs) [] e h k = elim h [ ]
above-Matched a b (x ∷ xs) (y ∷ ys) e (f, h) (k, l) =
    (rw (← e) (rw (← f.0) k), above-Matched a b xs ys e h l)

IsAscending-Matched : (xs ys : List Instance) → Matched xs ys → IsAscending xs → IsAscending ys
IsAscending-Matched [] [] h k = tt
IsAscending-Matched [] (y ∷ ys) h k = elim h [ ]
IsAscending-Matched (x ∷ xs) [] h k = elim h [ ]
IsAscending-Matched (x ∷ xs) (y ∷ ys) (f, h) (k, l) =
    (above-Matched x y xs ys f.0 h k, IsAscending-Matched xs ys h l)

-- Instances with the same UUID are the same.
abbrev HasUniqueUuids : List Instance → Type 0
HasUniqueUuids is = (a b : Instance) → Memᴰ a is → Memᴰ b is → a.uuid ≡ b.uuid → a ≡ b

-- No instance has the UUID of a later one.
abbrev pub HasDistinctUuids : List Instance → Type 0
HasDistinctUuids [] = Unit
HasDistinctUuids (i ∷ is) = All (λ (j : Instance). i.uuid ≢ j.uuid) is × HasDistinctUuids is

unique : (is : List Instance) → HasDistinctUuids is → HasUniqueUuids is
unique [] d a b m n e = elim m [ ]
unique (i ∷ is) d a b (Memᴰ.head p) (Memᴰ.head q) e = p ∙ sym q
unique (i ∷ is) d a b (Memᴰ.head p) (Memᴰ.tail n) e = absurd (
    All-of_mem (λ (j : Instance). i.uuid ≢ j.uuid) is d.0 n
      (ap (λ (x : Instance). x.uuid) (sym p) ∙ e))
unique (i ∷ is) d a b (Memᴰ.tail m) (Memᴰ.head q) e = absurd (
    All-of_mem (λ (j : Instance). i.uuid ≢ j.uuid) is d.0 m
      (ap (λ (x : Instance). x.uuid) (sym q) ∙ sym e))
unique (i ∷ is) d a b (Memᴰ.tail m) (Memᴰ.tail n) e = unique is d.1 a b m n e

module _ (is : List Instance) (unique : HasUniqueUuids is) where
  abbrev AllIn : List Instance → Type 0
  AllIn xs = All (λ x. Memᴰ x is) xs

  same_head :
      (x y : Instance) (xs ys : List Instance)
      → Perm (x ∷ xs) (y ∷ ys)
      → IsAscending (x ∷ xs)
      → IsAscending (y ∷ ys)
      → x.uuid ≡ y.uuid
  same_head x y xs ys p ox oy = elim (Bool-cases (x.uuid == y.uuid)) [
    | inl e ↦ (eq_iff x.uuid y.uuid).0 e
    | inr e ↦
        elim (∥∥₁_elim p ⊥_prop (λ d.
          differ e (mem-perm d (Memᴰ.head refl)) (mem-perm (Permᴰ.symm d) (Memᴰ.head refl)))) [ ]
  ]
    where
      differ : (x.uuid == y.uuid) ≡ false → Memᴰ x (y ∷ ys) → Memᴰ y (x ∷ xs) → ⊥
      differ e (Memᴰ.head q) n =
          let k = (eq_iff x.uuid y.uuid).1 (ap (λ (i : Instance). i.uuid) q) in cc
      differ e (Memᴰ.tail m) (Memᴰ.head q) =
          let k = (eq_iff x.uuid y.uuid).1 (ap (λ (i : Instance). i.uuid) (sym q)) in cc
      differ e (Memᴰ.tail m) (Memᴰ.tail n) =
          let k = (eq_iff x.uuid y.uuid).1 (
            text_lt-antisym x.uuid y.uuid (All-of_mem (NotAbove before y) ys oy.0 m)
              (All-of_mem (NotAbove before x) xs ox.0 n)) in
          cc

  ascending_unique :
      (xs ys : List Instance)
      → Perm xs ys
      → AllIn xs
      → AllIn ys
      → IsAscending xs
      → IsAscending ys
      → xs ≡ ys
  ascending_unique [] ys p ix iy ox oy = Perm.nil-eq p
  ascending_unique (x ∷ xs) [] p ix iy ox oy = Perm.eq-nil p
  ascending_unique (x ∷ xs) (y ∷ ys) p ix iy ox oy =
      let e : x ≡ y = unique x y ix.0 iy.0 (same_head x y xs ys p ox oy) in
      let q : Perm xs ys = Perm.cons_inv (subst (λ z. Perm (x ∷ xs) (z ∷ ys)) (sym e) p) in
      ap (λ z. z ∷ xs) e ∙ ap (λ zs. y ∷ zs) (ascending_unique xs ys q ix.1 iy.1 ox.1 oy.1)

-- Two sets are the same: their UUIDs and masters, and the counted fields of their instances once those
-- of one set are rearranged.
abbrev pub IsSameSet : ReplicaSet → ReplicaSet → Type 0
IsSameSet set another =
    (set.uuid ≡ another.uuid)
    × (set.master_uuid ≡ another.master_uuid)
    × ((ys : List Instance) × Permᴰ another.instances ys × Matched set.instances ys)

module _ (sorter : Sorter Instance) where
  sorted : (is : List Instance) → (xs : List Instance) × (sorter.sort uuid_less is ≡ some xs)
  unfolding uuid_less
  sorted is =
      sorter.sort_total uuid_less Any is (λ x y p q. (is_lt (compare x.uuid y.uuid), refl))
        (All-tabulate Any is (λ i m. tt))

  sorted-IsAscending : (is xs : List Instance) → sorter.sort uuid_less is ≡ some xs → IsAscending xs
  unfolding uuid_less
  sorted-IsAscending is xs e =
      sorter.sort_ordered uuid_less Any before is xs before-IsStrictWeak
        (λ x y p q. ap (λ b. some b) (compare-text_lt x.uuid y.uuid))
        (All-tabulate Any is (λ i m. tt)) e

  -- The sorted instances of two sets that are the same are alike one by one.
  sorted-Matched :
      (is js ys xs zs : List Instance)
      → HasUniqueUuids js
      → Permᴰ js ys
      → Matched is ys
      → sorter.sort uuid_less is ≡ some xs
      → sorter.sort uuid_less js ≡ some zs
      → Matched xs zs
  sorted-Matched is js ys xs zs unique p h ex ez =
      let (ys', q, k) = Matched-perm ys (sorter.sort_perm uuid_less is xs ex) h in
      let pz = sorter.sort_perm uuid_less js zs ez in
      let to_ys' : Permᴰ js ys' = Permᴰ.trans p q in
      let same : ys' ≡ zs =
        ascending_unique js unique ys' zs ∣ Permᴰ.trans (Permᴰ.symm to_ys') pz ∣₁
          (All-tabulate (λ x. Memᴰ x js) ys' (λ x m. mem-perm (Permᴰ.symm to_ys') m))
          (All-tabulate (λ x. Memᴰ x js) zs (λ x m. mem-perm (Permᴰ.symm pz) m))
          (IsAscending-Matched xs ys' k (sorted-IsAscending is xs ex))
          (sorted-IsAscending js zs ez) in
      subst (Matched xs) same k

  -- If no two instances of the other set share a UUID, the comparison answers that two sets are the
  -- same exactly if they have the same UUID and the same master, and their instances, in whatever
  -- order, agree in pairs on their UUID, URI, configuration, id, mode, replication status and code.
  pub same_as_iff :
      (set another : ReplicaSet)
      → HasDistinctUuids another.instances
      → ((set' : ReplicaSet) × (another' : ReplicaSet) × (same_as sorter set another
            ≡ some (true, set', another')))
        ↔ IsSameSet set another
  unfolding same_as
  same_as_iff set another distinct = (
    (λ (set', another', e).
        let (u, m, p, q, alike) = same_as-IsSame sorter set another e in
        let (ys, r, k) =
          Matched-perm another'.instances (Permᴰ.symm p)
            (Alike-Matched set'.instances another'.instances alike) in
        (u, m, (ys, Permᴰ.trans q r, k))),
    λ (u, m, (ys, p, h)).
        let (xs, ex) = sorted set.instances in
        let (zs, ez) = sorted another.instances in
        let matched =
          sorted-Matched set.instances another.instances ys xs zs
            (unique another.instances distinct) p h ex ez in
        let lengths : eqb (length set.instances) (length another.instances) ≡ true =
          (eqb_iff _ _).1 (length-Matched set.instances ys h ∙ sym (length-perm p)) in
        (
          record set { instances = xs },
          record another { instances = zs },
          rw
              (
                (eq_iff set.uuid another.uuid).1 u,
                (eq_iff set.master_uuid another.master_uuid).1 m,
                lengths,
                ex,
                ez,
                Matched-all_same xs zs matched,
              )
              refl,
        ),
  )
