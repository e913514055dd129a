-- ===== src/Prelude/Sort/Insertion.antt =====
-- A sorter: insertion sort. It shows that what a `Sorter` promises can be kept, and runs in tests.
use mathlib.Core.Path.{◌≡◌, refl, sym, subst, ◌∙◌}
use mathlib.Core.Logic.{◌⊎◌, inl, inr}
use mathlib.Core.Bool.{Bool, true, false}
use mathlib.Core.Option.{Option, none, some}
use mathlib.Core.List.{List, [], ◌∷◌, Permᴰ}
use mathlib.Core.List.Permᴰ
use qumomf.Prelude.Lists.{All, Ordered, All-perm}
use qumomf.Prelude.Tests.{Bool-cases, some_eq}
use qumomf.Prelude.Sort.{IsStrictWeak, Answers, NotAbove, Sorter}

module _ {A : Type 0} where
  abbrev pub behind : A → Option (List A) → Option (List A)
  behind y none = none
  behind y (some zs) = some (y ∷ zs)

  abbrev pub place : Option Bool → A → A → List A → Option (List A) → Option (List A)
  place none x y ys rest = none
  place (some true) x y ys rest = some (x ∷ y ∷ ys)
  place (some false) x y ys rest = behind y rest

  pub insert : (A → A → Option Bool) → A → List A → Option (List A)
  insert less x [] = some (x ∷ [])
  insert less x (y ∷ ys) = let rest = insert less x ys in place (less x y) x y ys rest

  abbrev pub insert_into : (A → A → Option Bool) → A → Option (List A) → Option (List A)
  insert_into less x none = none
  insert_into less x (some ys) = insert less x ys

  pub insertion_sort : (A → A → Option Bool) → List A → Option (List A)
  unfolding insert
  insertion_sort less [] = some []
  insertion_sort less (x ∷ xs) = insert_into less x (insertion_sort less xs)

  place-eq_some :
      (d : Option Bool) (x y : A) (ys : List A) (r : Option (List A)) (zs : List A)
      → place d x y ys r ≡ some zs
      → (d ≡ some true) × (zs ≡ x ∷ y ∷ ys)
        ⊎ (d ≡ some false) × ((ws : List A) × (r ≡ some ws) × (zs ≡ y ∷ ws))
  place-eq_some none x y ys r zs h = cc
  place-eq_some (some true) x y ys r zs h = inl (refl, cc)
  place-eq_some (some false) x y ys none zs h = cc
  place-eq_some (some false) x y ys (some ws) zs h = inr (refl, (ws, refl, cc))

  insert_into-eq_some :
      (less : A → A → Option Bool) (x : A) (r : Option (List A)) (zs : List A)
      → insert_into less x r ≡ some zs
      → (ys : List A) × (r ≡ some ys) × (insert less x ys ≡ some zs)
  insert_into-eq_some less x none zs h = cc
  insert_into-eq_some less x (some ys) zs h = (ys, refl, h)

  insert_perm :
      (less : A → A → Option Bool) (x : A) (ys zs : List A)
      → insert less x ys ≡ some zs
      → Permᴰ (x ∷ ys) zs
  unfolding insert
  insert_perm less x [] zs h = subst (Permᴰ (x ∷ [])) (some_eq h) (Permᴰ.refl (x ∷ []))
  insert_perm less x (y ∷ ys) zs h =
      elim (place-eq_some (less x y) x y ys (insert less x ys) zs h) [
        | inl (d, e) ↦ rw e (Permᴰ.refl (x ∷ y ∷ ys))
        | inr (d, (ws, r, e)) ↦
            rw e (Permᴰ.trans (Permᴰ.swap refl refl) (Permᴰ.cons refl (insert_perm less x ys ws r)))
      ]

  pub sort_perm :
      (less : A → A → Option Bool) (xs ys : List A) → insertion_sort less xs ≡ some ys → Permᴰ xs ys
  unfolding insertion_sort
  sort_perm less [] ys h = subst (Permᴰ []) (some_eq h) Permᴰ.nil
  sort_perm less (x ∷ xs) ys h =
      let (ws, r, e) = insert_into-eq_some less x (insertion_sort less xs) ys h in
      Permᴰ.trans (Permᴰ.cons refl (sort_perm less xs ws r)) (insert_perm less x ws ys e)

  module _ (less : A → A → Option Bool) (P : A → Type 0) where
    abbrev pub Decides : Type 0
    Decides = (x y : A) → P x → P y → (b : Bool) × (less x y ≡ some b)

    insert_total :
        Decides
        → (x : A) (ys : List A) → P x
        → All P ys
        → (zs : List A) × (insert less x ys ≡ some zs)
    unfolding insert
    insert_total d x [] p ps = (x ∷ [], refl)
    insert_total d x (y ∷ ys) p ps = step (d x y p ps.0) (insert_total d x ys p ps.1)
      where
        step :
            (b : Bool) × (less x y ≡ some b)
            → (zs : List A) × (insert less x ys ≡ some zs)
            → (zs : List A) × (place (less x y) x y ys (insert less x ys) ≡ some zs)
        step (true, e) r = (x ∷ y ∷ ys, rw e)
        step (false, e) (zs, r) = (y ∷ zs, rw (e, r))

    pub sort_total :
        (xs : List A) → Decides → All P xs → (ys : List A) × (insertion_sort less xs ≡ some ys)
    unfolding insertion_sort
    sort_total [] d ps = ([], refl)
    sort_total (x ∷ xs) d ps =
        let (ys, e) = sort_total xs d ps.1 in
        let (zs, f) = insert_total d x ys ps.0 (All-perm P (sort_perm less xs ys e) ps.1) in
        (zs, rw e f)

    module _ (lt : A → A → Bool) (sw : IsStrictWeak P lt) (ans : Answers P less lt) where
      not_both : (x y : A) → P x → P y → lt x y ≡ true → lt y x ≡ false
      not_both x y p q h = elim (Bool-cases (lt y x)) [
        | inl k ↦ cc (sw.trans x y x p q p h k, sw.irrefl x p)
        | inr k ↦ k
      ]

      above-All :
          (x y : A) (zs : List A)
          → P x
          → P y
          → All P zs
          → lt x y ≡ true
          → All (NotAbove lt y) zs
          → All (NotAbove lt x) zs
      above-All x y [] p q r h k = tt
      above-All x y (z ∷ zs) p q r h k = (
        elim (Bool-cases (lt z x)) [ inl e ↦ cc (sw.trans z x y r.0 p q e h, k.0) | inr e ↦ e ],
        above-All x y zs p q r.1 h k.1,
      )

      insert-Ordered :
          (x : A) (ys zs : List A)
          → P x
          → All P ys
          → Ordered (NotAbove lt) ys
          → insert less x ys ≡ some zs
          → Ordered (NotAbove lt) zs
      unfolding insert
      insert-Ordered x [] zs p ps o h = subst (Ordered (NotAbove lt)) (some_eq h) (tt, tt)
      insert-Ordered x (y ∷ ys) zs p ps o h =
          elim (place-eq_some (less x y) x y ys (insert less x ys) zs h) [
            | inl (d, e) ↦ rw e (
                let first = some_eq (sym (ans x y p ps.0) ∙ d) in
                ((not_both x y p ps.0 first, above-All x y ys p ps.0 ps.1 first o.0), o))
            | inr (d, (ws, r, e)) ↦ rw e (
              All-perm (NotAbove lt y) (insert_perm less x ys ws r)
                  (some_eq (sym (ans x y p ps.0) ∙ d), o.0),
              insert-Ordered x ys ws p ps.1 o.1 r,
            )
          ]

      pub sort-Ordered :
          (xs ys : List A) → All P xs → insertion_sort less xs ≡ some ys → Ordered (NotAbove lt) ys
      unfolding insertion_sort
      sort-Ordered [] ys ps h = subst (Ordered (NotAbove lt)) (some_eq h) tt
      sort-Ordered (x ∷ xs) ys ps h =
          let (ws, r, e) = insert_into-eq_some less x (insertion_sort less xs) ys h in
          insert-Ordered x ws ys ps.0 (All-perm P (sort_perm less xs ws r) ps.1)
            (sort-Ordered xs ws ps.1 r) e

-- Insertion sort keeps every promise of a sorter.
unfoldable pub insertion : {A : Type 0} → Sorter A
unfolding insertion_sort
insertion = record {
  sort = insertion_sort;
  sort_perm = sort_perm;
  sort_total = λ less P xs. sort_total less P xs;
  sort_ordered = λ less P lt xs ys sw ans. sort-Ordered less P lt sw ans xs ys;
}
