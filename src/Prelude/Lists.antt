-- ===== src/Prelude/Lists.antt =====
-- Lists measured by native numbers, Boolean filters, and predicates on the elements of a list.
use Prim.Native.Nat.{ℕ, suc}
use mathlib.Core.Path.{◌≡◌, refl, subst, sym, ap, ◌∙◌}
use mathlib.Core.Logic.{◌⊎◌, inl, inr}
use mathlib.Core.Bool.{Bool, true, false}
use mathlib.Core.List.Permᴰ
use mathlib.Core.List.{List, [], ◌∷◌, ◌++◌, Memᴰ, Permᴰ}
use mathlib.Core.Option.{Option, none, some}
use qumomf.Prelude.Tests.{if◌then◌else◌, Bool-cases}

module _ {ℓ} {A : Type ℓ} where
  abbrev pub length : List A → ℕ
  length [] = 0
  length (x ∷ xs) = suc (length xs)

  -- The elements that pass a test, in order: a loop with `continue` and `append`.
  unfoldable pub filter : (A → Bool) → List A → List A
  filter p [] = []
  filter p (x ∷ xs) = let rest = filter p xs in if p x then x ∷ rest else rest

  -- The first element that passes a test: a loop with `return`.
  unfoldable pub find : (A → Bool) → List A → Option A
  find p [] = none
  find p (x ∷ xs) = let rest = find p xs in if p x then some x else rest

  -- Does some element pass a test?
  unfoldable pub exists : (A → Bool) → List A → Bool
  exists p [] = false
  exists p (x ∷ xs) = let rest = exists p xs in if p x then true else rest

  -- How many elements pass a test.
  unfoldable pub count : (A → Bool) → List A → ℕ
  count p [] = 0
  count p (x ∷ xs) = let rest = count p xs in if p x then suc rest else rest

  abbrev pub head? : List A → Option A
  head? [] = none
  head? (x ∷ xs) = some x

module _ {ℓ κ} {A : Type ℓ} where
  abbrev pub All : (A → Type κ) → List A → Type κ
  All P [] = Unit
  All P (x ∷ xs) = P x × All P xs

  -- Every earlier element stands in the relation to every later one.
  abbrev pub Ordered : (A → A → Type κ) → List A → Type κ
  Ordered R [] = Unit
  Ordered R (x ∷ xs) = All (R x) xs × Ordered R xs

  pub All-of_mem : (P : A → Type κ) (xs : List A) {a : A} → All P xs → Memᴰ a xs → P a
  All-of_mem P [] h m = elim m [ ]
  All-of_mem P (x ∷ xs) h (Memᴰ.head e) = subst P (sym e) h.0
  All-of_mem P (x ∷ xs) h (Memᴰ.tail m) = All-of_mem P xs h.1 m

  pub All-tabulate : (P : A → Type κ) (xs : List A) → ((a : A) → Memᴰ a xs → P a) → All P xs
  All-tabulate P [] f = tt
  All-tabulate P (x ∷ xs) f = (f x (Memᴰ.head refl), All-tabulate P xs (λ a m. f a (Memᴰ.tail m)))

  pub All-perm : (P : A → Type κ) {xs ys : List A} → Permᴰ xs ys → All P xs → All P ys
  All-perm P Permᴰ.nil h = h
  All-perm P (Permᴰ.cons e p) h = (subst P e h.0, All-perm P p h.1)
  All-perm P (Permᴰ.swap e f) h = (subst P f h.1.0, (subst P e h.0, h.1.1))
  All-perm P (Permᴰ.trans p q) h = All-perm P q (All-perm P p h)

module _ {ℓ} {A : Type ℓ} where
  pub mem-perm : {a : A} {xs ys : List A} → Permᴰ xs ys → Memᴰ a xs → Memᴰ a ys
  mem-perm Permᴰ.nil m = elim m [ ]
  mem-perm (Permᴰ.cons e p) (Memᴰ.head q) = Memᴰ.head (q ∙ e)
  mem-perm (Permᴰ.cons e p) (Memᴰ.tail m) = Memᴰ.tail (mem-perm p m)
  mem-perm (Permᴰ.swap e f) (Memᴰ.head q) = Memᴰ.tail (Memᴰ.head (q ∙ e))
  mem-perm (Permᴰ.swap e f) (Memᴰ.tail (Memᴰ.head q)) = Memᴰ.head (q ∙ f)
  mem-perm (Permᴰ.swap e f) (Memᴰ.tail (Memᴰ.tail m)) = Memᴰ.tail (Memᴰ.tail m)
  mem-perm (Permᴰ.trans p q) m = mem-perm q (mem-perm p m)

  pub mem_append_left : {a : A} (xs ys : List A) → Memᴰ a xs → Memᴰ a (xs ++ ys)
  mem_append_left [] ys m = elim m [ ]
  mem_append_left (x ∷ xs) ys (Memᴰ.head q) = Memᴰ.head q
  mem_append_left (x ∷ xs) ys (Memᴰ.tail m) = Memᴰ.tail (mem_append_left xs ys m)

  pub mem_append_right : {a : A} (xs ys : List A) → Memᴰ a ys → Memᴰ a (xs ++ ys)
  mem_append_right [] ys m = m
  mem_append_right (x ∷ xs) ys m = Memᴰ.tail (mem_append_right xs ys m)

  pub mem-append : {a : A} (xs ys : List A) → Memᴰ a (xs ++ ys) → Memᴰ a xs ⊎ Memᴰ a ys
  mem-append [] ys m = inr m
  mem-append (x ∷ xs) ys (Memᴰ.head q) = inl (Memᴰ.head q)
  mem-append (x ∷ xs) ys (Memᴰ.tail m) = elim (mem-append xs ys m) [
    | inl l ↦ inl (Memᴰ.tail l)
    | inr r ↦ inr r
  ]

  pub filter-cons_true :
      (p : A → Bool) (x : A) (xs : List A) → p x ≡ true → filter p (x ∷ xs) ≡ x ∷ filter p xs
  unfolding filter
  filter-cons_true p x xs e = rw e

  pub filter-cons_false :
      (p : A → Bool) (x : A) (xs : List A) → p x ≡ false → filter p (x ∷ xs) ≡ filter p xs
  unfolding filter
  filter-cons_false p x xs e = rw e

  -- What a filter keeps is what passes the test, and only that.
  pub mem-filter :
      (p : A → Bool) (xs : List A) {a : A} → Memᴰ a (filter p xs) → Memᴰ a xs × (p a ≡ true)
  unfolding filter
  mem-filter p [] m = elim m [ ]
  mem-filter p (x ∷ xs) {a} m = elim (Bool-cases (p x)) [
    | inl e ↦ kept e (subst (Memᴰ a) (filter-cons_true p x xs e) m) (mem-filter p xs)
    | inr e ↦ dropped (mem-filter p xs (subst (Memᴰ a) (filter-cons_false p x xs e) m))
  ]
    where
      dropped : Memᴰ a xs × (p a ≡ true) → Memᴰ a (x ∷ xs) × (p a ≡ true)
      dropped r = (Memᴰ.tail r.0, r.1)

      kept :
          p x ≡ true
          → Memᴰ a (x ∷ filter p xs)
          → (Memᴰ a (filter p xs) → Memᴰ a xs × (p a ≡ true))
          → Memᴰ a (x ∷ xs) × (p a ≡ true)
      kept e (Memᴰ.head q) ih = (Memᴰ.head q, rw q e)
      kept e (Memᴰ.tail t) ih = dropped (ih t)

  pub filter-mem :
      (p : A → Bool) (xs : List A) {a : A} → Memᴰ a xs → p a ≡ true → Memᴰ a (filter p xs)
  filter-mem p [] m h = elim m [ ]
  filter-mem p (x ∷ xs) {a} (Memᴰ.head q) h =
      subst (Memᴰ a) (sym (filter-cons_true p x xs (rw (← q) h))) (Memᴰ.head q)
  filter-mem p (x ∷ xs) {a} (Memᴰ.tail m) h = elim (Bool-cases (p x)) [
    | inl e ↦ subst (Memᴰ a) (sym (filter-cons_true p x xs e)) (Memᴰ.tail (filter-mem p xs m h))
    | inr e ↦ subst (Memᴰ a) (sym (filter-cons_false p x xs e)) (filter-mem p xs m h)
  ]

  keep_if :
      (p : A → Bool) {a b : A} {xs ys : List A}
      → a ≡ b
      → Permᴰ xs ys
      → Permᴰ (if p a then a ∷ xs else xs) (if p b then b ∷ ys else ys)
  keep_if p {a} {b} {xs} {ys} e q = at (p a) (p b) (ap p e)
    where
      at : (s t : Bool) → s ≡ t → Permᴰ (if s then a ∷ xs else xs) (if t then b ∷ ys else ys)
      at true true h = Permᴰ.cons e q
      at false false h = q
      at true false h = cc
      at false true h = cc

  swap_if :
      (p : A → Bool) (a b : A) (l : List A) → Permᴰ (filter p (a ∷ b ∷ l)) (filter p (b ∷ a ∷ l))
  unfolding filter
  swap_if p a b l = at (p a) (p b)
    where
      at :
          (s t : Bool)
          → Permᴰ
              (if s
                then a ∷ (if t then b ∷ filter p l else filter p l)
                else if t
                then b ∷ filter p l
                else filter p l)
              (if t
                then b ∷ (if s then a ∷ filter p l else filter p l)
                else if s
                then a ∷ filter p l
                else filter p l)
      at true true = Permᴰ.swap refl refl
      at true false = Permᴰ.refl _
      at false true = Permᴰ.refl _
      at false false = Permᴰ.refl _

  -- A filter does not ask for an order.
  pub filter-perm :
      (p : A → Bool) {xs ys : List A} → Permᴰ xs ys → Permᴰ (filter p xs) (filter p ys)
  unfolding filter
  filter-perm p Permᴰ.nil = Permᴰ.nil
  filter-perm p (Permᴰ.cons e q) = keep_if p e (filter-perm p q)
  filter-perm p (Permᴰ.swap {a = a} {b = b} {a' = a2} {b' = b2} {l = l} e f) =
      subst (λ z. Permᴰ (filter p (a ∷ b ∷ l)) (filter p (z ∷ b2 ∷ l))) f
        (subst (λ z. Permᴰ (filter p (a ∷ b ∷ l)) (filter p (b ∷ z ∷ l))) e (swap_if p a b l))
  filter-perm p (Permᴰ.trans q r) = Permᴰ.trans (filter-perm p q) (filter-perm p r)
