-- ===== src/Prelude/Counting.antt =====
-- What a count over a list says of its elements.
use Prim.Native.Nat.{suc, ◌≤◌}
use mathlib.Core.Path.{◌≡◌, refl}
use mathlib.Core.Logic.{inl, inr}
use mathlib.Core.Bool.{Bool, true, false}
use mathlib.Core.List.{List, [], ◌∷◌}
use native.Mathlib.Omega.{arith}
use qumomf.Prelude.Tests.{Bool-cases}
use qumomf.Prelude.Lists.{length, count, All}

module _ {A : Type 0} (p : A → Bool) where
  abbrev pub NonePass : List A → Type 0
  NonePass = All (λ x. p x ≡ false)

  abbrev pub AllPass : List A → Type 0
  AllPass = All (λ x. p x ≡ true)

  pub count-cons_true : (x : A) (xs : List A) → p x ≡ true → count p (x ∷ xs) ≡ suc (count p xs)
  unfolding count
  count-cons_true x xs e = rw e

  pub count-cons_false : (x : A) (xs : List A) → p x ≡ false → count p (x ∷ xs) ≡ count p xs
  unfolding count
  count-cons_false x xs e = rw e

  pub count-le-length : (xs : List A) → count p xs ≤ length xs
  unfolding count
  count-le-length [] = omega arith
  count-le-length (x ∷ xs) = ground (arith, count-le-length xs)

  pub NonePass-of_count : (xs : List A) → count p xs ≡ 0 → NonePass xs
  NonePass-of_count [] h = tt
  NonePass-of_count (x ∷ xs) h = elim (Bool-cases (p x)) [
    | inl e ↦ absurd (omega (arith, count-cons_true x xs e))
    | inr e ↦ (e, NonePass-of_count xs (omega (arith, count-cons_false x xs e)))
  ]

  pub count-of_NonePass : (xs : List A) → NonePass xs → count p xs ≡ 0
  unfolding count
  count-of_NonePass [] h = refl
  count-of_NonePass (x ∷ xs) h = rw h.0 (count-of_NonePass xs h.1)

  pub AllPass-of_count : (xs : List A) → length xs ≤ count p xs → AllPass xs
  AllPass-of_count [] h = tt
  AllPass-of_count (x ∷ xs) h = elim (Bool-cases (p x)) [
    | inl e ↦ (e, AllPass-of_count xs (omega (arith, count-cons_true x xs e)))
    | inr e ↦ absurd (omega (arith, count-cons_false x xs e, count-le-length xs))
  ]

  pub count-of_AllPass : (xs : List A) → AllPass xs → count p xs ≡ length xs
  unfolding count
  count-of_AllPass [] h = refl
  count-of_AllPass (x ∷ xs) h = rw h.0 (omega (arith, count-of_AllPass xs h.1))

-- A stronger test passes less often.
pub count_mono :
    {A : Type 0} (p q : A → Bool)
    → ((x : A) → p x ≡ true → q x ≡ true)
    → (xs : List A) → count p xs ≤ count q xs
count_mono p q f [] = unfold count in omega arith
count_mono p q f (x ∷ xs) = elim (Bool-cases (p x)) [
  | inl e ↦
      omega (arith, count-cons_true p x xs e, count-cons_true q x xs (f x e), count_mono p q f xs)
  | inr e ↦ elim (Bool-cases (q x)) [
    | inl k ↦
        omega (arith, count-cons_false p x xs e, count-cons_true q x xs k, count_mono p q f xs)
    | inr k ↦
        omega (arith, count-cons_false p x xs e, count-cons_false q x xs k, count_mono p q f xs)
  ]
]

pub nil-of_length : {A : Type 0} (xs : List A) → length xs ≡ 0 → xs ≡ []
nil-of_length [] h = refl
nil-of_length (x ∷ xs) h = absurd (omega arith)
