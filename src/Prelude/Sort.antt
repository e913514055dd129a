-- ===== src/Prelude/Sort.antt =====
-- What the program relies on of Go's `sort.Sort` and `sort.Slice`. Which pairs they compare, and
-- where equal elements end up, is not documented: a client takes a `Sorter` as a parameter. A
-- comparison that panics is `none`, and so is a sort in which one was made.
pub mod Insertion
pub mod Texts
use mathlib.Core.Path.{◌≡◌}
use mathlib.Core.Logic.{◌⊎◌}
use mathlib.Core.Bool.{Bool, true, false}
use mathlib.Core.Option.{Option, some}
use mathlib.Core.List.{List, Permᴰ}
use qumomf.Prelude.Lists.{All, Ordered}

-- A strict weak order on the elements that satisfy `P`.
pub record IsStrictWeak {A : Type 0} (P : A → Type 0) (lt : A → A → Bool) : Type 0 where
  pub irrefl : (x : A) → P x → lt x x ≡ false
  pub trans : (x y z : A) → P x → P y → P z → lt x y ≡ true → lt y z ≡ true → lt x z ≡ true
  pub cotrans : (x y z : A) → P x → P y → P z → lt x z ≡ true → (lt x y ≡ true) ⊎ (lt y z ≡ true)

-- `less` answers as `lt` does, with no panic, on the elements that satisfy `P`.
abbrev pub Answers : {A : Type 0} → (A → Type 0) → (A → A → Option Bool) → (A → A → Bool) → Type 0
Answers {A} P less lt = (x y : A) → P x → P y → less x y ≡ some (lt x y)

abbrev pub NotAbove : {A : Type 0} → (A → A → Bool) → A → A → Type 0
NotAbove lt x y = lt y x ≡ false

pub record Sorter (A : Type 0) : Type 1 where
  pub sort : (A → A → Option Bool) → List A → Option (List A)
  -- The result is a rearrangement.
  pub sort_perm :
      (less : A → A → Option Bool) (xs ys : List A) → sort less xs ≡ some ys → Permᴰ xs ys
  -- Only a comparison of two elements can panic.
  pub sort_total :
      (less : A → A → Option Bool) (P : A → Type 0) (xs : List A)
      → ((x y : A) → P x → P y → (b : Bool) × (less x y ≡ some b))
      → All P xs
      → (ys : List A) × (sort less xs ≡ some ys)
  -- The result is ascending if the comparison is a strict weak order on the elements.
  pub sort_ordered :
      (less : A → A → Option Bool) (P : A → Type 0) (lt : A → A → Bool) (xs ys : List A)
      → IsStrictWeak P lt
      → Answers P less lt
      → All P xs
      → sort less xs ≡ some ys
      → Ordered (NotAbove lt) ys
