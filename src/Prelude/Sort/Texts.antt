-- ===== src/Prelude/Sort/Texts.antt =====
-- Texts in the order of their characters, a total order.
use Prim.Native.Char.{Char, code}
use Prim.Native.String.{String, [], ◌∷◌}
use Prim.Native.String.compare as text_order
use Prim.Native.String.{then as first_of, compare as compare_texts}
use text.Mathlib.Text.{is_lt}
use text.Mathlib.TextEquality.{codes_equal}
use Prim.Native.Nat.compare
use Prim.Native.Nat.{ℕ, zero, suc, compare, Ordering}
use native.Mathlib.Omega.{arith}
use mathlib.Core.Path.{◌≡◌, ap, refl, ◌∙◌, subst}
use mathlib.Core.Logic.{◌⊎◌, inl, inr}
use mathlib.Core.Bool.{Bool, true, false}
use qumomf.Prelude.Tests.{if◌then◌else◌, ltb, eqb}
use qumomf.Prelude.Sort.{IsStrictWeak}

abbrev pub text_lt : String → String → Bool
text_lt s [] = false
text_lt [] (d ∷ t) = true
text_lt (c ∷ s) (d ∷ t) =
    let rest = text_lt s t in
    if ltb (code c) (code d) then true else if eqb (code c) (code d) then rest else false

text_lt_irrefl : (s : String) → text_lt s s ≡ false
text_lt_irrefl [] = refl
text_lt_irrefl (c ∷ s) = let h = text_lt_irrefl s in ground arith

text_lt_trans : (s t u : String) → text_lt s t ≡ true → text_lt t u ≡ true → text_lt s u ≡ true
text_lt_trans s [] u h k = cc
text_lt_trans s (d ∷ t) [] h k = cc
text_lt_trans [] (d ∷ t) (e ∷ u) h k = refl
text_lt_trans (c ∷ s) (d ∷ t) (e ∷ u) h k = let ih = text_lt_trans s t u in ground arith

text_lt_cotrans :
    (s t u : String) → text_lt s u ≡ true → (text_lt s t ≡ true) ⊎ (text_lt t u ≡ true)
text_lt_cotrans s t [] h = cc
text_lt_cotrans s [] (e ∷ u) h = inr refl
text_lt_cotrans [] (d ∷ t) (e ∷ u) h = inl refl
text_lt_cotrans (c ∷ s) (d ∷ t) (e ∷ u) h = let ih = text_lt_cotrans s t u in ground arith

equal_codes : (n : ℕ) → compare n n ≡ Ordering.eq
equal_codes zero = refl
equal_codes (suc n) = compare.suc-suc n n ∙ equal_codes n

same_char : (c d : Char) → code c ≡ code d → c ≡ d
same_char c d e =
    codes_equal c d (subst (λ n. compare (code c) n ≡ Ordering.eq) e (equal_codes (code c)))

same_codes : (m n : ℕ) → ltb m n ≡ false → ltb n m ≡ false → m ≡ n
same_codes m n h k = ground arith

pub text_lt-antisym : (s t : String) → text_lt s t ≡ false → text_lt t s ≡ false → s ≡ t
text_lt-antisym [] [] h k = refl
text_lt-antisym (c ∷ s) [] h k = cc
text_lt-antisym [] (d ∷ t) h k = cc
text_lt-antisym (c ∷ s) (d ∷ t) h k =
    let ih = text_lt-antisym s t in
    let l : ltb (code c) (code d) ≡ false = ground arith in
    let m : ltb (code d) (code c) ≡ false = ground arith in
    let n : text_lt s t ≡ false = ground arith in
    let o : text_lt t s ≡ false = ground arith in
    let e : c ≡ d = same_char c d (same_codes (code c) (code d) l m) in λ i. e i ∷ ih n o i

pub text_lt-IsStrictWeak : IsStrictWeak (λ (s : String). Unit) text_lt
text_lt-IsStrictWeak = record {
  irrefl = λ s _. text_lt_irrefl s;
  trans = λ s t u _ _ _. text_lt_trans s t u;
  cotrans = λ s t u _ _ _. text_lt_cotrans s t u;
}

-- Go's comparison of texts answers with this order.
pub compare-text_lt : (s t : String) → is_lt (compare_texts s t) ≡ text_lt s t
compare-text_lt [] [] = refl
compare-text_lt (c ∷ s) [] = ap is_lt (text_order.cons-nil c s)
compare-text_lt [] (d ∷ t) = ap is_lt (text_order.nil-cons d t)
compare-text_lt (c ∷ s) (d ∷ t) =
    ap is_lt (text_order.cons-cons c d s t)
    ∙ at (compare (code c) (code d)) (compare_texts s t) (text_lt s t) (compare-text_lt s t)
  where
    at :
        (o p : Ordering) (b : Bool)
        → is_lt p ≡ b
        → is_lt (first_of o p) ≡ (
            if elim o [ Ordering.lt ↦ true | _ ↦ false ]
            then true
            else if elim o [ Ordering.eq ↦ true | _ ↦ false ]
            then b
            else false)
    at Ordering.lt p b h = refl
    at Ordering.eq p b h = h
    at Ordering.gt p b h = refl
