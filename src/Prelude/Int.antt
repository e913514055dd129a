-- ===== src/Prelude/Int.antt =====
-- Signed integers: Go's `int` and `int64`, whose values the program only stores and compares.
use qumomf.Prelude.Tests.{ltb, if◌then◌else◌}
use Prim.Native.Nat.{ℕ, suc, ◌+◌, ◌-◌, ◌^◌, ◌≤◌, ◌<◌}
use mathlib.Core.Path.{◌≡◌}
use mathlib.Core.Logic.{◌↔◌}
use mathlib.Core.Bool.{Bool, true, false}
use native.Mathlib.Omega.{arith}
use native.Mathlib.Decide.{ℕ_discrete}

-- `negsuc n` is -(n + 1).
pub data ℤ : Type 0 where
  pos : ℕ → ℤ
  negsuc : ℕ → ℤ

pub ℤ-discrete : Discrete ℤ
ℤ-discrete = hlevel ℕ_discrete

abbrev pub pos_part : ℤ → ℕ
pos_part (pos n) = n
pos_part (negsuc n) = 0

abbrev pub neg_part : ℤ → ℕ
neg_part (pos n) = 0
neg_part (negsuc n) = suc n

infixl 65 ◌-ℤ◌
infix 50 ◌≤ℤ◌ ◌<ℤ◌
abbrev pub ◌≤ℤ◌ : ℤ → ℤ → Type 0
a ≤ℤ b = pos_part a + neg_part b ≤ pos_part b + neg_part a

abbrev pub ◌<ℤ◌ : ℤ → ℤ → Type 0
a <ℤ b = pos_part a + neg_part b < pos_part b + neg_part a

abbrev pub ltb_ℤ : ℤ → ℤ → Bool
ltb_ℤ a b = ltb (pos_part a + neg_part b) (pos_part b + neg_part a)

abbrev pub eqb_ℤ : ℤ → ℤ → Bool
eqb_ℤ a b = if ltb_ℤ a b then false else if ltb_ℤ b a then false else true

pub eqb_ℤ_iff : (a b : ℤ) → (eqb_ℤ a b ≡ true) ↔ (a ≡ b)
eqb_ℤ_iff a b = ground arith

-- a - b, and its two parts.
unfoldable pub ◌-ℤ◌ : ℤ → ℤ → ℤ
a -ℤ b =
    let x = pos_part a + neg_part b in
    let y = pos_part b + neg_part a in if ltb x y then negsuc (y - x - 1) else pos (x - y)

-- `int64(t)` of a `uint64`: two's complement.
unfoldable pub int64_of_uint64 : ℕ → ℤ
int64_of_uint64 n = if ltb n (2 ^ 63) then pos n else negsuc (2 ^ 64 - 1 - n)

-- `uint64(t)` of an `int64`.
unfoldable pub uint64_of_int64 : ℤ → ℕ
uint64_of_int64 (pos n) = n
uint64_of_int64 (negsuc n) = 2 ^ 64 - 1 - n

-- The values that fit in 64 bits.
abbrev pub IsInt64 : ℤ → Type 0
IsInt64 z = (pos_part z < 2 ^ 63) × (neg_part z ≤ 2 ^ 63)

pub int64_of_uint64-IsInt64 : (n : ℕ) → n < 2 ^ 64 → IsInt64 (int64_of_uint64 n)
unfolding int64_of_uint64
int64_of_uint64-IsInt64 n h = ground arith

pub uint64_of_int64-lt : (z : ℤ) → IsInt64 z → uint64_of_int64 z < 2 ^ 64
unfolding uint64_of_int64
uint64_of_int64-lt (pos n) h = omega arith
uint64_of_int64-lt (negsuc n) h = omega arith

pub uint64_of_int64-int64_of_uint64 : (n : ℕ) → n < 2 ^ 64 → uint64_of_int64 (int64_of_uint64 n) ≡ n
unfolding uint64_of_int64 int64_of_uint64
uint64_of_int64-int64_of_uint64 n h = ground arith
