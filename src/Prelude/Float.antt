-- ===== src/Prelude/Float.antt =====
-- Go's `float64`. A finite value is an integral multiple of 2 ^ -1074, the smallest positive one,
-- so it is kept as that multiple, exactly; the two zeros are one value, which every operation below
-- treats alike. Comparisons are those of IEEE 754: any comparison with NaN is false.
use qumomf.Prelude.Tests.{ltb, eqb, if◌then◌else◌}
use qumomf.Prelude.Int.{ℤ, pos, negsuc, ltb_ℤ, eqb_ℤ, ◌-ℤ◌}
use Prim.Native.Nat.{ℕ, zero, suc, ◌+◌, ◌-◌, ◌*◌, ◌/◌, ◌%◌, ◌^◌}
use mathlib.Core.Path.{◌≡◌, refl}
use mathlib.Core.Logic.{◌⊎◌}
use mathlib.Core.Bool.{Bool, true, false, ◌&&◌, ◌||◌}
use native.Mathlib.Omega.{arith}

pub data Float64 : Type 0 where
  nan : Float64
  inf neg_inf : Float64
  fin : ℤ → Float64

-- 0 and 0.5, and the largest finite value.
unfoldable pub float_zero : Float64
float_zero = fin (pos 0)

unfoldable pub float_half : Float64
float_half = fin (pos (2 ^ 1073))

unfoldable pub max_float64 : Float64
max_float64 = fin (pos ((2 ^ 53 - 1) * 2 ^ 2045))

unfoldable pub flt : Float64 → Float64 → Bool
flt nan _ = false
flt inf _ = false
flt neg_inf nan = false
flt neg_inf neg_inf = false
flt neg_inf inf = true
flt neg_inf (fin b) = true
flt (fin a) nan = false
flt (fin a) neg_inf = false
flt (fin a) inf = true
flt (fin a) (fin b) = ltb_ℤ a b

unfoldable pub feq : Float64 → Float64 → Bool
feq inf inf = true
feq neg_inf neg_inf = true
feq (fin a) (fin b) = eqb_ℤ a b
feq _ _ = false

unfoldable pub fle : Float64 → Float64 → Bool
unfolding flt feq
fle a b = flt a b || feq a b

-- The number of binary digits; the fuel bounds it.
bit_length : ℕ → ℕ → ℕ
bit_length zero n = 0
bit_length (suc fuel) n = elim (eqb n 0) [ true ↦ 0 | false ↦ suc (bit_length fuel (n / 2)) ]

-- Round a multiple of 2 ^ e to a multiple of 2 ^ e, to the nearest and half to even.
round_at : ℕ → ℕ → ℕ
round_at zero n = n
round_at (suc e) n =
    let unit = 2 ^ suc e in
    let q = n / unit in
    let r = n % unit in
    let half = 2 ^ e in
    if ltb half r || (eqb r half && eqb (q % 2) 1) then (q + 1) * unit else q * unit

-- 53 significant digits. The values that are rounded have fewer than 2100 digits.
round_mag : ℕ → ℕ
unfolding bit_length round_at
round_mag n = round_at (bit_length 2100 n - 53) n

-- The float nearest to an integral multiple of 2 ^ -1074; 2 ^ 1024 and more overflows.
round_float : ℤ → Float64
unfolding round_mag
round_float (pos n) = let m = round_mag n in if ltb m (2 ^ 2098) then fin (pos m) else inf
round_float (negsuc n) =
    let m = round_mag (suc n) in if ltb m (2 ^ 2098) then fin (pos 0 -ℤ pos m) else neg_inf

unfoldable pub fsub : Float64 → Float64 → Float64
unfolding round_float ◌-ℤ◌
fsub nan _ = nan
fsub _ nan = nan
fsub inf inf = nan
fsub inf _ = inf
fsub neg_inf neg_inf = nan
fsub neg_inf _ = neg_inf
fsub (fin a) inf = neg_inf
fsub (fin a) neg_inf = inf
fsub (fin a) (fin b) = round_float (a -ℤ b)

unfoldable pub fneg : Float64 → Float64
unfolding ◌-ℤ◌
fneg nan = nan
fneg inf = neg_inf
fneg neg_inf = inf
fneg (fin a) = fin (pos 0 -ℤ a)

-- `float64(n)` of an integer.
unfoldable pub float_of_int : ℤ → Float64
unfolding round_float
float_of_int (pos n) = round_float (pos (n * 2 ^ 1074))
float_of_int (negsuc n) = round_float (negsuc (suc n * 2 ^ 1074 - 1))

abbrev pub IsNumber : Float64 → Type 0
IsNumber nan = ⊥
IsNumber _ = Unit

pub flt_irrefl : (a : Float64) → flt a a ≡ false
unfolding flt
flt_irrefl nan = refl
flt_irrefl inf = refl
flt_irrefl neg_inf = refl
flt_irrefl (fin a) = ground arith

pub flt_trans : (a b c : Float64) → flt a b ≡ true → flt b c ≡ true → flt a c ≡ true
unfolding flt
flt_trans a b c h k = ground arith

-- Of numbers: what is not above `b` and not above `c` through `b`.
pub flt_cotrans :
    (a b c : Float64) → IsNumber b → flt a c ≡ true → (flt a b ≡ true) ⊎ (flt b c ≡ true)
unfolding flt
flt_cotrans a b c n h = ground arith

small_difference : fsub (float_of_int (pos 3)) (float_of_int (pos 1)) ≡ float_of_int (pos 2)
unfolding fsub float_of_int
small_difference = refl

rounded_integer : float_of_int (pos (2 ^ 53 + 1)) ≡ float_of_int (pos (2 ^ 53))
unfolding float_of_int
rounded_integer = refl

pub flt_asymm : (a b : Float64) → flt a b ≡ true → flt b a ≡ false
unfolding flt
flt_asymm a b h = ground arith

-- What is below a value that is not above the bound is below the bound.
pub flt-of_not_lt : (a b d : Float64) → flt a d ≡ false → flt b d ≡ true → flt a b ≡ false
unfolding flt
flt-of_not_lt a b d h k = ground arith
