-- ===== src/Prelude/Text.antt =====
-- The functions of Go's `strings` and `strconv` that the program uses, on the characters of a text.
-- The characters searched for are ASCII, so the bytes of the source and the characters here agree.
use Prim.Native.Char.{code}
use Prim.Native.Nat.{ℕ, zero, suc, ◌-◌, ◌/◌, ◌%◌}
use Prim.Native.String.{String, ◌++◌ as glue, count}
use mathlib.Core.Path.{◌≡◌, refl}
use mathlib.Core.Option.{Option, none, some}
use mathlib.Core.List.{List, [], ◌∷◌}
use text.Mathlib.Text.{starts_with}
use mathlib.Core.Bool.{Bool, true, false, ◌&&◌, ◌||◌}
use qumomf.Prelude.Tests.{eqb, ltb, leb, if◌then◌else◌}

-- Texts one after another, as a `strings.Builder` joins them.
unfoldable pub concat : List String → String
concat [] = ""
concat (s ∷ ss) = glue s (concat ss)

-- `strings.ReplaceAll` for a text that is not empty: `skip` characters of a match are left to pass.
replace_from : ℕ → String → String → String → String
replace_from skip old new String.[] = ""
replace_from zero old new (String.◌∷◌ c s) =
    let hit = replace_from (count old - 1) old new s in
    let miss = replace_from 0 old new s in
    if starts_with (String.◌∷◌ c s) old then glue new hit else String.◌∷◌ c miss
replace_from (suc skip) old new (String.◌∷◌ c s) = replace_from skip old new s

unfoldable pub replace_all : String → String → String → String
unfolding replace_from
replace_all s old new = replace_from 0 old new s

-- The part behind the first character that has this number, if there is one.
unfoldable pub after_first : ℕ → String → Option String
after_first n String.[] = none
after_first n (String.◌∷◌ c s) =
    let rest = after_first n s in if eqb (code c) n then some s else rest

replaced : replace_all "a {x} {x}b {y}" "{x}" "uuid" ≡ "a uuid uuidb {y}"
unfolding replace_all
replaced = refl

-- The decimal digit of a number below ten.
digit : ℕ → String
digit n =
    if eqb n 0
    then "0"
    else if eqb n 1
    then "1"
    else if eqb n 2
    then "2"
    else if eqb n 3
    then "3"
    else if eqb n 4
    then "4"
    else if eqb n 5
    then "5"
    else if eqb n 6
    then "6"
    else if eqb n 7
    then "7"
    else if eqb n 8
    then "8"
    else "9"

-- The fuel bounds the number of digits; `suc n` is enough for `n`.
itoa_from : ℕ → ℕ → String
unfolding digit
itoa_from zero n = ""
itoa_from (suc fuel) n = elim (ltb n 10) [
  | true ↦ digit n
  | false ↦ glue (itoa_from fuel (n / 10)) (digit (n % 10))
]

-- `strconv.Itoa` of a number that is not negative.
unfoldable pub itoa : ℕ → String
unfolding itoa_from
itoa n = itoa_from (suc n) n

-- `strconv.FormatBool`
unfoldable pub format_bool : Bool → String
format_bool true = "true"
format_bool false = "false"

-- `unicode.IsSpace`, which `strings.TrimSpace` asks.
abbrev between : ℕ → ℕ → ℕ → Bool
between lo n hi = leb lo n && leb n hi

is_space : ℕ → Bool
is_space n =
    between 9 n 13
    || (eqb n 32
        || (eqb n 0x85
            || (eqb n 0xa0
                || (eqb n 0x1680
                    || (between 0x2000 n 0x200a
                        || (eqb n 0x2028
                            || (eqb n 0x2029
                                || (eqb n 0x202f || (eqb n 0x205f || eqb n 0x3000)))))))))

drop_spaces : String → String
unfolding is_space
drop_spaces String.[] = ""
drop_spaces (String.◌∷◌ c s) =
    let rest = drop_spaces s in if is_space (code c) then rest else String.◌∷◌ c s

all_spaces : String → Bool
unfolding is_space
all_spaces String.[] = true
all_spaces (String.◌∷◌ c s) = let rest = all_spaces s in if is_space (code c) then rest else false

-- What is left of the spaces at the end.
drop_last_spaces : String → String
unfolding all_spaces
drop_last_spaces String.[] = ""
drop_last_spaces (String.◌∷◌ c s) =
    let rest = drop_last_spaces s in if all_spaces (String.◌∷◌ c s) then "" else String.◌∷◌ c rest

unfoldable pub trim_space : String → String
unfolding drop_spaces drop_last_spaces
trim_space s = drop_last_spaces (drop_spaces s)

-- `strings.TrimLeft` by one character.
unfoldable pub trim_left : ℕ → String → String
trim_left n String.[] = ""
trim_left n (String.◌∷◌ c s) =
    let rest = trim_left n s in if eqb (code c) n then rest else String.◌∷◌ c s

trimmed : trim_space " \t& echo \n" ≡ "& echo"
unfolding trim_space
trimmed = refl

written : itoa 1203 ≡ "1203"
unfolding itoa
written = refl
