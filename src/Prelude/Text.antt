-- ===== src/Prelude/Text.antt =====
-- The string methods that the pages call. A text is a sequence of code points.
use Prim.Native.Nat.{ℕ, zero, suc, ◌/◌, ◌%◌}
use Prim.Native.Char.{Char, code}
use Prim.Native.String.{String, [], ◌∷◌, ◌++◌}
use mathlib.Core.Path.{◌≡◌, refl}
use mathlib.Core.Logic.{◌≢◌}
use native.Mathlib.Omega.{arith}
use text.Mathlib.Text.{◌==◌ as str_eq}
use text.Mathlib.TextEquality.{eq_iff}
use mathlib.Core.Bool.{Bool, true, false, ◌&&◌, ◌||◌}
use mathlib.Core.List.{List}
use mathlib.Core.Option.{Option, none, some}
use homelabs_siem_soar.Prelude.Tests.{leb, ◌==◌, if◌then◌else◌}

-- The white space and line ends that ECMAScript's `trim` removes.
abbrev pub is_space : ℕ → Bool
is_space c =
    leb 9 c && leb c 13
    || c == 32
    || c == 160
    || c == 5760
    || leb 8192 c && leb c 8202
    || c == 8232
    || c == 8233
    || c == 8239
    || c == 8287
    || c == 12288
    || c == 65279

-- `!s` for a string: only the empty text is falsy.
abbrev pub is_empty : String → Bool
is_empty [] = true
is_empty (c ∷ s) = false

unfoldable pub trim_start : String → String
trim_start [] = []
trim_start (c ∷ s) = let rest = trim_start s in if is_space (code c) then rest else c ∷ s

unfoldable pub trim_end : String → String
trim_end [] = []
trim_end (c ∷ s) =
    let rest = trim_end s in if is_space (code c) && is_empty rest then [] else c ∷ rest

unfoldable pub trim : String → String
unfolding trim_start trim_end
trim s = trim_end (trim_start s)

-- `t.startsWith(s)` and `t.includes(s)`.
unfoldable pub is_prefix : String → String → Bool
is_prefix [] t = true
is_prefix (c ∷ s) [] = false
is_prefix (c ∷ s) (d ∷ t) = code c == code d && is_prefix s t

unfoldable pub includes : String → String → Bool
unfolding is_prefix
includes [] s = is_prefix s []
includes (c ∷ t) s = is_prefix s (c ∷ t) || includes t s

-- `s || d`.
abbrev pub or_default : String → String → String
or_default [] d = d
or_default (c ∷ s) d = c ∷ s

-- `s || d` for a text that may be missing.
abbrev pub text_or : Option String → String → String
text_or none d = d
text_or (some s) d = or_default s d

pub or_default-nil : (s : String) → or_default s "" ≡ s
or_default-nil [] = refl
or_default-nil (c ∷ s) = refl

pub or_default-full : (s d : String) → is_empty s ≡ false → or_default s d ≡ s
or_default-full [] d h = cc
or_default-full (c ∷ s) d h = refl

-- A part is put in front of the first of the parts that follow it.
abbrev pub onto_first : Char → List String → List String
onto_first c List.[] = List.◌∷◌ (c ∷ []) List.[]
onto_first c (List.◌∷◌ part parts) = List.◌∷◌ (c ∷ part) parts

-- `s.split(sep)` at a separator of one character, by its code.
unfoldable pub split_at : ℕ → String → List String
split_at sep [] = List.◌∷◌ [] List.[]
split_at sep (c ∷ s) =
    let parts = split_at sep s in if code c == sep then List.◌∷◌ [] parts else onto_first c parts

-- `parts.join(sep)`.
unfoldable pub join : String → List String → String
join sep List.[] = []
join sep (List.◌∷◌ part List.[]) = part
join sep (List.◌∷◌ part (List.◌∷◌ next parts)) = part ++ (sep ++ join sep (List.◌∷◌ next parts))

pub eq-false_of_ne : (s t : String) → s ≢ t → (str_eq s t) ≡ false
eq-false_of_ne s t h = ground (arith, eq_iff s t)

abbrev digit : ℕ → String
digit n =
    if n == 0
    then "0"
    else if n == 1
    then "1"
    else if n == 2
    then "2"
    else if n == 3
    then "3"
    else if n == 4
    then "4"
    else if n == 5
    then "5"
    else if n == 6
    then "6"
    else if n == 7
    then "7"
    else if n == 8
    then "8"
    else "9"

-- `${n}` for a natural number; a number has no more digits than its value plus one.
decimal_fuel : ℕ → ℕ → String
decimal_fuel zero n = ""
decimal_fuel (suc fuel) n =
    let front = decimal_fuel fuel (n / 10) in if leb n 9 then digit n else front ++ digit (n % 10)

unfoldable pub decimal : ℕ → String
unfolding decimal_fuel
decimal n = decimal_fuel (suc n) n

decimal_tests : (decimal 0 ≡ "0") × (decimal 907 ≡ "907")
unfolding decimal
decimal_tests = (refl, refl)
