-- ===== src/Prelude/Text.antt =====
-- Go strings. A string that has come through the JSON decoder is valid UTF-8, which is what the
-- native `String` holds; `len` counts its bytes, as in Go.
use Prim.Native.Nat.{ℕ, zero, suc, ◌/◌, ◌%◌}
use Prim.Native.Char.{code}
use Prim.Native.String.{String, ◌++◌}
use text.Mathlib.Text.{◌==◌ as str_eq}
use text.Mathlib.TextEquality.{eq_iff}
use text.Mathlib.TextPositions.{eq_refl}
use mathlib.Core.Path.{◌≡◌}
use mathlib.Core.Logic.{◌↔◌}
use mathlib.Core.Bool.{Bool, true}
use mathlib.Core.List.{List, [], ◌∷◌}
use dshker_server.Prelude.Tests.{◌==◌, ltb, if◌then◌else◌}

infix 50 ◌=s=◌
abbrev pub ◌=s=◌ : String → String → Bool
s =s= t = str_eq s t

pub str_iff : (s t : String) → ((s =s= t) ≡ true) ↔ (s ≡ t)
str_iff s t = eq_iff s t

pub str_refl : (s : String) → (s =s= s) ≡ true
str_refl s = eq_refl s

infixl 65 ◌+s+◌
abbrev pub ◌+s+◌ : String → String → String
s +s+ t = s ++ t

abbrev pub codes : String → List ℕ
codes String.[] = []
codes (String.◌∷◌ c s) = code c ∷ codes s

abbrev digit : ℕ → String
digit d =
    if d == 0
    then "0"
    else if d == 1
    then "1"
    else if d == 2
    then "2"
    else if d == 3
    then "3"
    else if d == 4
    then "4"
    else if d == 5
    then "5"
    else if d == 6
    then "6"
    else if d == 7
    then "7"
    else if d == 8
    then "8"
    else "9"

-- `strconv.Itoa` of a number below ten to the fuel.
itoa_fuel : ℕ → ℕ → String
itoa_fuel zero n = digit (n % 10)
itoa_fuel (suc f) n =
    let rest = itoa_fuel f (n / 10) in if ltb n 10 then digit n else rest ++ digit (n % 10)

unfoldable pub itoa : ℕ → String
unfolding itoa_fuel
itoa n = itoa_fuel 20 n
