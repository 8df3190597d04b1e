-- ===== src/Text/Decimal.antt =====
-- Template literals of numbers, and the UTF-16 code units behind `length` and `slice`.
use Prim.Native.Char.{code}
use Prim.Native.String.{◌++◌}
use weft_end.Prelude.{
  ℕ, zero, suc, ◌+◌, ◌-◌, ◌/◌, ◌%◌, String, List, [], ◌∷◌, ltb, ◌==◌, if◌then◌else◌,
}

unfoldable pub digit : ℕ → String
digit n =
    if n == 0
    then "0"
    else if n == 1
    then "1"
    else if n == 2
    then "2"
    else if n == 3
    then "3"
    else if n == 4
    then "4"
    else if n == 5
    then "5"
    else if n == 6
    then "6"
    else if n == 7
    then "7"
    else if n == 8
    then "8"
    else "9"

unfoldable pub decimal_from : ℕ → ℕ → String → String
unfolding digit
decimal_from zero n tail = tail
decimal_from (suc fuel) n tail =
    let here = digit (n % 10) ++ tail in
    let rest = decimal_from fuel (n / 10) here in if ltb n 10 then here else rest

-- `${n}` for a natural number: a number has no more digits than itself plus one.
unfoldable pub decimal : ℕ → String
unfolding decimal_from
decimal n = decimal_from (suc n) n ""

units_of : ℕ → List ℕ → List ℕ
units_of c rest =
    if ltb c 0x10000
    then c ∷ rest
    else (0xD800 + (c - 0x10000) / 0x400) ∷ (0xDC00 + (c - 0x10000) % 0x400) ∷ rest

-- The code units of a string.
unfoldable pub units : String → List ℕ
unfolding units_of
units String.[] = []
units (String.◌∷◌ c s) = units_of (code c) (units s)
