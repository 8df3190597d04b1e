-- ===== src/Text.antt =====
-- Strings as the source compares and trims them: src/core/order.ts, and `trim` of the language.
-- A JavaScript string is a sequence of 16-bit code units, and `<` compares those units. A string
-- here is a sequence of code points (no lone surrogates), in the same order: `unit_place` puts the
-- code points above U+FFFF, which begin with a unit D800..DBFF, before U+E000..U+FFFF.
pub mod Order
pub mod Sets
pub mod Decimal
pub mod Digits
pub mod Append
pub mod Table
pub mod Join
use Prim.Native.Char.{Char, code}
use Prim.Native.String.{then as or_else}
use weft_end.Prelude.{
  ℕ, ◌+◌, ◌-◌, Ordering, compare, String, Bool, true, false, ◌||◌, ◌&&◌, List, [], ◌∷◌, ltb, leb,
  ◌==◌, str_eq, if◌then◌else◌,
}

unit_place : ℕ → ℕ
unit_place c =
    if ltb c 0xD800
    then c
    else if ltb c 0x10000
    then c + 0x100000
    else if ltb c 0x110000
    then c - 0x2800
    else c

-- `cmpStrV0`: -1, 0 and 1 are `lt`, `eq` and `gt`.
unfoldable pub cmp_str : String → String → Ordering
unfolding unit_place
cmp_str String.[] String.[] = Ordering.eq
cmp_str String.[] (String.◌∷◌ d t) = Ordering.lt
cmp_str (String.◌∷◌ c s) String.[] = Ordering.gt
cmp_str (String.◌∷◌ c s) (String.◌∷◌ d t) =
    or_else (compare (unit_place (code c)) (unit_place (code d))) (cmp_str s t)

-- The white space and line ends that `trim` removes and `/\s/` matches.
abbrev pub is_space : ℕ → Bool
is_space c =
    (leb 9 c && leb c 13)
    || c == 32
    || c == 160
    || c == 0x1680
    || (leb 0x2000 c && leb c 0x200A)
    || c == 0x2028
    || c == 0x2029
    || c == 0x202F
    || c == 0x205F
    || c == 0x3000
    || c == 0xFEFF

-- `value.trim().length > 0`: some character is no white space.
unfoldable pub is_non_empty : String → Bool
is_non_empty String.[] = false
is_non_empty (String.◌∷◌ c s) = if is_space (code c) then is_non_empty s else true

-- `/\s/.test(value)`.
unfoldable pub has_space : String → Bool
has_space String.[] = false
has_space (String.◌∷◌ c s) = is_space (code c) || has_space s

-- `Array.prototype.includes` and `Set.prototype.has`, over strings.
unfoldable pub includes : List String → String → Bool
includes [] s = false
includes (t ∷ ts) s = str_eq t s || includes ts s
