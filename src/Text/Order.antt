-- ===== src/Text/Order.antt =====
-- `cmp_str` is a total order, and its equality is that of strings.
use Prim.Native.Char.{code}
use Prim.Native.String.{then as or_else}
use text.Mathlib.TextEquality.{Char-path}
use weft_end.Prelude.{ℕ, Ordering, compare, String, ◌≡◌, refl, ap₂, arith}
use weft_end.Text.{unit_place, cmp_str}
use weft_end.Sort.Order.{flip, IsOrder}

unit_place-injective : (a b : ℕ) → unit_place a ≡ unit_place b → a ≡ b
unfolding unit_place
unit_place-injective a b h = ground arith

flip-or_else : (a b : Ordering) → flip (or_else a b) ≡ or_else (flip a) (flip b)
flip-or_else Ordering.lt b = refl
flip-or_else Ordering.eq b = refl
flip-or_else Ordering.gt b = refl

flip-compare : (a b : ℕ) → compare b a ≡ flip (compare a b)
flip-compare a b = ground arith

cmp_str-flip : (s t : String) → cmp_str t s ≡ flip (cmp_str s t)
unfolding cmp_str
cmp_str-flip String.[] String.[] = refl
cmp_str-flip String.[] (String.◌∷◌ d t) = refl
cmp_str-flip (String.◌∷◌ c s) String.[] = refl
cmp_str-flip (String.◌∷◌ c s) (String.◌∷◌ d t) = ground (
  arith,
  flip-or_else (compare (unit_place (code c)) (unit_place (code d))) (cmp_str s t),
  flip-compare (unit_place (code c)) (unit_place (code d)),
  cmp_str-flip s t,
)

lt_step : (a b : ℕ) (o : Ordering) → or_else (compare a b) o ≡ Ordering.eq → a ≡ b
lt_step a b o h = ground arith

eq_rest : (a b : ℕ) (o : Ordering) → or_else (compare a b) o ≡ Ordering.eq → o ≡ Ordering.eq
eq_rest a b o h = ground arith

cmp_str-eq : (s t : String) → cmp_str s t ≡ Ordering.eq → s ≡ t
unfolding cmp_str
cmp_str-eq String.[] String.[] h = refl
cmp_str-eq String.[] (String.◌∷◌ d t) h = cc
cmp_str-eq (String.◌∷◌ c s) String.[] h = cc
cmp_str-eq (String.◌∷◌ c s) (String.◌∷◌ d t) h =
    ap₂ String.◌∷◌
      (Char-path c d (unit_place-injective (code c) (code d) (lt_step _ _ (cmp_str s t) h)))
      (cmp_str-eq s t (eq_rest (unit_place (code c)) (unit_place (code d)) (cmp_str s t) h))

-- One step of the comparison, for transitivity.
trans_step :
    (a b c : ℕ) (p q r : Ordering)
    → (p ≡ Ordering.lt → q ≡ Ordering.lt → r ≡ Ordering.lt)
    → or_else (compare a b) p ≡ Ordering.lt
    → or_else (compare b c) q ≡ Ordering.lt
    → or_else (compare a c) r ≡ Ordering.lt
trans_step a b c p q r ih h k = ground arith

cmp_str_trans :
    (s t u : String)
    → cmp_str s t ≡ Ordering.lt
    → cmp_str t u ≡ Ordering.lt
    → cmp_str s u ≡ Ordering.lt
unfolding cmp_str
cmp_str_trans String.[] String.[] u h k = cc
cmp_str_trans String.[] (String.◌∷◌ d t) String.[] h k = cc
cmp_str_trans String.[] (String.◌∷◌ d t) (String.◌∷◌ e u) h k = refl
cmp_str_trans (String.◌∷◌ c s) String.[] u h k = cc
cmp_str_trans (String.◌∷◌ c s) (String.◌∷◌ d t) String.[] h k = cc
cmp_str_trans (String.◌∷◌ c s) (String.◌∷◌ d t) (String.◌∷◌ e u) h k =
    trans_step (unit_place (code c)) (unit_place (code d)) (unit_place (code e)) (cmp_str s t)
      (cmp_str t u) (cmp_str s u) (cmp_str_trans s t u) h k

-- `cmpStrV0` is a strict total order on strings, and answers 0 for equal strings only.
pub cmp_str-IsOrder : IsOrder cmp_str
cmp_str-IsOrder = record { flips = cmp_str-flip; eq_path = cmp_str-eq; lt_trans = cmp_str_trans }
