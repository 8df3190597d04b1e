-- ===== src/Boundary/Laws.antt =====
-- What the comparison of secrets decides.
use weft_end.Prelude.{ℕ, ◌≡◌, ◌↔◌, refl, ap, ap₂, String, true, false, List, [], ◌∷◌, length, arith}
use weft_end.Text.Decimal.{units}
use weft_end.Boundary.{diff_units, safe_equal}

diff_units-true : (xs ys : List ℕ) → diff_units true xs ys ≡ true
unfolding diff_units
diff_units-true [] ys = refl
diff_units-true (x ∷ xs) [] = refl
diff_units-true (x ∷ xs) (y ∷ ys) = diff_units-true xs ys

diff_units_same : (xs : List ℕ) → diff_units false xs xs ≡ false
unfolding diff_units
diff_units_same [] = refl
diff_units_same (x ∷ xs) = ground (arith, diff_units_same xs)

eq_of_diff_units :
    (xs ys : List ℕ) → length xs ≡ length ys → diff_units false xs ys ≡ false → xs ≡ ys
unfolding diff_units
eq_of_diff_units [] [] h e = refl
eq_of_diff_units [] (y ∷ ys) h e = absurd (omega arith)
eq_of_diff_units (x ∷ xs) [] h e = absurd (omega arith)
eq_of_diff_units (x ∷ xs) (y ∷ ys) h e =
    ap₂ ◌∷◌ (ground (arith, diff_units-true xs ys, e))
      (eq_of_diff_units xs ys (omega arith) (ground (arith, diff_units-true xs ys, e)))

-- `safeEqual` holds exactly for strings with the same code units.
pub safe_equal_iff : (a b : String) → (safe_equal a b ≡ true) ↔ (units a ≡ units b)
unfolding safe_equal
safe_equal_iff a b = (
  λ h. eq_of_diff_units (units a) (units b) (ground arith) (ground arith),
  λ e. ground (arith, diff_units_same (units a), ap length e, ap (diff_units false (units a)) e),
)
