-- ===== src/Text/Digits.antt =====
-- The digits of a number tell the number.
use Prim.Native.Char.{Char, code}
use Prim.Native.String.{◌++◌}
use text.Mathlib.TextLemmas.{cons-append, nil-append}
use weft_end.Prelude.{
  ℕ, zero, suc, ◌+◌, ◌-◌, ◌*◌, ◌/◌, ◌%◌, ◌<◌, String, ◌≡◌, refl, ltb, ltb→lt, arith, ap, ◌∙◌, sym,
  Bool-cases, inl, inr,
}
use weft_end.Text.Decimal.{digit, decimal_from, decimal}

-- The number that the digits after `acc` make.
digits_value : ℕ → String → ℕ
digits_value acc String.[] = acc
digits_value acc (String.◌∷◌ c s) = digits_value (acc * 10 + (code c - 48)) s

digits_value_cons :
    (acc : ℕ) (c : Char) (tail : String)
    → digits_value acc (String.◌∷◌ c String.[] ++ tail)
      ≡ digits_value (acc * 10 + (code c - 48)) tail
unfolding digits_value
digits_value_cons acc c tail = rw (cons-append, nil-append, digits_value) refl

digits_value-digit :
    (acc d : ℕ) (tail : String)
    → d < 10
    → digits_value acc (digit d ++ tail) ≡ digits_value (acc * 10 + d) tail
unfolding digit digits_value
digits_value-digit acc zero tail h = digits_value_cons acc "0" tail
digits_value-digit acc (suc zero) tail h = digits_value_cons acc "1" tail
digits_value-digit acc (suc (suc zero)) tail h = digits_value_cons acc "2" tail
digits_value-digit acc (suc (suc (suc zero))) tail h = digits_value_cons acc "3" tail
digits_value-digit acc (suc (suc (suc (suc zero)))) tail h = digits_value_cons acc "4" tail
digits_value-digit acc (suc (suc (suc (suc (suc zero))))) tail h = digits_value_cons acc "5" tail
digits_value-digit acc (suc (suc (suc (suc (suc (suc zero)))))) tail h =
    digits_value_cons acc "6" tail
digits_value-digit acc (suc (suc (suc (suc (suc (suc (suc zero))))))) tail h =
    digits_value_cons acc "7" tail
digits_value-digit acc (suc (suc (suc (suc (suc (suc (suc (suc zero)))))))) tail h =
    digits_value_cons acc "8" tail
digits_value-digit acc (suc (suc (suc (suc (suc (suc (suc (suc (suc zero))))))))) tail h =
    digits_value_cons acc "9" tail
digits_value-digit acc (suc (suc (suc (suc (suc (suc (suc (suc (suc (suc d)))))))))) tail h =
    absurd (omega arith)

digits_value-decimal_from :
    (fuel n : ℕ) (tail : String)
    → n < fuel
    → digits_value 0 (decimal_from fuel n tail) ≡ digits_value n tail
unfolding decimal_from digits_value
digits_value-decimal_from zero n tail h = absurd (omega arith)
digits_value-decimal_from (suc fuel) n tail h =
    let here = digit (n % 10) ++ tail in
    elim (Bool-cases (ltb n 10)) [
      | inl e ↦ rw e (
          digits_value-digit 0 (n % 10) tail (omega arith)
          ∙ ap (λ k. digits_value k tail) (ground (arith, ltb→lt n 10 e)))
      | inr e ↦ rw e (
          digits_value-decimal_from fuel (n / 10) here (ground (arith, e))
          ∙ (digits_value-digit (n / 10) (n % 10) tail (omega arith)
              ∙ ap (λ k. digits_value k tail) (omega arith)))
    ]

pub decimal_injective : (n m : ℕ) → decimal n ≡ decimal m → n ≡ m
unfolding decimal digits_value
decimal_injective n m h =
    sym (digits_value-decimal_from (suc n) n "" (omega arith))
    ∙ (ap (digits_value 0) h ∙ digits_value-decimal_from (suc m) m "" (omega arith))
