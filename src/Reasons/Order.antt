-- ===== src/Reasons/Order.antt =====
-- Reason codes are compared with the same subject and locator behind them, which is a total order.
use Prim.Native.String.{◌++◌}
use text.Mathlib.TextLemmas.{append_cancel_right}
use weft_end.Prelude.{String, ◌≡◌}
use weft_end.Text.Order.{cmp_str-IsOrder}
use weft_end.Sort.{IsOrder}
use weft_end.Reasons.{reason_key, cmp_reason}

module _ (subject locator : String) where
  reason_key-injective :
      (a b : String) → reason_key subject locator a ≡ reason_key subject locator b → a ≡ b
  unfolding reason_key
  reason_key-injective a b h = append_cancel_right a b ("\0" ++ (subject ++ ("\0" ++ locator))) h

  pub cmp_reason-IsOrder : IsOrder (cmp_reason subject locator)
  unfolding cmp_reason
  cmp_reason-IsOrder = record {
    flips = λ a b. cmp_str-IsOrder.flips _ _;
    eq_path = λ a b h. reason_key-injective a b (cmp_str-IsOrder.eq_path _ _ h);
    lt_trans = λ a b c h k. cmp_str-IsOrder.lt_trans _ (reason_key subject locator b) _ h k;
  }
