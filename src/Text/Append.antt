-- ===== src/Text/Append.antt =====
-- What appending keeps of a string.
use Prim.Native.Char.{code}
use Prim.Native.String.{◌++◌}
use text.Mathlib.TextLemmas.{cons-append}
use weft_end.Prelude.{String, ◌≡◌, true, Bool-cases, inl, inr}
use weft_end.Text.{is_non_empty, is_space}

pub is_non_empty-append : (s t : String) → is_non_empty s ≡ true → is_non_empty (s ++ t) ≡ true
unfolding is_non_empty
is_non_empty-append String.[] t h = cc
is_non_empty-append (String.◌∷◌ c s) t h = elim (Bool-cases (is_space (code c))) [
  | inl e ↦ rw (cons-append, e) (is_non_empty-append s t (rw e at h))
  | inr e ↦ rw (cons-append, e)
]
