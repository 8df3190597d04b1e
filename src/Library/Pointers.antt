-- ===== src/Library/Pointers.antt =====
-- A pointer that is written reads back as it was.
use Prim.Native.Char.{Char, code}
use Prim.Native.String.{◌++◌ as str_append}
use text.Mathlib.TextLemmas.{cons-append}
use weft_end.Prelude.{
  neither, Bool-cases, inl, inr, eq_iff, String, ◌≡◌, refl, sym, ◌∙◌, ap, true, false, ◌==◌, some,
  str_eq, arith,
}
use weft_end.Text.{is_space, is_non_empty, has_space}
use weft_end.Text.Join.{trim, trim_start, trim_end, before_char}
use weft_end.Library.Blocked.{read_pointer, pointer_text}

true_is_not_false : true ≡ false → ⊥
true_is_not_false h = cc

-- The first character and the rest of a text without white space.
no_space_parts :
    (c : Char) (s : String)
    → has_space (String.◌∷◌ c s) ≡ false
    → (is_space (code c) ≡ false) × (has_space s ≡ false)
unfolding has_space
no_space_parts c s h = neither (is_space (code c)) (has_space s) h

no_line_feed : (c : Char) → is_space (code c) ≡ false → (code c == 10) ≡ false
no_line_feed c h = elim (Bool-cases (code c == 10)) [
  | inl e ↦
      let same : code c ≡ 10 = ground (arith, e) in
      absurd (true_is_not_false (sym (ap (λ n. is_space n) same) ∙ h))
  | inr e ↦ e
]

trim_start-plain :
    (s t : String)
    → has_space s ≡ false
    → is_non_empty s ≡ true
    → trim_start (str_append s t) ≡ str_append s t
unfolding trim_start is_non_empty
trim_start-plain String.[] t h k = cc
trim_start-plain (String.◌∷◌ c s) t h k =
    let (e, _) = no_space_parts c s h in rw (cons-append, e) refl

trim_end-line : (s : String) → has_space s ≡ false → trim_end (str_append s "\n") ≡ s
unfolding trim_end is_non_empty
trim_end-line String.[] h = refl
trim_end-line (String.◌∷◌ c s) h =
    let (e, n) = no_space_parts c s h in
    rw (cons-append, e) (ap (λ r. String.◌∷◌ c r) (trim_end-line s n))

trim_end-plain : (s : String) → has_space s ≡ false → trim_end s ≡ s
unfolding trim_end is_non_empty
trim_end-plain String.[] h = refl
trim_end-plain (String.◌∷◌ c s) h =
    let (e, n) = no_space_parts c s h in rw e (ap (λ r. String.◌∷◌ c r) (trim_end-plain s n))

before_char-plain : (s : String) → has_space s ≡ false → before_char 10 s ≡ s
unfolding before_char
before_char-plain String.[] h = refl
before_char-plain (String.◌∷◌ c s) h =
    let (e, n) = no_space_parts c s h in
    rw (no_line_feed c e) (ap (λ r. String.◌∷◌ c r) (before_char-plain s n))

trim_start_whole : (s : String) → has_space s ≡ false → is_non_empty s ≡ true → trim_start s ≡ s
unfolding trim_start is_non_empty
trim_start_whole String.[] h k = cc
trim_start_whole (String.◌∷◌ c s) h k = let (e, _) = no_space_parts c s h in rw e refl

not_blank : (s : String) → is_non_empty s ≡ true → str_eq s "" ≡ false
unfolding is_non_empty
not_blank s k = elim (Bool-cases (str_eq s "")) [
  | inl e ↦ absurd (true_is_not_false (sym k ∙ ap (λ x. is_non_empty x) ((eq_iff s "").0 e)))
  | inr e ↦ e
]

-- A text without white space that is written to a pointer file is read back from it.
pub read_pointer-pointer_text :
    (value : String)
    → has_space value ≡ false
    → is_non_empty value ≡ true
    → read_pointer (some (pointer_text value)) ≡ some value
unfolding read_pointer pointer_text trim
read_pointer-pointer_text value h k =
    let whole : trim (pointer_text value) ≡ value =
      ap trim_end (trim_start-plain value "\n" h k) ∙ trim_end-line value h in
    let line : before_char 10 (trim (pointer_text value)) ≡ value =
      ap (λ s. before_char 10 s) whole ∙ before_char-plain value h in
    let read : trim (before_char 10 (trim (pointer_text value))) ≡ value =
      ap trim line ∙ ap trim_end (trim_start_whole value h k) ∙ trim_end-plain value h in
    rw (read, not_blank value k) refl
