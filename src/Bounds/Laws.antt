-- ===== src/Bounds/Laws.antt =====
-- Truncation keeps its bounds, and changes nothing that fits.
use weft_end.Prelude.{
  ℕ, ◌+◌, ◌-◌, ◌≤◌, ◌<◌, ◌≡◌, String, List, [], ◌∷◌, ◌++◌, ◌⊎◌, length, take, arith, length-append,
  length-take, zero, suc, ap, sym, refl, leb, Bool-cases, inl, inr, false,
}
use weft_end.Text.Decimal.{units}
use weft_end.Bounds.{make_truncation_marker, truncate_list_with_marker, truncate_text_with_marker}

-- `truncateListWithMarker` leaves a list that fits unchanged. Of a longer one it answers as many
-- items as the limit says and the marker, one more than the limit, and the reported number of
-- dropped items is exact.
pub truncate_list_bounds :
    (items : List String) (limit : ℕ)
    → let (kept, dropped) = truncate_list_with_marker items limit in
      ((length items ≤ limit) × (kept ≡ items) × (dropped ≡ 0))
      ⊎ ((limit < length items)
          × (kept ≡ take limit items ++ make_truncation_marker dropped ∷ [])
          × (length kept ≡ limit + 1)
          × (dropped + limit ≡ length items))
unfolding truncate_list_with_marker
truncate_list_bounds items limit = ground (
  arith,
  length-append (take limit items) (make_truncation_marker (length items - limit) ∷ []),
  length-take limit items,
)

take_all {ℓ} : {A : Type ℓ} → (n : ℕ) (xs : List A) → length xs ≤ n → take n xs ≡ xs
take_all zero [] h = refl
take_all (suc n) [] h = refl
take_all zero (x ∷ xs) h = absurd (omega arith)
take_all (suc n) (x ∷ xs) h = ap (λ ys. x ∷ ys) (take_all n xs (omega arith))

truncate_text_length :
    (value : List ℕ) (limit : ℕ)
    → let (kept, dropped) = truncate_text_with_marker value limit in
      ((length value ≤ limit) × (kept ≡ value) × (dropped ≡ 0))
      ⊎ ((limit < length value) × (length kept ≡ limit) × (dropped + limit ≡ length value))
unfolding truncate_text_with_marker
truncate_text_length value limit =
    let marker = units (make_truncation_marker (length value - limit)) in
    ground (
      arith,
      length-append (take (limit - length marker) value) marker,
      length-take (limit - length marker) value,
      length-take limit marker,
    )

-- The two branches of a text that is too long are the one cut.
truncate_text_kept :
    (value : List ℕ) (limit : ℕ)
    → limit < length value
    → let (kept, dropped) = truncate_text_with_marker value limit in
      let marker = units (make_truncation_marker dropped) in
      kept ≡ take limit (take (limit - length marker) value ++ marker)
unfolding truncate_text_with_marker
truncate_text_kept value limit long =
    let marker = units (make_truncation_marker (length value - limit)) in
    let fits : leb (length value) limit ≡ false = ground arith in
    elim (Bool-cases (leb limit (length marker))) [
      | inl e ↦
          let none : limit - length marker ≡ 0 = ground arith in
          rw (fits, e) (ap (λ n. take limit (take n value ++ marker)) (sym none))
      | inr e ↦
          let whole = take (limit - length marker) value ++ marker in
          rw (fits, e)
            (sym (
              take_all limit whole (
                ground (
                  arith,
                  length-append (take (limit - length marker) value) marker,
                  length-take (limit - length marker) value,
                ))))
    ]

-- `truncateTextWithMarker` leaves a text that fits unchanged. A longer one becomes exactly as long
-- as the limit, the reported number with the limit makes up its length, and what is left is a
-- beginning of it, shorter than the limit by the marker, with the marker behind it, cut at the limit
-- where the marker alone is longer: the marker's places are not among those reported.
pub truncate_text_bounds :
    (value : List ℕ) (limit : ℕ)
    → let (kept, dropped) = truncate_text_with_marker value limit in
      let marker = units (make_truncation_marker dropped) in
      ((length value ≤ limit) × (kept ≡ value) × (dropped ≡ 0))
      ⊎ ((limit < length value)
          × (length kept ≡ limit)
          × (dropped + limit ≡ length value)
          × (kept ≡ take limit (take (limit - length marker) value ++ marker)))
truncate_text_bounds value limit = elim (truncate_text_length value limit) [
  | inl fits ↦ inl fits
  | inr (long, size, exact) ↦ inr (long, size, exact, truncate_text_kept value limit long)
]
