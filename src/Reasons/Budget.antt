-- ===== src/Reasons/Budget.antt =====
-- The bounds: no more codes than the limit, a budget that is never passed, and no silent loss.
use text.Mathlib.Text.{starts_with}
use text.Mathlib.TextPositions.{starts_with-append}
use weft_end.Prelude.{
  ℕ, zero, suc, ◌+◌, ◌-◌, ◌≤◌, ◌<◌, min, String, ◌≡◌, ◌≢◌, ◌⊎◌, refl, true, false, ◌||◌, some, List,
  [], ◌∷◌, ◌++◌, length, take, arith, ap, All, All-append, All-take, length-append, length-take,
  inl, inr, Bool-cases, leb, eq_refl, str_eq,
}
use weft_end.Text.{includes, is_non_empty}
use weft_end.Text.Append.{is_non_empty-append}
use weft_end.Text.Sets.{
  Distinct, Ascends-Distinct, Distinct-take, Distinct-snoc, includes-take, includes-append,
  All-includes, All-of_includes, includes-sort,
}
use weft_end.Sort.{sort, length-sort}
use weft_end.Reasons.{
  Unknown, is_reason, cmp_reason, normalize_reason_array, truncation_code, format_truncation_reason,
  truncate_reasons, ReasonBudget, ReasonOptions, or_default, reason_limit, bound_reasons,
  normalize_reason_codes, max_reasons_per_block,
}
use weft_end.Reasons.Collect.{texts, collect-All, All-unseen}
use weft_end.Reasons.Order.{cmp_reason-IsOrder}
use weft_end.Reasons.Normal.{normalize_reason_array-Ascends, includes-normalize_reason_array}

module _ (kept dropped : ℕ) where
  marker_is_meta : starts_with (format_truncation_reason kept dropped) truncation_code ≡ true
  unfolding format_truncation_reason
  marker_is_meta = starts_with-append truncation_code _

  marker_is_non_empty : is_non_empty (format_truncation_reason kept dropped) ≡ true
  unfolding format_truncation_reason
  marker_is_non_empty = is_non_empty-append truncation_code _ (unfold is_non_empty in refl)

module _ (subject locator : String) (sorted : List String)
    (plain : All (λ a. is_reason false a ≡ true) sorted) where
  marker_is_new :
      (kept dropped : ℕ) → includes sorted (format_truncation_reason kept dropped) ≡ false
  unfolding is_reason
  marker_is_new kept dropped =
      let m = format_truncation_reason kept dropped in
      elim (Bool-cases (includes sorted m)) [
        | inl e ↦
            let old = All-includes (λ a. is_reason false a ≡ true) sorted m plain e in
            ground (arith, marker_is_meta kept dropped)
        | inr e ↦ e
      ]

  accepted-All :
      (xs : List String)
      → All (λ a. is_reason false a ≡ true) xs
      → All (λ a. is_reason true a ≡ true) xs
  unfolding is_reason
  accepted-All [] h = tt
  accepted-All (x ∷ xs) h = (ground arith, accepted-All xs h.1)

  -- With room for it, truncation sorts the first codes and the marker.
  truncate_reasons_lem :
      (kept : ℕ)
      → Distinct sorted
      → truncate_reasons subject locator (suc kept) sorted
        ≡ sort
            (cmp_reason subject locator)
            (take kept sorted ++ format_truncation_reason kept (length sorted - kept) ∷ [])
  unfolding truncate_reasons normalize_reason_array
  truncate_reasons_lem k d =
      let m = format_truncation_reason k (length sorted - k) in
      let trimmed = take k sorted ++ m ∷ [] in
      let meta : is_reason true m ≡ true =
        unfold is_reason in ground (arith, marker_is_non_empty k (length sorted - k)) in
      let fits =
        All-append (λ a. is_reason true a ≡ true) (take k sorted) (m ∷ [])
          (accepted-All (take k sorted) (All-take (λ a. is_reason false a ≡ true) k sorted plain))
          (meta, tt) in
      let unique =
        Distinct-snoc (take k sorted) m (Distinct-take k sorted d)
          (includes-take k sorted m (marker_is_new k (length sorted - k))) in
      ap (sort (cmp_reason subject locator))
        (collect-All (is_reason true) [] trimmed unique fits (All-unseen trimmed))

  length-truncate_reasons :
      (limit : ℕ)
      → Distinct sorted
      → limit < length sorted
      → length (truncate_reasons subject locator limit sorted) ≡ limit
  length-truncate_reasons zero d h = unfold truncate_reasons in refl
  length-truncate_reasons (suc k) d h =
      let m = format_truncation_reason k (length sorted - k) in
      rw (truncate_reasons_lem k d) (
        omega (
          arith,
          length-sort (cmp_reason subject locator) (take k sorted ++ m ∷ []),
          length-append (take k sorted) (m ∷ []),
          length-take k sorted,
        ))

  includes-truncate_reasons :
      (k : ℕ) (a : String)
      → Distinct sorted
      → includes (truncate_reasons subject locator (suc k) sorted) a
        ≡ (includes (take k sorted) a || str_eq (format_truncation_reason k (length sorted - k)) a)
  unfolding includes
  includes-truncate_reasons k a d =
      let m = format_truncation_reason k (length sorted - k) in
      rw (truncate_reasons_lem k d) (
        ground (
          arith,
          includes-sort (cmp_reason subject locator) (take k sorted ++ m ∷ []) a,
          includes-append (take k sorted) (m ∷ []) a,
        ))

  -- The truncated codes hold the marker.
  marker_in_truncate_reasons :
      (limit : ℕ)
      → Distinct sorted
      → limit ≢ 0
      → includes
          (truncate_reasons subject locator limit sorted)
          (format_truncation_reason (limit - 1) (length sorted - (limit - 1)))
        ≡ true
  marker_in_truncate_reasons zero d h = absurd (h refl)
  marker_in_truncate_reasons (suc k) d h =
      let e : suc k - 1 ≡ k = omega arith in
      let m = format_truncation_reason k (length sorted - k) in
      rw e (ground (arith, includes-truncate_reasons k m d, eq_refl m))

-- The sorted codes of `normalizeReasonCodesV0`, before the bound.
unfoldable pub sorted_codes : List Unknown → ReasonOptions → List String
sorted_codes xs opts =
    normalize_reason_array false (or_default "" opts.subject) (or_default "" opts.locator) xs

module _ (xs : List Unknown) (opts : ReasonOptions) where
  sorted_codes-Distinct : Distinct (sorted_codes xs opts)
  unfolding sorted_codes
  sorted_codes-Distinct =
      Ascends-Distinct (cmp_reason-IsOrder _ _) (sorted_codes xs opts)
        (normalize_reason_array-Ascends false _ _ xs)

  sorted_codes_plain : All (λ a. is_reason false a ≡ true) (sorted_codes xs opts)
  unfolding sorted_codes
  sorted_codes_plain =
      All-of_includes (λ a. is_reason false a ≡ true) (sorted_codes xs opts)
        λ a m. ground (
          arith,
          includes-normalize_reason_array false (or_default "" opts.subject)
              (or_default "" opts.locator) xs a,
        )

  pub length-codes :
      length (normalize_reason_codes xs opts).0
      ≡ min (length (sorted_codes xs opts)) (reason_limit opts (length (sorted_codes xs opts)))
  unfolding normalize_reason_codes bound_reasons sorted_codes
  length-codes = ground (
    arith,
    length-truncate_reasons (or_default "" opts.subject) (or_default "" opts.locator)
        (sorted_codes xs opts) sorted_codes_plain
        (reason_limit opts (length (sorted_codes xs opts))) sorted_codes-Distinct,
  )

  -- At most `maxPerSubject` codes are answered, 32 without it.
  pub length-normalize_reason_codes :
      length (normalize_reason_codes xs opts).0
      ≤ or_default max_reasons_per_block opts.max_per_subject
  unfolding reason_limit
  length-normalize_reason_codes = ground (arith, length-codes)

  -- A budget that is not passed pays for each code answered, and is not passed after that.
  pub normalize_reason_codes_budget :
      (b : ReasonBudget)
      → opts.budget ≡ some b
      → b.used ≤ b.max_total
      → let (codes, after) = normalize_reason_codes xs opts in
        (b' : ReasonBudget) × (after ≡ some b')
        × (b'.max_total ≡ b.max_total)
        × (b'.used ≡ b.used + length codes)
        × (b'.used ≤ b'.max_total)
  unfolding normalize_reason_codes bound_reasons reason_limit
  normalize_reason_codes_budget b h fits = (
    record b { used = b.used + length (normalize_reason_codes xs opts).0 },
    ground (arith, length-codes),
    refl,
    refl,
    ground (arith, length-codes),
  )

  -- No silent loss: with a limit that is not 0, an accepted code of the input is among the answers,
  -- or the answers hold the marker with the numbers of codes kept and dropped.
  pub normalize_reason_codes_complete :
      (a : String)
      → let found = length (sorted_codes xs opts) in
        let limit = reason_limit opts found in
        limit ≢ 0
        → is_reason false a ≡ true
        → includes (texts xs) a ≡ true
        → (includes (normalize_reason_codes xs opts).0 a ≡ true)
          ⊎ (includes
                (normalize_reason_codes xs opts).0
                (format_truncation_reason (limit - 1) (found - (limit - 1)))
              ≡ true)
  unfolding normalize_reason_codes bound_reasons sorted_codes
  normalize_reason_codes_complete a room accepted given =
      let subject = or_default "" opts.subject in
      let locator = or_default "" opts.locator in
      let sorted = sorted_codes xs opts in
      let limit = reason_limit opts (length sorted) in
      elim (Bool-cases (leb (length sorted) limit)) [
        | inl e ↦
            inl (rw e (ground (arith, includes-normalize_reason_array false subject locator xs a)))
        | inr e ↦ inr (
            rw e (
              marker_in_truncate_reasons subject locator sorted sorted_codes_plain limit
                sorted_codes-Distinct room))
      ]
