-- ===== src/Compare/Counts.antt =====
-- The counts of the changes that `compareSummariesV0` answers.
use weft_end.Prelude.{
  ℕ, String, ◌≡◌, refl, false, true, Option, none, some, List, [], ◌∷◌, length, map, All, str_eq,
  if◌then◌else◌,
}
use weft_end.Text.{cmp_str}
use weft_end.Text.Table.{Table}
use weft_end.Sort.{sort, insert, All-sort}
use weft_end.Compare.{CompareSummary, CompareChange}
use weft_end.Compare.Blocks.{
  Block, change, both_counts, all_counts, all_blocks, verdict_block, exit_block, reasons_block,
  digest_block, policy_block, external_block, kind_block, content_block, script_block, native_block,
  url_block, signature_block, archive_block, bounds_block, caps_block, host_block,
}
use weft_end.Compare.Summaries.{pushed, by_bucket, with_sorted_counts, compare_summaries}

-- Counts from four numbers, where all are known.
abbrev all_known :
    (ℕ → ℕ → ℕ → ℕ → Table ℕ) → Option ℕ → Option ℕ → Option ℕ → Option ℕ → Option (Table ℕ)
all_known f (some a) (some b) (some c) (some d) = some (f a b c d)
all_known f _ _ _ _ = none

abbrev external_counts : ℕ → ℕ → ℕ → ℕ → Table ℕ
external_counts a b c d =
    ("leftDomains", c)
    ∷ ("leftExternalRefs", a)
    ∷ ("rightDomains", d)
    ∷ ("rightExternalRefs", b)
    ∷ []

abbrev archive_counts : ℕ → ℕ → ℕ → ℕ → Table ℕ
archive_counts a b c d =
    ("leftDepth", a) ∷ ("leftNested", c) ∷ ("rightDepth", b) ∷ ("rightNested", d) ∷ []

abbrev caps_counts : ℕ → ℕ → ℕ → ℕ → Table ℕ
caps_counts a b c d =
    ("leftDenied", c) ∷ ("leftRequested", a) ∷ ("rightDenied", d) ∷ ("rightRequested", b) ∷ []

-- The counts that a change should have: the numbers of the two sides, each under its side, in the
-- order of the names. A change of the files keeps its own.
abbrev sided_counts : CompareSummary → CompareSummary → CompareChange → Option (Table ℕ)
sided_counts l r c =
    if str_eq c.bucket "REASONS_CHANGED"
    then some (("left", length l.reason_codes) ∷ ("right", length r.reason_codes) ∷ [])
    else if str_eq c.bucket "EXITCODE_CHANGED"
    then both_counts "left" l.exit_code "right" r.exit_code
    else if str_eq c.bucket "URL_INDICATORS_CHANGED"
    then both_counts "leftUrlLike" l.url_like_count "rightUrlLike" r.url_like_count
    else if str_eq c.bucket "EXTERNALREFS_CHANGED"
    then all_known external_counts l.external_ref_count r.external_ref_count l.unique_domain_count
        r.unique_domain_count
    else if str_eq c.bucket "ARCHIVE_DEPTH_CHANGED"
    then all_known archive_counts l.archive_depth_max r.archive_depth_max l.nested_archive_count
        r.nested_archive_count
    else if str_eq c.bucket "CAPS_CHANGED"
    then all_known caps_counts l.caps_requested r.caps_requested l.caps_denied r.caps_denied
    else if str_eq c.bucket "CONTENT_CHANGED"
    then c.counts
    else none

abbrev pub Sided : CompareSummary → CompareSummary → CompareChange → Type 0
Sided l r c = c.counts ≡ sided_counts l r c

unfoldable sorted_counts : Option (Table ℕ) → Option (Table ℕ)
sorted_counts counts = elim counts [ none ↦ none | some t ↦ some (sort (λ a b. cmp_str a.0 b.0) t) ]

sorted_sides :
    (x y : Option ℕ)
    → sorted_counts (both_counts "left" x "right" y) ≡ both_counts "left" x "right" y
unfolding sorted_counts both_counts sort insert cmp_str
sorted_sides none y = refl
sorted_sides (some a) none = refl
sorted_sides (some a) (some b) = refl

sorted_url_sides :
    (x y : Option ℕ)
    → sorted_counts (both_counts "leftUrlLike" x "rightUrlLike" y)
      ≡ both_counts "leftUrlLike" x "rightUrlLike" y
unfolding sorted_counts both_counts sort insert cmp_str
sorted_url_sides none y = refl
sorted_url_sides (some a) none = refl
sorted_url_sides (some a) (some b) = refl

module _ (l r l' r' : String) (f : ℕ → ℕ → ℕ → ℕ → Table ℕ)
    (sorts : (a b c d : ℕ)
      → sorted_counts (some ((l, a) ∷ (r, b) ∷ (l', c) ∷ (r', d) ∷ [])) ≡ some (f a b c d)) where
  sorted_all_known :
      (x y z w : Option ℕ)
      → sorted_counts (all_counts (both_counts l x r y) (both_counts l' z r' w))
        ≡ all_known f x y z w
  unfolding sorted_counts all_counts both_counts
  sorted_all_known none y z w = refl
  sorted_all_known (some a) none z w = refl
  sorted_all_known (some a) (some b) none w = refl
  sorted_all_known (some a) (some b) (some c) none = refl
  sorted_all_known (some a) (some b) (some c) (some d) = sorts a b c d

module _ (l r : CompareSummary) where
  SidedBlock : Block → Type 0
  SidedBlock b = Sided l r (with_sorted_counts b.1)

  exit_block-Sided : SidedBlock (exit_block l r)
  unfolding SidedBlock with_sorted_counts sorted_counts exit_block change
  exit_block-Sided = sorted_sides l.exit_code r.exit_code

  url_block-Sided : SidedBlock (url_block l r)
  unfolding SidedBlock with_sorted_counts sorted_counts url_block change
  url_block-Sided = sorted_url_sides l.url_like_count r.url_like_count

  external_block-Sided : SidedBlock (external_block l r)
  unfolding SidedBlock with_sorted_counts sorted_counts external_block change sort insert cmp_str
  external_block-Sided =
      sorted_all_known "leftExternalRefs" "rightExternalRefs" "leftDomains" "rightDomains"
        external_counts (λ a b c d. refl) l.external_ref_count r.external_ref_count
        l.unique_domain_count r.unique_domain_count

  archive_block-Sided : SidedBlock (archive_block l r)
  unfolding SidedBlock with_sorted_counts sorted_counts archive_block change sort insert cmp_str
  archive_block-Sided =
      sorted_all_known "leftDepth" "rightDepth" "leftNested" "rightNested" archive_counts
        (λ a b c d. refl) l.archive_depth_max r.archive_depth_max l.nested_archive_count
        r.nested_archive_count

  caps_block-Sided : SidedBlock (caps_block l r)
  unfolding SidedBlock with_sorted_counts sorted_counts caps_block change sort insert cmp_str
  caps_block-Sided =
      sorted_all_known "leftRequested" "rightRequested" "leftDenied" "rightDenied" caps_counts
        (λ a b c d. refl) l.caps_requested r.caps_requested l.caps_denied r.caps_denied

  all_blocks-Sided : All SidedBlock (all_blocks l r)
  unfolding SidedBlock all_blocks with_sorted_counts change sort insert cmp_str verdict_block
      reasons_block digest_block policy_block kind_block content_block script_block native_block
      signature_block bounds_block host_block
  all_blocks-Sided = (
    refl,
    (
      exit_block-Sided,
      (
        refl,
        (
          refl,
          (
            refl,
            (
              external_block-Sided,
              (
                refl,
                (
                  refl,
                  (
                    refl,
                    (
                      refl,
                      (
                        url_block-Sided,
                        (refl, (archive_block-Sided, (refl, (caps_block-Sided, (refl, tt))))),
                      ),
                    ),
                  ),
                ),
              ),
            ),
          ),
        ),
      ),
    ),
  )

  pushed-Sided :
      (bs : List Block)
      → All SidedBlock bs
      → All (λ c. Sided l r (with_sorted_counts c)) (pushed bs)
  unfolding pushed SidedBlock
  pushed-Sided [] h = tt
  pushed-Sided ((true, c) ∷ bs) h = (h.0, pushed-Sided bs h.1)
  pushed-Sided ((false, c) ∷ bs) h = pushed-Sided bs h.1

  map-Sided :
      (cs : List CompareChange)
      → All (λ c. Sided l r (with_sorted_counts c)) cs
      → All (λ c. Sided l r c) (map with_sorted_counts cs)
  map-Sided [] h = tt
  map-Sided (c ∷ cs) h = (h.0, map-Sided cs h.1)

  pub changes-Sided : All (λ c. Sided l r c) (compare_summaries l r).changes
  unfolding compare_summaries
  changes-Sided =
      let cs = pushed (all_blocks l r) in
      map-Sided (sort by_bucket cs) (
        All-sort by_bucket (λ c. Sided l r (with_sorted_counts c)) cs
          (pushed-Sided (all_blocks l r) all_blocks-Sided))
