-- ===== src/Compare/Summaries.antt =====
-- src/cli/compare.ts: `compareSummariesV0`.
use weft_end.Prelude.{String, Bool, none, some, List, [], ◌∷◌, map, Ordering, if◌then◌else◌}
use weft_end.Text.{cmp_str}
use weft_end.Sort.{sort}
use weft_end.Reasons.{is_empty}
use weft_end.Compare.{CompareSummary, CompareChange, dedupe_sort}
use weft_end.Compare.Blocks.{Block, all_blocks}

-- The changes that are pushed.
unfoldable pub pushed : List Block → List CompareChange
pushed [] = []
pushed ((test, c) ∷ rest) = if test then c ∷ pushed rest else pushed rest

unfoldable pub by_bucket : CompareChange → CompareChange → Ordering
by_bucket a b = cmp_str a.bucket b.bucket

-- A change with the keys of its counts in order.
unfoldable pub with_sorted_counts : CompareChange → CompareChange
with_sorted_counts c = record c {
  counts = elim c.counts [ none ↦ none | some t ↦ some (sort (λ a b. cmp_str a.0 b.0) t) ];
}

pub record CompareOutcome : Type 0 where
  pub is_same : Bool
  pub change_buckets : List String
  pub changes : List CompareChange

-- `compareSummariesV0`.
unfoldable pub compare_summaries : CompareSummary → CompareSummary → CompareOutcome
compare_summaries left right =
    let changes = pushed (all_blocks left right) in
    let buckets = dedupe_sort (map (λ c. c.bucket) changes) in
    record {
      is_same = is_empty buckets;
      change_buckets = buckets;
      changes = map with_sorted_counts (sort by_bucket changes);
    }
