-- ===== src/Library/Keys.antt =====
-- The key of a run says that it is the same as the baseline exactly where their summaries agree.
use weft_end.Prelude.{◌≡◌, ◌↔◌, true, some, eq_iff, arith}
use weft_end.Reasons.{or_default}
use weft_end.Compare.{CompareSummary}
use weft_end.Compare.Agree.{Agree}
use weft_end.Compare.Same.{compare_summaries_same_iff}
use weft_end.Library.State.{view_key}

-- The key of a run says that it is the same as the baseline exactly where all that is compared of
-- their two summaries agrees.
pub view_key_same_iff :
    (baseline summary : CompareSummary)
    → ((view_key (some baseline) (some summary)).same_as_baseline ≡ true) ↔ Agree baseline summary
unfolding view_key
view_key_same_iff baseline summary =
    let same = (compare_summaries_same_iff baseline summary).0 in
    (
      (λ h. same.0 (ground (arith, h))),
      λ a. ground (
        arith,
        same.1 a,
        a.digest,
        eq_iff (or_default "UNKNOWN" baseline.artifact_digest)
            (or_default "UNKNOWN" summary.artifact_digest),
      ),
    )
