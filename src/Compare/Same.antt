-- ===== src/Compare/Same.antt =====
-- Two summaries are reported as the same exactly where all that is compared agrees.
use weft_end.Prelude.{
  String, ◌≡◌, refl, ap, true, false, List, [], ◌∷◌, map, ◌↔◌, inl, inr, Bool-cases, str_eq, eq_iff,
  eq_refl, arith, All, ◌≤◌, length,
}
use weft_end.Text.{includes, is_non_empty}
use weft_end.Reasons.{string, collect, is_empty, stable_sort_unique_strings}
use weft_end.Sort.{sort, length-sort}
use weft_end.Reasons.Whole.{is_empty_iff}
use weft_end.Reasons.Collect.{texts-map}
use weft_end.Reasons.Normal.{stable_sort_unique_strings_lem}
use weft_end.Compare.{CompareSummary, CompareChange, dedupe_sort, filled}
use weft_end.Compare.Fields.{
  number_differs-Tests, flag_differs-Tests, text_differs-Tests, is_diff-Tests,
}
use weft_end.Compare.Blocks.{
  Block, change, all_blocks, verdict_block, exit_block, reasons_block, digest_block, policy_block,
  external_block, kind_block, content_block, script_block, native_block, url_block, signature_block,
  archive_block, bounds_block, caps_block, host_block,
}
use weft_end.Compare.Summaries.{pushed, by_bucket, with_sorted_counts, compare_summaries}
use weft_end.Compare.Agree.{
  Agree, same_result, same_refs, same_kind, same_content, same_signature, same_archive, same_caps,
  same_host,
}

-- No block pushes a change.
abbrev Quiet : List Block → Type 0
Quiet bs = All (λ b. b.0 ≡ false) bs

pushed-Quiet : (bs : List Block) → Quiet bs → pushed bs ≡ []
unfolding pushed
pushed-Quiet [] h = refl
pushed-Quiet ((t, c) ∷ bs) h = rw h.0 (pushed-Quiet bs h.1)

Quiet-pushed : (bs : List Block) → pushed bs ≡ [] → Quiet bs
unfolding pushed
Quiet-pushed [] h = tt
Quiet-pushed ((false, c) ∷ bs) h = (refl, Quiet-pushed bs h)
Quiet-pushed ((true, c) ∷ bs) h = cc

-- Blocks whose buckets are not blank, so that no bucket is dropped.
Named : List Block → Type 0
Named bs = All (λ b. is_non_empty b.1.bucket ≡ true) bs

pushed-Named : (bs : List Block) → Named bs → All (λ c. is_non_empty c.bucket ≡ true) (pushed bs)
unfolding pushed Named
pushed-Named [] h = tt
pushed-Named ((true, c) ∷ bs) h = (h.0, pushed-Named bs h.1)
pushed-Named ((false, c) ∷ bs) h = pushed-Named bs h.1

blank_text : (x : String) → x ≡ "" → is_non_empty x ≡ true → ⊥
unfolding is_non_empty
blank_text x e h = ground (arith, ap (λ y. is_non_empty y) e, h)

filled_keeps :
    (x : String) (xs : List String) → is_non_empty x ≡ true → includes (filled (x ∷ xs)) x ≡ true
unfolding filled includes is_non_empty
filled_keeps x xs h = elim (Bool-cases (str_eq x "")) [
  | inl e ↦ absurd (blank_text x ((eq_iff x "").0 e) h)
  | inr e ↦ rw e (ground (arith, eq_refl x))
]

nothing : is_empty (dedupe_sort []) ≡ true
unfolding dedupe_sort filled stable_sort_unique_strings collect sort
nothing = refl

no_bucket :
    (cs : List CompareChange)
    → All (λ c. is_non_empty c.bucket ≡ true) cs
    → dedupe_sort (map (λ c. c.bucket) cs) ≡ []
    → cs ≡ []
unfolding dedupe_sort includes
no_bucket [] h e = refl
no_bucket (c ∷ cs) h e =
    let names = filled (map (λ c. c.bucket) (c ∷ cs)) in
    let found = (stable_sort_unique_strings_lem (map string names)).1 c.bucket in
    absurd (
      ground (
        arith,
        found,
        h.0,
        ap (λ ys. includes ys c.bucket) (texts-map names),
        filled_keeps c.bucket (map (λ c. c.bucket) cs) h.0,
        ap (λ ys. includes ys c.bucket) e,
      ))

module _ (l r : CompareSummary) where
  all_blocks-Named : Named (all_blocks l r)
  unfolding Named all_blocks change is_non_empty verdict_block exit_block reasons_block digest_block
      policy_block external_block kind_block content_block script_block native_block url_block
      signature_block archive_block bounds_block caps_block host_block
  all_blocks-Named = (
    refl,
    (
      refl,
      (
        refl,
        (
          refl,
          (
            refl,
            (
              refl,
              (refl, (refl, (refl, (refl, (refl, (refl, (refl, (refl, (refl, (refl, tt)))))))))),
            ),
          ),
        ),
      ),
    ),
  )

  Agree-Quiet : Agree l r → Quiet (all_blocks l r)
  unfolding all_blocks verdict_block exit_block reasons_block digest_block policy_block
      external_block kind_block content_block script_block native_block url_block signature_block
      archive_block bounds_block caps_block host_block
  Agree-Quiet a = (
    (same_result l r).1 a.verdict,
    (
      (number_differs-Tests _ _).1 a.exit,
      (
        (is_diff-Tests _ _).1 a.reasons,
        (
          (text_differs-Tests _ _ _).1 a.digest,
          (
            (text_differs-Tests _ _ _).1 a.policy,
            (
              (same_refs l r).1 (a.refs, a.domains),
              (
                (same_kind l r).1 (a.target, a.artifact),
                (
                  (same_content l r).1 (a.files, (a.bytes, a.kinds)),
                  (
                    (flag_differs-Tests _ _).1 a.scripts,
                    (
                      (flag_differs-Tests _ _).1 a.natives,
                      (
                        (number_differs-Tests _ _).1 a.urls,
                        (
                          (same_signature l r).1 (a.signatures, a.timestamps),
                          (
                            (same_archive l r).1 (a.depth, a.nested),
                            (
                              (is_diff-Tests _ _).1 a.bounds,
                              (
                                (same_caps l r).1 (a.requested, (a.denied, a.codes)),
                                ((same_host l r).1 (a.release, (a.verify, a.execute)), tt),
                              ),
                            ),
                          ),
                        ),
                      ),
                    ),
                  ),
                ),
              ),
            ),
          ),
        ),
      ),
    ),
  )

  Quiet-Agree : Quiet (all_blocks l r) → Agree l r
  unfolding all_blocks verdict_block exit_block reasons_block digest_block policy_block
      external_block kind_block content_block script_block native_block url_block signature_block
      archive_block bounds_block caps_block host_block
  Quiet-Agree q =
      let (
        q1,
        (
          q2,
          (
            q3,
            (q4, (q5, (q6, (q7, (q8, (q9, (q10, (q11, (q12, (q13, (q14, (q15, (q16, _))))))))))))),
          ),
        ),
      ) =
        q in
      let (refs, domains) = (same_refs l r).0 q6 in
      let (target, artifact) = (same_kind l r).0 q7 in
      let (files, (bytes, kinds)) = (same_content l r).0 q8 in
      let (signatures, timestamps) = (same_signature l r).0 q12 in
      let (depth, nested) = (same_archive l r).0 q13 in
      let (requested, (denied, codes)) = (same_caps l r).0 q15 in
      let (release, (verify, execute)) = (same_host l r).0 q16 in
      record {
        verdict = (same_result l r).0 q1;
        exit = (number_differs-Tests _ _).0 q2;
        reasons = (is_diff-Tests _ _).0 q3;
        digest = (text_differs-Tests _ _ _).0 q4;
        policy = (text_differs-Tests _ _ _).0 q5;
        refs = refs;
        domains = domains;
        target = target;
        artifact = artifact;
        files = files;
        bytes = bytes;
        kinds = kinds;
        scripts = (flag_differs-Tests _ _).0 q9;
        natives = (flag_differs-Tests _ _).0 q10;
        urls = (number_differs-Tests _ _).0 q11;
        signatures = signatures;
        timestamps = timestamps;
        depth = depth;
        nested = nested;
        bounds = (is_diff-Tests _ _).0 q14;
        requested = requested;
        denied = denied;
        codes = codes;
        release = release;
        verify = verify;
        execute = execute;
      }

no_changes : (cs : List CompareChange) → map with_sorted_counts (sort by_bucket cs) ≡ [] → cs ≡ []
no_changes [] h = refl
no_changes (c ∷ cs) h =
    let size = length-sort by_bucket (c ∷ cs) in
    absurd (no_items (sort by_bucket (c ∷ cs)) (omega (arith, size)) h)
  where
    no_items : (xs : List CompareChange) → 1 ≤ length xs → map with_sorted_counts xs ≡ [] → ⊥
    no_items [] k e = omega (arith, k)
    no_items (x ∷ xs) k e = cc

-- Two summaries are reported as the same exactly where all that is compared agrees: missing texts by
-- their defaults, lists of codes as sets, and the numbers of files by their kind with 0 for a
-- kind that is missing. Exactly then the answer has no bucket, and exactly then it has no change.
pub compare_summaries_same_iff :
    (l r : CompareSummary)
    → (((compare_summaries l r).is_same ≡ true) ↔ Agree l r)
      × (((compare_summaries l r).change_buckets ≡ []) ↔ Agree l r)
      × (((compare_summaries l r).changes ≡ []) ↔ Agree l r)
unfolding compare_summaries sort
compare_summaries_same_iff l r =
    let cs = pushed (all_blocks l r) in
    let quiet : Agree l r → cs ≡ [] = λ a. pushed-Quiet (all_blocks l r) (Agree-Quiet l r a) in
    let agree : cs ≡ [] → Agree l r = λ e. Quiet-Agree l r (Quiet-pushed (all_blocks l r) e) in
    let buckets = no_bucket cs (pushed-Named (all_blocks l r) (all_blocks-Named l r)) in
    (
      (λ h. agree (buckets (is_empty_iff _ h)), λ a. rw (quiet a) nothing),
      (λ h. agree (buckets h), λ a. rw (quiet a) (is_empty_iff _ nothing)),
      (λ h. agree (no_changes cs h), λ a. rw (quiet a) refl),
    )
