-- ===== src/Compare/Swap.antt =====
-- The comparison in the other order: the same buckets, and in each change what was added and what
-- was removed in each other's place.
use weft_end.Prelude.{
  String, ◌≡◌, refl, sym, ◌∙◌, ap, Bool, true, false, Ordering, Ordering-cases, inl, inr, List, [],
  ◌∷◌, map, All,
}
use weft_end.Text.{cmp_str}
use weft_end.Sort.{sort, insert}
use weft_end.Reasons.{is_empty}
use weft_end.Compare.{CompareSummary, CompareChange, dedupe_sort, set_diff}
use weft_end.Compare.Fields.{
  Tests, number_differs-Tests, flag_differs-Tests, text_differs-Tests, is_diff-Tests,
}
use weft_end.Compare.Blocks.{
  Block, change, all_blocks, verdict_block, exit_block, reasons_block, digest_block, policy_block,
  external_block, kind_block, content_block, script_block, native_block, url_block, signature_block,
  archive_block, bounds_block, caps_block, host_block,
}
use weft_end.Compare.Agree.{
  same_result, same_refs, same_kind, same_content, same_signature, same_archive, same_caps,
  same_host,
}
use weft_end.Compare.Counts.{Sided, changes-Sided}
use weft_end.Compare.Summaries.{pushed, by_bucket, with_sorted_counts, compare_summaries}

abbrev pub View : Type 0
View = String × List String × List String

-- A change without its counts, which name the sides.
abbrev pub view : CompareChange → View
view c = (c.bucket, c.added, c.removed)

-- The same with what was added and what was removed in each other's place.
abbrev pub mirror : CompareChange → View
mirror c = (c.bucket, c.removed, c.added)

-- Two tests of conditions that follow from each other.
agree_on {ℓ κ} :
    {P : Type ℓ} → {Q : Type κ} → (a b : Bool) → Tests a P → Tests b Q → (P → Q) → (Q → P) → a ≡ b
agree_on true true s t f g = refl
agree_on false false s t f g = refl
agree_on true false s t f g = s.1 (g (t.0 refl))
agree_on false true s t f g = sym (t.1 (f (s.0 refl)))

Mirrored : List Block → List Block → Type 0
Mirrored [] [] = Unit
Mirrored (b ∷ bs) (d ∷ ds) = ((b.0 ≡ d.0) × (view b.1 ≡ mirror d.1)) × Mirrored bs ds
Mirrored _ _ = ⊥

all_blocks-Mirrored : (l r : CompareSummary) → Mirrored (all_blocks r l) (all_blocks l r)
unfolding Mirrored all_blocks change verdict_block exit_block reasons_block digest_block
    policy_block external_block kind_block content_block script_block native_block url_block
    signature_block archive_block bounds_block caps_block host_block set_diff
all_blocks-Mirrored l r = (
  (agree_on _ _ (same_result r l) (same_result l r) (λ h. sym h) (λ h. sym h), refl),
  (
    (
      agree_on _ _ (number_differs-Tests _ _) (number_differs-Tests _ _) (λ h. sym h) (λ h. sym h),
      refl,
    ),
    (
      (
        agree_on _ _ (is_diff-Tests _ _) (is_diff-Tests _ _) (λ h a. sym (h a)) (λ h a. sym (h a)),
        refl,
      ),
      (
        (
          agree_on _ _ (text_differs-Tests _ _ _) (text_differs-Tests _ _ _) (λ h. sym h)
              (λ h. sym h),
          refl,
        ),
        (
          (
            agree_on _ _ (text_differs-Tests _ _ _) (text_differs-Tests _ _ _) (λ h. sym h)
                (λ h. sym h),
            refl,
          ),
          (
            (
              agree_on _ _ (same_refs r l) (same_refs l r) (λ h. (sym h.0, sym h.1))
                  (λ h. (sym h.0, sym h.1)),
              refl,
            ),
            (
              (
                agree_on _ _ (same_kind r l) (same_kind l r) (λ h. (sym h.0, sym h.1))
                    (λ h. (sym h.0, sym h.1)),
                refl,
              ),
              (
                (
                  agree_on _ _ (same_content r l) (same_content l r)
                      (λ h. (sym h.0, (sym h.1.0, λ a. sym (h.1.1 a))))
                      (λ h. (sym h.0, (sym h.1.0, λ a. sym (h.1.1 a)))),
                  refl,
                ),
                (
                  (
                    agree_on _ _ (flag_differs-Tests _ _) (flag_differs-Tests _ _) (λ h. sym h)
                        (λ h. sym h),
                    refl,
                  ),
                  (
                    (
                      agree_on _ _ (flag_differs-Tests _ _) (flag_differs-Tests _ _) (λ h. sym h)
                          (λ h. sym h),
                      refl,
                    ),
                    (
                      (
                        agree_on _ _ (number_differs-Tests _ _) (number_differs-Tests _ _)
                            (λ h. sym h) (λ h. sym h),
                        refl,
                      ),
                      (
                        (
                          agree_on _ _ (same_signature r l) (same_signature l r)
                              (λ h. (sym h.0, sym h.1)) (λ h. (sym h.0, sym h.1)),
                          refl,
                        ),
                        (
                          (
                            agree_on _ _ (same_archive r l) (same_archive l r)
                                (λ h. (sym h.0, sym h.1)) (λ h. (sym h.0, sym h.1)),
                            refl,
                          ),
                          (
                            (
                              agree_on _ _ (is_diff-Tests _ _) (is_diff-Tests _ _)
                                  (λ h a. sym (h a)) (λ h a. sym (h a)),
                              refl,
                            ),
                            (
                              (
                                agree_on _ _ (same_caps r l) (same_caps l r)
                                    (λ h. (sym h.0, (sym h.1.0, λ a. sym (h.1.1 a))))
                                    (λ h. (sym h.0, (sym h.1.0, λ a. sym (h.1.1 a)))),
                                refl,
                              ),
                              (
                                (
                                  agree_on _ _ (same_host r l) (same_host l r)
                                      (λ h. (sym h.0, (sym h.1.0, sym h.1.1)))
                                      (λ h. (sym h.0, (sym h.1.0, sym h.1.1))),
                                  refl,
                                ),
                                tt,
                              ),
                            ),
                          ),
                        ),
                      ),
                    ),
                  ),
                ),
              ),
            ),
          ),
        ),
      ),
    ),
  ),
)

pushed-Mirrored :
    (bs ds : List Block) → Mirrored bs ds → map view (pushed bs) ≡ map mirror (pushed ds)
unfolding Mirrored pushed
pushed-Mirrored [] [] h = refl
pushed-Mirrored [] (d ∷ ds) h = absurd h
pushed-Mirrored (b ∷ bs) [] h = absurd h
pushed-Mirrored ((true, c) ∷ bs) ((true, e) ∷ ds) h =
    ap (λ v. v ∷ map view (pushed bs)) h.0.1 ∙ ap (λ vs. mirror e ∷ vs) (pushed-Mirrored bs ds h.1)
pushed-Mirrored ((false, c) ∷ bs) ((false, e) ∷ ds) h = pushed-Mirrored bs ds h.1
pushed-Mirrored ((true, c) ∷ bs) ((false, e) ∷ ds) h = cc
pushed-Mirrored ((false, c) ∷ bs) ((true, e) ∷ ds) h = cc

module _ {ℓ κ} {A : Type ℓ} {B : Type κ} (f : A → B) (cmp : A → A → Ordering)
    (on : B → B → Ordering) (same : (a b : A) → on (f a) (f b) ≡ cmp a b) where
  map-insert : (x : A) (xs : List A) → map f (insert cmp x xs) ≡ insert on (f x) (map f xs)
  unfolding insert
  map-insert x [] = refl
  map-insert x (y ∷ ys) = elim (Ordering-cases (cmp x y)) [
    | inl e ↦ rw (e, insert) (rw (same x y ∙ e, insert) refl)
    | inr (inl e) ↦ rw (e, insert) (rw (same x y ∙ e, insert) refl)
    | inr (inr e) ↦
        rw (e, insert) (rw (same x y ∙ e, insert) (ap (λ zs. f y ∷ zs) (map-insert x ys)))
  ]

  map-sort : (xs : List A) → map f (sort cmp xs) ≡ sort on (map f xs)
  unfolding sort
  map-sort [] = refl
  map-sort (x ∷ xs) = map-insert x (sort cmp xs) ∙ ap (λ ys. insert on (f x) ys) (map-sort xs)

module _ {ℓ} {A : Type ℓ} (f : CompareChange → A)
    (kept : (c : CompareChange) → f (with_sorted_counts c) ≡ f c) where
  map-with_sorted_counts : (cs : List CompareChange) → map f (map with_sorted_counts cs) ≡ map f cs
  map-with_sorted_counts [] = refl
  map-with_sorted_counts (c ∷ cs) =
      ap (λ x. x ∷ map f (map with_sorted_counts cs)) (kept c)
      ∙ ap (λ xs. f c ∷ xs) (map-with_sorted_counts cs)

map-first :
    (f : CompareChange → View) (cs : List CompareChange)
    → ((c : CompareChange) → (f c).0 ≡ c.bucket)
    → map (λ v. v.0) (map f cs) ≡ map (λ c. c.bucket) cs
map-first f [] h = refl
map-first f (c ∷ cs) h =
    ap (λ x. x ∷ map (λ v. v.0) (map f cs)) (h c) ∙ ap (λ xs. c.bucket ∷ xs) (map-first f cs h)

-- The comparison of the right summary with the left one has the same verdict and the same buckets,
-- and its changes, their counts aside, are those of the comparison of the left with the right one
-- with what was added and what was removed in each other's place. The counts of each of its changes
-- but that of the files are the numbers of the right summary under the names of the left side
-- and those of the left one under the names of the right side, where all are known.
pub compare_summaries_swap :
    (l r : CompareSummary)
    → ((compare_summaries r l).is_same ≡ (compare_summaries l r).is_same)
      × ((compare_summaries r l).change_buckets ≡ (compare_summaries l r).change_buckets)
      × (map view (compare_summaries r l).changes ≡ map mirror (compare_summaries l r).changes)
      × All (λ c. Sided r l c) (compare_summaries r l).changes
unfolding compare_summaries by_bucket with_sorted_counts
compare_summaries_swap l r =
    let lr = pushed (all_blocks l r) in
    let rl = pushed (all_blocks r l) in
    let mirrored = pushed-Mirrored (all_blocks r l) (all_blocks l r) (all_blocks-Mirrored l r) in
    let buckets : map (λ c. c.bucket) rl ≡ map (λ c. c.bucket) lr =
      sym (map-first view rl (λ c. refl))
      ∙ ap (λ vs. map (λ v. v.0) vs) mirrored
      ∙ map-first mirror lr (λ c. refl) in
    let on : View → View → Ordering = λ a b. cmp_str a.0 b.0 in
    (
      ap (λ bs. is_empty (dedupe_sort bs)) buckets,
      ap dedupe_sort buckets,
      map-with_sorted_counts view (λ c. refl) (sort by_bucket rl)
          ∙ map-sort view by_bucket on (λ a b. refl) rl
          ∙ ap (λ vs. sort on vs) mirrored
          ∙ sym (map-sort mirror by_bucket on (λ a b. refl) lr)
          ∙ sym (map-with_sorted_counts mirror (λ c. refl) (sort by_bucket lr)),
      changes-Sided r l,
    )
