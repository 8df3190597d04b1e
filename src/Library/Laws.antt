-- ===== src/Library/Laws.antt =====
-- What holds of the view of a library target after each update.
use weft_end.Prelude.{
  ◌≤◌, String, ◌≡◌, refl, sym, subst, ◌∙◌, ap, true, Option, some, List, length, ◌⊎◌, inl, inr,
  Option-cases, arith,
}
use weft_end.Text.{includes}
use weft_end.Compare.{CompareSummary}
use weft_end.Library.{max_history, check_dir_path_or_missing, list_run_dirs}
use weft_end.Library.State.{BlockedRun, LibraryViewState, build_view_state}
use weft_end.Library.Blocked.{read_blocked, read_pointer, pointer_text}
use weft_end.Library.History.{length-map, length-history_of, baseline_of_lem, history_of-includes}
use weft_end.Library.Update.{
  LibraryDisk, LibraryFiles, refused, updated, RunReport, baseline_of, block_run, history_of,
  store_view, update_from_run, write_code, view_file, baseline_file, latest_file, prior_history,
}

updated_injective : (a b : LibraryViewState) → updated a ≡ updated b → a ≡ b
updated_injective a b h = ground (arith, h)

pub refused_is_not_updated : (code : String) (a : LibraryViewState) → refused code ≡ updated a → ⊥
refused_is_not_updated code a h = cc

module _ (load_summary : String → Option CompareSummary) (target : String)
    (disk : LibraryDisk) where
  pub store_view_updated :
      (files after : LibraryFiles) (given state : LibraryViewState)
      → store_view load_summary target disk files given ≡ (after, updated state)
      → (given ≡ state) × (after ≡ record files { view_state = some given })
  unfolding store_view
  store_view_updated files after given state h = elim (Option-cases (write_code disk view_file)) [
    | inl e ↦
        let same : (record files { view_state = some given }, updated given)
            ≡ (after, updated state) =
          rw (e, store_view) at h in
        (updated_injective given state (ap (λ x. x.1) same), sym (ap (λ x. x.0) same))
    | inr (code, e) ↦
        absurd (refused_is_not_updated code state (ap (λ x. x.1) (rw (e, store_view) at h)))
  ]

  module _ (o : RunReport) (files : LibraryFiles) where
    runs : List String
    runs = list_run_dirs disk.entries

    baseline : String
    baseline = baseline_of runs o.run_id (read_pointer files.baseline)

    with_latest : LibraryFiles
    with_latest = record files {
      baseline = some (pointer_text baseline);
      latest = some (pointer_text o.run_id);
    }

    -- The view state that an update from a run writes, and the files around it.
    update_from_run_updated :
        (after : LibraryFiles) (state : LibraryViewState)
        → update_from_run load_summary target disk o files ≡ (after, updated state)
        → (build_view_state load_summary target baseline o.run_id
              (block_run disk o with_latest).2
              (history_of (prior_history files) runs o.run_id)
            ≡ state)
          × (after ≡ record ((block_run disk o with_latest).1) { view_state = some state })
    unfolding update_from_run with_latest baseline runs
    update_from_run_updated after state h =
        elim (Option-cases
          (check_dir_path_or_missing disk.view_dir disk.view_dir_parent "LIBRARY_VIEW_DIR_PATH")) [
            | inr (code, e) ↦
                absurd
                  (refused_is_not_updated code state (ap (λ x. x.1) (rw (e, update_from_run) at h)))
            | inl e ↦ elim (Option-cases (write_code disk baseline_file)) [
              | inr (code, e1) ↦ absurd (
                  refused_is_not_updated code state
                    (ap (λ x. x.1) (rw (e, e1, update_from_run) at h)))
              | inl e1 ↦ elim (Option-cases (write_code disk latest_file)) [
                | inr (code, e2) ↦ absurd (
                    refused_is_not_updated code state
                      (ap (λ x. x.1) (rw (e, e1, e2, update_from_run) at h)))
                | inl e2 ↦ elim (Option-cases (block_run disk o with_latest).0) [
                  | inr (code, e3) ↦ absurd (
                      refused_is_not_updated code state
                        (ap (λ x. x.1) (rw (e, e1, e2, e3, update_from_run) at h)))
                  | inl e3 ↦
                      let (made, left) =
                        store_view_updated (block_run disk o with_latest).1 after _ state
                          (rw (e, e1, e2, e3, update_from_run) at h) in
                      (
                        made,
                        left
                            ∙ ap
                                (λ s. record ((block_run disk o with_latest).1) {
                                  view_state = some s;
                                })
                                made,
                      )
                ]
              ]
            ]
          ]

    -- An update from a run that succeeds, on a view whose history has at most 8 runs, leaves the view
    -- in order: the view state is stored, its latest run is the run of the update, its baseline is a
    -- run of the target or this run, and its history has at most 8 runs, among them this run, with a
    -- key for each.
    pub update_from_run_view :
        (after : LibraryFiles) (state : LibraryViewState)
        → length (prior_history files) ≤ max_history
        → update_from_run load_summary target disk o files ≡ (after, updated state)
        → (after.view_state ≡ some state)
          × (state.latest_run_id ≡ o.run_id)
          × ((includes (list_run_dirs disk.entries) state.baseline_run_id ≡ true)
              ⊎ (state.baseline_run_id ≡ o.run_id))
          × (length state.last_n ≤ max_history)
          × (includes state.last_n o.run_id ≡ true)
          × (length state.keys ≡ length state.last_n)
    unfolding baseline runs build_view_state
    update_from_run_view after state short h =
        let (made, left) = update_from_run_updated after state h in
        (
          ap (λ f. f.view_state) left,
          ap (λ s. s.latest_run_id) (sym made),
          subst
              (λ s.
                (includes (list_run_dirs disk.entries) s.baseline_run_id ≡ true)
                ⊎ (s.baseline_run_id ≡ o.run_id))
              made
              (baseline_of_lem (list_run_dirs disk.entries) o.run_id (read_pointer files.baseline)),
          subst (λ s. length s.last_n ≤ max_history) made
              (length-history_of (prior_history files) (list_run_dirs disk.entries) o.run_id),
          subst (λ s. includes s.last_n o.run_id ≡ true) made
              (history_of-includes (prior_history files) (list_run_dirs disk.entries) o.run_id
                short),
          subst (λ s. length s.keys ≡ length s.last_n) made (length-map _ _),
        )

    -- A blocked view stays blocked after an update from a run that succeeds, for the run and the
    -- reasons that it names.
    pub update_from_run_stays_blocked :
        (after : LibraryFiles) (state : LibraryViewState) (b : BlockedRun)
        → read_blocked files.blocked ≡ some b
        → update_from_run load_summary target disk o files ≡ (after, updated state)
        → (after.blocked ≡ files.blocked) × (state.blocked ≡ some b)
    unfolding block_run with_latest build_view_state
    update_from_run_stays_blocked after state b blocked h =
        let (made, left) = update_from_run_updated after state h in
        let still : (block_run disk o with_latest).2 ≡ some b = rw (blocked, block_run) refl in
        (
          ap (λ f. f.blocked) left ∙ rw (blocked, block_run) refl,
          ap (λ s. s.blocked) (sym made) ∙ still,
        )
