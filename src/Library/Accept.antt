-- ===== src/Library/Accept.antt =====
-- Taking the latest run of a target as its baseline.
use weft_end.Prelude.{
  String, ◌≡◌, refl, sym, ◌∙◌, ap, true, false, Option, none, some, List, ◌∷◌, inl, inr,
  Option-cases, arith,
}
use weft_end.Text.{includes, has_space, is_non_empty}
use weft_end.Reasons.{or_default}
use weft_end.Compare.{CompareSummary}
use weft_end.Library.{check_dir_path_or_missing, list_run_dirs, ensure_baseline}
use weft_end.Library.State.{LibraryViewState, build_view_state}
use weft_end.Library.Blocked.{read_pointer, read_blocked, pointer_text}
use weft_end.Library.Pointers.{read_pointer-pointer_text}
use weft_end.Library.Update.{
  LibraryDisk, LibraryFiles, baseline_file, latest_file, updated, TargetRequest, last_of,
  write_code, accept_latest, block_latest, prior_history, history_or_runs, store_target,
  update_for_target,
}
use weft_end.Library.Laws.{store_view_updated, refused_is_not_updated}

accept_latest_done :
    (disk : LibraryDisk) (o : TargetRequest) (latest : String) (files : LibraryFiles)
    → o.set_baseline_to_latest ≡ true
    → (accept_latest disk o latest files).0 ≡ none
    → (accept_latest disk o latest files).1
      ≡ record files { baseline = some (pointer_text latest); blocked = none }
unfolding accept_latest
accept_latest_done disk o latest files set h = ground (arith, set, h)

block_latest_skips :
    (disk : LibraryDisk) (o : TargetRequest) (latest : String) (files : LibraryFiles)
    → o.set_blocked_from_latest ≡ false
    → block_latest disk o latest files ≡ (none, files)
unfolding block_latest
block_latest_skips disk o latest files h = rw h refl

module _ (load_summary : String → Option CompareSummary) (target : String) (disk : LibraryDisk)
    (runs : List String) (latest : String) where
  -- The view state that the writes for a target end with.
  store_target_updated :
      (files after : LibraryFiles) (state : LibraryViewState)
      → store_target load_summary target disk runs latest files ≡ (after, updated state)
      → (build_view_state load_summary target
            (ensure_baseline runs latest (read_pointer files.baseline))
            latest
            (read_blocked files.blocked)
            (history_or_runs (prior_history files) runs)
          ≡ state)
        × (after.blocked ≡ files.blocked)
  unfolding store_target
  store_target_updated files after state h = elim (Option-cases (write_code disk baseline_file)) [
    | inr (code, e1) ↦
        absurd (refused_is_not_updated code state (ap (λ x. x.1) (rw (e1, store_target) at h)))
    | inl e1 ↦ elim (Option-cases (write_code disk latest_file)) [
      | inr (code, e2) ↦
          absurd
            (refused_is_not_updated code state (ap (λ x. x.1) (rw (e1, e2, store_target) at h)))
      | inl e2 ↦
          let (made, left) =
            store_view_updated load_summary target disk _ after _ state
              (rw (e1, e2, store_target) at h) in
          (made, ap (λ f. f.blocked) left)
    ]
  ]

module _ (load_summary : String → Option CompareSummary) (target : String) (disk : LibraryDisk)
    (o : TargetRequest) (files after : LibraryFiles) (state : LibraryViewState) (r : String)
    (rs : List String) where
  abbrev pub latest_of : String
  latest_of = or_default (last_of r rs) (read_pointer files.latest)

  accepted_files : LibraryFiles
  accepted_files = record files { baseline = some (pointer_text latest_of); blocked = none }

  accepted_store :
      list_run_dirs disk.entries ≡ r ∷ rs
      → o.set_baseline_to_latest ≡ true
      → o.set_blocked_from_latest ≡ false
      → update_for_target load_summary target disk o files ≡ (after, updated state)
      → store_target load_summary target disk (r ∷ rs) latest_of accepted_files
        ≡ (after, updated state)
  unfolding update_for_target accepted_files
  accepted_store listed set kept h =
      elim (Option-cases
        (check_dir_path_or_missing disk.view_dir disk.view_dir_parent "LIBRARY_VIEW_DIR_PATH")) [
          | inr (code, e) ↦
              absurd
                (refused_is_not_updated code state (ap (λ x. x.1) (rw (e, update_for_target) at h)))
          | inl e ↦ elim (Option-cases (accept_latest disk o latest_of files).0) [
            | inr (code, e1) ↦ absurd (
                refused_is_not_updated code state
                  (ap (λ x. x.1) (rw (e, listed, e1, update_for_target) at h)))
            | inl e1 ↦
                let taken = accept_latest_done disk o latest_of files set e1 in
                let skips =
                  block_latest_skips disk o latest_of (accept_latest disk o latest_of files).1
                    kept in
                let unblocked : (block_latest disk o latest_of
                      (accept_latest disk o latest_of files).1).0
                    ≡ none =
                  ap (λ x. x.0) skips in
                let reached : (block_latest disk o latest_of
                      (accept_latest disk o latest_of files).1).1
                    ≡ accepted_files =
                  ap (λ x. x.1) skips ∙ taken in
                sym (ap (λ f. store_target load_summary target disk (r ∷ rs) latest_of f) reached)
                ∙ rw (e, listed, e1, unblocked, update_for_target) at h
          ]
        ]

  -- An update of a target that takes the latest run as the baseline and does not block it: where
  -- the latest run is one of the runs and its name has no white space, it is the baseline after
  -- the update, and the view is no longer blocked.
  pub update_for_target_accepts :
      list_run_dirs disk.entries ≡ r ∷ rs
      → o.set_baseline_to_latest ≡ true
      → o.set_blocked_from_latest ≡ false
      → has_space latest_of ≡ false
      → is_non_empty latest_of ≡ true
      → includes (r ∷ rs) latest_of ≡ true
      → update_for_target load_summary target disk o files ≡ (after, updated state)
      → (state.baseline_run_id ≡ latest_of)
        × (state.latest_run_id ≡ latest_of)
        × (state.blocked ≡ none)
        × (after.blocked ≡ none)
  unfolding accepted_files ensure_baseline build_view_state read_blocked
  update_for_target_accepts listed set kept plain filled run h =
      let (made, left) =
        store_target_updated load_summary target disk (r ∷ rs) latest_of accepted_files after state
          (accepted_store listed set kept h) in
      let pointer = read_pointer-pointer_text latest_of plain filled in
      let chosen : ensure_baseline (r ∷ rs) latest_of (read_pointer (some (pointer_text latest_of)))
          ≡ latest_of =
        rw pointer (rw run refl) in
      (
        ap (λ s. s.baseline_run_id) (sym made) ∙ chosen,
        ap (λ s. s.latest_run_id) (sym made),
        ap (λ s. s.blocked) (sym made),
        left,
      )
